-- ===== src/Calls/Gated.antt =====
-- What a call does to openQA.
use ruoqa_mcp.Common.{
  ℕ, String, ◌≡◌, refl, sym, ap, ◌∙◌, ◌⊎◌, inl, inr, Bool, true, false, Option, Result, ok, err,
}
use mathlib.Core.Path.{ap₂}
use ruoqa_mcp.Common.Text.{Text}
use ruoqa_mcp.Common.Json.{Fields}
use ruoqa_mcp.Server.{Denied, denied, authorize, record_scope, gate, CallResult, failed, outcome_of}
use ruoqa_mcp.Audit.Record.{Record}
use ruoqa_mcp.Audit.Auditor.{Auditor}
use ruoqa_mcp.Otel.Proto.{Bytes}
use ruoqa_mcp.Otel.Traces.{Decoded, panicked, rejected, decoded}
use ruoqa_mcp.Calls.{
  Streams, Request, Span, Server, audit_refusal, started, in_time, dispatch, answer, conclude,
  call_tool, tail,
}

pub decoded-injective : {A : Type 0} {a b : A} → decoded a ≡ decoded b → a ≡ b
decoded-injective e = cc

module _ (as_f64 : ℕ → ℕ) (add_f64 : ℕ → ℕ → ℕ) (to_json : Record → Bytes) (text_of : Text → String)
    {World : Type 0} (run_tool : String → Option Fields → World → Option CallResult × World) where
  -- What a concluded call consists of.
  pub conclude_lem :
      (s : Server) (r : Request) (streams : Streams) (w : World) (refused : Bool)
      (audit : Option Auditor) (d : Decoded Span) {result : CallResult} {streams' : Streams}
      {w' : World}
      → conclude as_f64 add_f64 to_json text_of run_tool s r streams w refused audit d
        ≡ decoded (result, streams', w')
      → (answer run_tool refused s r w ≡ (result, w'))
        × ((span : Span) × (streams'
              ≡ tail as_f64 add_f64 to_json text_of run_tool s r span
                  (outcome_of result)
                  audit
                  streams))
  conclude_lem s r streams w refused audit panicked e = absurd (cc)
  conclude_lem s r streams w refused audit rejected e = absurd (cc)
  conclude_lem s r streams w refused audit (decoded span) e =
      let same = decoded-injective e in
      let result = ap (λ t. t.0) same in
      (
        ap₂ (λ a b. (a, b)) result (ap (λ t. t.2) same),
        (
          span,
          sym (ap (λ t. t.1) same)
              ∙ ap
                  (λ v.
                    tail as_f64 add_f64 to_json text_of run_tool s r span (outcome_of v) audit
                      streams)
                  result,
        ),
      )

  answered :
      (s : Server) (r : Request) (w : World) (refused : Bool) {result : CallResult} {w' : World}
      → answer run_tool refused s r w ≡ (result, w')
      → let allowed = authorize s.enforce_scopes s.tools r.name r.scope in
        ((refused ≡ true) × (result ≡ audit_refusal) × (w' ≡ w))
        ⊎ (((refused ≡ false) × (allowed ≡ err denied) × (result ≡ failed "-32600") × (w' ≡ w))
            ⊎ ((refused ≡ false)
                × (allowed ≡ ok tt)
                × ((result, w') ≡ in_time s.deadline_message (run_tool r.name r.arguments w))))
  unfolding dispatch
  answered s r w true e = inl (refl, sym (ap (λ p. p.0) e), sym (ap (λ p. p.1) e))
  answered s r w false e = by_scope (authorize s.enforce_scopes s.tools r.name r.scope) e
    where
      by_scope :
          (allowed : Result (Unit {0}) Denied) {result : CallResult} {w' : World}
          → (elim allowed [
            | ok _ ↦ in_time s.deadline_message (run_tool r.name r.arguments w)
            | err _ ↦ (failed "-32600", w)
          ])
            ≡ (result, w')
          → ((false ≡ true) × (result ≡ audit_refusal) × (w' ≡ w))
            ⊎ (((false ≡ false) × (allowed ≡ err denied) × (result ≡ failed "-32600") × (w' ≡ w))
                ⊎ ((false ≡ false)
                    × (allowed ≡ ok tt)
                    × ((result, w') ≡ in_time s.deadline_message (run_tool r.name r.arguments w))))
      by_scope (ok tt) e = inr (inr (refl, refl, sym e))
      by_scope (err denied) e = inr (inl (refl, refl, sym (ap (λ p. p.0) e), sym (ap (λ p. p.1) e)))

  -- A call that comes to an end has either been refused by the audit gate, or been denied to its
  -- principal, and then openQA is as it was and the answer says so; or it has run the tool once.
  pub call_tool_gated :
      (s : Server) (r : Request) (streams : Streams) (w : World) {result : CallResult}
      {streams' : Streams} {w' : World}
      → call_tool as_f64 add_f64 to_json text_of run_tool s r streams w
        ≡ decoded (result, streams', w')
      → let refused = (gate (record_scope s.tools r.name) r.now streams.audit).0 in
        let allowed = authorize s.enforce_scopes s.tools r.name r.scope in
        ((refused ≡ true) × (result ≡ audit_refusal) × (w' ≡ w))
        ⊎ (((refused ≡ false) × (allowed ≡ err denied) × (result ≡ failed "-32600") × (w' ≡ w))
            ⊎ ((refused ≡ false)
                × (allowed ≡ ok tt)
                × ((result, w') ≡ in_time s.deadline_message (run_tool r.name r.arguments w))))
  unfolding call_tool dispatch
  call_tool_gated s r streams w e =
      let (refused, audit) = gate (record_scope s.tools r.name) r.now streams.audit in
      let (same, _) = conclude_lem s r streams w refused audit (started streams.traces r) e in
      answered s r w refused same
