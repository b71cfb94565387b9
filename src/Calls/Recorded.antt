-- ===== src/Calls/Recorded.antt =====
-- What a call leaves in the audit stream and in the metrics.
use ruoqa_mcp.Common.{
  ℕ, String, ◌≡◌, refl, ap, ◌∙◌, Bool, true, false, ◌&&◌, not, Option, none, some, List, [], ◌∷◌,
  ◌++◌, if◌then◌else◌, is_none, unwrap_or,
}
use ruoqa_mcp.Common.Text.{Text}
use ruoqa_mcp.Common.Json.{Json, Fields}
use ruoqa_mcp.Server.{record_scope, gate, CallResult, outcome_of}
use ruoqa_mcp.Audit.Sink.{Sink}
use ruoqa_mcp.Audit.Record.{
  Event, tool_call, audit_gap, Record, RecordScope, Outcome, capture_args, new_record, Transport,
}
use ruoqa_mcp.Audit.Auditor.{
  Gap, Auditor, increment, refuses, refused, append_line, enqueue, gap_record, close_gap,
  update_gap, is_disabled, recover, write_record, write, tool_call_event,
}
use ruoqa_mcp.Otel.Proto.{Bytes}
use ruoqa_mcp.Otel.Traces.{decoded}
use ruoqa_mcp.Calls.{
  Streams, Request, Server, started, call_record, session_of, audited, measured, metric_call, tail,
  call_tool,
}
use ruoqa_mcp.Calls.Gated.{conclude_lem}

abbrev is_call_event : Event → Bool
is_call_event tool_call = true
is_call_event _ = false

-- The records of tool calls among those exported.
abbrev pub call_records : List (Record × Bytes) → List Record
call_records [] = []
call_records ((r, line) ∷ rs) = elim (is_call_event r.event) [
  | true ↦ r ∷ call_records rs
  | false ↦ call_records rs
]

call_records_call :
    (rs : List (Record × Bytes)) (r : Record) (line : Bytes)
    → r.event ≡ tool_call
    → call_records (rs ++ (r, line) ∷ []) ≡ call_records rs ++ r ∷ []
call_records_call [] r line e = ap (λ v. elim (is_call_event v) [ true ↦ r ∷ [] | false ↦ [] ]) e
call_records_call ((t, l) ∷ rs) r line e =
    ap (λ v. elim (is_call_event t.event) [ true ↦ t ∷ v | false ↦ v ])
      (call_records_call rs r line e)
    ∙ push (is_call_event t.event)
  where
    push :
        (b : Bool)
        → elim b as (λ _. List Record) [
          | true ↦ t ∷ (call_records rs ++ r ∷ [])
          | false ↦ call_records rs ++ r ∷ []
        ]
          ≡ elim b as (λ _. List Record) [ true ↦ t ∷ call_records rs | false ↦ call_records rs ]
            ++ r ∷ []
    push true = refl
    push false = refl

call_records_other :
    (rs : List (Record × Bytes)) (r : Record) (line : Bytes)
    → r.event ≡ audit_gap
    → call_records (rs ++ (r, line) ∷ []) ≡ call_records rs
call_records_other [] r line e = ap (λ v. elim (is_call_event v) [ true ↦ r ∷ [] | false ↦ [] ]) e
call_records_other ((t, l) ∷ rs) r line e =
    ap (λ v. elim (is_call_event t.event) [ true ↦ t ∷ v | false ↦ v ])
      (call_records_other rs r line e)

module _ (to_json : Record → Bytes) where
  append_line-exported :
      (line : Bytes) (a : Auditor) (s : Option Sink)
      → ((append_line line a s).1.exported ≡ a.exported)
        × ((append_line line a s).1.has_otlp ≡ a.has_otlp)
  append_line-exported line a none = (refl, refl)
  append_line-exported line a (some s) = (refl, refl)

  enqueue-exported :
      (r : Record) (line : Bytes) (a : Auditor)
      → a.has_otlp ≡ true
      → (enqueue r line a).exported ≡ a.exported ++ (r, line) ∷ []
  enqueue-exported r line a e =
      ap (λ b. (if b then record a { exported = a.exported ++ (r, line) ∷ [] } else a).exported) e

  emitted :
      (r : Record) (line : Bytes) (a : Auditor)
      → a.has_otlp ≡ true
      → (enqueue r line (append_line line a a.sink).1).exported ≡ a.exported ++ (r, line) ∷ []
  emitted r line a e =
      let (same, otlp) = append_line-exported line a a.sink in
      enqueue-exported r line (append_line line a a.sink).1 (otlp ∙ e)
      ∙ ap (λ es. es ++ (r, line) ∷ []) same

  update_gap-exported :
      (persisted : Bool) (transport : Transport) (ts now : String) (a : Auditor)
      → a.has_otlp ≡ true
      → call_records (update_gap to_json persisted transport ts now a).exported
        ≡ call_records a.exported
  unfolding update_gap close_gap gap_record new_record
  update_gap-exported false transport ts now a e = refl
  update_gap-exported true transport ts now a e = recovered a.gap
    where
      recovered :
          (gap : Option Gap)
          → call_records (recover to_json transport now gap a).exported ≡ call_records a.exported
      recovered none = refl
      recovered (some gap) =
          let r = gap_record to_json a.process_session transport now a.seq gap in
          ap call_records (
            emitted r (to_json r) (record a { failing = false; gap = none; seq = increment a.seq })
              e)
          ∙ call_records_other a.exported r (to_json r) refl

  -- The record of a call, once written, is the last of the call records.
  write_record-exported :
      (ts now : String) (delivering : Bool) (r : Record) (a : Auditor)
      → a.has_otlp ≡ true
      → r.event ≡ tool_call
      → call_records (write to_json ts now delivering r a).exported
        ≡ call_records a.exported ++ record r { seq = a.seq; ts = ts } ∷ []
  unfolding write write_record is_disabled
  write_record-exported ts now delivering r a e v =
      let stamped = record r { seq = a.seq; ts = ts } in
      let line = to_json stamped in
      let numbered = record a { seq = increment a.seq } in
      let appended = append_line line numbered numbered.sink in
      let persisted = unwrap_or appended.0 delivering in
      let handed = enqueue stamped line appended.1 in
      let written = update_gap to_json persisted r.transport ts now handed in
      ap (λ b. call_records (if is_none a.sink && not b then a else written).exported) e
      ∙ ap (λ b. call_records (if b then a else written).exported) (and_false (is_none a.sink))
      ∙ update_gap-exported persisted r.transport ts now handed (
          enqueue-otlp stamped line appended.1
          ∙ (append_line-exported line numbered numbered.sink).1
          ∙ e)
      ∙ ap call_records (emitted stamped line numbered e)
      ∙ call_records_call a.exported stamped line v
    where
      and_false : (b : Bool) → (b && false) ≡ false
      and_false true = refl
      and_false false = refl

      enqueue-otlp :
          (r : Record) (line : Bytes) (a : Auditor) → (enqueue r line a).has_otlp ≡ a.has_otlp
      enqueue-otlp r line a =
          elim a.has_otlp
            as (λ b.
              (if b then record a { exported = a.exported ++ (r, line) ∷ [] } else a).has_otlp
              ≡ a.has_otlp) [ true ↦ refl | false ↦ refl ]

gate_kept :
    (scope : RecordScope) (now : String) (a : Auditor)
    → (b : Auditor) × ((gate scope now (some a)).1 ≡ some b)
      × (b.exported ≡ a.exported)
      × (b.has_otlp ≡ a.has_otlp)
unfolding gate refused
gate_kept scope now a = by_refusal (refuses a scope)
  where
    gated : Bool → Bool × Option Auditor
    gated stop = if stop then (true, some (refused now a)) else (false, some a)

    by_refusal :
        (stop : Bool)
        → (b : Auditor) × ((gated stop).1 ≡ some b)
          × (b.exported ≡ a.exported)
          × (b.has_otlp ≡ a.has_otlp)
    by_refusal true = (refused now a, refl, refl, refl)
    by_refusal false = (a, refl, refl, refl)

tool_call_event_lem :
    (session : String) (transport : Transport) (scope : RecordScope) (tool : String)
    (server : Option String) (args : Option Json) (ended : Outcome) (ms : ℕ)
    (trace : Option (String × String))
    → let e = tool_call_event session transport scope tool server args ended ms trace in
      (e.event ≡ tool_call) × (e.tool ≡ some tool) × (e.scope ≡ scope) × (e.outcome ≡ some ended)
unfolding tool_call_event new_record
tool_call_event_lem session transport scope tool server args ended ms none =
    (refl, refl, refl, refl)
tool_call_event_lem session transport scope tool server args ended ms (some ids) =
    (refl, refl, refl, refl)

module _ (as_f64 : ℕ → ℕ) (add_f64 : ℕ → ℕ → ℕ) (to_json : Record → Bytes) (text_of : Text → String)
    {World : Type 0} (run_tool : String → Option Fields → World → Option CallResult × World) where
  -- Where the audit stream has a collector, every call that comes to an end, the refused and the
  -- denied ones too, exports exactly one call record: of its tool, its scope and the outcome of its
  -- own result; and the metrics count one call under the same outcome.
  pub call_tool_recorded :
      (s : Server) (r : Request) (streams : Streams) (w : World) (a : Auditor) {result : CallResult}
      {streams' : Streams} {w' : World}
      → streams.audit ≡ some a
      → a.has_otlp ≡ true
      → call_tool as_f64 add_f64 to_json text_of run_tool s r streams w
        ≡ decoded (result, streams', w')
      → (a' : Auditor) × (e : Record) × (server : Option Text) × (streams'.audit ≡ some a')
        × (call_records a'.exported ≡ call_records a.exported ++ e ∷ [])
        × (e.tool ≡ some r.name)
        × (e.scope ≡ record_scope s.tools r.name)
        × (e.outcome ≡ some (outcome_of result))
        × (streams'.metrics
            ≡ measured as_f64 add_f64
                (metric_call r.name server (outcome_of result) r.duration_ms)
                streams.metrics)
  unfolding call_tool tail
  call_tool_recorded s r streams w a {result = result} found otlp e =
      let (refused, audit) = gate (record_scope s.tools r.name) r.now streams.audit in
      let (_, (span, same)) =
        conclude_lem as_f64 add_f64 to_json text_of run_tool s r streams w refused audit
          (started streams.traces r) e in
      let (b, kept, exported, has_otlp) = gate_kept (record_scope s.tools r.name) r.now a in
      let at = ap (λ o. (gate (record_scope s.tools r.name) r.now o).1) found ∙ kept in
      let event = call_record to_json text_of s r b span (outcome_of result) in
      let (call, tool, scope, ended) =
        tool_call_event_lem (session_of r.session_header b.process_session) s.transport
          (record_scope s.tools r.name) r.name _ (capture_args r.arguments) (outcome_of result)
          r.duration_ms _ in
      (
        write to_json r.ts r.now r.delivering event b,
        record event { seq = b.seq; ts = r.ts },
        _,
        ap (λ t. t.audit) same
            ∙ ap (λ o. audited to_json text_of s r span (outcome_of result) o) at,
        write_record-exported to_json r.ts r.now r.delivering event b (has_otlp ∙ otlp) call
            ∙ ap (λ rs. call_records rs ++ record event { seq = b.seq; ts = r.ts } ∷ []) exported,
        tool,
        scope,
        ended,
        ap (λ t. t.metrics) same,
      )
