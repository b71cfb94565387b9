-- ===== src/Otel/Env/Endpoints.antt =====
-- Where the signals are sent.
use ruoqa_mcp.Common.{
  ℕ, zero, suc, ◌≡◌, refl, sym, ap, ◌∙◌, subst, ◌≢◌, Bool, true, false, Option, none, some, [], ◌∷◌,
  ◌++◌, reverse, arith, ◌==◌, ==_iff, is_some, replicate, Result, ok,
}
use mathlib.Core.Path.{ap₂}
use mathlib.Core.List.{reverse-cons, reverse-append, reverse-reverse}
use ruoqa_mcp.Common.Text.{Text, codes}
use ruoqa_mcp.Otel.Env.{
  Lookup, Signal, EnvError, logs, traces, metrics, lookup, var_name, trim_start_slashes,
  trim_end_slashes, append_path,
}
use ruoqa_mcp.Otel.Env.Resolve.{
  SignalConfig, OtelConfig, Parsers, endpoint_of, resolve_endpoint, resolve,
}
use ruoqa_mcp.Otel.Env.Supported.{IsResolved, off, on, resolve-IsSupported}

abbrev pub starts_with_slash : Text → Bool
starts_with_slash [] = false
starts_with_slash (c ∷ s) = c == 47

trim_start_slashes_lem :
    (s : Text)
    → (n : ℕ) × (s ≡ replicate n 47 ++ trim_start_slashes s)
      × (starts_with_slash (trim_start_slashes s) ≡ false)
trim_start_slashes_lem [] = (0, refl, refl)
trim_start_slashes_lem (c ∷ s) =
    let (n, same, plain) = trim_start_slashes_lem s in by_first (c == 47) refl n same plain
  where
    by_first :
        (b : Bool)
        → (c == 47) ≡ b
        → (n : ℕ) → s ≡ replicate n 47 ++ trim_start_slashes s
        → starts_with_slash (trim_start_slashes s) ≡ false
        → (m : ℕ) × (c ∷ s
            ≡ replicate m 47
              ++ (elim b as (λ _. Text) [ true ↦ trim_start_slashes s | false ↦ c ∷ s ]))
          × (starts_with_slash
                (elim b as (λ _. Text) [ true ↦ trim_start_slashes s | false ↦ c ∷ s ])
              ≡ false)
    by_first true slash n same plain =
        (suc n, ap₂ (λ x xs. x ∷ xs) ((==_iff c 47).0 slash) same, plain)
    by_first false slash n same plain = (0, refl, slash)

reverse-replicate : (n : ℕ) (c : ℕ) → reverse (replicate n c) ≡ replicate n c
reverse-replicate zero c = refl
reverse-replicate (suc n) c =
    reverse-cons c (replicate n c)
    ∙ ap (λ r. r ++ c ∷ []) (reverse-replicate n c)
    ∙ replicate_snoc n c
  where
    replicate_snoc : (n c : ℕ) → replicate n c ++ c ∷ [] ≡ c ∷ replicate n c
    replicate_snoc zero c = refl
    replicate_snoc (suc n) c = ap (λ r. c ∷ r) (replicate_snoc n c)

-- The base and the path of a signal are joined by exactly one slash, however many the base ends in.
pub append_path_lem :
    (base p : Text)
    → (stem : Text) × (n : ℕ) × (base ≡ stem ++ replicate n 47)
      × (starts_with_slash (reverse stem) ≡ false)
      × (append_path base p ≡ stem ++ (codes "/" ++ p))
unfolding append_path
append_path_lem base p =
    let (n, same, plain) = trim_start_slashes_lem (reverse base) in
    (
      trim_end_slashes base,
      n,
      sym (reverse-reverse base)
          ∙ ap reverse same
          ∙ reverse-append (replicate n 47) (trim_start_slashes (reverse base))
          ∙ ap (λ r. trim_end_slashes base ++ r) (reverse-replicate n 47),
      ap starts_with_slash (reverse-reverse (trim_start_slashes (reverse base))) ∙ plain,
      refl,
    )

module _ {Url Header : Type 0} (parsers : Parsers Url Header) where
  unset_off :
      (get : Lookup) (signal : Signal) {c : Option (SignalConfig Url Header)}
      → lookup get (var_name (some signal) (codes "_ENDPOINT")) ≡ none
      → IsResolved parsers get none signal c
      → is_some c ≡ false
  unfolding resolve_endpoint
  unset_off get signal e off = refl
  unset_off get signal e (on c _ _ found) =
      absurd (is_ok_none (ap (λ o. endpoint_of parsers signal o none) (sym e) ∙ found))
    where
      is_ok_none : {x : Url} → ◌≢◌ {A = Result (Option Url) EnvError} (ok none) (ok (some x))
      is_ok_none h = cc

  -- Without an endpoint, shared or of a signal, nothing is exported, whatever else is set.
  pub resolve_off :
      (get : Lookup) {c : Option (OtelConfig Url Header)}
      → lookup get (codes "OTEL_EXPORTER_OTLP_ENDPOINT") ≡ none
      → ((signal : Signal) → lookup get (var_name (some signal) (codes "_ENDPOINT")) ≡ none)
      → resolve parsers get ≡ ok c
      → c ≡ none
  resolve_off get {c = none} base each e = refl
  resolve_off get {c = some c} base each e =
      let (one_on, _, of_logs, of_traces, of_metrics, _, _) = resolve-IsSupported parsers get e in
      let l = off_at logs of_logs in
      let t = off_at traces of_traces in
      let m = off_at metrics of_metrics in absurd (ground (arith, l, t, m))
    where
      off_at :
          (signal : Signal) {o : Option (SignalConfig Url Header)}
          → IsResolved parsers get (lookup get (codes "OTEL_EXPORTER_OTLP_ENDPOINT")) signal o
          → is_some o ≡ false
      off_at signal {o = o} r =
          unset_off get signal (each signal) (subst (λ b. IsResolved parsers get b signal o) base r)
