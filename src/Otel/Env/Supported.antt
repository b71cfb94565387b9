-- ===== src/Otel/Env/Supported.antt =====
-- What a configuration that is accepted says about the variables.
use ruoqa_mcp.Common.{
  ℕ, ◌<◌, ◌≡◌, refl, sym, ap, ◌∙◌, subst, ◌⊎◌, inl, inr, Bool, true, false, ◌&&◌, ◌||◌, Option,
  none, some, List, [], ◌∷◌, arith, ◌==◌, if◌then◌else◌, Bool-cases, is_some, is_none, unwrap_or,
  All, ok, ◌>>=◌, ◌>>◌, >>=-eq-ok, ok-injective, >>-eq-ok, if_err_lem, if_none_lem,
}
use ruoqa_mcp.Common.Text.{Text, text_eq, text_eq_sound, codes}
use ruoqa_mcp.Otel.Env.{
  Lookup, Signal, logs, traces, metrics, EnvError, Sampler, lookup, var_name, only, unset,
  unsupported_protocol, unsupported_compression, unsupported_temporality, all_unset, tls_suffixes,
  validate_protocol, validate_compression, validate_no_tls_material, resolve_sampler,
  resolve_metric_export_interval, resolve_temporality_preference, resolve_exporter, resolve_queue,
  resolve_timeout, parse_millis, metric_interval_var, default_metric_export_interval_ms,
  invalid_number,
}
use ruoqa_mcp.Otel.Env.Resolve.{
  SignalConfig, OtelConfig, Parsers, is_true, validate, with_endpoint, resolve_endpoint,
  resolve_headers, resolve_signal, configured, resolve,
}

-- A variable is unset, or it has the one value that is supported.
abbrev pub UnsetOr : Text → Option Text → Type 0
UnsetOr expected value = (value ≡ none) ⊎ (value ≡ some expected)

-- No variable of a signal, or of them all, asks for what is not supported.
pub record IsSupported (get : Lookup) (signal : Option Signal) : Type 0 where
  pub protocol : UnsetOr (codes "http/protobuf") (lookup get (var_name signal (codes "_PROTOCOL")))
  pub compression : UnsetOr (codes "none") (lookup get (var_name signal (codes "_COMPRESSION")))
  pub tls : All (λ suffix. lookup get (var_name signal suffix) ≡ none) tls_suffixes

only_lem :
    (expected : Text) (why : Text → EnvError) (value : Option Text)
    → only expected why value ≡ ok tt
    → UnsetOr expected value
only_lem expected why none e = inl refl
only_lem expected why (some value) e = elim (Bool-cases (text_eq value expected)) [
  | inl same ↦ inr (ap some (text_eq_sound value expected same))
  | inr other ↦ absurd (ground arith)
]

unset_lem : (var : Text) (value : Option Text) → unset var value ≡ ok tt → value ≡ none
unset_lem var none e = refl
unset_lem var (some value) e = absurd (cc)

all_unset_lem :
    (get : Lookup) (signal : Option Signal) (suffixes : List Text)
    → all_unset get signal suffixes ≡ ok tt
    → All (λ suffix. lookup get (var_name signal suffix) ≡ none) suffixes
all_unset_lem get signal [] e = tt
all_unset_lem get signal (suffix ∷ suffixes) e =
    let (first, rest) =
      >>-eq-ok (unset (var_name signal suffix) (lookup get (var_name signal suffix)))
        (all_unset get signal suffixes) e in
    (
      unset_lem (var_name signal suffix) (lookup get (var_name signal suffix)) first,
      all_unset_lem get signal suffixes rest,
    )

module _ {Url Header : Type 0} (parsers : Parsers Url Header) where
  validate-IsSupported :
      (get : Lookup) (signal : Option Signal)
      → validate parsers get signal ≡ ok tt
      → IsSupported get signal
  unfolding validate_protocol validate_compression validate_no_tls_material
  validate-IsSupported get signal e =
      let (protocol, rest) =
        >>-eq-ok (validate_protocol get signal)
          (validate_compression get signal >> validate_no_tls_material get signal) e in
      let (compression, tls) =
        >>-eq-ok (validate_compression get signal) (validate_no_tls_material get signal) rest in
      record {
        protocol =
            only_lem (codes "http/protobuf")
              (unsupported_protocol (var_name signal (codes "_PROTOCOL")))
              (lookup get (var_name signal (codes "_PROTOCOL"))) protocol;
        compression =
            only_lem (codes "none")
              (unsupported_compression (var_name signal (codes "_COMPRESSION")))
              (lookup get (var_name signal (codes "_COMPRESSION"))) compression;
        tls = all_unset_lem get signal tls_suffixes tls;
      }

  -- A signal that is on: its variables are supported, and its endpoint is the one resolved.
  pub data IsResolved (get : Lookup) (base : Option Text) (signal : Signal)
      : Option (SignalConfig Url Header) → Type 0 where
    off : IsResolved get base signal none
    on :
        (c : SignalConfig Url Header)
        → IsSupported get (some signal)
        → resolve_exporter get signal ≡ ok true
        → resolve_endpoint parsers get signal base ≡ ok (some c.endpoint)
        → IsResolved get base signal (some c)

  with_endpoint_lem :
      (get : Lookup) (signal : Signal) (endpoint : Option Url)
      {c : Option (SignalConfig Url Header)}
      → with_endpoint parsers get signal endpoint ≡ ok c
      → ((endpoint ≡ none) × (c ≡ none))
        ⊎ ((sc : SignalConfig Url Header) × (c ≡ some sc) × (endpoint ≡ some sc.endpoint))
  with_endpoint_lem get signal none e = inl (refl, sym (ok-injective e))
  with_endpoint_lem get signal (some url) e =
      let (headers, _, b) = >>=-eq-ok (resolve_headers parsers get signal) _ e in
      let (timeout, _, d) = >>=-eq-ok (resolve_timeout get signal) _ b in
      inr (
        record { endpoint = url; headers = headers; timeout = timeout },
        sym (ok-injective d),
        refl,
      )

  resolve_signal-IsResolved :
      (get : Lookup) (signal : Signal) (base : Option Text) {c : Option (SignalConfig Url Header)}
      → resolve_signal parsers get signal base ≡ ok c
      → IsResolved get base signal c
  unfolding resolve_signal
  resolve_signal-IsResolved get signal base {c = c} e =
      let (switch, a, b) = >>=-eq-ok (resolve_exporter get signal) _ e in by_switch switch a b
    where
      by_switch :
          (switch : Bool)
          → resolve_exporter get signal ≡ ok switch
          → (if switch
              then (validate parsers get (some signal)
                  >> (resolve_endpoint parsers get signal base >>= λ endpoint.
                      with_endpoint parsers get signal endpoint))
              else ok none)
            ≡ ok c
          → IsResolved get base signal c
      by_switch false a b = subst (IsResolved get base signal) (ok-injective b) off
      by_switch true a b =
          let (valid, rest) = >>-eq-ok (validate parsers get (some signal)) _ b in
          let (endpoint, found, made) =
            >>=-eq-ok (resolve_endpoint parsers get signal base) _ rest in
          elim (with_endpoint_lem get signal endpoint made) [
            | inl (_, none_made) ↦ subst (IsResolved get base signal) (sym none_made) off
            | inr (sc, some_made, same) ↦
                subst (IsResolved get base signal) (sym some_made)
                  (on sc (validate-IsSupported get (some signal) valid) a (found ∙ ap ok same))
          ]

  -- The signals of a configuration.
  abbrev pub some_signal : OtelConfig Url Header → Bool
  some_signal c = is_some c.logs_config || (is_some c.traces_config || is_some c.metrics_config)

  configured_lem :
      (get : Lookup) (sampler : Sampler) (interval : ℕ) (l t m : Option (SignalConfig Url Header))
      {c : OtelConfig Url Header}
      → configured parsers get sampler interval l t m ≡ ok (some c)
      → (some_signal c ≡ true)
        × (c.logs_config ≡ l)
        × (c.traces_config ≡ t)
        × (c.metrics_config ≡ m)
        × (c.metric_export_interval ≡ interval)
  configured_lem get sampler interval l t m {c = c} e =
      let (some_on, made) = if_none_lem (is_none l && (is_none t && is_none m)) _ e in
      let (queue, _, same) = >>=-eq-ok (resolve_queue get) _ made in
      let built = ap (λ o. unwrap_or o c) (ok-injective same) in
      (
        subst (λ d. some_signal d ≡ true) built (one_on l t m some_on),
        sym (ap (λ d. d.logs_config) built),
        sym (ap (λ d. d.traces_config) built),
        sym (ap (λ d. d.metrics_config) built),
        sym (ap (λ d. d.metric_export_interval) built),
      )
    where
      one_on :
          {A B C : Type 0} (l : Option A) (t : Option B) (m : Option C)
          → (is_none l && (is_none t && is_none m)) ≡ false
          → (is_some l || (is_some t || is_some m)) ≡ true
      one_on (some a) t m h = refl
      one_on none (some b) m h = refl
      one_on none none (some c) h = refl
      one_on none none none h = absurd (ground arith)

  interval_lem : (get : Lookup) {ms : ℕ} → resolve_metric_export_interval get ≡ ok ms → 0 < ms
  unfolding resolve_metric_export_interval
  interval_lem get e =
      let (n, a, b) =
        >>=-eq-ok (parse_millis get metric_interval_var default_metric_export_interval_ms) _ e in
      let (positive, same) =
        if_err_lem (n == 0) (invalid_number metric_interval_var (codes "0")) (ok n) b in
      subst (λ k. 0 < k) (ok-injective same) (ground arith)

  -- A configuration that is accepted exports at least one signal and only what is supported: no
  -- shared variable and none of a signal that is on asks for another protocol, compression, TLS
  -- material or temporality; each signal that is on has its resolved endpoint; and metrics are
  -- collected at a positive interval.
  pub resolve-IsSupported :
      (get : Lookup) {c : OtelConfig Url Header}
      → resolve parsers get ≡ ok (some c)
      → let base = lookup get (codes "OTEL_EXPORTER_OTLP_ENDPOINT") in
        (some_signal c ≡ true)
        × IsSupported get none
        × IsResolved get base logs c.logs_config
        × IsResolved get base traces c.traces_config
        × IsResolved get base metrics c.metrics_config
        × UnsetOr
            (codes "cumulative")
            (lookup get (var_name (some metrics) (codes "_TEMPORALITY_PREFERENCE")))
        × (0 < c.metric_export_interval)
  unfolding resolve resolve_temporality_preference
  resolve-IsSupported get {c = c} e =
      let (_, all_on) = if_none_lem (is_true (lookup get (codes "OTEL_SDK_DISABLED"))) _ e in
      let (valid, a) = >>-eq-ok (validate parsers get none) _ all_on in
      let (sampler, _, b) = >>=-eq-ok (resolve_sampler get) _ a in
      let (interval, positive, d) = >>=-eq-ok (resolve_metric_export_interval get) _ b in
      let (temporality, f) = >>-eq-ok (resolve_temporality_preference get) _ d in
      let base = lookup get (codes "OTEL_EXPORTER_OTLP_ENDPOINT") in
      let (l, of_logs, g) = >>=-eq-ok (resolve_signal parsers get logs base) _ f in
      let (t, of_traces, h) = >>=-eq-ok (resolve_signal parsers get traces base) _ g in
      let (m, of_metrics, made) = >>=-eq-ok (resolve_signal parsers get metrics base) _ h in
      let (one_on, same_l, same_t, same_m, same_interval) =
        configured_lem get sampler interval l t m made in
      (
        one_on,
        validate-IsSupported get none valid,
        subst (IsResolved get base logs) (sym same_l)
            (resolve_signal-IsResolved get logs base of_logs),
        subst (IsResolved get base traces) (sym same_t)
            (resolve_signal-IsResolved get traces base of_traces),
        subst (IsResolved get base metrics) (sym same_m)
            (resolve_signal-IsResolved get metrics base of_metrics),
        only_lem (codes "cumulative") unsupported_temporality
            (lookup get (var_name (some metrics) (codes "_TEMPORALITY_PREFERENCE"))) temporality,
        subst (λ k. 0 < k) (sym same_interval) (interval_lem get positive),
      )
