-- ===== src/Otel/Env/Resolve.antt =====
-- src/otel/env.rs: the headers, the endpoint and the configuration of a signal, and of them all.
use ruoqa_mcp.Common.{
  ℕ, Bool, false, ◌&&◌, Option, none, some, List, [], ◌∷◌, ◌==◌, if◌then◌else◌, is_none, unwrap_or,
  Result, ok, err, ◌>>=◌, ◌>>◌, ok_or,
}
use ruoqa_mcp.Common.Text.{Text, codes, split, split_once, trim, is_empty, eq_ignore_ascii_case}
use ruoqa_mcp.Otel.Env.{
  default_service_name, Lookup, Signal, logs, traces, metrics, path, Sampler, EnvError, invalid_url,
  invalid_header, QueueConfig, lookup, var_name, validate_protocol, validate_compression,
  validate_no_tls_material, append_path, resolve_timeout, resolve_exporter, resolve_queue,
  resolve_sampler, resolve_metric_export_interval, resolve_temporality_preference,
}

pub record SignalConfig (Url Header : Type 0) : Type 0 where
  pub endpoint : Url
  pub headers : List Header
  pub timeout : ℕ

pub record OtelConfig (Url Header : Type 0) : Type 0 where
  pub service_name : Text
  pub logs_config : Option (SignalConfig Url Header)
  pub traces_config : Option (SignalConfig Url Header)
  pub metrics_config : Option (SignalConfig Url Header)
  pub queue : QueueConfig
  pub sampler : Sampler
  pub metric_export_interval : ℕ

-- What the code takes from the `url`, `http` and `percent_encoding` libraries: `Url::parse`,
-- the checks of a header's name and of its value, and the decoding of a value, which fails where
-- the result is no text.
pub record Parsers (Url Header : Type 0) : Type 0 where
  pub parse_url : Text → Option Url
  pub parse_header : Text → Text → Option Header
  pub decode : Text → Option Text

abbrev pub is_true : Option Text → Bool
is_true none = false
is_true (some v) = eq_ignore_ascii_case v (codes "true")

module _ {Url Header : Type 0} (parsers : Parsers Url Header) where
  abbrev header_of : Text → Option (Text × Text) → Result Header EnvError
  header_of var none = err (invalid_header var)
  header_of var (some (name, value)) =
      ok_or (parsers.decode (trim value)) (invalid_header var) >>= λ decoded.
      ok_or (parsers.parse_header (trim name) decoded) (invalid_header var)

  -- The loop of `Headers::parse` over the pairs; 44 is a comma and 61 the equals sign.
  abbrev parse_pairs : Text → List Text → Result (List Header) EnvError
  parse_pairs var [] = ok []
  parse_pairs var (raw ∷ pairs) =
      let rest = parse_pairs var pairs in
      if is_empty (trim raw)
      then rest
      else (header_of var (split_once 61 (trim raw)) >>= λ header.
          rest >>= λ headers. ok (header ∷ headers))

  unfoldable pub parse_headers : Text → Text → Result (List Header) EnvError
  parse_headers var raw = parse_pairs var (split (λ c. c == 44) raw)

  abbrev parsed_url : Text → Text → Result (Option Url) EnvError
  parsed_url var value =
      ok_or (parsers.parse_url value) (invalid_url var value) >>= λ url. ok (some url)

  abbrev from_base : Signal → Option Text → Result (Option Url) EnvError
  from_base signal none = ok none
  from_base signal (some base) =
      parsed_url (var_name none (codes "_ENDPOINT")) (append_path base (path signal))

  abbrev pub endpoint_of : Signal → Option Text → Option Text → Result (Option Url) EnvError
  endpoint_of signal none base = from_base signal base
  endpoint_of signal (some value) base =
      parsed_url (var_name (some signal) (codes "_ENDPOINT")) value

  unfoldable pub resolve_endpoint : Lookup → Signal → Option Text → Result (Option Url) EnvError
  resolve_endpoint get signal base =
      endpoint_of signal (lookup get (var_name (some signal) (codes "_ENDPOINT"))) base

  abbrev headers_of : Signal → Option Text → Option Text → Result (List Header) EnvError
  headers_of signal (some raw) base = parse_headers (var_name (some signal) (codes "_HEADERS")) raw
  headers_of signal none (some raw) = parse_headers (var_name none (codes "_HEADERS")) raw
  headers_of signal none none = ok []

  unfoldable pub resolve_headers : Lookup → Signal → Result (List Header) EnvError
  resolve_headers get signal =
      headers_of signal (lookup get (var_name (some signal) (codes "_HEADERS")))
        (lookup get (var_name none (codes "_HEADERS")))

  abbrev pub with_endpoint :
      Lookup → Signal → Option Url → Result (Option (SignalConfig Url Header)) EnvError
  with_endpoint get signal none = ok none
  with_endpoint get signal (some endpoint) = resolve_headers get signal >>= λ headers.
      resolve_timeout get signal >>= λ timeout.
      ok (some (record { endpoint = endpoint; headers = headers; timeout = timeout }))

  -- The checks of the variables that every signal has, under its own names or the shared ones.
  abbrev pub validate : Lookup → Option Signal → Result (Unit {0}) EnvError
  validate get signal =
      validate_protocol get signal
      >> (validate_compression get signal >> validate_no_tls_material get signal)

  unfoldable pub resolve_signal :
      Lookup → Signal → Option Text → Result (Option (SignalConfig Url Header)) EnvError
  resolve_signal get signal base = resolve_exporter get signal >>= λ on.
      if on
      then (validate get (some signal)
          >> (resolve_endpoint get signal base >>= λ endpoint. with_endpoint get signal endpoint))
      else ok none

  abbrev pub configured :
      Lookup
      → Sampler
      → ℕ
      → Option (SignalConfig Url Header)
      → Option (SignalConfig Url Header)
      → Option (SignalConfig Url Header)
      → Result (Option (OtelConfig Url Header)) EnvError
  configured get sampler interval l t m =
      if is_none l && (is_none t && is_none m)
      then ok none
      else (resolve_queue get >>= λ queue. ok (
          some (record {
            service_name = unwrap_or (lookup get (codes "OTEL_SERVICE_NAME")) default_service_name;
            logs_config = l;
            traces_config = t;
            metrics_config = m;
            queue = queue;
            sampler = sampler;
            metric_export_interval = interval;
          })))

  abbrev pub signals :
      Lookup → Sampler → ℕ → Option Text → Result (Option (OtelConfig Url Header)) EnvError
  signals get sampler interval base = resolve_signal get logs base >>= λ l.
      resolve_signal get traces base >>= λ t.
      resolve_signal get metrics base >>= λ m. configured get sampler interval l t m

  unfoldable pub resolve : Lookup → Result (Option (OtelConfig Url Header)) EnvError
  resolve get =
      if is_true (lookup get (codes "OTEL_SDK_DISABLED"))
      then ok none
      else (validate get none
          >> (resolve_sampler get >>= λ sampler. resolve_metric_export_interval get >>= λ interval.
              resolve_temporality_preference get
              >> signals get sampler interval (lookup get (codes "OTEL_EXPORTER_OTLP_ENDPOINT"))))
