-- ===== src/Otel/Env.antt =====
-- src/otel/env.rs: the OTEL variables, read through a lookup function and resolved to the
-- configuration of the exporters. The parsers of URLs, header names and values and of percent
-- encoding are parameters. A duration is its milliseconds.
pub mod Resolve
pub mod Supported
pub mod Endpoints
use ruoqa_mcp.Common.{
  ℕ, zero, suc, ◌+◌, ◌-◌, ◌*◌, ◌/◌, ◌%◌, ◌^◌, ◌≤◌, ◌<◌, min, max, String, ◌≡◌, refl, sym, ap, ◌∙◌,
  subst, ◌≢◌, ◌↔◌, ◌⊎◌, inl, inr, Bool, true, false, ◌&&◌, ◌||◌, not, Option, none, some, List, [],
  ◌∷◌, ◌++◌, map, reverse, append-nil, append_assoc, arith, str_eq, eq_iff, ltb, leb, ◌==◌,
  if◌then◌else◌, ltb→lt, lt→ltb, leb→le, ==_iff, Bool-cases, Option-cases, is_some, is_none,
  unwrap_or, length, get_elem?, take, drop, replicate, any, all, length-append, all-append, All,
  All-append, take-append-drop, length-take, length-drop, take_append, drop_append, length-map,
  filter_map, filter, filter_kept, filter_left_out, Result, ok, err, ◌>>=◌, ◌>>◌, map_err, ok_or,
  is_ok, Result-cases, >>=-eq-ok, ok-injective, ok_or-eq-ok,
}
use ruoqa_mcp.Common.Text.{
  Text, text_eq, codes, split, split_once, trim, is_empty, eq_ignore_ascii_case,
}

abbrev pub default_service_name : Text
default_service_name = codes "ruoqa-mcp"

abbrev pub default_timeout_ms : ℕ
default_timeout_ms = 10000

abbrev pub default_max_queue_size : ℕ
default_max_queue_size = 2048

abbrev pub default_max_export_batch_size : ℕ
default_max_export_batch_size = 512

abbrev pub default_schedule_delay_ms : ℕ
default_schedule_delay_ms = 5000

abbrev pub default_metric_export_interval_ms : ℕ
default_metric_export_interval_ms = 60000

abbrev pub Lookup : Type 0
Lookup = Text → Option Text

pub data Signal : Type 0 where
  logs traces metrics : Signal

abbrev pub env_infix : Signal → Text
env_infix logs = codes "_LOGS"
env_infix traces = codes "_TRACES"
env_infix metrics = codes "_METRICS"

abbrev pub path : Signal → Text
path logs = codes "v1/logs"
path traces = codes "v1/traces"
path metrics = codes "v1/metrics"

pub data Sampler : Type 0 where
  always_on parent_based_always_on : Sampler

-- The error of the URL parser is left out.
pub data EnvError : Type 0 where
  invalid_url unsupported_protocol unsupported_compression unsupported_exporter :
      Text → Text → EnvError
  unsupported_sampler unsupported_temporality : Text → EnvError
  unsupported_tls_option invalid_header : Text → EnvError
  invalid_number : Text → Text → EnvError

pub record QueueConfig : Type 0 where
  pub max_queue_size : ℕ
  pub max_export_batch_size : ℕ
  pub schedule_delay : ℕ

-- Unset where it is empty.
abbrev nonempty : Option Text → Option Text
nonempty none = none
nonempty (some v) = if is_empty v then none else some v

unfoldable pub lookup : Lookup → Text → Option Text
lookup get name = nonempty (get name)

abbrev infix_of : Option Signal → Text
infix_of none = []
infix_of (some signal) = env_infix signal

abbrev pub var_name : Option Signal → Text → Text
var_name signal suffix = codes "OTEL_EXPORTER_OTLP" ++ (infix_of signal ++ suffix)

-- A value that is set has to be this one.
abbrev pub only : Text → (Text → EnvError) → Option Text → Result (Unit {0}) EnvError
only expected why none = ok tt
only expected why (some value) = if text_eq value expected then ok tt else err (why value)

unfoldable pub validate_protocol : Lookup → Option Signal → Result (Unit {0}) EnvError
validate_protocol get signal =
    let var = var_name signal (codes "_PROTOCOL") in
    only (codes "http/protobuf") (unsupported_protocol var) (lookup get var)

unfoldable pub validate_compression : Lookup → Option Signal → Result (Unit {0}) EnvError
validate_compression get signal =
    let var = var_name signal (codes "_COMPRESSION") in
    only (codes "none") (unsupported_compression var) (lookup get var)

abbrev pub unset : Text → Option Text → Result (Unit {0}) EnvError
unset var none = ok tt
unset var (some value) = err (unsupported_tls_option var)

abbrev pub tls_suffixes : List Text
tls_suffixes = codes "_CERTIFICATE" ∷ codes "_CLIENT_KEY" ∷ codes "_CLIENT_CERTIFICATE" ∷ []

abbrev pub all_unset : Lookup → Option Signal → List Text → Result (Unit {0}) EnvError
all_unset get signal [] = ok tt
all_unset get signal (suffix ∷ suffixes) =
    unset (var_name signal suffix) (lookup get (var_name signal suffix))
    >> all_unset get signal suffixes

unfoldable pub validate_no_tls_material : Lookup → Option Signal → Result (Unit {0}) EnvError
validate_no_tls_material get signal = all_unset get signal tls_suffixes

-- `trim_end_matches` of a slash, 47.
abbrev pub trim_start_slashes : Text → Text
trim_start_slashes [] = []
trim_start_slashes (c ∷ s) = elim (c == 47) [ true ↦ trim_start_slashes s | false ↦ c ∷ s ]

abbrev pub trim_end_slashes : Text → Text
trim_end_slashes s = reverse (trim_start_slashes (reverse s))

unfoldable pub append_path : Text → Text → Text
append_path base p = trim_end_slashes base ++ 47 ∷ p

-- `str::parse` of an unsigned integer of 64 bits: digits, after at most one plus sign, 43.
abbrev digits_from : Option ℕ → Text → Option ℕ
digits_from acc [] = acc
digits_from none (c ∷ s) = none
digits_from (some n) (c ∷ s) =
    digits_from
      (if leb 48 c && leb c 57 && ltb (10 * n + (c - 48)) (2 ^ 64)
        then some (10 * n + (c - 48))
        else none)
      s

abbrev some_digits : Text → Option ℕ
some_digits [] = none
some_digits (c ∷ s) = digits_from (some 0) (c ∷ s)

unfoldable pub parse_number : Text → Option ℕ
parse_number [] = none
parse_number (c ∷ s) = if c == 43 then some_digits s else some_digits (c ∷ s)

abbrev number_or : Text → ℕ → Option Text → Result ℕ EnvError
number_or var default none = ok default
number_or var default (some value) = ok_or (parse_number value) (invalid_number var value)

unfoldable pub parse_millis : Lookup → Text → ℕ → Result ℕ EnvError
parse_millis get var default = number_or var default (lookup get var)

unfoldable pub resolve_timeout : Lookup → Signal → Result ℕ EnvError
resolve_timeout get signal =
    let signal_var = var_name (some signal) (codes "_TIMEOUT") in
    if is_some (lookup get signal_var)
    then parse_millis get signal_var default_timeout_ms
    else parse_millis get (var_name none (codes "_TIMEOUT")) default_timeout_ms

abbrev exporter_of : Text → Option Text → Result Bool EnvError
exporter_of var none = ok true
exporter_of var (some value) =
    if text_eq value (codes "otlp")
    then ok true
    else (if text_eq value (codes "none") then ok false else err (unsupported_exporter var value))

unfoldable pub resolve_exporter : Lookup → Signal → Result Bool EnvError
resolve_exporter get signal =
    let var = codes "OTEL" ++ (env_infix signal ++ codes "_EXPORTER") in
    exporter_of var (lookup get var)

unfoldable pub resolve_queue : Lookup → Result QueueConfig EnvError
resolve_queue get =
    parse_millis get (codes "OTEL_BLRP_MAX_QUEUE_SIZE") default_max_queue_size >>= λ max_queue_size.
    parse_millis get (codes "OTEL_BLRP_MAX_EXPORT_BATCH_SIZE") default_max_export_batch_size
    >>= λ max_export_batch_size.
        parse_millis get (codes "OTEL_BLRP_SCHEDULE_DELAY") default_schedule_delay_ms
        >>= λ schedule_delay. ok (record {
          max_queue_size = max_queue_size;
          max_export_batch_size = max_export_batch_size;
          schedule_delay = schedule_delay;
        })

abbrev sampler_of : Option Text → Result Sampler EnvError
sampler_of none = ok always_on
sampler_of (some value) =
    if text_eq value (codes "always_on")
    then ok always_on
    else (if text_eq value (codes "parentbased_always_on")
        then ok parent_based_always_on
        else err (unsupported_sampler value))

unfoldable pub resolve_sampler : Lookup → Result Sampler EnvError
resolve_sampler get = sampler_of (lookup get (codes "OTEL_TRACES_SAMPLER"))

abbrev pub metric_interval_var : Text
metric_interval_var = codes "OTEL_METRIC_EXPORT_INTERVAL"

unfoldable pub resolve_metric_export_interval : Lookup → Result ℕ EnvError
resolve_metric_export_interval get =
    parse_millis get metric_interval_var default_metric_export_interval_ms >>= λ ms.
    if ms == 0 then err (invalid_number metric_interval_var (codes "0")) else ok ms

unfoldable pub resolve_temporality_preference : Lookup → Result (Unit {0}) EnvError
resolve_temporality_preference get =
    only (codes "cumulative") unsupported_temporality
      (lookup get (var_name (some metrics) (codes "_TEMPORALITY_PREFERENCE")))
