-- ===== src/Otel/Metrics.antt =====
-- src/otel/metrics.rs: the registry of the metrics and their encoding. A text is its bytes. A map is
-- a list of entries with different keys, in the order in which it is walked. A double is its bit
-- pattern; the conversion of a u64 and the addition of doubles are parameters, and the comparison of
-- a duration with a bound, a whole number that a double holds exactly, is that of the numbers.

pub mod Recording
pub mod Maps
pub mod Counts
pub mod Series
use ruoqa_mcp.Common.{
  ℕ, zero, suc, ◌+◌, ◌-◌, ◌*◌, ◌/◌, ◌%◌, ◌^◌, ◌≤◌, ◌<◌, min, max, String, ◌≡◌, refl, sym, ap, ◌∙◌,
  subst, ◌≢◌, ◌↔◌, ◌⊎◌, inl, inr, Bool, true, false, ◌&&◌, ◌||◌, not, Option, none, some, List, [],
  ◌∷◌, ◌++◌, map, reverse, append-nil, append_assoc, arith, str_eq, eq_iff, ltb, leb, ◌==◌,
  if◌then◌else◌, ltb→lt, lt→ltb, leb→le, ==_iff, Bool-cases, Option-cases, is_some, is_none,
  unwrap_or, length, get_elem?, take, drop, replicate, any, all, length-append, all-append, All,
  All-append, take-append-drop, length-take, length-drop, take_append, drop_append, length-map,
  filter_map, filter, filter_kept, filter_left_out,
}
use ruoqa_mcp.Common.Text.{Text, text_eq, codes}
use ruoqa_mcp.Common.Int.{ℤ, pos}
use ruoqa_mcp.Otel.Proto.{
  Bytes, Value, str, write_string, write_message, write_fixed64, write_sfixed64_always,
  write_double_always, write_packed_fixed64, write_packed_double, write_attributes, write_uint32,
  write_bool, write_resource, write_scope, write_bytes,
}

abbrev pub aggregation_temporality_cumulative : ℕ
aggregation_temporality_cumulative = 2

abbrev pub bounds : List ℕ
bounds = 0 ∷ 5 ∷ 10 ∷ 25 ∷ 50 ∷ 75 ∷ 100 ∷ 250 ∷ 500 ∷ 750 ∷ 1000 ∷ 2500 ∷ 5000 ∷ 7500 ∷ 10000 ∷ []

abbrev pub bucket_count : ℕ
bucket_count = length bounds + 1

pub record CallKey : Type 0 where
  pub tool : Text
  pub server : Option Text
  pub outcome : Text
  pub error_kind : Option Text

pub record DurKey : Type 0 where
  pub tool : Text
  pub server : Option Text

pub record Hist : Type 0 where
  pub count : ℕ
  pub sum_ms : ℕ
  pub buckets : List ℕ

-- The bits of 0.0 are 0.
abbrev pub default_hist : Hist
default_hist = record { count = 0; sum_ms = 0; buckets = replicate bucket_count 0 }

pub record State : Type 0 where
  pub calls : List (CallKey × ℕ)
  pub duration : List (DurKey × Hist)

pub record Registry : Type 0 where
  pub start_time_unix_nano : ℕ
  pub state : State

unfoldable pub new_registry : ℕ → Registry
new_registry start_time_unix_nano = record {
  start_time_unix_nano = start_time_unix_nano;
  state = record { calls = []; duration = [] };
}

-- `+= 1` on a u64.
abbrev pub add_one : ℕ → ℕ
add_one n = (n + 1) % 2 ^ 64

-- The first bound that is not below the duration, or the number of bounds.
abbrev pub position : ℕ → List ℕ → ℕ
position ms [] = 0
position ms (bound ∷ bs) = let later = position ms bs in if leb ms bound then 0 else suc later

-- The index of the bucket of a duration.
unfoldable pub bucket_of : ℕ → ℕ
bucket_of ms = position ms bounds

abbrev pub add_at : ℕ → List ℕ → List ℕ
add_at i [] = []
add_at zero (n ∷ ns) = add_one n ∷ ns
add_at (suc i) (n ∷ ns) = n ∷ add_at i ns

abbrev pub opt_eq : Option Text → Option Text → Bool
opt_eq none none = true
opt_eq (some s) (some t) = text_eq s t
opt_eq _ _ = false

abbrev pub call_key_eq : CallKey → CallKey → Bool
call_key_eq a b =
    text_eq a.tool b.tool
    && (opt_eq a.server b.server
        && (text_eq a.outcome b.outcome && opt_eq a.error_kind b.error_kind))

abbrev pub dur_key_eq : DurKey → DurKey → Bool
dur_key_eq a b = text_eq a.tool b.tool && opt_eq a.server b.server

-- `HashMap::entry`, with the value that a missing key gets, and the change made to it.
abbrev pub entry {ℓ κ} :
    {K : Type ℓ} {V : Type κ} → (K → K → Bool) → K → V → (V → V) → List (K × V) → List (K × V)
entry eq key default change [] = (key, change default) ∷ []
entry eq key default change ((k, v) ∷ es) =
    let rest = entry eq key default change es in
    if eq k key then (k, change v) ∷ es else (k, v) ∷ rest

-- The arguments of `record_call`.
pub record Call : Type 0 where
  pub tool : Text
  pub server : Option Text
  pub outcome : Text
  pub error_kind : Option Text
  pub duration_ms : ℕ

abbrev pub call_key : Call → CallKey
call_key c = record {
  tool = c.tool;
  server = c.server;
  outcome = c.outcome;
  error_kind = c.error_kind;
}

abbrev pub dur_key : Call → DurKey
dur_key c = record { tool = c.tool; server = c.server }

-- The points of a metric.
pub record NumberPoint : Type 0 where
  pub attrs : List (Bytes × Value)
  pub value : ℤ
  pub start_time_unix_nano : ℕ
  pub time_unix_nano : ℕ

pub record HistogramPoint : Type 0 where
  pub attrs : List (Bytes × Value)
  pub count : ℕ
  pub sum_ms : ℕ
  pub bucket_counts : List ℕ
  pub start_time_unix_nano : ℕ
  pub time_unix_nano : ℕ

abbrev pub optional : Bytes → Option Text → List (Bytes × Value)
optional key none = []
optional key (some v) = (key, str v) ∷ []

-- `i64::try_from`, cut at `i64::MAX`.
abbrev pub saturated : ℕ → ℤ
saturated n = pos (if ltb n (2 ^ 63) then n else 2 ^ 63 - 1)

unfoldable pub number_point : ℕ → ℕ → CallKey × ℕ → NumberPoint
number_point start now (key, count) = record {
  attrs =
      (codes "tool", str key.tool) ∷ optional (codes "server") key.server
      ++ (codes "outcome", str key.outcome) ∷ optional (codes "error.kind") key.error_kind;
  value = saturated count;
  start_time_unix_nano = start;
  time_unix_nano = now;
}

unfoldable pub histogram_point : ℕ → ℕ → DurKey × Hist → HistogramPoint
histogram_point start now (key, hist) = record {
  attrs = (codes "tool", str key.tool) ∷ optional (codes "server") key.server;
  count = hist.count;
  sum_ms = hist.sum_ms;
  bucket_counts = hist.buckets;
  start_time_unix_nano = start;
  time_unix_nano = now;
}
