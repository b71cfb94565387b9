-- ===== src/Otel/Metrics/Recording.antt =====
-- src/otel/metrics.rs: the encoding of the metrics over the protobuf writer, and what the registry
-- yields at a collection.
use ruoqa_mcp.Common.{ℕ, true, List, [], ◌∷◌, ◌++◌, map}
use ruoqa_mcp.Common.Text.{Text, codes}
use ruoqa_mcp.Common.Int.{pos}
use ruoqa_mcp.Otel.Proto.{
  Bytes, Value, write_string, write_message, write_fixed64, write_sfixed64_always,
  write_double_always, write_packed_fixed64, write_packed_double, write_attributes, write_uint32,
  write_bool, write_resource, write_scope, write_bytes,
}
use ruoqa_mcp.Otel.Metrics.{
  aggregation_temporality_cumulative, bounds, CallKey, DurKey, Hist, default_hist, Registry,
  add_one, bucket_of, add_at, call_key_eq, dur_key_eq, entry, Call, call_key, dur_key, NumberPoint,
  HistogramPoint, number_point, histogram_point,
}

-- The data point of a `Sum`.
unfoldable pub write_number_point : Bytes → NumberPoint → Bytes
write_number_point sum point = write_message sum 1 (λ dp.
    write_attributes
      (write_sfixed64_always
        (write_fixed64 (write_fixed64 dp 2 point.start_time_unix_nano) 3 point.time_unix_nano) 6
        point.value)
      7 point.attrs)

abbrev write_number_points : Bytes → List NumberPoint → Bytes
write_number_points sum [] = sum
write_number_points sum (point ∷ points) = write_number_points (write_number_point sum point) points

-- The name, the description and the unit of a metric.
abbrev write_metric_head : Text → Text → Text → Bytes
write_metric_head name unit description =
    write_string (write_string (write_string [] 1 name) 2 description) 3 unit

unfoldable pub encode_sum : Text → Text → Text → List NumberPoint → Bytes
encode_sum name unit description points =
    write_message (write_metric_head name unit description) 7 (λ sum.
      write_bool
        (write_uint32 (write_number_points sum points) 2 aggregation_temporality_cumulative) 3 true)

unfoldable pub encode_startup_metric : ℕ → Bytes
encode_startup_metric now =
    encode_sum (codes "ruoqa.startup") (codes "{start}")
      (codes "Number of times ruoqa-mcp has started.")
      (record { attrs = []; value = pos 1; start_time_unix_nano = now; time_unix_nano = now } ∷ [])

abbrev write_metrics : Bytes → List Bytes → Bytes
write_metrics scope_metrics [] = scope_metrics
write_metrics scope_metrics (metric ∷ metrics) =
    write_metrics (write_bytes scope_metrics 2 metric) metrics

unfoldable pub encode_request : List (Bytes × Value) → Text × Text → List Bytes → Bytes
encode_request resource scope metrics = write_message [] 1 (λ resource_metrics.
    write_message (write_resource resource_metrics 1 resource) 2
      (λ scope_metrics. write_metrics (write_scope scope_metrics 1 scope.0 scope.1) metrics))

module _ (as_f64 : ℕ → ℕ) (add_f64 : ℕ → ℕ → ℕ) where
  -- `Hist::record`.
  unfoldable pub record_sample : ℕ → Hist → Hist
  record_sample ms hist = record {
    count = add_one hist.count;
    sum_ms = add_f64 hist.sum_ms (as_f64 ms);
    buckets = add_at (bucket_of ms) hist.buckets;
  }

  unfoldable pub record_call : Call → Registry → Registry
  record_call c r = record r {
    state = record {
      calls = entry call_key_eq (call_key c) 0 add_one r.state.calls;
      duration =
          entry dur_key_eq (dur_key c) default_hist (record_sample c.duration_ms) r.state.duration;
    };
  }

  -- Calls, one after the other.
  abbrev pub record_calls : List Call → Registry → Registry
  record_calls [] r = r
  record_calls (c ∷ cs) r = record_calls cs (record_call c r)

  unfoldable pub write_histogram_point : Bytes → HistogramPoint → Bytes
  write_histogram_point hist point = write_message hist 1 (λ dp.
      write_attributes
        (write_packed_double
          (write_packed_fixed64
            (write_double_always
              (write_fixed64
                (write_fixed64 (write_fixed64 dp 2 point.start_time_unix_nano) 3
                  point.time_unix_nano)
                4 point.count)
              5 point.sum_ms)
            6 point.bucket_counts)
          7 (map as_f64 bounds))
        9 point.attrs)

  abbrev write_histogram_points : Bytes → List HistogramPoint → Bytes
  write_histogram_points hist [] = hist
  write_histogram_points hist (point ∷ points) =
      write_histogram_points (write_histogram_point hist point) points

  unfoldable pub encode_histogram : Text → Text → Text → List HistogramPoint → Bytes
  encode_histogram name unit description points =
      write_message (write_metric_head name unit description) 9 (λ hist.
        write_uint32 (write_histogram_points hist points) 2 aggregation_temporality_cumulative)

  abbrev pub sum_metric : ℕ → ℕ → List (CallKey × ℕ) → List Bytes
  sum_metric start now [] = []
  sum_metric start now (e ∷ es) =
      encode_sum (codes "ruoqa.tool.calls") (codes "{call}")
        (codes "Number of ruoqa-mcp tool calls.") (map (number_point start now) (e ∷ es))
      ∷ []

  abbrev pub histogram_metric : ℕ → ℕ → List (DurKey × Hist) → List Bytes
  histogram_metric start now [] = []
  histogram_metric start now (e ∷ es) =
      encode_histogram (codes "ruoqa.tool.duration") (codes "ms")
        (codes "Duration of ruoqa-mcp tool calls, in milliseconds.")
        (map (histogram_point start now) (e ∷ es))
      ∷ []

  unfoldable pub collect : ℕ → Registry → List Bytes
  collect now r =
      sum_metric r.start_time_unix_nano now r.state.calls
      ++ histogram_metric r.start_time_unix_nano now r.state.duration
