-- ===== src/Tests/Metrics.antt =====
-- Three calls in the registry of the metrics.
use ruoqa_mcp.Common.{ℕ, ◌+◌, ◌≡◌, none, some, List, [], ◌∷◌, arith}
use ruoqa_mcp.Common.Text.{codes}
use ruoqa_mcp.Otel.Metrics.{CallKey, DurKey, Call, new_registry}
use ruoqa_mcp.Otel.Metrics.Counts.{calls_of, hist_of, sum, nth}
use ruoqa_mcp.Otel.Metrics.Recording.{record_calls}
use ruoqa_mcp.Otel.Metrics.Series.{record_calls_lem}

-- Doubles are kept as whole numbers.
abbrev whole : ℕ → ℕ
whole n = n

abbrev plus : ℕ → ℕ → ℕ
plus m n = m + n

abbrev call_in : ℕ → Call
call_in ms = record {
  tool = codes "get_job";
  server = some (codes "osd");
  outcome = codes "ok";
  error_kind = none;
  duration_ms = ms;
}

abbrev three_calls : List Call
three_calls = call_in 3 ∷ call_in 5 ∷ call_in 20000 ∷ []

abbrev get_job_calls : CallKey
get_job_calls = record {
  tool = codes "get_job";
  server = some (codes "osd");
  outcome = codes "ok";
  error_kind = none;
}

abbrev get_job_series : DurKey
get_job_series = record { tool = codes "get_job"; server = some (codes "osd") }

-- Two of the three durations lie in the bucket up to 5 ms.
record_calls_lem_example :
    (calls_of get_job_calls (record_calls whole plus three_calls (new_registry 1)) ≡ 3)
    × ((hist_of get_job_series (record_calls whole plus three_calls (new_registry 1))).count ≡ 3)
    × (sum (hist_of get_job_series (record_calls whole plus three_calls (new_registry 1))).buckets
        ≡ (hist_of get_job_series (record_calls whole plus three_calls (new_registry 1))).count)
    × (nth 1 (hist_of get_job_series (record_calls whole plus three_calls (new_registry 1))).buckets
        ≡ 2)
record_calls_lem_example =
    record_calls_lem whole plus 1 three_calls get_job_calls get_job_series 1 (omega arith)
