-- ===== src/Tests/Calls.antt =====
-- A call that the audit gate lets through, and one that it refuses.
use ruoqa_mcp.Common.{
  ℕ, suc, ◌+◌, String, ◌≡◌, refl, ◌⊎◌, true, false, Option, none, some, [], ◌∷◌, ◌++◌, ok, err,
}
use ruoqa_mcp.Common.Text.{Text}
use ruoqa_mcp.Common.Json.{Fields}
use ruoqa_mcp.Http.{read}
use ruoqa_mcp.Server.{
  is_read_only, denied, CallResult, complete, failed, outcome_of, record_scope, authorize, gate,
}
use ruoqa_mcp.Audit.Disk.{Disk}
use ruoqa_mcp.Audit.Record.{Record, stdio, closed_writes, capture_args, read_scope}
use ruoqa_mcp.Audit.Auditor.{Auditor, tool_call_event, write, refuses}
use ruoqa_mcp.Otel.Proto.{Bytes}
use ruoqa_mcp.Otel.Metrics.{new_registry}
use ruoqa_mcp.Calls.{
  Streams, Request, Server, audit_refusal, in_time, measured, metric_call, tail, dispatch,
  call_tool,
}
use ruoqa_mcp.Calls.Gated.{call_tool_gated}
use ruoqa_mcp.Calls.Recorded.{call_records, call_tool_recorded}

abbrev whole : ℕ → ℕ
whole n = n

abbrev plus : ℕ → ℕ → ℕ
plus m n = m + n

abbrev no_json : Record → Bytes
no_json r = []

abbrev no_text : Text → String
no_text t = ""

-- The world counts the tools that have run.
abbrev count_run : String → Option Fields → ℕ → Option CallResult × ℕ
count_run name arguments w = (some (complete none none), suc w)

abbrev empty_disk : Disk
empty_disk = record { names = λ _. none; contents = λ _. []; fresh = 0; faults = [] }

abbrev collecting : Auditor
collecting = record {
  sink = none;
  disk = empty_disk;
  gap = none;
  has_otlp = true;
  failing = true;
  fail_mode = closed_writes;
  seq = 1;
  process_session = "p1-0";
  exported = [];
}

abbrev a_server : Server
a_server = record {
  tools = record { name = "get_job"; annotations = some (some true) } ∷ [];
  enforce_scopes = true;
  transport = stdio;
  resolve_id = λ t. some t;
  deadline_message = "late";
}

abbrev request_of : String → Request
request_of name = record {
  name = name;
  arguments = none;
  scope = some read;
  session_header = none;
  traceparent = none;
  random_trace_id = none;
  random_span_id = none;
  now = "n";
  ts = "t";
  delivering = true;
  start_wall_nanos = 1;
  end_wall_nanos = 2;
  duration_ms = 3;
}

abbrev some_streams : Streams
some_streams = record { audit = some collecting; traces = none; metrics = some (new_registry 1) }

abbrev after_call : Streams
after_call = record {
  audit = some (
      write no_json "t" "n" true
        (tool_call_event "p1-0" stdio read_scope "get_job" none none
          (outcome_of (complete none none)) 3 none)
        collecting);
  traces = none;
  metrics =
      measured whole plus (metric_call "get_job" none (outcome_of (complete none none)) 3)
        (some (new_registry 1));
}

call_tool_gated_example :
    ((false ≡ true) × (complete none none ≡ audit_refusal) × (◌≡◌ {A = ℕ} 1 0))
    ⊎ (((false ≡ false)
          × (authorize true a_server.tools "get_job" (some read) ≡ err denied)
          × (complete none none ≡ failed "-32600")
          × (◌≡◌ {A = ℕ} 1 0))
        ⊎ ((false ≡ false)
            × (authorize true a_server.tools "get_job" (some read) ≡ ok tt)
            × ((complete none none, 1) ≡ in_time "late" (count_run "get_job" none 0))))
unfolding call_tool tail dispatch gate record_scope is_read_only authorize refuses capture_args
call_tool_gated_example =
    call_tool_gated whole plus no_json no_text count_run a_server (request_of "get_job")
      some_streams 0 {result = complete none none} {streams' = after_call} {w' = 1} refl

call_tool_recorded_example :
    (a' : Auditor) × (e : Record) × (server : Option Text) × (after_call.audit ≡ some a')
    × (call_records a'.exported ≡ [] ++ e ∷ [])
    × (e.tool ≡ some "get_job")
    × (e.scope ≡ record_scope a_server.tools "get_job")
    × (e.outcome ≡ some (outcome_of (complete none none)))
    × (after_call.metrics
        ≡ measured whole plus
            (metric_call "get_job" server (outcome_of (complete none none)) 3)
            some_streams.metrics)
unfolding call_tool tail dispatch gate record_scope is_read_only authorize refuses capture_args
call_tool_recorded_example =
    call_tool_recorded whole plus no_json no_text count_run a_server (request_of "get_job")
      some_streams 0 collecting {result = complete none none} {streams' = after_call} {w' = 1} refl
      refl refl
