-- ===== src/Otel/Records.antt =====
-- The bodies of log records and spans, and the requests that carry them: the encoders of
-- src/otel/logs.rs and src/otel/traces.rs over the protobuf writer. A text is its bytes.
use ruoqa_mcp.Common.{ℕ, Bool, true, false, Option, none, some, List, [], ◌∷◌}
use ruoqa_mcp.Common.Text.{Text, codes}
use ruoqa_mcp.Otel.Proto.{
  Bytes, Value, str, write_string, write_message, write_fixed32, write_fixed64, write_any_value,
  write_attributes, write_uint32, write_resource, write_scope, write_bytes,
}
use ruoqa_mcp.Otel.Traces.{SpanCtx}

pub data Severity : Type 0 where
  trace debug info warn error : Severity

abbrev pub severity_number : Severity → ℕ
severity_number trace = 1
severity_number debug = 5
severity_number info = 9
severity_number warn = 13
severity_number error = 17

abbrev pub severity_text : Severity → Text
severity_text trace = codes "TRACE"
severity_text debug = codes "DEBUG"
severity_text info = codes "INFO"
severity_text warn = codes "WARN"
severity_text error = codes "ERROR"

abbrev pub bit : Bool → ℕ
bit true = 1
bit false = 0

abbrev pub write_correlation : Bytes → Option SpanCtx → Bytes
write_correlation buf none = buf
write_correlation buf (some span) =
    write_bytes (write_bytes (write_fixed32 buf 8 (bit span.sampled)) 9 span.trace_id) 10
      span.span_id

unfoldable pub encode_record : ℕ → Severity → Bytes → List (Bytes × Value) → Option SpanCtx → Bytes
encode_record ts severity body attrs span =
    let head =
      write_string (write_uint32 (write_fixed64 [] 1 ts) 2 (severity_number severity)) 3
        (severity_text severity) in
    let described = write_attributes (write_any_value head 5 (str body)) 6 attrs in
    write_correlation (write_fixed64 described 11 ts) span

abbrev write_bodies : Bytes → List Bytes → Bytes
write_bodies buf [] = buf
write_bodies buf (body ∷ bodies) = write_bodies (write_bytes buf 2 body) bodies

-- `encode_request` of the logs, and that of the traces with the same field numbers.
unfoldable pub encode_logs_request : List (Bytes × Value) → Text × Text → List Bytes → Bytes
encode_logs_request resource scope records = write_message [] 1 (λ resource_logs.
    write_message (write_resource resource_logs 1 resource) 2
      (λ scope_logs. write_bodies (write_scope scope_logs 1 scope.0 scope.1) records))

unfoldable pub encode_traces_request : List (Bytes × Value) → Text × Text → List Bytes → Bytes
encode_traces_request resource scope spans = write_message [] 1 (λ resource_spans.
    write_message (write_resource resource_spans 1 resource) 2
      (λ scope_spans. write_bodies (write_scope scope_spans 1 scope.0 scope.1) spans))

pub data SpanKind : Type 0 where
  internal server client : SpanKind

abbrev pub kind_number : SpanKind → ℕ
kind_number internal = 1
kind_number server = 2
kind_number client = 3

abbrev pub status_code_error : ℕ
status_code_error = 2

abbrev write_parent : Bytes → Option Bytes → Bytes
write_parent buf none = buf
write_parent buf (some parent) = write_bytes buf 4 parent

abbrev write_status : Bytes → Option Text → Bytes
write_status buf none = buf
write_status buf (some message) =
    write_message buf 15 (λ b. write_uint32 (write_string b 2 message) 3 status_code_error)

unfoldable pub encode_span :
    SpanCtx → Option Bytes → Text → SpanKind → ℕ → ℕ → List (Bytes × Value) → Option Text → Bytes
encode_span ctx parent_span_id name kind start_nanos end_nanos attrs error_message =
    let ids =
      write_parent (write_bytes (write_bytes [] 1 ctx.trace_id) 2 ctx.span_id) parent_span_id in
    let timed =
      write_fixed64
        (write_fixed64 (write_uint32 (write_string ids 5 name) 6 (kind_number kind)) 7 start_nanos)
        8 end_nanos in
    write_fixed32 (write_status (write_attributes timed 9 attrs) error_message) 16 (bit ctx.sampled)
