-- ===== src/Calls.antt =====
-- One tool call from its arrival to its record, `call_tool` of src/server.rs: the gate, the
-- dispatch, the classification of the result, and what each stream is told of it. The readings of
-- the clocks, the random ids and the elapsed time come with the call, the tools themselves and what
-- they change are a parameter, and so is the conversion of a text from its bytes.
pub mod Gated
pub mod Recorded
use ruoqa_mcp.Common.{
  ℕ, zero, suc, ◌+◌, ◌-◌, ◌*◌, ◌/◌, ◌%◌, ◌^◌, ◌≤◌, ◌<◌, min, max, String, ◌≡◌, refl, sym, ap, ◌∙◌,
  subst, ◌≢◌, ◌↔◌, ◌⊎◌, inl, inr, Bool, true, false, ◌&&◌, ◌||◌, not, Option, none, some, List, [],
  ◌∷◌, ◌++◌, map, reverse, append-nil, append_assoc, arith, str_eq, eq_iff, ltb, leb, ◌==◌,
  if◌then◌else◌, ltb→lt, lt→ltb, leb→le, ==_iff, Bool-cases, Option-cases, is_some, is_none,
  unwrap_or, length, get_elem?, take, drop, replicate, any, all, length-append, all-append, All,
  All-append, take-append-drop, length-take, length-drop, take_append, drop_append, length-map,
  filter_map, filter, filter_kept, filter_left_out, Result, ok, err, ◌>>=◌, ◌>>◌, map_err, ok_or,
  is_ok, Result-cases, >>=-eq-ok, ok-injective, ok_or-eq-ok,
}
use ruoqa_mcp.Common.Text.{Text, codes}
use ruoqa_mcp.Common.Json.{
  Json, string, number, unsigned, object, Fields, end, field, get_field, as_str,
}
use ruoqa_mcp.Http.{Scope}
use ruoqa_mcp.Server.{
  Tool, authorize, record_scope, gate, CallResult, complete, other_success, failed, outcome_of,
}
use ruoqa_mcp.Audit.Record.{
  Transport, Record, RecordScope, read_scope, write_scope, no_scope, Outcome, ok_outcome,
  tool_error, protocol_error, capture_args,
}
use ruoqa_mcp.Audit.Auditor.{Auditor, tool_call_event, write}
use ruoqa_mcp.Otel.Proto.{Bytes, Value, str}
use ruoqa_mcp.Otel.Traces.{
  SpanCtx, Sampler, Decoded, panicked, rejected, decoded, start_call_span, hex_encode,
}
use ruoqa_mcp.Otel.Pipeline.{Exporter, enqueue}
use ruoqa_mcp.Otel.Records.{server as server_kind, encode_span}
use ruoqa_mcp.Otel.Metrics.{Call, Registry}
use ruoqa_mcp.Otel.Metrics.Recording.{record_call}

-- The traces stream: the sampler, the size of the queue, and the exporter behind it.
pub record Traces : Type 0 where
  pub sampler : Sampler
  pub max_queue_size : ℕ
  pub exporter : Exporter

-- What a call changes besides openQA: each stream is off where it is `none`.
pub record Streams : Type 0 where
  pub audit : Option Auditor
  pub traces : Option Traces
  pub metrics : Option Registry

-- A request, and what the call reads of its surroundings.
pub record Request : Type 0 where
  pub name : String
  pub arguments : Option Fields
  pub scope : Option Scope
  pub session_header : Option String
  pub traceparent : Option Bytes
  pub random_trace_id : Option Bytes
  pub random_span_id : Option Bytes
  pub now : String
  pub ts : String
  pub delivering : Bool
  pub start_wall_nanos : ℕ
  pub end_wall_nanos : ℕ
  pub duration_ms : ℕ

abbrev pub scope_str : RecordScope → String
scope_str read_scope = "read"
scope_str write_scope = "write"
scope_str no_scope = "none"

abbrev pub outcome_str : Outcome → String
outcome_str ok_outcome = "ok"
outcome_str (tool_error kind status) = "tool_error"
outcome_str (protocol_error code) = "protocol_error"

abbrev pub error_kind : Outcome → Option String
error_kind (tool_error kind status) = some kind
error_kind _ = none

-- The JSON of a tool error without a body.
abbrev status_field : Option ℕ → Fields
status_field none = end
status_field (some status) = field "status" (number (unsigned status)) end

abbrev pub error_result : String → Option ℕ → String → CallResult
error_result kind status message =
    let error =
      object
        (field "kind" (string kind) (field "message" (string message) (status_field status))) in
    complete (some true) (some (object (field "error" error end)))

abbrev pub audit_refusal : CallResult
audit_refusal =
    error_result "audit_unavailable" none
      "the audit stream is unavailable; this call was not attempted"

abbrev pub session_of : Option String → String → String
session_of header process_session = unwrap_or header process_session

abbrev pub argument : String → Option Fields → Option Json
argument key none = none
argument key (some fields) = get_field key fields

abbrev str_of : Option Json → Option String
str_of none = none
str_of (some v) = as_str v

abbrev pub server_selector : Option Fields → Option String
server_selector arguments = str_of (argument "server" arguments)

abbrev opt_value : Bytes → Option Text → List (Bytes × Value)
opt_value key none = []
opt_value key (some v) = (key, str v) ∷ []

abbrev pub opt_codes : Option String → Option Text
opt_codes none = none
opt_codes (some s) = some (codes s)

unfoldable pub emit_tool_span :
    Traces
    → SpanCtx
    → Option Bytes
    → String
    → RecordScope
    → Outcome
    → Option Text
    → Request
    → Traces
emit_tool_span traces ctx parent_span_id tool scope outcome server r =
    let attrs =
      (codes "tool", str (codes tool))
        ∷ (codes "scope", str (codes (scope_str scope)))
        ∷ (codes "outcome", str (codes (outcome_str outcome)))
        ∷ opt_value (codes "server") server
      ++ opt_value (codes "error.kind") (opt_codes (error_kind outcome)) in
    let span =
      encode_span ctx parent_span_id (codes "mcp.tool/" ++ codes tool) server_kind
        r.start_wall_nanos r.end_wall_nanos attrs (opt_codes (error_kind outcome)) in
    record traces { exporter = enqueue traces.max_queue_size span traces.exporter }

-- The span that a call has, with the id of its parent.
abbrev pub Span : Type 0
Span = Option (SpanCtx × Option Bytes)

abbrev pub started : Option Traces → Request → Decoded Span
started none r = decoded none
started (some traces) r =
    start_call_span traces.sampler r.traceparent r.random_trace_id r.random_span_id

abbrev pub with_span :
    Option Traces → Span → RecordScope → Outcome → Option Text → Request → Option Traces
with_span none span scope ended server r = none
with_span (some traces) none scope ended server r = some traces
with_span (some traces) (some (ctx, parent)) scope ended server r =
    some (emit_tool_span traces ctx parent r.name scope ended server r)

abbrev pub metric_call : String → Option Text → Outcome → ℕ → Call
metric_call tool server outcome duration_ms = record {
  tool = codes tool;
  server = server;
  outcome = codes (outcome_str outcome);
  error_kind = opt_codes (error_kind outcome);
  duration_ms = duration_ms;
}

-- The server as it stands: what does not change over a call.
pub record Server : Type 0 where
  pub tools : List Tool
  pub enforce_scopes : Bool
  pub transport : Transport
  pub resolve_id : Text → Option Text
  pub deadline_message : String

abbrev resolved : (Text → Option Text) → Option String → Option Text
resolved resolve_id none = none
resolved resolve_id (some selector) = resolve_id (codes selector)

-- `none` where the deadline has passed before the tool has answered.
abbrev pub in_time {ℓ} : {World : Type ℓ} → String → Option CallResult × World → CallResult × World
in_time message (none, w) = (error_result "timeout" none message, w)
in_time message (some result, w) = (result, w)

module _ {World : Type 0}
    (run_tool : String → Option Fields → World → Option CallResult × World) where
  unfoldable pub dispatch : Server → Request → World → CallResult × World
  dispatch s r w = elim (authorize s.enforce_scopes s.tools r.name r.scope) [
    | ok _ ↦ in_time s.deadline_message (run_tool r.name r.arguments w)
    | err _ ↦ (failed "-32600", w)
  ]

  abbrev pub answer : Bool → Server → Request → World → CallResult × World
  answer refused s r w = if refused then (audit_refusal, w) else dispatch s r w

module _ (as_f64 : ℕ → ℕ) (add_f64 : ℕ → ℕ → ℕ) where
  abbrev pub measured : Call → Option Registry → Option Registry
  measured call none = none
  measured call (some metrics) = some (record_call as_f64 add_f64 call metrics)

module _ (to_json : Record → Bytes) (text_of : Text → String) where
  abbrev trace_ids : Span → Option (String × String)
  trace_ids none = none
  trace_ids (some (ctx, parent)) =
      some (text_of (hex_encode ctx.trace_id), text_of (hex_encode ctx.span_id))

  abbrev shown_id : Option Text → Option String
  shown_id none = none
  shown_id (some id) = some (text_of id)

  -- The record of a call.
  abbrev pub call_record : Server → Request → Auditor → Span → Outcome → Record
  call_record s r audit span outcome =
      tool_call_event (session_of r.session_header audit.process_session) s.transport
        (record_scope s.tools r.name) r.name
        (shown_id (resolved s.resolve_id (server_selector r.arguments))) (capture_args r.arguments)
        outcome r.duration_ms (trace_ids span)

  abbrev pub audited : Server → Request → Span → Outcome → Option Auditor → Option Auditor
  audited s r span ended none = none
  audited s r span ended (some audit) =
      some (write to_json r.ts r.now r.delivering (call_record s r audit span ended) audit)

module _ (as_f64 : ℕ → ℕ) (add_f64 : ℕ → ℕ → ℕ) (to_json : Record → Bytes) (text_of : Text → String)
    {World : Type 0} (run_tool : String → Option Fields → World → Option CallResult × World) where
  -- What follows the dispatch.
  unfoldable pub tail : Server → Request → Span → Outcome → Option Auditor → Streams → Streams
  tail s r span outcome audit streams =
      let scope = record_scope s.tools r.name in
      let server = resolved s.resolve_id (server_selector r.arguments) in
      record {
        audit = audited to_json text_of s r span outcome audit;
        traces = with_span streams.traces span scope outcome server r;
        metrics =
            measured as_f64 add_f64 (metric_call r.name server outcome r.duration_ms)
              streams.metrics;
      }

  abbrev pub conclude :
      Server
      → Request
      → Streams
      → World
      → Bool
      → Option Auditor
      → Decoded Span
      → Decoded (CallResult × Streams × World)
  conclude s r streams w refused audit panicked = panicked
  conclude s r streams w refused audit rejected = rejected
  conclude s r streams w refused audit (decoded span) =
      let (result, w) = answer run_tool refused s r w in
      decoded (result, tail s r span (outcome_of result) audit streams, w)

  -- The result, the streams and the world after a call; `panicked` where the handler panics.
  unfoldable pub call_tool :
      Server → Request → Streams → World → Decoded (CallResult × Streams × World)
  call_tool s r streams w =
      let (refused, audit) = gate (record_scope s.tools r.name) r.now streams.audit in
      conclude s r streams w refused audit (started streams.traces r)
