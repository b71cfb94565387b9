-- ===== src/Error.antt =====
-- The failures of a request to openQA: src/error.rs. An error of the client library is what the
-- match of `classify` tells apart, with the status and the body of a refused request; a text is
-- its UTF-8 bytes.
pub mod Classes
use ruoqa_mcp.Common.{
  ℕ, zero, suc, ◌+◌, ◌-◌, ◌*◌, ◌/◌, ◌%◌, ◌^◌, ◌≤◌, ◌<◌, min, max, String, ◌≡◌, refl, sym, ap, ◌∙◌,
  subst, ◌≢◌, ◌↔◌, ◌⊎◌, inl, inr, Bool, true, false, ◌&&◌, ◌||◌, not, Option, none, some, List, [],
  ◌∷◌, ◌++◌, map, reverse, append-nil, append_assoc, arith, str_eq, eq_iff, ltb, leb, ◌==◌,
  if◌then◌else◌, ltb→lt, lt→ltb, leb→le, ==_iff, Bool-cases, Option-cases, is_some, is_none,
  unwrap_or, length, get_elem?, take, drop, replicate, any, all, length-append, All, All-append,
  take-append-drop, length-take, length-drop, take_append, drop_append, length-map, filter_map,
  filter, Result, ok, err, is_ok, Result-cases, >>=-eq-ok,
}
use ruoqa_mcp.Otel.Proto.{Bytes}
use ruoqa_mcp.Otel.Traces.{is_continuation}

-- `internal` stands for all the variants that the code does not name.
pub data ClientError : Type 0 where
  request : ℕ → Bytes → ClientError
  connection deadline_exceeded body_too_large invalid_body internal : ClientError

-- The payload of a tool error.
pub record ToolError : Type 0 where
  pub kind : String
  pub status : Option ℕ
  pub message : Bytes
  pub body : Option Bytes

abbrev pub body_preview_bytes : ℕ
body_preview_bytes = 512

unfoldable pub status_kind : ℕ → String
status_kind status =
    if status == 401
    then "unauthorized"
    else (if status == 403
        then "forbidden"
        else (if status == 404
            then "not_found"
            else (if status == 429
                then "rate_limited"
                else if leb 400 status && leb status 499
                then "bad_request"
                else "server_error")))

-- A character starts at this byte, or the text ends there.
abbrev starts_char : Bytes → Bool
starts_char [] = true
starts_char (b ∷ rest) = not (is_continuation b)

-- `str::is_char_boundary`.
abbrev pub is_char_boundary : Bytes → ℕ → Bool
is_char_boundary s zero = true
is_char_boundary s (suc n) = leb (suc n) (length s) && starts_char (drop (suc n) s)

-- The loop that moves `end` down to a boundary.
abbrev pub boundary_below : Bytes → ℕ → ℕ
boundary_below s zero = zero
boundary_below s (suc n) =
    let below = boundary_below s n in if is_char_boundary s (suc n) then suc n else below

unfoldable pub truncate : Bytes → ℕ → Bytes
truncate s max_bytes = if leb (length s) max_bytes then s else take (boundary_below s max_bytes) s

unfoldable pub tool_error : String → Option ℕ → Bytes → Option Bytes → ToolError
tool_error kind status message body = record {
  kind = kind;
  status = status;
  message = message;
  body = elim body [ none ↦ none | some b ↦ some (truncate b body_preview_bytes) ];
}

unfoldable pub audit_unavailable : Bytes → ToolError
audit_unavailable message = tool_error "audit_unavailable" none message none

-- The tool error, or the message of a protocol error.
unfoldable pub classify : Bytes → ClientError → Result ToolError Bytes
classify message (request status body) =
    ok (tool_error (status_kind status) (some status) message (some body))
classify message connection = ok (tool_error "connection" none message none)
classify message deadline_exceeded = ok (tool_error "timeout" none message none)
classify message body_too_large = ok (tool_error "response_too_large" none message none)
classify message invalid_body = ok (tool_error "invalid_response" none message none)
classify message internal = err message

unfoldable pub kind_of : ClientError → String
kind_of (request status body) = status_kind status
kind_of connection = "connection"
kind_of deadline_exceeded = "timeout"
kind_of body_too_large = "response_too_large"
kind_of invalid_body = "invalid_response"
kind_of internal = "internal"
