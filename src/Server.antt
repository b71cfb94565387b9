-- ===== src/Server.antt =====
-- Access to the tools: src/server.rs, from the scope that the HTTP middleware has set to the
-- tools that a principal sees and may call, the audit gate and the classification of a result.
-- The tool router is the list of the registered tools, whose names differ.
pub mod Access
use ruoqa_mcp.Common.{
  ℕ, zero, suc, ◌+◌, ◌-◌, ◌*◌, ◌/◌, ◌%◌, ◌^◌, ◌≤◌, ◌<◌, min, max, String, ◌≡◌, refl, sym, ap, ◌∙◌,
  subst, ◌≢◌, ◌↔◌, ◌⊎◌, inl, inr, Bool, true, false, ◌&&◌, ◌||◌, not, Option, none, some, List, [],
  ◌∷◌, ◌++◌, map, reverse, append-nil, append_assoc, arith, str_eq, eq_iff, ltb, leb, ◌==◌,
  if◌then◌else◌, ltb→lt, lt→ltb, leb→le, ==_iff, Bool-cases, Option-cases, is_some, is_none,
  unwrap_or, length, get_elem?, take, drop, replicate, any, all, length-append, All, All-append,
  take-append-drop, length-take, length-drop, take_append, drop_append, length-map, filter_map,
  filter, Result, ok, err, is_ok, Result-cases, >>=-eq-ok,
}
use ruoqa_mcp.Http.{Scope, read, write, Passed, next, refused, HttpAuth, authenticate}
use ruoqa_mcp.Common.Json.{Json, get, as_str, as_u64}
use ruoqa_mcp.Audit.Record.{
  RecordScope, read_scope, write_scope, Outcome, ok_outcome, tool_error, protocol_error,
}
use ruoqa_mcp.Audit.Auditor.{Auditor, refuses, refused as count_refusal}

-- `read_only_hint` of the annotations, where there are any.
pub record Tool : Type 0 where
  pub name : String
  pub annotations : Option (Option Bool)

unfoldable pub is_read_only : Tool → Bool
is_read_only t = unwrap_or (unwrap_or t.annotations none) false

-- `tool_router.get`.
abbrev pub get_tool : List Tool → String → Option Tool
get_tool [] name = none
get_tool (t ∷ ts) name = if str_eq t.name name then some t else get_tool ts name

abbrev pub hint_of : Option Tool → Bool
hint_of none = false
hint_of (some t) = is_read_only t

-- Why a call is not dispatched.
pub data Denied : Type 0 where
  denied : Denied

abbrev pub scope_allows : Option Scope → Option Tool → Result (Unit {0}) Denied
scope_allows (some write) t = ok tt
scope_allows (some read) t = if hint_of t then ok tt else err denied
scope_allows none t = err denied

unfoldable pub authorize : Bool → List Tool → String → Option Scope → Result (Unit {0}) Denied
authorize enforce_scopes tools name scope =
    if enforce_scopes then scope_allows scope (get_tool tools name) else ok tt

unfoldable pub record_scope : List Tool → String → RecordScope
record_scope tools name = if hint_of (get_tool tools name) then read_scope else write_scope

abbrev gate_with : RecordScope → String → Option Auditor → Bool × Option Auditor
gate_with scope now none = (false, none)
gate_with scope now (some audit) =
    if refuses audit scope then (true, some (count_refusal now audit)) else (false, some audit)

-- The gate, and the auditor after it.
unfoldable pub gate : RecordScope → String → Option Auditor → Bool × Option Auditor
gate scope now audit = gate_with scope now audit

abbrev pub visible : Option Scope → List Tool → Result (List Tool) Denied
visible (some write) tools = ok tools
visible (some read) tools = ok (filter is_read_only tools)
visible none tools = err denied

-- The tools of `list_tools`.
unfoldable pub list_tools : Bool → List Tool → Option Scope → Result (List Tool) Denied
list_tools enforce_scopes tools scope = if enforce_scopes then visible scope tools else ok tools

-- A call's result: the error flag and the first text block of a completed one, parsed as JSON
-- where it parses; some other success; or the code of a protocol error.
pub data CallResult : Type 0 where
  complete : Option Bool → Option Json → CallResult
  other_success : CallResult
  failed : String → CallResult

abbrev and_get : String → Option Json → Option Json
and_get key none = none
and_get key (some v) = get key v

abbrev and_str : Option Json → Option String
and_str none = none
and_str (some v) = as_str v

abbrev and_status : Option Json → Option ℕ
and_status none = none
and_status (some v) = elim (as_u64 v) [
  | none ↦ none
  | some n ↦ if ltb n (2 ^ 16) then some n else none
]

unfoldable pub tool_error_outcome : Option Json → Outcome
tool_error_outcome payload =
    let error = and_get "error" payload in
    tool_error (unwrap_or (and_str (and_get "kind" error)) "unknown")
      (and_status (and_get "status" error))

unfoldable pub outcome_of : CallResult → Outcome
outcome_of (complete (some true) payload) = tool_error_outcome payload
outcome_of (complete _ payload) = ok_outcome
outcome_of other_success = ok_outcome
outcome_of (failed code) = protocol_error code

-- One request over HTTP: the middleware, then the authorization of a call. `none` where the
-- middleware has answered itself.
unfoldable pub http_call :
    HttpAuth → List Tool → String → Option (List ℕ) → Option (Result (Unit {0}) Denied)
http_call auth tools name header = elim (authenticate auth header) [
  | next scope ↦ some (authorize (not auth.insecure) tools name scope)
  | refused status ↦ none
]
