-- ===== src/Audit/Record.antt =====
-- One line of the audit stream: the records of src/audit.rs, the argument capture policy, the
-- configuration and the attributes of the OTLP bridge.
pub mod Capture
use ruoqa_mcp.Common.{
  ℕ, zero, suc, ◌+◌, ◌-◌, ◌*◌, ◌/◌, ◌%◌, ◌^◌, ◌≤◌, ◌<◌, min, max, String, ◌≡◌, refl, sym, ap, ◌∙◌,
  subst, ◌≢◌, ◌↔◌, ◌⊎◌, inl, inr, Bool, true, false, ◌&&◌, ◌||◌, not, Option, none, some, List, [],
  ◌∷◌, ◌++◌, ◌^◌, ◌-◌, ◌++◌, map, reverse, append-nil, append_assoc, arith, str_eq, eq_iff, ltb,
  leb, ◌==◌, if◌then◌else◌, ltb→lt, lt→ltb, leb→le, ==_iff, Bool-cases, Option-cases, is_some,
  is_none, unwrap_or, length, get_elem?, take, drop, replicate, any, all, length-append, All,
  All-append, take-append-drop, length-take, length-drop, take_append, drop_append, length-map,
  filter_map, filter, Result, ok, err, is_ok, Result-cases, >>=-eq-ok,
}
use Prim.Native.Char.{code}
use ruoqa_mcp.Common.Json.{
  Json, null, bool, number, string, array, object, Items, Fields, end, field, unsigned,
  length_items, length_fields,
}

pub data Transport : Type 0 where
  stdio http : Transport

pub data RecordScope : Type 0 where
  read_scope write_scope no_scope : RecordScope

pub data Event : Type 0 where
  session_open tool_call audit_gap shutdown : Event

-- The code of a protocol error is a signed integer, kept as the text that `rpc_{code}` prints.
pub data Outcome : Type 0 where
  ok_outcome : Outcome
  tool_error : String → Option ℕ → Outcome
  protocol_error : String → Outcome

pub record Record : Type 0 where
  pub ts : String
  pub seq : ℕ
  pub session : String
  pub transport : Transport
  pub scope : RecordScope
  pub event : Event
  pub tool : Option String
  pub server : Option String
  pub args : Option Json
  pub outcome : Option Outcome
  pub duration_ms : Option ℕ
  pub trace : Option String
  pub span : Option String
  pub count : Option ℕ
  pub since : Option String
  pub refused : Option ℕ

abbrev pub transport_str : Transport → String
transport_str stdio = "stdio"
transport_str http = "http"

abbrev pub event_str : Event → String
event_str session_open = "session_open"
event_str tool_call = "tool_call"
event_str audit_gap = "audit_gap"
event_str shutdown = "shutdown"

-- `Record::event`; `seq` and `ts` are filled in by `Auditor::write`.
unfoldable pub new_record : String → Transport → RecordScope → Event → Record
new_record session transport scope event = record {
  ts = "";
  seq = 0;
  session = session;
  transport = transport;
  scope = scope;
  event = event;
  tool = none;
  server = none;
  args = none;
  outcome = none;
  duration_ms = none;
  trace = none;
  span = none;
  count = none;
  since = none;
  refused = none;
}

abbrev pub args_allow : List String
args_allow =
    "server" ∷ "job_id" ∷ "job_ids" ∷ "ids" ∷ "group_id" ∷ "groupid" ∷ "parent_group_id"
    ∷ "comment_id" ∷ "scheduled_product_id" ∷ "asset_id" ∷ "bugid" ∷ "build" ∷ "distri" ∷ "version"
    ∷ "flavor" ∷ "arch" ∷ "machine" ∷ "test" ∷ "result" ∷ "state" ∷ "group" ∷ "text" ∷ "title"
    ∷ "prio" ∷ "force" ∷ "dup_type_auto" ∷ "filename" ∷ "member" ∷ "tool" ∷ "tier" ∷ []

abbrev pub args_max_array : ℕ
args_max_array = 20

-- `String::len`: the bytes of the UTF-8 encoding.
abbrev pub utf8_len : String → ℕ
utf8_len String.[] = 0
utf8_len (String.◌∷◌ c s) =
    (if ltb (code c) 0x80
      then 1
      else if ltb (code c) 0x800
      then 2
      else if ltb (code c) 0x10000
      then 3
      else 4)
    + utf8_len s

abbrev pub summary_len : Json → ℕ
summary_len (string s) = utf8_len s
summary_len (array vs) = length_items vs
summary_len (object fs) = length_fields fs
summary_len _ = 0

unfoldable pub summarize : Json → Json
summarize value = object (field "_len" (number (unsigned (summary_len value))) end)

unfoldable pub capture_allowed : Json → Json
capture_allowed (array vs) =
    if ltb args_max_array (length_items vs) then summarize (array vs) else array vs
capture_allowed value = value

unfoldable pub is_allowed : String → Bool
is_allowed key = any (λ k. str_eq k key) args_allow

abbrev pub capture_fields : Fields → Fields
capture_fields end = end
capture_fields (field key value rest) =
    field key (if is_allowed key then capture_allowed value else summarize value)
      (capture_fields rest)

unfoldable pub capture_args : Option Fields → Option Json
capture_args none = none
capture_args (some end) = none
capture_args (some (field key value rest)) = some (object (capture_fields (field key value rest)))

pub data FailMode : Type 0 where
  fail_open closed_writes closed_all : FailMode

-- The document as `toml` hands it over, the defaults of absent keys not yet filled in.
pub record RawAuditConfig : Type 0 where
  pub path : String
  pub fsync : Option Bool
  pub fail_mode : Option FailMode
  pub rotate_max_bytes : Option ℕ
  pub rotate_keep : Option ℕ

pub record AuditConfig : Type 0 where
  pub path : Option String
  pub fsync : Bool
  pub fail_mode : Option FailMode
  pub rotate_max_bytes : ℕ
  pub rotate_keep : ℕ

abbrev pub default_rotate_max_bytes : ℕ
default_rotate_max_bytes = 64 * 1024 * 1024

abbrev pub default_rotate_keep : ℕ
default_rotate_keep = 8

-- The part of `AuditConfig::parse` after the TOML parser.
unfoldable pub parse : RawAuditConfig → AuditConfig
parse raw = record {
  path = if str_eq raw.path "none" then none else some raw.path;
  fsync = unwrap_or raw.fsync false;
  fail_mode = raw.fail_mode;
  rotate_max_bytes = unwrap_or raw.rotate_max_bytes default_rotate_max_bytes;
  rotate_keep = min 10000 (max 1 (unwrap_or raw.rotate_keep default_rotate_keep));
}

unfoldable pub fail_mode_for : AuditConfig → Transport → FailMode
fail_mode_for cfg stdio = unwrap_or cfg.fail_mode fail_open
fail_mode_for cfg http = unwrap_or cfg.fail_mode closed_all

pub data Severity : Type 0 where
  error_severity info_severity : Severity

-- A number above the largest `i64` is exported as that.
pub data AuditAttr : Type 0 where
  str_attr : String → AuditAttr
  int_attr : ℕ → AuditAttr

abbrev clamped : ℕ → AuditAttr
clamped n = int_attr (min n (2 ^ 63 - 1))

abbrev str_attrs : String → Option String → List (String × AuditAttr)
str_attrs key none = []
str_attrs key (some s) = (key, str_attr s) ∷ []

abbrev int_attrs : String → Option ℕ → List (String × AuditAttr)
int_attrs key none = []
int_attrs key (some n) = (key, clamped n) ∷ []

abbrev severity_of : Event → Severity
severity_of audit_gap = error_severity
severity_of _ = info_severity

module _ (rpc_kind : String → String) where
  -- `outcome`, flattened; `rpc_kind` prints `rpc_{code}`.
  abbrev outcome_attrs : Option Outcome → List (String × AuditAttr)
  outcome_attrs none = []
  outcome_attrs (some ok_outcome) = ("outcome", str_attr "ok") ∷ []
  outcome_attrs (some (tool_error kind status)) =
      ("outcome", str_attr "tool_error") ∷ ("error.kind", str_attr kind) ∷ []
  outcome_attrs (some (protocol_error code)) =
      ("outcome", str_attr "protocol_error") ∷ ("error.kind", str_attr (rpc_kind code)) ∷ []

  unfoldable pub otlp_attributes : Record → Severity × List (String × AuditAttr)
  otlp_attributes r = (
    severity_of r.event,
    ("ruoqa.stream", str_attr "audit")
        ∷ ("event", str_attr (event_str r.event))
        ∷ ("seq", clamped r.seq)
        ∷ ("transport", str_attr (transport_str r.transport))
        ∷ (str_attrs "tool" r.tool
            ++ (str_attrs "server" r.server
                ++ (outcome_attrs r.outcome
                    ++ (int_attrs "count" r.count ++ int_attrs "refused" r.refused)))),
  )
