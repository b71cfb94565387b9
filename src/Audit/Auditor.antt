-- ===== src/Audit/Auditor.antt =====
-- The audit stream's write side: `Auditor` of src/audit.rs. Its lock makes every operation one
-- step. The clock's reading and the collector's delivery health are arguments of a step, and the
-- serialiser is a parameter. What the OTLP bridge was handed is the list `exported`.
pub mod Sequence
pub mod Gate
use ruoqa_mcp.Common.{
  ℕ, zero, suc, ◌+◌, ◌-◌, ◌*◌, ◌/◌, ◌%◌, ◌^◌, ◌≤◌, ◌<◌, min, max, String, ◌≡◌, refl, sym, ap, ◌∙◌,
  subst, ◌≢◌, ◌↔◌, ◌⊎◌, inl, inr, Bool, true, false, ◌&&◌, ◌||◌, not, Option, none, some, List, [],
  ◌∷◌, ◌++◌, map, reverse, append-nil, append_assoc, arith, str_eq, eq_iff, ltb, leb, ◌==◌,
  if◌then◌else◌, ltb→lt, lt→ltb, leb→le, ==_iff, Bool-cases, Option-cases, is_some, is_none,
  unwrap_or, length, get_elem?, take, drop, replicate, any, all, length-append, All, All-append,
  take-append-drop, length-take, length-drop, take_append, drop_append, length-map, filter_map,
  filter, Result, ok, err, is_ok, Result-cases, >>=-eq-ok,
}
use ruoqa_mcp.Otel.Proto.{Bytes}
use ruoqa_mcp.Common.Json.{Json}
use ruoqa_mcp.Audit.Disk.{ErrorKind, Disk}
use ruoqa_mcp.Audit.Sink.{Sink, World, append}
use ruoqa_mcp.Audit.Record.{
  Transport, RecordScope, read_scope, write_scope, no_scope, Event, session_open, tool_call,
  audit_gap, shutdown, Outcome, Record, new_record, FailMode, fail_open, closed_writes, closed_all,
}

pub record Gap : Type 0 where
  pub count : ℕ
  pub since : String
  pub refused : ℕ

pub record Auditor : Type 0 where
  pub sink : Option Sink
  pub disk : Disk
  pub gap : Option Gap
  pub has_otlp : Bool
  pub failing : Bool
  pub fail_mode : FailMode
  pub seq : ℕ
  pub process_session : String
  pub exported : List (Record × Bytes)

-- One more, on a `u64`.
abbrev pub increment : ℕ → ℕ
increment n = (n + 1) % 2 ^ 64

abbrev pub covers : FailMode → RecordScope → Bool
covers fail_open scope = false
covers closed_writes write_scope = true
covers closed_writes _ = false
covers closed_all scope = true

unfoldable pub refuses : Auditor → RecordScope → Bool
refuses a scope = if a.failing then covers a.fail_mode scope else false

unfoldable pub refused : String → Auditor → Auditor
refused now a =
    let gap : Gap = unwrap_or a.gap (record { count = 0; since = now; refused = 0 }) in
    record a { gap = some (record gap { refused = increment gap.refused }) }

-- `sink.append` where there is a sink: whether it succeeded, and the auditor after it.
abbrev pub append_line : Bytes → Auditor → Option Sink → Option Bool × Auditor
append_line line a none = (none, a)
append_line line a (some s) =
    let (r, w) = append line (record { sink = s; disk = a.disk }) in
    (some (is_ok r), record a { sink = some w.sink; disk = w.disk })

abbrev pub enqueue : Record → Bytes → Auditor → Auditor
enqueue r line a = if a.has_otlp then record a { exported = a.exported ++ (r, line) ∷ [] } else a

-- The records of `session_open`, `shutdown` and `tool_call`, which each of them writes.
unfoldable pub session_open_event : String → Transport → Record
session_open_event session transport = new_record session transport no_scope session_open

unfoldable pub shutdown_event : String → Transport → Record
shutdown_event session transport = new_record session transport no_scope shutdown

unfoldable pub tool_call_event :
    String
    → Transport
    → RecordScope
    → String
    → Option String
    → Option Json
    → Outcome
    → ℕ
    → Option (String × String)
    → Record
tool_call_event session transport scope tool server args outcome duration_ms trace =
    let r = new_record session transport no_scope tool_call in
    let r = record r {
      scope = scope;
      tool = some tool;
      server = server;
      args = args;
      outcome = some outcome;
      duration_ms = some duration_ms;
    } in
    elim trace [
      | none ↦ r
      | some (trace_id, span_id) ↦ record r { trace = some trace_id; span = some span_id }
    ]

module _ (to_json : Record → Bytes) where
  -- `Record::event` with the fields of a gap, its number and its time.
  unfoldable pub gap_record : String → Transport → String → ℕ → Gap → Record
  gap_record session transport now seq gap =
      record (new_record session transport no_scope audit_gap) {
        count = some gap.count;
        since = some gap.since;
        refused = some gap.refused;
        seq = seq;
        ts = now;
      }

  -- The recovery: the record of the gap that has ended.
  unfoldable pub close_gap : Transport → String → Gap → Auditor → Auditor
  close_gap transport now gap a =
      let r = gap_record a.process_session transport now a.seq gap in
      let a = record a { seq = increment a.seq } in
      let (_, a) = append_line (to_json r) a a.sink in enqueue r (to_json r) a

  -- A write that persisted, for the gap that was open.
  abbrev pub recover : Transport → String → Option Gap → Auditor → Auditor
  recover transport now none a = record a { failing = false }
  recover transport now (some gap) a =
      close_gap transport now gap (record a { failing = false; gap = none })

  unfoldable pub update_gap : Bool → Transport → String → String → Auditor → Auditor
  update_gap false transport ts now a =
      let gap : Gap = unwrap_or a.gap (record { count = 0; since = ts; refused = 0 }) in
      record a { failing = true; gap = some (record gap { count = increment gap.count }) }
  update_gap true transport ts now a = recover transport now a.gap a

  -- A record is written only where there is a sink or a producer.
  unfoldable pub is_disabled : Auditor → Bool
  is_disabled a = is_none a.sink && not a.has_otlp

  -- The record under its number, appended, handed to the bridge, and its effect on the gap.
  unfoldable pub write_record : String → String → Bool → Record → Auditor → Auditor
  write_record ts now delivering r a =
      let r = record r { seq = a.seq; ts = ts } in
      let a = record a { seq = increment a.seq } in
      let (persisted, a) = append_line (to_json r) a a.sink in
      update_gap (unwrap_or persisted delivering) r.transport ts now (enqueue r (to_json r) a)

  -- `ts` and `now` are the two readings of the clock, and `delivering` the producer's health.
  unfoldable pub write : String → String → Bool → Record → Auditor → Auditor
  write ts now delivering r a = if is_disabled a then a else write_record ts now delivering r a
