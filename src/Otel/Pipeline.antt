-- ===== src/Otel/Pipeline.antt =====
-- src/otel/pipeline.rs: the bounded export queue of one signal, its export task, and the POST with
-- bounded retry. The collector is a function from the number of a POST and its body to a reply.
pub mod Send
pub mod Counts
pub mod Accounting
use ruoqa_mcp.Common.{
  ℕ, zero, suc, ◌+◌, ◌-◌, ◌*◌, ◌/◌, ◌%◌, ◌^◌, ◌≤◌, ◌<◌, min, max, String, ◌≡◌, refl, sym, ap, ◌∙◌,
  subst, ◌≢◌, ◌↔◌, ◌⊎◌, inl, inr, Bool, true, false, ◌&&◌, ◌||◌, not, Option, none, some, List, [],
  ◌∷◌, ◌++◌, map, reverse, append-nil, append_assoc, arith, str_eq, eq_iff, ltb, leb, ◌==◌,
  if◌then◌else◌, ltb→lt, lt→ltb, leb→le, ==_iff, Bool-cases, Option-cases, is_some, is_none,
  unwrap_or, length, get_elem?, take, drop, replicate, any, all, length-append, All, All-append,
  take-append-drop, length-take, length-drop, take_append, drop_append, length-map, filter_map,
  filter, Result, ok, err, ◌>>=◌, ◌>>◌, map_err, ok_or, is_ok, Result-cases,
}
use ruoqa_mcp.Common.Text.{Text, codes, text_eq, starts_with}
use ruoqa_mcp.Otel.Proto.{Bytes}

-- Targets by their code points; `::` is two colons.
abbrev pub excluded_targets : List Text
excluded_targets =
    codes "ruoqa_mcp::otel"
    ∷ codes "reqwest"
    ∷ codes "hyper"
    ∷ codes "hyper_util"
    ∷ codes "rustls"
    ∷ codes "h2"
    ∷ codes "tower"
    ∷ []

unfoldable pub excluded : Text → Bool
excluded target =
    any (λ excl. text_eq target excl || starts_with (excl ++ codes "::") target) excluded_targets

abbrev pub max_send_attempts : ℕ
max_send_attempts = 3

-- `RETRY_BACKOFF`, in seconds.
abbrev pub retry_backoff : ℕ
retry_backoff = 1

pub data DropReason : Type 0 where
  queue_full network http_status shutdown : DropReason

-- The counters are `AtomicU64`s: `fetch_add` wraps.
pub record Dropped : Type 0 where
  pub queue_full : ℕ
  pub network : ℕ
  pub http_status : ℕ
  pub shutdown : ℕ

unfoldable pub counter : Dropped → DropReason → ℕ
counter d queue_full = d.queue_full
counter d network = d.network
counter d http_status = d.http_status
counter d shutdown = d.shutdown

abbrev pub bump : Dropped → DropReason → ℕ → Dropped
bump d queue_full n = record d { queue_full = (d.queue_full + n) % 2 ^ 64 }
bump d network n = record d { network = (d.network + n) % 2 ^ 64 }
bump d http_status n = record d { http_status = (d.http_status + n) % 2 ^ 64 }
bump d shutdown n = record d { shutdown = (d.shutdown + n) % 2 ^ 64 }

-- `u64::is_power_of_two`.
power_below : ℕ → ℕ → Bool
power_below zero n = false
power_below (suc k) n = n == 2 ^ k || power_below k n

unfoldable pub is_power_of_two : ℕ → Bool
unfolding power_below
is_power_of_two n = power_below 64 n

-- `Dropped::record`: the new counters, and the warning that is logged.
unfoldable pub record_drop : Dropped → DropReason → ℕ → Dropped × Option (DropReason × ℕ)
unfolding counter
record_drop d reason n =
    if n == 0
    then (d, none)
    else (let total = counter d reason + n in
        (bump d reason n, (if is_power_of_two total then some (reason, total) else none)))

pub record Health : Type 0 where
  pub delivering : Bool
  pub consecutive_failures : ℕ

abbrev pub new_health : Health
new_health = record { delivering = true; consecutive_failures = 0 }

unfoldable pub health_ok : Health → Health
health_ok h = record { delivering = true; consecutive_failures = 0 }

unfoldable pub health_fail : Health → Health
health_fail h = record {
  delivering = false;
  consecutive_failures = (h.consecutive_failures + 1) % 2 ^ 64;
}

-- What a POST comes back with: a status and the seconds of a parseable `Retry-After`, or no answer.
pub data Reply : Type 0 where
  response : ℕ → Option ℕ → Reply
  no_response : Reply

pub data SendError : Type 0 where
  network_error : SendError
  status_error : ℕ → SendError

-- `StatusCode::is_success`.
abbrev pub is_success : ℕ → Bool
is_success status = leb 200 status && leb status 299

abbrev pub retryable : ℕ → Bool
retryable status = status == 429 || status == 502 || status == 503 || status == 504

-- How a send ended, after how many POSTs in all, and the seconds waited between them.
pub record Sent : Type 0 where
  pub outcome : Result (Unit {0}) SendError
  pub posts : ℕ
  pub waits : List ℕ

module _ (collector : ℕ → Bytes → Reply) (body : Bytes) where
  -- The loop; `none` means that the fuel ran out.
  send_loop : ℕ → ℕ → ℕ → List ℕ → Option Sent
  send_loop zero attempt posts waits = none
  send_loop (suc fuel) attempt posts waits =
      let attempt' = attempt + 1 in
      let again = λ (delay : ℕ). send_loop fuel attempt' (posts + 1) (waits ++ delay ∷ []) in
      let stop : Result (Unit {0}) SendError → Option Sent =
        λ r. some (record { outcome = r; posts = posts + 1; waits = waits }) in
      elim (collector posts body) [
        | response status retry_after ↦
            if is_success status
            then stop (ok tt)
            else (if retryable status && ltb attempt' max_send_attempts
                then again (unwrap_or retry_after retry_backoff)
                else stop (err (status_error status)))
        | no_response ↦
            if ltb attempt' max_send_attempts then again retry_backoff else stop (err network_error)
      ]

  -- Three rounds, since the third attempt returns.
  unfoldable pub send_with_retry : ℕ → Option Sent
  unfolding send_loop
  send_with_retry posts = send_loop max_send_attempts 0 posts []

abbrev pub drop_reason : SendError → DropReason
drop_reason network_error = network
drop_reason (status_error status) = http_status

-- Whether the export task still runs its loop, is in its final flush, or has ended and dropped the
-- receiver.
pub data Phase : Type 0 where
  running flushing ended : Phase

-- The queue, the task and what they share. `accepted`, `exports` and `lost` are no fields of the
-- code: they record every record that `try_send` took, every batch that was posted with what came
-- of it, and what was still queued when the receiver was dropped.
pub record Exporter : Type 0 where
  pub queue : List Bytes
  pub batch : List Bytes
  pub dropped : Dropped
  pub warnings : List (DropReason × ℕ)
  pub health : Health
  pub phase : Phase
  pub posts : ℕ
  pub accepted : List Bytes
  pub exports : List (List Bytes × Option SendError)
  pub lost : List Bytes

abbrev pub no_drops : Dropped
no_drops = record { queue_full = 0; network = 0; http_status = 0; shutdown = 0 }

-- `Exporter::start`.
abbrev pub start : Exporter
start = record {
  queue = [];
  batch = [];
  dropped = no_drops;
  warnings = [];
  health = new_health;
  phase = running;
  posts = 0;
  accepted = [];
  exports = [];
  lost = [];
}

abbrev pub logged {ℓ} : {A : Type ℓ} → Option A → List A
logged none = []
logged (some w) = w ∷ []

abbrev pub account : Exporter → DropReason → ℕ → Exporter
account s reason n =
    let r = record_drop s.dropped reason n in
    record s { dropped = r.0; warnings = s.warnings ++ logged r.1 }

-- `Producer::enqueue`: a `try_send` that counts what it could not queue.
unfoldable pub enqueue : ℕ → Bytes → Exporter → Exporter
enqueue max_queue_size r s = elim s.phase [
  | ended ↦ account s shutdown 1
  | _ ↦
      if ltb (length s.queue) max_queue_size
      then record s { queue = s.queue ++ r ∷ []; accepted = s.accepted ++ r ∷ [] }
      else account s queue_full 1
]

-- The batch is taken, posted, and accounted as a whole.
abbrev pub after_send : List Bytes → Exporter → Option Sent → Exporter
after_send records s none = s
after_send records s (some sent) = elim sent.outcome [
  | ok _ ↦ record s {
    health = health_ok s.health;
    posts = sent.posts;
    exports = s.exports ++ (records, none) ∷ [];
  }
  | err e ↦ record (account s (drop_reason e) (length records)) {
    health = health_fail s.health;
    posts = sent.posts;
    exports = s.exports ++ (records, some e) ∷ [];
  }
]

-- Cancelled: the loop is left, and what is queued is drained into the batch.
unfoldable pub on_cancel : Exporter → Exporter
on_cancel s = elim s.phase [
  | running ↦ record s { batch = s.batch ++ s.queue; queue = []; phase = flushing }
  | _ ↦ s
]

-- The task returns, and its receiver is dropped.
abbrev pub finish : Exporter → Exporter
finish s = record s { phase = ended; lost = s.queue; queue = [] }

-- What wakes the export task, or reaches its queue.
pub data Event : Type 0 where
  enqueued : Bytes → Event
  received delay_passed cancelled flushed : Event

module _ (collector : ℕ → Bytes → Reply) (encode_batch : List Bytes → Bytes) where
  unfoldable pub export : Exporter → Exporter
  export s =
      after_send s.batch (record s { batch = [] })
        (send_with_retry collector (encode_batch s.batch) s.posts)

  -- A received record: the batch is exported once it is full.
  unfoldable pub receive : ℕ → List Bytes → Exporter → Exporter
  receive max_batch [] s = s
  receive max_batch (r ∷ queue) s =
      let s' = record s { queue = queue; batch = s.batch ++ r ∷ [] } in
      if leb max_batch (length s'.batch) then export s' else s'

  unfoldable pub on_receive : ℕ → Exporter → Exporter
  on_receive max_batch s = elim s.phase [ running ↦ receive max_batch s.queue s | _ ↦ s ]

  -- Exported only if the batch holds something.
  unfoldable pub export_some : List Bytes → Exporter → Exporter
  export_some [] s = s
  export_some (b ∷ bs) s = export s

  -- The schedule delay has passed.
  unfoldable pub on_delay : Exporter → Exporter
  on_delay s = elim s.phase [ running ↦ export_some s.batch s | _ ↦ s ]

  -- The final export, and the end of the task.
  unfoldable pub on_flush : Exporter → Exporter
  on_flush s = elim s.phase [ flushing ↦ finish (export_some s.batch s) | _ ↦ s ]

  unfoldable pub step : ℕ → ℕ → Event → Exporter → Exporter
  step max_queue_size max_batch (enqueued r) s = enqueue max_queue_size r s
  step max_queue_size max_batch received s = on_receive max_batch s
  step max_queue_size max_batch delay_passed s = on_delay s
  step max_queue_size max_batch cancelled s = on_cancel s
  step max_queue_size max_batch flushed s = on_flush s

  unfoldable pub run : ℕ → ℕ → List Event → Exporter → Exporter
  run max_queue_size max_batch [] s = s
  run max_queue_size max_batch (e ∷ es) s =
      run max_queue_size max_batch es (step max_queue_size max_batch e s)

-- `Exporter::shutdown` when the task has not ended within the budget: what is still queued is
-- counted.
unfoldable pub shutdown_timed_out : Exporter → Exporter
shutdown_timed_out s = account s shutdown (length s.queue)
