-- ===== src/Otel/Pipeline/Counts.antt =====
-- What each step of the export task does to the counters and the lists of records.
use ruoqa_mcp.Common.{
  ℕ, ◌+◌, ◌%◌, ◌^◌, ◌≤◌, ◌<◌, ◌≡◌, refl, sym, ap, ◌∙◌, ◌≢◌, ◌⊎◌, inl, inr, Bool, true, false,
  Option, some, List, [], ◌∷◌, ◌++◌, append-nil, append_assoc, arith, ltb, if◌then◌else◌,
  Bool-cases, length, Result-cases,
}
use ruoqa_mcp.Otel.Proto.{Bytes}
use ruoqa_mcp.Otel.Pipeline.{
  DropReason, queue_full, network, http_status, shutdown, record_drop, Reply, SendError,
  network_error, status_error, drop_reason, Phase, running, flushing, ended, Exporter, account,
  enqueue, after_send, export, export_some, receive, on_receive, on_delay, on_cancel, finish,
  on_flush,
}
use ruoqa_mcp.Otel.Pipeline.Send.{send_with_retry_outcome}

-- The records of the batches that were posted, in the order of the POSTs.
abbrev pub posted : List (List Bytes × Option SendError) → List Bytes
posted [] = []
posted ((records, outcome) ∷ es) = records ++ posted es

abbrev pub is_reason : DropReason → Option SendError → Bool
is_reason network (some network_error) = true
is_reason http_status (some (status_error status)) = true
is_reason _ _ = false

-- How many records went down with a batch that failed for this reason.
abbrev pub failed_by : DropReason → List (List Bytes × Option SendError) → ℕ
failed_by reason [] = 0
failed_by reason ((records, outcome) ∷ es) =
    (if is_reason reason outcome then length records else 0) + failed_by reason es

pub posted-append :
    (es : List (List Bytes × Option SendError)) (records : List Bytes) (outcome : Option SendError)
    → posted (es ++ (records, outcome) ∷ []) ≡ posted es ++ records
posted-append [] records outcome = append-nil records
posted-append ((rs, o) ∷ es) records outcome =
    ap (λ t. rs ++ t) (posted-append es records outcome) ∙ sym (append_assoc rs _ _)

pub failed_by-append :
    (reason : DropReason) (es : List (List Bytes × Option SendError)) (records : List Bytes)
    (outcome : Option SendError)
    → failed_by reason (es ++ (records, outcome) ∷ [])
      ≡ failed_by reason es + (if is_reason reason outcome then length records else 0)
failed_by-append reason [] records outcome = omega arith
failed_by-append reason ((rs, o) ∷ es) records outcome =
    omega (arith, failed_by-append reason es records outcome)

-- What holds at all times. Nothing that the queue took is lost or reordered on the way to a POST,
-- but for what is still queued when the task returns; the counters of failed exports count whole
-- batches; the queue stays within its bound.
pub record IsAccounted (max_queue_size : ℕ) (s : Exporter) : Type 0 where
  pub order : posted s.exports ++ (s.batch ++ (s.queue ++ s.lost)) ≡ s.accepted
  pub network_count : s.dropped.network ≡ failed_by network s.exports % 2 ^ 64
  pub http_status_count : s.dropped.http_status ≡ failed_by http_status s.exports % 2 ^ 64
  pub queue_bound : length s.queue ≤ max_queue_size
  pub none_lost : s.phase ≢ ended → s.lost ≡ []
  pub all_done : s.phase ≡ ended → (s.queue ≡ []) × (s.batch ≡ [])

-- The failure counters after a drop is counted.
pub account_counts :
    (s : Exporter) (reason : DropReason) (n : ℕ)
    → s.dropped.network < 2 ^ 64
    → s.dropped.http_status < 2 ^ 64
    → ((account s reason n).dropped.network
        ≡ (s.dropped.network + (if is_reason reason (some network_error) then n else 0)) % 2 ^ 64)
      × ((account s reason n).dropped.http_status
          ≡ (s.dropped.http_status + (if is_reason reason (some (status_error 0)) then n else 0))
            % 2 ^ 64)
unfolding record_drop
account_counts s queue_full n h k = ground arith
account_counts s network n h k = ground arith
account_counts s http_status n h k = ground arith
account_counts s shutdown n h k = ground arith

-- A failed batch counts under its own reason.
pub failed_counts :
    (s : Exporter) (e : SendError) (f g n : ℕ)
    → s.dropped.network ≡ f % 2 ^ 64
    → s.dropped.http_status ≡ g % 2 ^ 64
    → ((account s (drop_reason e) n).dropped.network
        ≡ (f + (if is_reason network (some e) then n else 0)) % 2 ^ 64)
      × ((account s (drop_reason e) n).dropped.http_status
          ≡ (g + (if is_reason http_status (some e) then n else 0)) % 2 ^ 64)
failed_counts s network_error f g n h k =
    let (c, d) = account_counts s network n (omega arith) (omega arith) in
    (omega arith, omega arith)
failed_counts s (status_error status) f g n h k =
    let (c, d) = account_counts s http_status n (omega arith) (omega arith) in
    (omega arith, omega arith)

Phase-cases : (p : Phase) → (p ≡ ended) ⊎ (p ≢ ended)
Phase-cases running = inr (λ e. cc)
Phase-cases flushing = inr (λ e. cc)
Phase-cases ended = inl refl

running-cases : (p : Phase) → (p ≡ running) ⊎ (p ≢ running)
running-cases running = inl refl
running-cases flushing = inr (λ e. cc)
running-cases ended = inr (λ e. cc)

flushing-cases : (p : Phase) → (p ≡ flushing) ⊎ (p ≢ flushing)
flushing-cases flushing = inl refl
flushing-cases running = inr (λ e. cc)
flushing-cases ended = inr (λ e. cc)

-- Either the queue takes the record, or a drop is counted that is no failed export.
pub enqueue_cases :
    (max_queue_size : ℕ) (r : Bytes) (s : Exporter)
    → ((s.phase ≢ ended)
        × (length s.queue < max_queue_size)
        × (enqueue max_queue_size r s
            ≡ record s { queue = s.queue ++ r ∷ []; accepted = s.accepted ++ r ∷ [] }))
      ⊎ ((reason : DropReason) × (is_reason reason (some network_error) ≡ false)
          × (is_reason reason (some (status_error 0)) ≡ false)
          × (enqueue max_queue_size r s ≡ account s reason 1))
unfolding enqueue
enqueue_cases max_queue_size r s = elim (Phase-cases s.phase) [
  | inl e ↦ inr (shutdown, refl, refl, ground arith)
  | inr going ↦ elim (Bool-cases (ltb (length s.queue) max_queue_size)) [
    | inl room ↦ inl (going, ground arith, ground arith)
    | inr full ↦ inr (queue_full, refl, refl, ground arith)
  ]
]

pub on_cancel_cases :
    (s : Exporter)
    → (on_cancel s ≡ s)
      ⊎ ((s.phase ≡ running)
          × (on_cancel s ≡ record s { batch = s.batch ++ s.queue; queue = []; phase = flushing }))
unfolding on_cancel
on_cancel_cases s = elim (running-cases s.phase) [
  | inl e ↦ inr (e, ground arith)
  | inr other ↦ inl (ground arith)
]

module _ (collector : ℕ → Bytes → Reply) (encode_batch : List Bytes → Bytes) where
  pub on_receive_cases :
      (max_batch : ℕ) (s : Exporter)
      → (on_receive collector encode_batch max_batch s ≡ s)
        ⊎ ((s.phase ≡ running)
            × (on_receive collector encode_batch max_batch s
                ≡ receive collector encode_batch max_batch s.queue s))
  unfolding on_receive
  on_receive_cases max_batch s = elim (running-cases s.phase) [
    | inl e ↦ inr (e, ground arith)
    | inr other ↦ inl (ground arith)
  ]

  pub on_delay_cases :
      (s : Exporter)
      → (on_delay collector encode_batch s ≡ s)
        ⊎ ((s.phase ≡ running)
            × (on_delay collector encode_batch s ≡ export_some collector encode_batch s.batch s))
  unfolding on_delay
  on_delay_cases s = elim (running-cases s.phase) [
    | inl e ↦ inr (e, ground arith)
    | inr other ↦ inl (ground arith)
  ]

  pub on_flush_cases :
      (s : Exporter)
      → (on_flush collector encode_batch s ≡ s)
        ⊎ ((s.phase ≡ flushing)
            × (on_flush collector encode_batch s
                ≡ finish (export_some collector encode_batch s.batch s)))
  unfolding on_flush
  on_flush_cases s = elim (flushing-cases s.phase) [
    | inl e ↦ inr (e, ground arith)
    | inr other ↦ inl (ground arith)
  ]

  -- An export leaves the phase alone and empties the batch.
  export_frame :
      (s : Exporter)
      → ((export collector encode_batch s).phase ≡ s.phase)
        × ((export collector encode_batch s).batch ≡ [])
  unfolding export
  export_frame s =
      let (sent, e, _, _, _) = send_with_retry_outcome collector (encode_batch s.batch) s.posts in
      elim (Result-cases sent.outcome) [
        | inl (_, o) ↦ rw (e, o, after_send) (refl, refl)
        | inr (reason, o) ↦ rw (e, o, after_send) (refl, refl)
      ]

  pub export_some_frame :
      (bs : List Bytes) (s : Exporter)
      → s.batch ≡ bs
      → ((export_some collector encode_batch bs s).phase ≡ s.phase)
        × ((export_some collector encode_batch bs s).batch ≡ [])
  unfolding export_some
  export_some_frame [] s e = (refl, e)
  export_some_frame (b ∷ bs) s e = export_frame s
