-- ===== src/Otel/Pipeline/Accounting.antt =====
-- The export task over any schedule of events: order, bounds and counters.
use ruoqa_mcp.Common.{
  ℕ, suc, ◌^◌, ◌<◌, ◌≡◌, refl, sym, ap, ◌∙◌, subst, ◌≢◌, inl, inr, false, Option, none, some, List,
  [], ◌∷◌, ◌++◌, append-nil, append_assoc, arith, leb, Bool-cases, length, length-append,
  Result-cases,
}
use ruoqa_mcp.Otel.Proto.{Bytes}
use ruoqa_mcp.Otel.Pipeline.{
  DropReason, Reply, SendError, network_error, status_error, Sent, ended, Exporter, start, account,
  enqueue, after_send, export, export_some, receive, on_receive, on_delay, on_cancel, finish,
  on_flush, Event, enqueued, received, delay_passed, cancelled, flushed, step, run,
}
use ruoqa_mcp.Otel.Pipeline.Send.{send_with_retry_outcome}
use ruoqa_mcp.Otel.Pipeline.Counts.{
  posted, is_reason, posted-append, failed_by-append, IsAccounted, account_counts, failed_counts,
  enqueue_cases, on_cancel_cases, on_receive_cases, on_delay_cases, on_flush_cases,
  export_some_frame,
}

module _ (max_queue_size : ℕ) where
  start-IsAccounted : IsAccounted max_queue_size start
  start-IsAccounted = record {
    order = refl;
    network_count = refl;
    http_status_count = refl;
    queue_bound = omega arith;
    none_lost = λ _. refl;
    all_done = λ _. (refl, refl);
  }

  counts_lt :
      (s : Exporter)
      → IsAccounted max_queue_size s
      → (s.dropped.network < 2 ^ 64) × (s.dropped.http_status < 2 ^ 64)
  counts_lt s v = rw (v.network_count, v.http_status_count) (omega arith, omega arith)

  -- A drop that is no failed export.
  account-IsAccounted :
      (s : Exporter) (reason : DropReason) (n : ℕ)
      → is_reason reason (some network_error) ≡ false
      → is_reason reason (some (status_error 0)) ≡ false
      → IsAccounted max_queue_size s
      → IsAccounted max_queue_size (account s reason n)
  account-IsAccounted s reason n p q v =
      let (a, b) = counts_lt s v in
      let (c, d) = account_counts s reason n a b in
      record {
        order = v.order;
        network_count = ground arith;
        http_status_count = ground arith;
        queue_bound = v.queue_bound;
        none_lost = v.none_lost;
        all_done = v.all_done;
      }

  order_push :
      (p b q l a : List Bytes) (r : Bytes)
      → l ≡ []
      → p ++ (b ++ (q ++ l)) ≡ a
      → p ++ (b ++ ((q ++ r ∷ []) ++ l)) ≡ a ++ r ∷ []
  order_push p b q l a r e h = rw (← h, e) (simp (append_assoc, append-nil))

  push-IsAccounted :
      (r : Bytes) (s : Exporter)
      → s.phase ≢ ended
      → length s.queue < max_queue_size
      → IsAccounted max_queue_size s
      → IsAccounted max_queue_size
          (record s { queue = s.queue ++ r ∷ []; accepted = s.accepted ++ r ∷ [] })
  push-IsAccounted r s p lt v = record {
    order = order_push _ s.batch s.queue s.lost s.accepted r (v.none_lost p) v.order;
    network_count = v.network_count;
    http_status_count = v.http_status_count;
    queue_bound = rw length-append (omega arith);
    none_lost = v.none_lost;
    all_done = λ e. absurd (p e);
  }

  enqueue-IsAccounted :
      (r : Bytes) (s : Exporter)
      → IsAccounted max_queue_size s
      → IsAccounted max_queue_size (enqueue max_queue_size r s)
  enqueue-IsAccounted r s v = elim (enqueue_cases max_queue_size r s) [
    | inl (p, lt, e) ↦ rw e (push-IsAccounted r s p lt v)
    | inr (reason, p, q, e) ↦ rw e (account-IsAccounted s reason 1 p q v)
  ]

  on_cancel-IsAccounted :
      (s : Exporter) → IsAccounted max_queue_size s → IsAccounted max_queue_size (on_cancel s)
  on_cancel-IsAccounted s v = elim (on_cancel_cases s) [
    | inl e ↦ rw e v
    | inr (p, e) ↦ rw e (record {
      order = ap (λ t. posted s.exports ++ t) (append_assoc s.batch s.queue s.lost) ∙ v.order;
      network_count = v.network_count;
      http_status_count = v.http_status_count;
      queue_bound = omega arith;
      none_lost = λ _. v.none_lost (λ q. cc);
      all_done = λ q. absurd (cc);
    })
  ]

  -- The batch moves to the end of what was posted.
  order_post :
      (es : List (List Bytes × Option SendError)) (b q l a : List Bytes) (o : Option SendError)
      → posted es ++ (b ++ (q ++ l)) ≡ a
      → posted (es ++ (b, o) ∷ []) ++ (q ++ l) ≡ a
  order_post es b q l a o h = rw posted-append (append_assoc (posted es) b (q ++ l) ∙ h)

  after_send-IsAccounted :
      (s : Exporter) (sent : Sent)
      → s.phase ≢ ended
      → IsAccounted max_queue_size s
      → IsAccounted max_queue_size (after_send s.batch (record s { batch = [] }) (some sent))
  after_send-IsAccounted s sent p v = elim (Result-cases sent.outcome) [
    | inl (_, e) ↦
        rw (e, after_send)
          (record {
            order = order_post s.exports s.batch s.queue s.lost s.accepted none v.order;
            network_count = rw failed_by-append (omega (arith, v.network_count));
            http_status_count = rw failed_by-append (omega (arith, v.http_status_count));
            queue_bound = v.queue_bound;
            none_lost = v.none_lost;
            all_done = λ q. absurd (p q);
          })
    | inr (reason, e) ↦
        rw (e, after_send)
          (record {
            order = order_post s.exports s.batch s.queue s.lost s.accepted (some reason) v.order;
            network_count =
                rw failed_by-append
                  (failed_counts s reason _ _ (length s.batch) v.network_count
                    v.http_status_count).0;
            http_status_count =
                rw failed_by-append
                  (failed_counts s reason _ _ (length s.batch) v.network_count
                    v.http_status_count).1;
            queue_bound = v.queue_bound;
            none_lost = v.none_lost;
            all_done = λ q. absurd (p q);
          })
  ]

  module _ (collector : ℕ → Bytes → Reply) (encode_batch : List Bytes → Bytes) where
    -- An export moves the batch to the end of what was posted.
    export-IsAccounted :
        (s : Exporter)
        → s.phase ≢ ended
        → IsAccounted max_queue_size s
        → IsAccounted max_queue_size (export collector encode_batch s)
    unfolding export
    export-IsAccounted s p v =
        let (sent, e, _, _, _) = send_with_retry_outcome collector (encode_batch s.batch) s.posts in
        rw (e, export) (after_send-IsAccounted s sent p v)

    export_some-IsAccounted :
        (bs : List Bytes) (s : Exporter)
        → s.phase ≢ ended
        → IsAccounted max_queue_size s
        → IsAccounted max_queue_size (export_some collector encode_batch bs s)
    unfolding export_some
    export_some-IsAccounted [] s p v = v
    export_some-IsAccounted (b ∷ bs) s p v = export-IsAccounted s p v

    receive-IsAccounted :
        (max_batch : ℕ) (qs : List Bytes) (s : Exporter)
        → s.queue ≡ qs
        → s.phase ≢ ended
        → IsAccounted max_queue_size s
        → IsAccounted max_queue_size (receive collector encode_batch max_batch qs s)
    unfolding receive
    receive-IsAccounted max_batch [] s e p v = v
    receive-IsAccounted max_batch (r ∷ qs) s e p v =
        elim (Bool-cases (leb max_batch (length (s.batch ++ r ∷ [])))) [
          | inl full ↦ rw full (export-IsAccounted _ p moved)
          | inr more ↦ rw more moved
        ]
      where
        moved : IsAccounted max_queue_size (record s { queue = qs; batch = s.batch ++ r ∷ [] })
        moved = record {
          order =
              ap (λ t. posted s.exports ++ t) (append_assoc s.batch (r ∷ []) (qs ++ s.lost))
              ∙ subst (λ q. posted s.exports ++ (s.batch ++ (q ++ s.lost)) ≡ s.accepted) e v.order;
          network_count = v.network_count;
          http_status_count = v.http_status_count;
          queue_bound =
              let l : length s.queue ≡ suc (length qs) = ap length e in
              omega (arith, v.queue_bound);
          none_lost = v.none_lost;
          all_done = λ q. absurd (p q);
        }

    on_receive-IsAccounted :
        (max_batch : ℕ) (s : Exporter)
        → IsAccounted max_queue_size s
        → IsAccounted max_queue_size (on_receive collector encode_batch max_batch s)
    on_receive-IsAccounted max_batch s v =
        elim (on_receive_cases collector encode_batch max_batch s) [
          | inl e ↦ rw e v
          | inr (p, e) ↦ rw e (receive-IsAccounted max_batch s.queue s refl (λ q. cc) v)
        ]

    on_delay-IsAccounted :
        (s : Exporter)
        → IsAccounted max_queue_size s
        → IsAccounted max_queue_size (on_delay collector encode_batch s)
    on_delay-IsAccounted s v = elim (on_delay_cases collector encode_batch s) [
      | inl e ↦ rw e v
      | inr (p, e) ↦ rw e (export_some-IsAccounted s.batch s (λ q. cc) v)
    ]

    finish-IsAccounted :
        (s : Exporter)
        → s.batch ≡ []
        → s.lost ≡ []
        → IsAccounted max_queue_size s
        → IsAccounted max_queue_size (finish s)
    finish-IsAccounted s b l v = record {
      order =
          subst (λ q. posted s.exports ++ (s.batch ++ q) ≡ s.accepted)
            (ap (λ t. s.queue ++ t) l ∙ append-nil s.queue) v.order;
      network_count = v.network_count;
      http_status_count = v.http_status_count;
      queue_bound = omega arith;
      none_lost = λ q. absurd (q refl);
      all_done = λ q. (refl, b);
    }

    on_flush-IsAccounted :
        (s : Exporter)
        → IsAccounted max_queue_size s
        → IsAccounted max_queue_size (on_flush collector encode_batch s)
    on_flush-IsAccounted s v = elim (on_flush_cases collector encode_batch s) [
      | inl e ↦ rw e v
      | inr (p, e) ↦
          let going : s.phase ≢ ended = λ q. cc in
          let w = export_some-IsAccounted s.batch s going v in
          let (same, empty) = export_some_frame collector encode_batch s.batch s refl in
          rw e (finish-IsAccounted _ empty (w.none_lost (λ q. going (sym same ∙ q))) w)
    ]

    pub step-IsAccounted :
        (max_batch : ℕ) (event : Event) (s : Exporter)
        → IsAccounted max_queue_size s
        → IsAccounted max_queue_size (step collector encode_batch max_queue_size max_batch event s)
    unfolding step
    step-IsAccounted max_batch (enqueued r) s v = enqueue-IsAccounted r s v
    step-IsAccounted max_batch received s v = on_receive-IsAccounted max_batch s v
    step-IsAccounted max_batch delay_passed s v = on_delay-IsAccounted s v
    step-IsAccounted max_batch cancelled s v = on_cancel-IsAccounted s v
    step-IsAccounted max_batch flushed s v = on_flush-IsAccounted s v

    run_from-IsAccounted :
        (max_batch : ℕ) (events : List Event) (s : Exporter)
        → IsAccounted max_queue_size s
        → IsAccounted max_queue_size (run collector encode_batch max_queue_size max_batch events s)
    unfolding run
    run_from-IsAccounted max_batch [] s v = v
    run_from-IsAccounted max_batch (e ∷ es) s v =
        run_from-IsAccounted max_batch es _ (step-IsAccounted max_batch e s v)

    -- From its start and over any schedule of enqueued records, receptions, delays, cancellation
    -- and final flush, whatever the collector replies: what the queue accepted is, in order, what
    -- was posted, then the batch, the queue and what was still queued at the end; the counters of
    -- network and status failures are the records of the batches that failed so, modulo 2 ^ 64;
    -- and the queue stays within its bound.
    pub run-IsAccounted :
        (max_batch : ℕ) (events : List Event)
        → IsAccounted max_queue_size
            (run collector encode_batch max_queue_size max_batch events start)
    run-IsAccounted max_batch events = run_from-IsAccounted max_batch events start start-IsAccounted
