-- ===== src/Otel/Pipeline/Send.antt =====
-- `send_with_retry`: it ends, within three POSTs, and which replies make it succeed.
use ruoqa_mcp.Common.{
  ℕ, zero, suc, ◌+◌, ◌<◌, ◌≡◌, ◌↔◌, inl, inr, Bool, true, false, ◌&&◌, not, some, [], ◌∷◌, arith,
  if◌then◌else◌, Bool-cases, unwrap_or, length, ok, err,
}
use native.Mathlib.Nat.{add-zero}
use ruoqa_mcp.Otel.Proto.{Bytes}
use ruoqa_mcp.Otel.Pipeline.{
  Reply, response, no_response, SendError, network_error, status_error, is_success, retryable,
  max_send_attempts, retry_backoff, Sent, send_with_retry,
}

-- A reply that ends the send well, and one after which it is tried again.
abbrev pub succeeds : Reply → Bool
succeeds (response status _) = is_success status
succeeds no_response = false

abbrev pub tries_again : Reply → Bool
tries_again (response status _) = not (is_success status) && retryable status
tries_again no_response = true

-- The seconds that are waited before the next attempt.
abbrev pub wait_after : Reply → ℕ
wait_after (response _ retry_after) = unwrap_or retry_after retry_backoff
wait_after no_response = retry_backoff

abbrev pub failure : Reply → SendError
failure (response status _) = status_error status
failure no_response = network_error

-- The three attempts written out.
abbrev pub sent_by : (ℕ → Reply) → ℕ → Sent
sent_by reply n =
    if succeeds (reply n)
    then record { outcome = ok tt; posts = n + 1; waits = [] }
    else (if not (tries_again (reply n))
        then record { outcome = err (failure (reply n)); posts = n + 1; waits = [] }
        else (if succeeds (reply (n + 1))
            then record { outcome = ok tt; posts = n + 2; waits = wait_after (reply n) ∷ [] }
            else (if not (tries_again (reply (n + 1)))
                then record {
                  outcome = err (failure (reply (n + 1)));
                  posts = n + 2;
                  waits = wait_after (reply n) ∷ [];
                }
                else record {
                  outcome =
                      if succeeds (reply (n + 2)) then ok tt else err (failure (reply (n + 2)));
                  posts = n + 3;
                  waits = wait_after (reply n) ∷ wait_after (reply (n + 1)) ∷ [];
                })))

module _ (collector : ℕ → Bytes → Reply) (body : Bytes) where
  -- On any replies the send ends, and it ends as the three attempts written out do: after the
  -- first success, after the first reply that is not worth another attempt, or after the third.
  pub send_with_retry-sent_by :
      (n : ℕ) → send_with_retry collector body n ≡ some (sent_by (λ k. collector k body) n)
  unfolding send_with_retry
  send_with_retry-sent_by n = ground arith

-- Some attempt among the first three succeeds, and each before it is worth another one.
abbrev pub DeliversWithin : (ℕ → Reply) → ℕ → Type 0
DeliversWithin reply n =
    (k : ℕ) × (k < max_send_attempts)
    × (succeeds (reply (n + k)) ≡ true)
    × ((j : ℕ) → j < k → tries_again (reply (n + j)) ≡ true)

module _ (reply : ℕ → Reply) (n : ℕ) where
  first_again : tries_again (reply n) ≡ true → (j : ℕ) → j < 1 → tries_again (reply (n + j)) ≡ true
  first_again a zero lt = rw add-zero a
  first_again a (suc j) lt = absurd (omega arith)

  both_again :
      tries_again (reply n) ≡ true
      → tries_again (reply (n + 1)) ≡ true
      → (j : ℕ) → j < 2
      → tries_again (reply (n + j)) ≡ true
  both_again a b zero lt = rw add-zero a
  both_again a b (suc zero) lt = b
  both_again a b (suc (suc j)) lt = absurd (omega arith)

  sent_by_sound : (sent_by reply n).outcome ≡ ok tt → DeliversWithin reply n
  sent_by_sound h = elim (Bool-cases (succeeds (reply n))) [
    | inl a ↦ (0, omega arith, rw (add-zero) a, λ j lt. absurd (omega arith))
    | inr a ↦ elim (Bool-cases (succeeds (reply (n + 1)))) [
      | inl b ↦ (1, omega arith, b, first_again (ground arith))
      | inr b ↦ (2, omega arith, ground arith, both_again (ground arith) (ground arith))
    ]
  ]

  sent_by_complete : DeliversWithin reply n → (sent_by reply n).outcome ≡ ok tt
  sent_by_complete (zero, lt, s, before) = let s' = rw add-zero at s in ground arith
  sent_by_complete (suc zero, lt, s, before) =
      let b = before 0 (omega arith) in let b' = rw add-zero at b in ground arith
  sent_by_complete (suc (suc zero), lt, s, before) =
      let a = before 0 (omega arith) in
      let a' = rw add-zero at a in let b = before 1 (omega arith) in ground arith
  sent_by_complete (suc (suc (suc k)), lt, s, before) = absurd (omega arith)

module _ (collector : ℕ → Bytes → Reply) (body : Bytes) where
  -- On any replies the send ends, after one to three POSTs with a wait between each two, and it
  -- succeeds exactly when one of three attempts does and each before that one got a reply that is
  -- worth another attempt.
  pub send_with_retry_outcome :
      (n : ℕ)
      → (s : Sent) × (send_with_retry collector body n ≡ some s)
        × (s.posts ≡ n + 1 + length s.waits)
        × (length s.waits < max_send_attempts)
        × ((s.outcome ≡ ok tt) ↔ DeliversWithin (λ k. collector k body) n)
  send_with_retry_outcome n =
      let reply : ℕ → Reply = λ k. collector k body in
      (
        sent_by reply n,
        send_with_retry-sent_by collector body n,
        ground arith,
        ground arith,
        (sent_by_sound reply n, sent_by_complete reply n),
      )
