-- ===== src/Tests/Export.antt =====
-- A batch through the exporter, and an attribute list on the wire.
use ruoqa_mcp.Common.{
  ok, ℕ, zero, suc, ◌+◌, ◌≤◌, ◌<◌, ◌≡◌, ◌↔◌, true, none, some, List, [], ◌∷◌, ◌++◌, arith, length,
  All,
}
use ruoqa_mcp.Common.Int.{pos}
use ruoqa_mcp.Otel.Proto.{Bytes, Value, str, int, bool, write_varint, write_attributes}
use ruoqa_mcp.Otel.Proto.Reader.{◌>>=◌, read_varint, read_message, attributes_of}
use ruoqa_mcp.Otel.Proto.Varint.{read_varint-write_varint, write_varint_shape}
use ruoqa_mcp.Otel.Proto.Attributes.{attributes-write_attributes}
use ruoqa_mcp.Otel.Pipeline.{
  Reply, response, no_response, Sent, Event, enqueued, received, delay_passed, cancelled, flushed,
  max_send_attempts, send_with_retry, start, run,
}
use ruoqa_mcp.Otel.Pipeline.Send.{DeliversWithin, send_with_retry_outcome}
use ruoqa_mcp.Otel.Pipeline.Counts.{IsAccounted}
use ruoqa_mcp.Otel.Pipeline.Accounting.{run-IsAccounted}

read_varint-write_varint_example : read_varint (write_varint [] 300 ++ 7 ∷ []) ≡ some (300, 7 ∷ [])
read_varint-write_varint_example = read_varint-write_varint 300 (7 ∷ [])

write_varint_shape_example :
    (length (write_varint [] 300) ≤ 10) × All (λ b. b < 256) (write_varint [] 300)
write_varint_shape_example = write_varint_shape 300 (omega arith)

abbrev three_attributes : List (Bytes × Value)
three_attributes = (97 ∷ [], str (98 ∷ [])) ∷ (99 ∷ [], int (pos 0)) ∷ (100 ∷ [], bool true) ∷ []

attributes-write_attributes_example :
    (read_message (write_attributes [] 6 three_attributes) >>= attributes_of 6)
    ≡ some ((97 ∷ [], some (str (98 ∷ []))) ∷ (99 ∷ [], none) ∷ (100 ∷ [], some (bool true)) ∷ [])
attributes-write_attributes_example =
    attributes-write_attributes 6 three_attributes (omega arith) (tt, (omega arith, (tt, tt)))

-- Down for two POSTs, then up.
abbrev flaky : ℕ → Bytes → Reply
flaky zero body = no_response
flaky (suc zero) body = response 503 (some 4)
flaky (suc (suc n)) body = response 200 none

send_with_retry_outcome_example :
    (s : Sent) × (send_with_retry flaky [] 0 ≡ some s)
    × (s.posts ≡ 0 + 1 + length s.waits)
    × (length s.waits < max_send_attempts)
    × ((s.outcome ≡ ok tt) ↔ DeliversWithin (λ k. flaky k []) 0)
send_with_retry_outcome_example = send_with_retry_outcome flaky [] 0

abbrev a_schedule : List Event
a_schedule =
    enqueued (1 ∷ [])
    ∷ received
    ∷ enqueued (2 ∷ [])
    ∷ enqueued (3 ∷ [])
    ∷ enqueued (4 ∷ [])
    ∷ delay_passed
    ∷ cancelled
    ∷ flushed
    ∷ enqueued (5 ∷ [])
    ∷ []

abbrev concatenated : List Bytes → Bytes
concatenated [] = []
concatenated (b ∷ bs) = b ++ concatenated bs

run-IsAccounted_example : IsAccounted 2 (run flaky concatenated 2 8 a_schedule start)
run-IsAccounted_example = run-IsAccounted 2 flaky concatenated 8 a_schedule
