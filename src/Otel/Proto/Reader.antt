-- ===== src/Otel/Proto/Reader.antt =====
-- The protobuf wire format as a reader, written from the format and not from the writer: base-128
-- numbers, tags, and the three kinds of payload that OTLP uses. A oneof with no member is `none`.

use ruoqa_mcp.Common.{
  ℕ, zero, suc, ◌+◌, ◌-◌, ◌*◌, ◌/◌, ◌%◌, ◌^◌, true, false, Option, none, some, List, [], ◌∷◌, ◌==◌,
  ltb, leb, if◌then◌else◌, length, take, drop,
}
use ruoqa_mcp.Common.Int.{ℤ, pos, negsuc}
use ruoqa_mcp.Otel.Proto.{Bytes, Value, str, int, bool, double}

infixl 5 ◌>>=◌
abbrev pub ◌>>=◌ {ℓ κ} : {A : Type ℓ} {B : Type κ} → Option A → (A → Option B) → Option B
none >>= f = none
some a >>= f = f a

-- The top bit of a byte says that more follow.
unfoldable pub read_varint : Bytes → Option (ℕ × Bytes)
read_varint [] = none
read_varint (b ∷ bs) = elim (ltb b 128) [
  | true ↦ some (b, bs)
  | false ↦ read_varint bs >>= λ r. some (b - 128 + 128 * r.0, r.1)
]

-- `n` bytes, the lowest first.
unfoldable pub read_le : ℕ → Bytes → Option (ℕ × Bytes)
read_le zero bs = some (0, bs)
read_le (suc n) [] = none
read_le (suc n) (b ∷ bs) = read_le n bs >>= λ r. some (b + 256 * r.0, r.1)

pub data Payload : Type 0 where
  varint fixed64 fixed32 : ℕ → Payload
  len : Bytes → Payload

unfoldable pub read_payload : ℕ → Bytes → Option (Payload × Bytes)
read_payload zero bs = read_varint bs >>= λ r. some (varint r.0, r.1)
read_payload (suc zero) bs = read_le 8 bs >>= λ r. some (fixed64 r.0, r.1)
read_payload (suc (suc zero)) bs = read_varint bs >>= λ r.
    if leb r.0 (length r.1) then some (len (take r.0 r.1), drop r.0 r.1) else none
read_payload (suc (suc (suc n))) bs =
    if n == 2 then (read_le 4 bs >>= λ r. some (fixed32 r.0, r.1)) else none

-- A field: its number and its payload.
unfoldable pub read_field : Bytes → Option ((ℕ × Payload) × Bytes)
read_field bs =
    read_varint bs >>= λ r. read_payload (r.0 % 8) r.1 >>= λ p. some ((r.0 / 8, p.0), p.1)

-- All fields of a message; each takes a byte at least.
unfoldable pub read_fields : ℕ → Bytes → Option (List (ℕ × Payload))
read_fields fuel [] = some []
read_fields zero (b ∷ bs) = none
read_fields (suc fuel) (b ∷ bs) =
    read_field (b ∷ bs) >>= λ r. read_fields fuel r.1 >>= λ fs. some (r.0 ∷ fs)

unfoldable pub read_message : Bytes → Option (List (ℕ × Payload))
unfolding read_fields
read_message bs = read_fields (length bs) bs

abbrev pub to_signed : ℕ → ℤ
to_signed u = if ltb u (2 ^ 63) then pos u else negsuc (2 ^ 64 - 1 - u)

-- The member of `AnyValue` that a field sets.
unfoldable pub value_of : List (ℕ × Payload) → Option (Option Value)
value_of [] = some none
value_of ((n, len s) ∷ []) = if n == 1 then some (some (str s)) else none
value_of ((n, varint v) ∷ []) =
    if n == 2
    then some (some (bool (if v == 0 then false else true)))
    else (if n == 3 then some (some (int (to_signed v))) else none)
value_of ((n, fixed64 v) ∷ []) = if n == 4 then some (some (double v)) else none
value_of _ = none

-- `KeyValue`; a key that is not there is the empty text.
unfoldable pub key_value_of : List (ℕ × Payload) → Option (Bytes × Option Value)
key_value_of ((n, len k) ∷ (m, len v) ∷ []) =
    if n == 1
    then (if m == 2 then (read_message v >>= λ fs. value_of fs >>= λ x. some (k, x)) else none)
    else none
key_value_of ((n, len v) ∷ []) =
    if n == 2 then (read_message v >>= λ fs. value_of fs >>= λ x. some ([], x)) else none
key_value_of _ = none

-- The attributes that stand under field `n` of a message.
unfoldable pub attributes_of : ℕ → List (ℕ × Payload) → Option (List (Bytes × Option Value))
attributes_of n [] = some []
attributes_of n ((m, len kv) ∷ fs) =
    if m == n
    then (read_message kv >>= key_value_of >>= λ a. attributes_of n fs >>= λ rest. some (a ∷ rest))
    else none
attributes_of n ((m, _) ∷ fs) = none
