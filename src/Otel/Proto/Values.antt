-- ===== src/Otel/Proto/Values.antt =====
-- Messages read as fields, and an attribute value written and read.
use ruoqa_mcp.Common.{
  ℕ, zero, suc, ◌^◌, ◌≤◌, ◌<◌, ◌≡◌, refl, inl, inr, true, false, Option, none, some, List, [], ◌∷◌,
  ◌++◌, append-nil, append_assoc, arith, ◌==◌, if◌then◌else◌, Bool-cases, length, length-append,
}
use ruoqa_mcp.Common.Int.{ℤ, pos, negsuc, IsI64, cast_unsigned}
use ruoqa_mcp.Otel.Proto.{
  Bytes, write_varint, write_tag, write_value, Value, str, int, bool, double, is_zero_double,
  wire_varint, wire_fixed64, wire_len, le_bytes,
}
use ruoqa_mcp.Otel.Proto.Reader.{
  read_field, read_fields, read_message, read_payload, Payload, varint, fixed64, len, to_signed,
  value_of,
}
use ruoqa_mcp.Otel.Proto.Varint.{
  write_varint-append, pos-length-write_varint, read_varint-write_varint, read_le-le_bytes,
}
use ruoqa_mcp.Otel.Proto.Frames.{
  IsFieldNumber, read_field-write_tag, chunk, read_field-chunk, write_bytes-chunk,
}

-- `bs` is read as the fields `fs`, on any fuel that covers its length.
abbrev pub Parses : Bytes → List (ℕ × Payload) → Type 0
Parses bs fs = (fuel : ℕ) → length bs ≤ fuel → read_fields fuel bs ≡ some fs

pub Parses-nil : Parses [] []
unfolding read_fields
Parses-nil fuel h = refl

pub Parses-cons :
    (bs : Bytes) {x : ℕ × Payload} {rest : Bytes} {fs : List (ℕ × Payload)}
    → read_field bs ≡ some (x, rest)
    → length rest < length bs
    → Parses rest fs
    → Parses bs (x ∷ fs)
unfolding read_fields
Parses-cons [] e h p fuel k = absurd (omega arith)
Parses-cons (b ∷ bs) e h p zero k = absurd (omega arith)
Parses-cons (b ∷ bs) {rest = rest} e h p (suc fuel) k = rw (e, p fuel (omega arith)) refl

pub Parses-read_message :
    (bs : Bytes) {fs : List (ℕ × Payload)} → Parses bs fs → read_message bs ≡ some fs
unfolding read_message
Parses-read_message bs p = p (length bs) (omega arith)

pos-length-write_tag : (field wire : ℕ) → 0 < length (write_tag [] field wire)
unfolding write_tag
pos-length-write_tag field wire = pos-length-write_varint _

shorter_behind_tag :
    (field wire : ℕ) (bs rest : Bytes)
    → length rest ≤ length bs
    → length rest < length (write_tag [] field wire ++ bs)
shorter_behind_tag field wire bs rest h =
    rw length-append (omega (arith, pos-length-write_tag field wire))

-- A length-delimited field in front of what parses.
pub Parses-chunk :
    (field : ℕ) (body rest : Bytes) {fs : List (ℕ × Payload)}
    → IsFieldNumber field
    → Parses rest fs
    → Parses (chunk field body ++ rest) ((field, len body) ∷ fs)
unfolding chunk
Parses-chunk field body rest f p =
    Parses-cons _ (read_field-chunk field body rest f)
      (rw append_assoc (shorter_behind_tag field wire_len _ rest covered)) p
  where
    covered : length rest ≤ length ((write_varint [] (length body) ++ body) ++ rest)
    covered = rw length-append (omega arith)

-- What the reader finds in the oneof: a value that is zero or empty was left out.
abbrev pub member : Value → Option Value
member (str []) = none
member (str (b ∷ s)) = some (str (b ∷ s))
member (int i) = if cast_unsigned i == 0 then none else some (int i)
member (bool v) = if v then some (bool true) else none
member (double d) = if is_zero_double d then none else some (double d)

-- An integer of 64 bits, or a double's bit pattern.
abbrev pub IsWireValue : Value → Type 0
IsWireValue (str s) = Unit {0}
IsWireValue (int i) = IsI64 i
IsWireValue (bool v) = Unit {0}
IsWireValue (double d) = d < 2 ^ 64

to_signed-cast_unsigned : (i : ℤ) → IsI64 i → to_signed (cast_unsigned i) ≡ i
to_signed-cast_unsigned (pos n) h = ground arith
to_signed-cast_unsigned (negsuc n) h = ground arith

-- A field whose payload parses, in front of what parses.
Parses-tag :
    (field wire : ℕ) (bs rest : Bytes) {p : Payload} {fs : List (ℕ × Payload)}
    → IsFieldNumber field
    → wire < 8
    → read_payload wire bs ≡ some (p, rest)
    → length rest ≤ length bs
    → Parses rest fs
    → Parses (write_tag [] field wire ++ bs) ((field, p) ∷ fs)
Parses-tag field wire bs rest f w e h p =
    Parses-cons _ (read_field-write_tag field wire bs f w e)
      (shorter_behind_tag field wire bs rest h) p

-- The one field of an `AnyValue`.
abbrev member_fields : Value → List (ℕ × Payload)
member_fields (str []) = []
member_fields (str (b ∷ s)) = (1, len (b ∷ s)) ∷ []
member_fields (bool v) = if v then (2, varint 1) ∷ [] else []
member_fields (int i) = if cast_unsigned i == 0 then [] else (3, varint (cast_unsigned i)) ∷ []
member_fields (double d) = if is_zero_double d then [] else (4, fixed64 d) ∷ []

Parses-varint :
    (field v : ℕ)
    → IsFieldNumber field
    → Parses (write_varint (write_tag [] field wire_varint) v) ((field, varint v) ∷ [])
Parses-varint field v f =
    rw write_varint-append
      (Parses-tag field wire_varint _ [] f (omega arith) payload (omega arith) Parses-nil)
  where
    payload : read_payload wire_varint (write_varint [] v) ≡ some (varint v, [])
    payload = unfold read_payload in rw (rw append-nil at (read_varint-write_varint v [])) refl

Parses-fixed64 :
    (field v : ℕ)
    → IsFieldNumber field
    → v < 2 ^ 64
    → Parses (write_tag [] field wire_fixed64 ++ le_bytes 8 v) ((field, fixed64 v) ∷ [])
Parses-fixed64 field v f h =
    Parses-tag field wire_fixed64 _ [] f (omega arith) payload (omega arith) Parses-nil
  where
    payload : read_payload wire_fixed64 (le_bytes 8 v) ≡ some (fixed64 v, [])
    payload = unfold read_payload in rw (rw append-nil at (read_le-le_bytes 8 v [] h)) refl

pub Parses-write_value : (v : Value) → IsWireValue v → Parses (write_value v []) (member_fields v)
unfolding write_value
Parses-write_value (str []) h = Parses-nil
Parses-write_value (str (b ∷ s)) h =
    rw (write_bytes-chunk [] 1 b s, ← append-nil (chunk 1 (b ∷ s)))
      (Parses-chunk 1 (b ∷ s) [] (omega arith) Parses-nil)
Parses-write_value (bool true) h = Parses-varint 2 1 (omega arith)
Parses-write_value (bool false) h = Parses-nil
Parses-write_value (int i) h = elim (Bool-cases (cast_unsigned i == 0)) [
  | inl z ↦ rw z Parses-nil
  | inr z ↦ rw z (Parses-varint 3 (cast_unsigned i) (omega arith))
]
Parses-write_value (double d) h = elim (Bool-cases (is_zero_double d)) [
  | inl z ↦ rw z Parses-nil
  | inr z ↦ rw z (Parses-fixed64 4 d (omega arith) h)
]

pub value_of-member_fields :
    (v : Value) → IsWireValue v → value_of (member_fields v) ≡ some (member v)
unfolding value_of
value_of-member_fields (str []) h = refl
value_of-member_fields (str (b ∷ s)) h = refl
value_of-member_fields (bool true) h = refl
value_of-member_fields (bool false) h = refl
value_of-member_fields (int i) h = elim (Bool-cases (cast_unsigned i == 0)) [
  | inl z ↦ rw z refl
  | inr z ↦ rw z (rw (to_signed-cast_unsigned i h) refl)
]
value_of-member_fields (double d) h = ground arith
