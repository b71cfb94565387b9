-- ===== src/Otel/Proto.antt =====
-- src/otel/proto.rs: the protobuf wire writer. A buffer is a list of bytes, and a `&mut Vec<u8>`
-- argument is the buffer passed on. `v & 0x7f` is `v % 128`, `v >> 7` is `v / 128`, and `| 0x80` on
-- a value below 128 is `+ 128`.
pub mod Reader
pub mod Varint
pub mod Frames
pub mod Values
pub mod Attributes
use mathlib.Core.Logic.{dite}
use mathlib.Core.WellFounded.{Acc}
use native.Mathlib.Decide.{dec_lt}
use ruoqa_mcp.Common.{
  ℕ, zero, suc, ◌+◌, ◌-◌, ◌*◌, ◌/◌, ◌%◌, ◌^◌, ◌<◌, Bool, true, false, List, [], ◌∷◌, ◌++◌, arith,
  ◌==◌, ◌||◌, if◌then◌else◌, length,
}
use ruoqa_mcp.Common.Order.{lt_wf}
use ruoqa_mcp.Common.Int.{ℤ, cast_unsigned}

abbrev pub Bytes : Type 0
Bytes = List ℕ

abbrev pub wire_varint : ℕ
wire_varint = 0

abbrev pub wire_fixed64 : ℕ
wire_fixed64 = 1

abbrev pub wire_len : ℕ
wire_len = 2

abbrev pub wire_fixed32 : ℕ
wire_fixed32 = 5

high_groups_lt : (v : ℕ) → 0 < v / 128 → v / 128 < v
high_groups_lt v h = omega arith

-- The loop of `write_varint`: it goes on while the groups above the lowest are not all 0.
varint_loop : Bytes → (v : ℕ) → Acc ◌<◌ v → Bytes
varint_loop buf v (Acc.intro _ below) =
    dite (dec_lt 0 (v / 128))
      (λ more.
        varint_loop (buf ++ ((v % 128 + 128) ∷ [])) (v / 128) (below _ (high_groups_lt v more)))
      (λ _. buf ++ (v % 128 ∷ []))

unfoldable pub write_varint : Bytes → ℕ → Bytes
unfolding varint_loop high_groups_lt lt_wf dec_lt
write_varint buf v = varint_loop buf v (lt_wf.apply v)

-- `(field << 3) | wire` on a u32; the three low bits of the shifted field are 0.
unfoldable pub write_tag : Bytes → ℕ → ℕ → Bytes
write_tag buf field wire = write_varint buf (field * 8 % 2 ^ 32 + wire)

-- `to_le_bytes` of a value of `n` bytes.
unfoldable pub le_bytes : ℕ → ℕ → Bytes
le_bytes zero v = []
le_bytes (suc n) v = v % 256 ∷ le_bytes n (v / 256)

unfoldable pub write_bool : Bytes → ℕ → Bool → Bytes
write_bool buf field v = if v then write_varint (write_tag buf field wire_varint) 1 else buf

unfoldable pub write_uint32 : Bytes → ℕ → ℕ → Bytes
write_uint32 buf field v = if v == 0 then buf else write_varint (write_tag buf field wire_varint) v

unfoldable pub write_int64 : Bytes → ℕ → ℤ → Bytes
write_int64 buf field v =
    if cast_unsigned v == 0
    then buf
    else write_varint (write_tag buf field wire_varint) (cast_unsigned v)

unfoldable pub write_fixed32 : Bytes → ℕ → ℕ → Bytes
write_fixed32 buf field v = if v == 0 then buf else write_tag buf field wire_fixed32 ++ le_bytes 4 v

unfoldable pub write_fixed64 : Bytes → ℕ → ℕ → Bytes
write_fixed64 buf field v = if v == 0 then buf else write_tag buf field wire_fixed64 ++ le_bytes 8 v

-- A double is its bit pattern: `v != 0.0` fails at the bits of 0.0 and of -0.0.
abbrev pub is_zero_double : ℕ → Bool
is_zero_double bits = bits == 0 || bits == 2 ^ 63

unfoldable pub write_double : Bytes → ℕ → ℕ → Bytes
write_double buf field bits =
    if is_zero_double bits then buf else write_tag buf field wire_fixed64 ++ le_bytes 8 bits

unfoldable pub write_sfixed64_always : Bytes → ℕ → ℤ → Bytes
write_sfixed64_always buf field v = write_tag buf field wire_fixed64 ++ le_bytes 8 (cast_unsigned v)

unfoldable pub write_double_always : Bytes → ℕ → ℕ → Bytes
write_double_always buf field bits = write_tag buf field wire_fixed64 ++ le_bytes 8 bits

unfoldable pub write_bytes : Bytes → ℕ → Bytes → Bytes
write_bytes buf field [] = buf
write_bytes buf field (b ∷ v) =
    write_varint (write_tag buf field wire_len) (length (b ∷ v)) ++ (b ∷ v)

unfoldable pub write_string : Bytes → ℕ → Bytes → Bytes
write_string buf field [] = buf
write_string buf field (b ∷ v) = write_bytes buf field (b ∷ v)

abbrev packed : List ℕ → Bytes
packed [] = []
packed (v ∷ vs) = le_bytes 8 v ++ packed vs

unfoldable pub write_packed_fixed64 : Bytes → ℕ → List ℕ → Bytes
write_packed_fixed64 buf field [] = buf
write_packed_fixed64 buf field (v ∷ vs) =
    write_varint (write_tag buf field wire_len) (length (v ∷ vs) * 8) ++ packed (v ∷ vs)

unfoldable pub write_packed_double : Bytes → ℕ → List ℕ → Bytes
write_packed_double buf field [] = buf
write_packed_double buf field (v ∷ vs) =
    write_varint (write_tag buf field wire_len) (length (v ∷ vs) * 8) ++ packed (v ∷ vs)

-- `buf.splice(at..at, more)`.
abbrev pub splice_at : ℕ → Bytes → Bytes → Bytes
splice_at zero more buf = more ++ buf
splice_at (suc n) more [] = more
splice_at (suc n) more (b ∷ buf) = b ∷ splice_at n more buf

-- The body is written first, and its length is put in front of it afterwards.
unfoldable pub write_message : Bytes → ℕ → (Bytes → Bytes) → Bytes
write_message buf field body =
    let tagged = write_tag buf field wire_len in
    let start = length tagged in
    let full = body tagged in splice_at start (write_varint [] (length full - start)) full

-- `AnyValue`: text by its bytes, a double by its bit pattern.
pub data Value : Type 0 where
  str : Bytes → Value
  int : ℤ → Value
  bool : Bool → Value
  double : ℕ → Value

unfoldable pub write_value : Value → Bytes → Bytes
unfolding write_string write_int64 write_bool write_double
write_value (str s) b = write_string b 1 s
write_value (bool v) b = write_bool b 2 v
write_value (int i) b = write_int64 b 3 i
write_value (double d) b = write_double b 4 d

unfoldable pub write_any_value : Bytes → ℕ → Value → Bytes
write_any_value buf field v = write_message buf field (write_value v)

unfoldable pub write_key_value : Bytes → ℕ → Bytes → Value → Bytes
write_key_value buf field key v =
    write_message buf field (λ b. write_any_value (write_string b 1 key) 2 v)

unfoldable pub write_attributes : Bytes → ℕ → List (Bytes × Value) → Bytes
write_attributes buf field [] = buf
write_attributes buf field ((key, v) ∷ attrs) =
    write_attributes (write_key_value buf field key v) field attrs

unfoldable pub write_resource : Bytes → ℕ → List (Bytes × Value) → Bytes
write_resource buf field attrs = write_message buf field (λ b. write_attributes b 1 attrs)

unfoldable pub write_scope : Bytes → ℕ → Bytes → Bytes → Bytes
write_scope buf field name version =
    write_message buf field (λ b. write_string (write_string b 1 name) 2 version)
