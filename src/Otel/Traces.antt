-- ===== src/Otel/Traces.antt =====
-- Span contexts and `traceparent`: src/otel/traces.rs. A `&str` is the list of its UTF-8 bytes,
-- and an id the list of its bytes.
pub mod Hex
pub mod Parent
use ruoqa_mcp.Common.{
  ℕ, zero, suc, ◌+◌, ◌-◌, ◌*◌, ◌/◌, ◌%◌, ◌^◌, ◌≤◌, ◌<◌, min, max, String, ◌≡◌, refl, sym, ap, ◌∙◌,
  subst, ◌≢◌, ◌↔◌, ◌⊎◌, inl, inr, Bool, true, false, ◌&&◌, ◌||◌, not, Option, none, some, List, [],
  ◌∷◌, ◌++◌, map, reverse, append-nil, append_assoc, arith, str_eq, eq_iff, ltb, leb, ◌==◌,
  if◌then◌else◌, ltb→lt, lt→ltb, leb→le, ==_iff, Bool-cases, Option-cases, is_some, is_none,
  unwrap_or, length, get_elem?, take, drop, replicate, any, all, length-append, All, All-append,
  take-append-drop, length-take, length-drop, take_append, drop_append, length-map, filter_map,
  filter,
}
use ruoqa_mcp.Common.Text.{Text, text_eq, codes, split}
use ruoqa_mcp.Otel.Proto.{Bytes}

pub record SpanCtx : Type 0 where
  pub trace_id : Bytes
  pub span_id : Bytes
  pub sampled : Bool

-- The digit that `{:02x}` prints.
abbrev pub hex_digit : ℕ → ℕ
hex_digit n = if ltb n 10 then 48 + n else 87 + n

unfoldable pub hex_encode : Bytes → Text
hex_encode [] = []
hex_encode (b ∷ bs) = hex_digit (b / 16) ∷ hex_digit (b % 16) ∷ hex_encode bs

-- A digit of `from_str_radix(_, 16)`.
abbrev pub digit_value : ℕ → Option ℕ
digit_value c =
    if leb 48 c && leb c 57
    then some (c - 48)
    else (if leb 97 c && leb c 102
        then some (c - 87)
        else if leb 65 c && leb c 70
        then some (c - 55)
        else none)

-- `u8::from_str_radix(_, 16)` of two bytes; a plus sign may stand before a single digit.
unfoldable pub byte_of : ℕ → ℕ → Option ℕ
byte_of hi lo = elim (digit_value lo) [
  | none ↦ none
  | some l ↦
      if hi == 43
      then some l
      else (elim (digit_value hi) [ none ↦ none | some h ↦ some (16 * h + l) ])
]

-- `decode_hex` returns `None` or the bytes, or panics where a slice would cut a character.
pub data Decoded (A : Type 0) : Type 0 where
  panicked rejected : Decoded A
  decoded : A → Decoded A

infixl 5 ◌>>=◌
abbrev pub ◌>>=◌ : {A B : Type 0} → Decoded A → (A → Decoded B) → Decoded B
panicked >>= f = panicked
rejected >>= f = rejected
decoded a >>= f = f a

-- A byte that no character starts with.
abbrev pub is_continuation : ℕ → Bool
is_continuation b = leb 128 b && ltb b 192

-- The end of a slice is no boundary of a character.
abbrev pub cuts : Bytes → Bool
cuts [] = false
cuts (b ∷ bs) = is_continuation b

abbrev pub put_byte : Option ℕ → Decoded Bytes → Decoded Bytes
put_byte none rest = rejected
put_byte (some v) panicked = panicked
put_byte (some v) rejected = rejected
put_byte (some v) (decoded bs) = decoded (v ∷ bs)

-- The loop, two bytes a turn.
abbrev pub decode_pairs : Bytes → Decoded Bytes
decode_pairs [] = decoded []
decode_pairs (a ∷ []) = rejected
decode_pairs (a ∷ b ∷ rest) =
    let later = decode_pairs rest in if cuts rest then panicked else put_byte (byte_of a b) later

unfoldable pub decode_hex : ℕ → Bytes → Decoded Bytes
decode_hex n s = if length s == n * 2 then decode_pairs s else rejected

abbrev pub all_zero : Bytes → Bool
all_zero bs = all (λ b. b == 0) bs

pub record TraceParent : Type 0 where
  pub trace_id : Bytes
  pub span_id : Bytes
  pub sampled : Bool

-- The three decodings, and the check for ids of zeros.
unfoldable pub parse_parts : Bytes → Bytes → Bytes → Decoded TraceParent
parse_parts trace_id_hex span_id_hex flags_hex = decode_hex 16 trace_id_hex >>= λ trace_id.
    decode_hex 8 span_id_hex >>= λ span_id. decode_hex 1 flags_hex >>= λ flags.
    (if all_zero trace_id || all_zero span_id
      then rejected
      else decoded (record {
        trace_id = trace_id;
        span_id = span_id;
        sampled = unwrap_or (get_elem? flags 0) 0 % 2 == 1;
      }))

abbrev pub parse_split : List Bytes → Decoded TraceParent
parse_split (version ∷ trace_id ∷ span_id ∷ flags ∷ []) =
    if text_eq version (codes "00") && length flags == 2
    then parse_parts trace_id span_id flags
    else rejected
parse_split _ = rejected

unfoldable pub parse_traceparent : Bytes → Decoded TraceParent
parse_traceparent value = parse_split (split (λ c. c == 45) value)

pub data Sampler : Type 0 where
  always_on parent_based_always_on : Sampler

unfoldable pub should_sample : Sampler → TraceParent → Bool
should_sample always_on parent = true
should_sample parent_based_always_on parent = parent.sampled

-- `start_call_span`: the ids that the random generator would give, `none` where it fails, are the
-- last two arguments.
abbrev adopt : Sampler → Option Bytes → TraceParent → Option (SpanCtx × Option Bytes)
adopt sampler none parent = none
adopt sampler (some span_id) parent =
    if should_sample sampler parent
    then some (
      record { trace_id = parent.trace_id; span_id = span_id; sampled = true },
      some parent.span_id,
    )
    else none

abbrev new_root : Option Bytes → Option Bytes → Option (SpanCtx × Option Bytes)
new_root (some trace_id) (some span_id) =
    some (record { trace_id = trace_id; span_id = span_id; sampled = true }, none)
new_root _ _ = none

abbrev parsed : Option Bytes → Decoded TraceParent
parsed none = rejected
parsed (some value) = parse_traceparent value

unfoldable pub start_call_span :
    Sampler → Option Bytes → Option Bytes → Option Bytes → Decoded (Option (SpanCtx × Option Bytes))
start_call_span sampler traceparent trace_id span_id = elim (parsed traceparent) [
  | panicked ↦ panicked
  | rejected ↦ decoded (new_root trace_id span_id)
  | decoded parent ↦ decoded (adopt sampler span_id parent)
]
