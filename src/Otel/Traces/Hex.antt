-- ===== src/Otel/Traces/Hex.antt =====
-- The hexadecimal form of an id, written and read.
use ruoqa_mcp.Common.{
  ℕ, ◌+◌, ◌*◌, ◌/◌, ◌%◌, ◌<◌, ◌≡◌, refl, ap, ◌∙◌, true, false, none, some, [], ◌∷◌, arith, ◌==◌,
  if◌then◌else◌, ==_iff, length, All,
}
use ruoqa_mcp.Otel.Proto.{Bytes}
use ruoqa_mcp.Otel.Traces.{
  hex_digit, hex_encode, digit_value, byte_of, panicked, rejected, decoded, is_continuation, cuts,
  put_byte, decode_pairs, decode_hex,
}

digit_value-hex_digit : (n : ℕ) → n < 16 → digit_value (hex_digit n) ≡ some n
digit_value-hex_digit n h = ground arith

byte_of-digits :
    (h l : ℕ) → h < 16 → l < 16 → byte_of (hex_digit h) (hex_digit l) ≡ some (16 * h + l)
unfolding byte_of
byte_of-digits h l p q =
    let no_sign : (hex_digit h == 43) ≡ false = ground arith in
    ap
      (λ o. elim o [
        | none ↦ none
        | some l ↦
            if hex_digit h == 43
            then some l
            else (elim (digit_value (hex_digit h)) [ none ↦ none | some h ↦ some (16 * h + l) ])
      ])
      (digit_value-hex_digit l q)
    ∙ ap
        (λ c.
          if c
          then some l
          else (elim (digit_value (hex_digit h)) [ none ↦ none | some h ↦ some (16 * h + l) ]))
        no_sign
    ∙ ap (λ o. elim o [ none ↦ none | some h ↦ some (16 * h + l) ]) (digit_value-hex_digit h p)

byte_of-hex_digit : (b : ℕ) → b < 256 → byte_of (hex_digit (b / 16)) (hex_digit (b % 16)) ≡ some b
byte_of-hex_digit b h =
    byte_of-digits (b / 16) (b % 16) (omega arith) (omega arith) ∙ ap some (omega arith)

cuts-hex_encode : (bs : Bytes) → All (λ b. b < 256) bs → cuts (hex_encode bs) ≡ false
unfolding hex_encode
cuts-hex_encode [] h = refl
cuts-hex_encode (b ∷ bs) (p, h) = ground arith

length-hex_encode : (bs : Bytes) → length (hex_encode bs) ≡ length bs * 2
unfolding hex_encode
length-hex_encode [] = omega arith
length-hex_encode (b ∷ bs) = omega (arith, length-hex_encode bs)

decode_pairs-hex_encode :
    (bs : Bytes) → All (λ b. b < 256) bs → decode_pairs (hex_encode bs) ≡ decoded bs
unfolding hex_encode
decode_pairs-hex_encode [] h = refl
decode_pairs-hex_encode (b ∷ bs) (p, h) =
    ap
      (λ c.
        if c
        then panicked
        else put_byte (byte_of (hex_digit (b / 16)) (hex_digit (b % 16)))
            (decode_pairs (hex_encode bs)))
      (cuts-hex_encode bs h)
    ∙ ap (λ o. put_byte o (decode_pairs (hex_encode bs))) (byte_of-hex_digit b p)
    ∙ ap (λ d. put_byte (some b) d) (decode_pairs-hex_encode bs h)

-- An id that is written as hexadecimal text is read back as it was, at its own length.
pub decode_hex-hex_encode :
    (bs : Bytes) → All (λ b. b < 256) bs → decode_hex (length bs) (hex_encode bs) ≡ decoded bs
unfolding decode_hex
decode_hex-hex_encode bs h =
    ap (λ c. if c then decode_pairs (hex_encode bs) else rejected)
      ((==_iff (length (hex_encode bs)) (length bs * 2)).1 (length-hex_encode bs))
    ∙ decode_pairs-hex_encode bs h

-- `decode_hex` panics on every text of the length that it expects in which the third byte is not
-- the first of a character.
pub decode_hex_panics :
    (n a lead tail : ℕ) (rest : Bytes)
    → is_continuation tail ≡ true
    → length (a ∷ lead ∷ tail ∷ rest) ≡ n * 2
    → decode_hex n (a ∷ lead ∷ tail ∷ rest) ≡ panicked
unfolding decode_hex
decode_hex_panics n a lead tail rest c l =
    let s = a ∷ lead ∷ tail ∷ rest in
    ap (λ b. if b then decode_pairs s else rejected) ((==_iff (length s) (n * 2)).1 l)
    ∙ ap (λ b. if b then panicked else put_byte (byte_of a lead) (decode_pairs (tail ∷ rest))) c
