-- ===== src/Otel/Traces/Parent.antt =====
-- An inbound `traceparent`: what this program's own ids look like on the wire, parsed.
use mathlib.Core.List.{reverse-cons}
use ruoqa_mcp.Common.{
  ℕ, ◌/◌, ◌%◌, ◌<◌, ◌≡◌, refl, sym, ap, ◌∙◌, true, false, ◌||◌, [], ◌∷◌, ◌++◌, reverse, append-nil,
  append_assoc, arith, ◌==◌, length, All,
}
use ruoqa_mcp.Common.Text.{codes, split, split_from}
use ruoqa_mcp.Otel.Proto.{Bytes}
use ruoqa_mcp.Otel.Traces.{
  hex_digit, hex_encode, decoded, decode_hex, all_zero, parse_parts, parse_split, parse_traceparent,
}
use ruoqa_mcp.Otel.Traces.Hex.{decode_hex-hex_encode}

-- `00-<trace id>-<span id>-<flags>`.
abbrev pub traceparent : Bytes → Bytes → ℕ → Bytes
traceparent trace_id span_id flags =
    codes "00-"
    ++ (hex_encode trace_id ++ 45 ∷ (hex_encode span_id ++ 45 ∷ hex_encode (flags ∷ [])))

reverse_step : (c : ℕ) (cur part : Bytes) → reverse (c ∷ cur) ++ part ≡ reverse cur ++ c ∷ part
reverse_step c cur part =
    ap (λ r. r ++ part) (reverse-cons c cur) ∙ append_assoc (reverse cur) (c ∷ []) part

abbrev NoDash : Bytes → Type 0
NoDash = All (λ b. (b == 45) ≡ false)

-- A part without a dash, and the dash after it; and a last part.
split_part :
    (cur part rest : Bytes)
    → NoDash part
    → split_from (λ c. c == 45) cur (part ++ 45 ∷ rest)
      ≡ (reverse cur ++ part) ∷ split_from (λ c. c == 45) [] rest
split_part cur [] rest h =
    ap (λ xs. xs ∷ split_from (λ c. c == 45) [] rest) (sym (append-nil (reverse cur)))
split_part cur (c ∷ part) rest (p, h) =
    ap
      (λ b. elim b [
        | true ↦ reverse cur ∷ split_from (λ c. c == 45) [] (part ++ 45 ∷ rest)
        | false ↦ split_from (λ c. c == 45) (c ∷ cur) (part ++ 45 ∷ rest)
      ])
      p
    ∙ split_part (c ∷ cur) part rest h
    ∙ ap (λ xs. xs ∷ split_from (λ c. c == 45) [] rest) (reverse_step c cur part)

split_last :
    (cur part : Bytes)
    → NoDash part
    → split_from (λ c. c == 45) cur part ≡ (reverse cur ++ part) ∷ []
split_last cur [] h = ap (λ xs. xs ∷ []) (sym (append-nil (reverse cur)))
split_last cur (c ∷ part) (p, h) =
    ap
      (λ b. elim b [
        | true ↦ reverse cur ∷ split_from (λ c. c == 45) [] part
        | false ↦ split_from (λ c. c == 45) (c ∷ cur) part
      ])
      p
    ∙ split_last (c ∷ cur) part h
    ∙ ap (λ xs. xs ∷ []) (reverse_step c cur part)

hex_digit-NoDash : (n : ℕ) → (hex_digit n == 45) ≡ false
hex_digit-NoDash n = ground arith

hex_encode-NoDash : (bs : Bytes) → NoDash (hex_encode bs)
unfolding hex_encode
hex_encode-NoDash [] = tt
hex_encode-NoDash (b ∷ bs) =
    (hex_digit-NoDash (b / 16), (hex_digit-NoDash (b % 16), hex_encode-NoDash bs))

split-traceparent :
    (trace_id span_id : Bytes) (flags : ℕ)
    → split (λ c. c == 45) (traceparent trace_id span_id flags)
      ≡ codes "00" ∷ hex_encode trace_id ∷ hex_encode span_id ∷ hex_encode (flags ∷ []) ∷ []
split-traceparent trace_id span_id flags =
    ap (λ xs. codes "00" ∷ xs)
      (split_part [] (hex_encode trace_id) (hex_encode span_id ++ 45 ∷ hex_encode (flags ∷ []))
          (hex_encode-NoDash trace_id)
        ∙ ap (λ xs. hex_encode trace_id ∷ xs)
            (split_part [] (hex_encode span_id) (hex_encode (flags ∷ []))
                (hex_encode-NoDash span_id)
              ∙ ap (λ xs. hex_encode span_id ∷ xs)
                  (split_last [] (hex_encode (flags ∷ [])) (hex_encode-NoDash (flags ∷ [])))))

decode_id :
    (n : ℕ) (bs : Bytes)
    → length bs ≡ n
    → All (λ b. b < 256) bs
    → decode_hex n (hex_encode bs) ≡ decoded bs
decode_id n bs l h = ap (λ k. decode_hex k (hex_encode bs)) (sym l) ∙ decode_hex-hex_encode bs h

parse_parts_lem :
    (trace_id span_id : Bytes) (flags : ℕ)
    → length trace_id ≡ 16
    → length span_id ≡ 8
    → All (λ b. b < 256) trace_id
    → All (λ b. b < 256) span_id
    → flags < 256
    → (all_zero trace_id || all_zero span_id) ≡ false
    → parse_parts (hex_encode trace_id) (hex_encode span_id) (hex_encode (flags ∷ []))
      ≡ decoded (record { trace_id = trace_id; span_id = span_id; sampled = flags % 2 == 1 })
unfolding parse_parts
parse_parts_lem trace_id span_id flags lt ls t s f z =
    rw
      (
        decode_id 16 trace_id lt t,
        decode_id 8 span_id ls s,
        decode_id 1 (flags ∷ []) refl (f, tt),
        z,
      )
      refl

-- A `traceparent` of version 00 with ids of the right lengths that are not all zeros is parsed to
-- these ids, and to the lowest bit of its flags.
pub parse_traceparent-traceparent :
    (trace_id span_id : Bytes) (flags : ℕ)
    → length trace_id ≡ 16
    → length span_id ≡ 8
    → All (λ b. b < 256) trace_id
    → All (λ b. b < 256) span_id
    → flags < 256
    → (all_zero trace_id || all_zero span_id) ≡ false
    → parse_traceparent (traceparent trace_id span_id flags)
      ≡ decoded (record { trace_id = trace_id; span_id = span_id; sampled = flags % 2 == 1 })
unfolding parse_traceparent hex_encode
parse_traceparent-traceparent trace_id span_id flags lt ls t s f z =
    ap parse_split (split-traceparent trace_id span_id flags)
    ∙ parse_parts_lem trace_id span_id flags lt ls t s f z
