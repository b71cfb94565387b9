-- ===== src/Tests/Text.antt =====
-- A log, and the ids of a trace.
use ruoqa_mcp.Common.{
  ℕ, zero, suc, ◌<◌, ◌≡◌, refl, Bool, true, [], ◌∷◌, ◌++◌, arith, replicate, All,
}
use ruoqa_mcp.Common.Text.{Text, codes, text_eq}
use ruoqa_mcp.Artifact.{lines, scan_markers}
use ruoqa_mcp.Artifact.Scan.{Ascending, IsOf, count, scan_markers_lem}
use ruoqa_mcp.Otel.Proto.{Bytes}
use ruoqa_mcp.Otel.Traces.{hex_encode, decode_hex, decoded, panicked, parse_traceparent}
use ruoqa_mcp.Otel.Traces.Hex.{decode_hex-hex_encode, decode_hex_panics}
use ruoqa_mcp.Otel.Traces.Parent.{traceparent, parse_traceparent-traceparent}

abbrev log : Text
log = codes "ab" ++ 10 ∷ (codes "died" ++ 10 ∷ codes "cd")

abbrev is_died : Text → Bool
is_died line = text_eq line (codes "died")

scan_markers_lem_example :
    (hi : ℕ) × Ascending 0 (scan_markers log is_died 1 5).hits hi
    × All (IsOf (lines log)) (scan_markers log is_died 1 5).hits
    × ((scan_markers log is_died 1 5).hit_count ≡ count is_died (lines log))
scan_markers_lem_example = scan_markers_lem log is_died 1 5

abbrev two_bytes : Bytes
two_bytes = 0xab ∷ 0x0c ∷ []

decode_hex-hex_encode_example : decode_hex 2 (hex_encode two_bytes) ≡ decoded two_bytes
decode_hex-hex_encode_example = decode_hex-hex_encode two_bytes (omega arith, (omega arith, tt))

-- The text `aéa`.
decode_hex_panics_example : decode_hex 2 (97 ∷ 0xc3 ∷ 0xa9 ∷ 97 ∷ []) ≡ panicked
decode_hex_panics_example = decode_hex_panics 2 97 0xc3 0xa9 (97 ∷ []) refl refl

abbrev a_trace_id : Bytes
a_trace_id = replicate 16 7

abbrev a_span_id : Bytes
a_span_id = replicate 8 9

sevens : (n : ℕ) → All (λ b. b < 256) (replicate n 7)
sevens zero = tt
sevens (suc n) = (omega arith, sevens n)

nines : (n : ℕ) → All (λ b. b < 256) (replicate n 9)
nines zero = tt
nines (suc n) = (omega arith, nines n)

parse_traceparent-traceparent_example :
    parse_traceparent (traceparent a_trace_id a_span_id 1)
    ≡ decoded (record { trace_id = a_trace_id; span_id = a_span_id; sampled = true })
parse_traceparent-traceparent_example =
    parse_traceparent-traceparent a_trace_id a_span_id 1 refl refl (sevens 16) (nines 8)
      (omega arith) refl
