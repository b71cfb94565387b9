-- ===== src/Tools/Requests/Segment.antt =====
-- The name of a scheduled product as one segment of a path. What the percent encoder is documented
-- to do is written out; the reader stands on its own.
use ruoqa_mcp.Common.{
  ℕ, ◌+◌, ◌-◌, ◌*◌, ◌/◌, ◌%◌, ◌<◌, ◌≡◌, refl, sym, ap, ◌∙◌, subst, inl, inr, Bool, true, false,
  ◌||◌, [], ◌∷◌, ◌++◌, arith, ltb, leb, ◌==◌, if◌then◌else◌, Bool-cases, all, all-append, All,
  Result, ok, err,
}
use ruoqa_mcp.Common.Text.{Text}
use ruoqa_mcp.Tools.{Invalid, bad_name}
use ruoqa_mcp.Tools.Write.{alphanumeric, segment_set, refused_name}
use ruoqa_mcp.Tools.Requests.{path_segment}

-- A digit of the encoder, upper case.
abbrev upper_hex : ℕ → ℕ
upper_hex n = if ltb n 10 then 48 + n else 55 + n

-- What one byte becomes: bytes above 127 are always encoded.
abbrev pub encoded : (ℕ → Bool) → ℕ → Text
encoded set b =
    if leb 128 b || set b then 37 ∷ upper_hex (b / 16) ∷ upper_hex (b % 16) ∷ [] else b ∷ []

-- The documented behaviour of `utf8_percent_encode`: byte by byte.
unfoldable pub Encodes : (Text → (ℕ → Bool) → Text) → Type 0
Encodes utf8_percent_encode =
    ((set : ℕ → Bool) → utf8_percent_encode [] set ≡ [])
    × ((b : ℕ) (s : Text) (set : ℕ → Bool)
        → utf8_percent_encode (b ∷ s) set ≡ encoded set b ++ utf8_percent_encode s set)

abbrev hex_value : ℕ → ℕ
hex_value c = if leb 65 c then c - 55 else c - 48

-- The reader: `%` and two digits are one byte.
abbrev pub percent_decode : Text → Text
percent_decode [] = []
percent_decode (c ∷ []) = c ∷ []
percent_decode (c ∷ h ∷ []) = c ∷ h ∷ []
percent_decode (c ∷ h ∷ l ∷ s) = elim (c == 37) [
  | true ↦ (16 * hex_value h + hex_value l) ∷ percent_decode s
  | false ↦ c ∷ percent_decode (h ∷ l ∷ s)
]

-- What a segment is made of: neither a slash nor a question mark nor a number sign.
abbrev pub segment_char : ℕ → Bool
segment_char c =
    c == b'%' || (alphanumeric c || (c == b'-' || (c == b'.' || (c == b'_' || c == b'~'))))

percent_decode_plain :
    (c : ℕ) (s : Text) → (c == 37) ≡ false → percent_decode (c ∷ s) ≡ c ∷ percent_decode s
percent_decode_plain c [] e = refl
percent_decode_plain c (h ∷ []) e = refl
percent_decode_plain c (h ∷ l ∷ s) e =
    ap
      (λ b. elim b [
        | true ↦ (16 * hex_value h + hex_value l) ∷ percent_decode s
        | false ↦ c ∷ percent_decode (h ∷ l ∷ s)
      ])
      e

hex_value-upper_hex : (n : ℕ) → n < 16 → hex_value (upper_hex n) ≡ n
hex_value-upper_hex n h = ground arith

is_plain : (b : ℕ) → (leb 128 b || segment_set b) ≡ false → (b == 37) ≡ false
is_plain b e = ground arith

percent_decode-encoded :
    (b : ℕ) (s : Text)
    → b < 256
    → percent_decode (encoded segment_set b ++ s) ≡ b ∷ percent_decode s
percent_decode-encoded b s h = elim (Bool-cases (leb 128 b || segment_set b)) [
  | inl e ↦
      rw (e, hex_value-upper_hex (b / 16) (omega arith), hex_value-upper_hex (b % 16) (omega arith))
        (ap (λ n. n ∷ percent_decode s) (omega arith))
  | inr e ↦ rw e (percent_decode_plain b s (is_plain b e))
]

upper_hex-segment_char : (n : ℕ) → n < 16 → segment_char (upper_hex n) ≡ true
upper_hex-segment_char n h = ground arith

encoded-segment_char : (b : ℕ) → b < 256 → all segment_char (encoded segment_set b) ≡ true
encoded-segment_char b h = elim (Bool-cases (leb 128 b || segment_set b)) [
  | inl e ↦
      rw
        (
          e,
          upper_hex-segment_char (b / 16) (omega arith),
          upper_hex-segment_char (b % 16) (omega arith),
        )
        refl
  | inr e ↦ rw e (ground arith)
]

module _ (utf8_percent_encode : Text → (ℕ → Bool) → Text) (laws : Encodes utf8_percent_encode) where
  encode_lem :
      (s : Text)
      → All (λ b. b < 256) s
      → (percent_decode (utf8_percent_encode s segment_set) ≡ s)
        × (all segment_char (utf8_percent_encode s segment_set) ≡ true)
  unfolding Encodes
  encode_lem [] h = rw (laws.0 segment_set) (refl, refl)
  encode_lem (b ∷ s) (p, h) =
      let (back, chars) = encode_lem s h in
      rw (laws.1 b s segment_set) (
        percent_decode-encoded b (utf8_percent_encode s segment_set) p ∙ ap (λ t. b ∷ t) back,
        rw
            (
              all-append segment_char (encoded segment_set b) (utf8_percent_encode s segment_set),
              encoded-segment_char b p,
              chars,
            )
            refl,
      )

  -- A name that is accepted is exactly one segment of the path: it holds no slash, question mark or
  -- number sign, and the decoded segment is the name, so neither empty nor a dot segment.
  pub path_segment_lem :
      (name : Text) {segment : Text}
      → All (λ b. b < 256) name
      → path_segment utf8_percent_encode name ≡ ok segment
      → (percent_decode segment ≡ name)
        × (all segment_char segment ≡ true)
        × (refused_name (percent_decode segment) ≡ false)
  unfolding path_segment
  path_segment_lem name {segment = segment} h e = elim (Bool-cases (refused_name name)) [
    | inl bad ↦ absurd (ground arith)
    | inr fine ↦
        let encoded_name = utf8_percent_encode name segment_set in
        let result : answer encoded_name ≡ ok segment =
          sym (ap (λ b. if b then err bad_name else answer encoded_name) fine) ∙ e in
        let same : encoded_name ≡ segment = cc in
        let (back, chars) = encode_lem name h in
        subst
          (λ s.
            (percent_decode s ≡ name)
            × (all segment_char s ≡ true)
            × (refused_name (percent_decode s) ≡ false))
          same (back, chars, rw back fine)
  ]
    where
      answer : Text → Result Text Invalid
      answer s = ok s
