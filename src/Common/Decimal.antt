-- ===== src/Common/Decimal.antt =====
-- `Display` of the integer types: decimal digits, as text.
use ruoqa_mcp.Common.{
  ℕ, zero, suc, ◌+◌, ◌-◌, ◌*◌, ◌/◌, ◌%◌, ◌^◌, ◌<◌, ◌≡◌, refl, sym, subst, inl, inr, Bool, true,
  false, ◌&&◌, [], ◌∷◌, ◌++◌, arith, ltb, leb, ◌==◌, if◌then◌else◌, Bool-cases, all, all-append,
}
use ruoqa_mcp.Common.Int.{ℤ, pos, negsuc, IsI64}
use ruoqa_mcp.Common.Text.{Text}

-- With fuel for as many digits as the number has.
abbrev digits : ℕ → ℕ → Text
digits zero n = []
digits (suc fuel) n =
    let front = digits fuel (n / 10) in
    if ltb n 10 then (48 + n) ∷ [] else front ++ (48 + n % 10) ∷ []

-- 20 digits are enough for 64 bits.
unfoldable pub show_u64 : ℕ → Text
show_u64 n = digits 20 n

-- 45 is the minus sign.
unfoldable pub show_i64 : ℤ → Text
show_i64 (pos n) = show_u64 n
show_i64 (negsuc n) = 45 ∷ show_u64 (suc n)

-- A reader of its own: the number that digits stand for, after those read so far.
abbrev read_from : ℕ → Text → ℕ
read_from acc [] = acc
read_from acc (c ∷ s) = read_from (10 * acc + (c - 48)) s

unfoldable pub read_u64 : Text → ℕ
read_u64 s = read_from 0 s

abbrev negated : ℕ → ℤ
negated zero = pos 0
negated (suc n) = negsuc n

unfoldable pub read_i64 : Text → ℤ
read_i64 [] = pos 0
read_i64 (c ∷ s) = if c == 45 then negated (read_u64 s) else pos (read_u64 (c ∷ s))

abbrev pub is_digit : ℕ → Bool
is_digit c = leb 48 c && leb c 57

read_from-append :
    (acc c : ℕ) (s : Text) → read_from acc (s ++ c ∷ []) ≡ 10 * read_from acc s + (c - 48)
read_from-append acc c [] = refl
read_from-append acc c (d ∷ s) = read_from-append (10 * acc + (d - 48)) c s

read_from-digits : (fuel n : ℕ) → n < 10 ^ fuel → read_from 0 (digits fuel n) ≡ n
read_from-digits zero n h = omega arith
read_from-digits (suc fuel) n h = elim (Bool-cases (ltb n 10)) [
  | inl e ↦ rw e (omega arith)
  | inr e ↦
      rw
        (
          e,
          read_from-append 0 (48 + n % 10) (digits fuel (n / 10)),
          read_from-digits fuel (n / 10) (omega arith),
        )
        (omega arith)
]

digits-is_digit : (fuel n : ℕ) → all is_digit (digits fuel n) ≡ true
digits-is_digit zero n = refl
digits-is_digit (suc fuel) n = elim (Bool-cases (ltb n 10)) [
  | inl e ↦ rw e (ground arith)
  | inr e ↦
      rw
        (
          e,
          all-append is_digit (digits fuel (n / 10)) ((48 + n % 10) ∷ []),
          digits-is_digit fuel (n / 10),
        )
        (ground arith)
]

digits_first : (fuel n : ℕ) → (c : ℕ) × (s : Text) × (digits (suc fuel) n ≡ c ∷ s)
digits_first zero n = elim (Bool-cases (ltb n 10)) [
  | inl e ↦ rw e (_, _, refl)
  | inr e ↦ rw e (_, _, refl)
]
digits_first (suc fuel) n = elim (Bool-cases (ltb n 10)) [
  | inl e ↦ rw e (_, _, refl)
  | inr e ↦ let (c, s, h) = digits_first fuel (n / 10) in rw (e, h) (c, _, refl)
]

pub show_u64-is_digit : (n : ℕ) → all is_digit (show_u64 n) ≡ true
unfolding show_u64
show_u64-is_digit n = digits-is_digit 20 n

pub read_u64-show_u64 : (n : ℕ) → n < 2 ^ 64 → read_u64 (show_u64 n) ≡ n
unfolding show_u64 read_u64
read_u64-show_u64 n h = read_from-digits 20 n (omega arith)

show_u64_first : (n : ℕ) → (c : ℕ) × (s : Text) × (show_u64 n ≡ c ∷ s)
unfolding show_u64
show_u64_first n = digits_first 19 n

pub read_i64-show_i64 : (z : ℤ) → IsI64 z → read_i64 (show_i64 z) ≡ z
unfolding show_i64 read_i64
read_i64-show_i64 (negsuc n) h = rw (read_u64-show_u64 (suc n) (omega arith)) refl
read_i64-show_i64 (pos n) h =
    let (c, s, e) = show_u64_first n in
    let d : all is_digit (c ∷ s) ≡ true =
      subst (λ t. all is_digit t ≡ true) e (show_u64-is_digit n) in
    let plus : (c == 45) ≡ false = ground arith in
    rw (e, plus, sym e, read_u64-show_u64 n (omega arith)) refl
