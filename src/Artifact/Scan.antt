-- ===== src/Artifact/Scan.antt =====
-- The digest scan: `scan_markers` of src/tools/artifact.rs.
use ruoqa_mcp.Common.{
  ℕ, zero, suc, ◌+◌, ◌-◌, ◌≤◌, ◌<◌, min, ◌≡◌, refl, sym, ap, subst, inl, inr, Bool, true, false,
  Option, none, some, List, [], ◌∷◌, ◌++◌, map, arith, ltb, leb, if◌then◌else◌, leb→le, Bool-cases,
  length, get_elem?, take, drop, All, All-append, length-take, length-drop,
}
use ruoqa_mcp.Common.Text.{Text}
use ruoqa_mcp.Artifact.{
  lines, MatchHit, truncate_line, digest_max_line_chars, enumerate, window, Scanning, start_after,
  emit, scan_line, scan_loop, scan_markers,
}

-- The hits go up from line `lo` (left out) to line `hi` at most, no line twice.
abbrev pub Ascending : ℕ → List MatchHit → ℕ → Type 0
Ascending lo [] hi = lo ≤ hi
Ascending lo (h ∷ hs) hi = (lo < h.line) × Ascending h.line hs hi

-- A hit shows its line, cut to the length of the digest.
abbrev pub IsOf : List Text → MatchHit → Type 0
IsOf ls h =
    (l : Text) × (get_elem? ls (h.line - 1) ≡ some l)
    × (h.text ≡ truncate_line l digest_max_line_chars)

Ascending-below :
    (lo m : ℕ) (ys : List MatchHit) (hi : ℕ) → lo ≤ m → Ascending m ys hi → Ascending lo ys hi
Ascending-below lo m [] hi p q = omega (arith, p, q)
Ascending-below lo m (y ∷ ys) hi p (q, r) = (omega (arith, p, q), r)

Ascending-append :
    (lo : ℕ) (xs : List MatchHit) (m : ℕ) (ys : List MatchHit) (hi : ℕ)
    → Ascending lo xs m
    → Ascending m ys hi
    → Ascending lo (xs ++ ys) hi
Ascending-append lo [] m ys hi p q = Ascending-below lo m ys hi p q
Ascending-append lo (x ∷ xs) m ys hi (p, r) q = (p, Ascending-append x.line xs m ys hi r q)

-- Entries with consecutive indices from `i` on, each with the line of `ls` at its index.
abbrev IsRun : List Text → ℕ → List (ℕ × Text) → Type 0
IsRun ls i [] = Unit {0}
IsRun ls i ((j, l) ∷ xs) = (j ≡ i) × (get_elem? ls j ≡ some l) × IsRun ls (suc i) xs

IsRun-take :
    (ls : List Text) (i n : ℕ) (xs : List (ℕ × Text)) → IsRun ls i xs → IsRun ls i (take n xs)
IsRun-take ls i zero xs r = tt
IsRun-take ls i (suc n) [] r = tt
IsRun-take ls i (suc n) (x ∷ xs) (p, q, r) = (p, q, IsRun-take ls (suc i) n xs r)

IsRun-drop :
    (ls : List Text) (i n : ℕ) (xs : List (ℕ × Text)) → IsRun ls i xs → IsRun ls (i + n) (drop n xs)
IsRun-drop ls i zero xs r = subst (λ k. IsRun ls k xs) (omega arith) r
IsRun-drop ls i (suc n) [] r = tt
IsRun-drop ls i (suc n) (x ∷ xs) (p, q, r) =
    subst (λ k. IsRun ls k (drop n xs)) (omega arith) (IsRun-drop ls (suc i) n xs r)

IsRun-enumerate :
    (ls xs : List Text) (i : ℕ)
    → ((k : ℕ) → get_elem? ls (i + k) ≡ get_elem? xs k)
    → IsRun ls i (enumerate i xs)
IsRun-enumerate ls [] i h = tt
IsRun-enumerate ls (x ∷ xs) i h = (
  refl,
  subst (λ n. get_elem? ls n ≡ some x) (omega arith) (h 0),
  IsRun-enumerate ls xs (suc i)
      (λ k. subst (λ n. get_elem? ls n ≡ get_elem? xs k) (omega arith) (h (suc k))),
)

abbrev cut : ℕ × Text → MatchHit
cut (i, l) = record { line = i + 1; text = truncate_line l digest_max_line_chars }

IsRun-Ascending :
    (ls : List Text) (i : ℕ) (xs : List (ℕ × Text)) (hi : ℕ)
    → IsRun ls i xs
    → i + length xs ≤ hi
    → Ascending i (map cut xs) hi × All (IsOf ls) (map cut xs)
IsRun-Ascending ls i [] hi r h = (omega (arith, h), tt)
IsRun-Ascending ls i ((j, l) ∷ xs) hi (p, q, r) h =
    let (a, o) = IsRun-Ascending ls (suc i) xs hi r (omega (arith, h)) in
    (
      (omega (arith, p), subst (λ n. Ascending n (map cut xs) hi) (omega (arith, p)) a),
      ((l, subst (λ n. get_elem? ls n ≡ some l) (omega arith) q, refl), o),
    )

window-Ascending :
    (ls : List Text) (start to : ℕ)
    → start ≤ to
    → (let w = window (λ l. truncate_line l digest_max_line_chars) ls start to in
        Ascending start w (to + 1) × All (IsOf ls) w)
window-Ascending ls start to h =
    let xs = take (to + 1) (enumerate 0 ls) in
    let all = IsRun-enumerate ls ls 0 (λ k. ap (λ n. get_elem? ls n) (omega arith)) in
    let run = IsRun-drop ls 0 start xs (IsRun-take ls 0 (to + 1) (enumerate 0 ls) all) in
    IsRun-Ascending ls start (drop start xs) (to + 1)
      (subst (λ k. IsRun ls k (drop start xs)) (omega arith) run)
      (omega (arith, length-drop start xs, length-take (to + 1) (enumerate 0 ls), h))

-- The line up to which hits were emitted.
abbrev reached : Option ℕ → ℕ
reached none = 0
reached (some last) = last + 1

record IsScan (ls : List Text) (s : Scanning) : Type 0 where
  ascending : Ascending 0 s.hits (reached s.last_emitted)
  faithful : All (IsOf ls) s.hits

reached-start_after : (from : ℕ) (last : Option ℕ) → reached last ≤ start_after from last
reached-start_after from none = omega arith
reached-start_after from (some last) = omega arith

emit-IsScan :
    (ls : List Text) (from to : ℕ) (s : Scanning) → IsScan ls s → IsScan ls (emit ls from to s)
emit-IsScan ls from to s i =
    let start = start_after from s.last_emitted in
    let w = window (λ l. truncate_line l digest_max_line_chars) ls start to in
    elim (Bool-cases (leb start to)) [
      | inl e ↦
          let (a, o) = window-Ascending ls start to (leb→le start to e) in
          subst
            (λ b.
              IsScan ls (if b then record s { hits = s.hits ++ w; last_emitted = some to } else s))
            (sym e)
            (record {
              ascending =
                  Ascending-append 0 s.hits (reached s.last_emitted) w (to + 1) i.ascending (
                    Ascending-below (reached s.last_emitted) start w (to + 1)
                      (reached-start_after from s.last_emitted) a);
              faithful = All-append (IsOf ls) s.hits w i.faithful o;
            })
      | inr e ↦
          subst
            (λ b.
              IsScan ls (if b then record s { hits = s.hits ++ w; last_emitted = some to } else s))
            (sym e) i
    ]

-- The number of lines that match.
abbrev pub count : (Text → Bool) → List Text → ℕ
count set [] = 0
count set (x ∷ xs) = (if set x then 1 else 0) + count set xs

module _ (set : Text → Bool) (context max_hits : ℕ) (ls : List Text) where
  scan_line-IsScan :
      (entry : ℕ × Text) (s : Scanning)
      → IsScan ls s
      → IsScan ls (scan_line set context max_hits ls entry s)
  scan_line-IsScan (idx, line) s i =
      let t = record s { hit_count = s.hit_count + 1 } in
      let k : IsScan ls t = record { ascending = i.ascending; faithful = i.faithful } in
      let e = emit ls (idx - context) (min (idx + context) (length ls - 1)) t in
      elim (set line)
        as (λ b. IsScan ls (if b then (if ltb max_hits t.hit_count then t else e) else s)) [
          | false ↦ i
          | true ↦ elim (ltb max_hits t.hit_count) as (λ b. IsScan ls (if b then t else e)) [
            | true ↦ k
            | false ↦ emit-IsScan ls (idx - context) (min (idx + context) (length ls - 1)) t k
          ]
        ]

  scan_loop-IsScan :
      (rest : List (ℕ × Text)) (s : Scanning)
      → IsScan ls s
      → IsScan ls (scan_loop set context max_hits ls rest s)
  scan_loop-IsScan [] s i = i
  scan_loop-IsScan (x ∷ rest) s i =
      scan_loop-IsScan rest (scan_line set context max_hits ls x s) (scan_line-IsScan x s i)

  emit-count : (from to : ℕ) (s : Scanning) → (emit ls from to s).hit_count ≡ s.hit_count
  emit-count from to s = ground arith

  scan_line-count :
      (idx : ℕ) (line : Text) (s : Scanning)
      → (scan_line set context max_hits ls (idx, line) s).hit_count
        ≡ s.hit_count + (if set line then 1 else 0)
  scan_line-count idx line s =
      let t = record s { hit_count = s.hit_count + 1 } in
      let from = idx - context in
      let to = min (idx + context) (length ls - 1) in
      elim (set line)
        as (λ b.
          (if b then (if ltb max_hits t.hit_count then t else emit ls from to t) else s).hit_count
          ≡ s.hit_count + (if b then 1 else 0)) [
            | false ↦ omega arith
            | true ↦
                elim (ltb max_hits t.hit_count)
                  as (λ b. (if b then t else emit ls from to t).hit_count ≡ s.hit_count + 1) [
                    | true ↦ refl
                    | false ↦ emit-count from to t
                  ]
          ]

  scan_loop-count :
      (i : ℕ) (xs : List Text) (s : Scanning)
      → (scan_loop set context max_hits ls (enumerate i xs) s).hit_count
        ≡ s.hit_count + count set xs
  scan_loop-count i [] s = omega arith
  scan_loop-count i (x ∷ xs) s = omega (
    arith,
    scan_loop-count (suc i) xs (scan_line set context max_hits ls (i, x) s),
    scan_line-count i x s,
  )

-- A scan reports hits in ascending order, no line twice although contexts overlap, each of them
-- the line of that number in the text cut to 300 characters; and `hit_count` is the number of all
-- matching lines, whatever the limit on the reported ones.
pub scan_markers_lem :
    (text : Text) (set : Text → Bool) (context max_hits : ℕ)
    → (hi : ℕ) × Ascending 0 (scan_markers text set context max_hits).hits hi
      × All (IsOf (lines text)) (scan_markers text set context max_hits).hits
      × ((scan_markers text set context max_hits).hit_count ≡ count set (lines text))
unfolding scan_markers
scan_markers_lem text set context max_hits =
    let ls = lines text in
    let s0 : Scanning = record { hits = []; hit_count = 0; last_emitted = none } in
    let s = scan_loop set context max_hits ls (enumerate 0 ls) s0 in
    let i =
      scan_loop-IsScan set context max_hits ls (enumerate 0 ls) s0
        (record { ascending = omega arith; faithful = tt }) in
    (
      reached s.last_emitted,
      i.ascending,
      i.faithful,
      omega (arith, scan_loop-count set context max_hits ls 0 ls s0),
    )
