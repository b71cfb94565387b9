-- ===== src/Artifact.antt =====
-- The text handling of src/tools/artifact.rs: windows, slices and scans of a job's log. A text is
-- the list of its code points, and a pattern (a compiled regular expression or set of them) is
-- the Boolean function of a line that it computes.
pub mod Scan
use ruoqa_mcp.Common.{
  ℕ, zero, suc, ◌+◌, ◌-◌, ◌*◌, ◌/◌, ◌%◌, ◌^◌, ◌≤◌, ◌<◌, min, max, String, ◌≡◌, refl, sym, ap, ◌∙◌,
  subst, ◌≢◌, ◌↔◌, ◌⊎◌, inl, inr, Bool, true, false, ◌&&◌, ◌||◌, not, Option, none, some, List, [],
  ◌∷◌, ◌++◌, map, reverse, append-nil, append_assoc, arith, str_eq, eq_iff, ltb, leb, ◌==◌,
  if◌then◌else◌, ltb→lt, lt→ltb, leb→le, ==_iff, Bool-cases, Option-cases, is_some, is_none,
  unwrap_or, length, get_elem?, take, drop, replicate, any, all, length-append, All, All-append,
  take-append-drop, length-take, length-drop, take_append, drop_append, length-map, filter_map,
  filter, Result, ok, err, is_ok, Result-cases, >>=-eq-ok,
}
use ruoqa_mcp.Common.Text.{Text, text_eq, codes, starts_with}
use ruoqa_mcp.Otel.Proto.{Bytes}

abbrev pub tail_bytes_per_line : ℕ
tail_bytes_per_line = 200

abbrev pub min_tail_window_bytes : ℕ
min_tail_window_bytes = 8 * 1024

abbrev pub digest_max_line_chars : ℕ
digest_max_line_chars = 300

-- The product wraps as on a `u64`.
unfoldable pub tail_window : ℕ → Option ℕ → ℕ → ℕ
tail_window tail_lines size ceiling =
    let wanted = max (tail_lines * tail_bytes_per_line % 2 ^ 64) min_tail_window_bytes in
    let bounded = min wanted ceiling in elim size [ none ↦ bounded | some n ↦ min bounded n ]

-- The first byte of the range that `fetch_tail` asks for.
unfoldable pub range_start : Option ℕ → ℕ → ℕ
range_start size window = unwrap_or size window - window

pub data Sniff : Type 0 where
  gzip xz tar plain : Sniff

unfoldable pub sniff : Bytes → Sniff
sniff bytes =
    if starts_with (0x1f ∷ 0x8b ∷ []) bytes
    then gzip
    else (if starts_with (0xfd ∷ 0x37 ∷ 0x7a ∷ 0x58 ∷ 0x5a ∷ 0 ∷ []) bytes
        then xz
        else (if leb 262 (length bytes) && text_eq (take 5 (drop 257 bytes)) (codes "ustar")
            then tar
            else plain))

pub record CappedWriter : Type 0 where
  pub buf : Bytes
  pub limit : ℕ
  pub exceeded : Bool

-- `CappedWriter::write`: the number of bytes taken, or `none` for the error.
unfoldable pub write_capped : CappedWriter → Bytes → Option ℕ × CappedWriter
write_capped w bytes =
    if ltb w.limit (length w.buf + length bytes)
    then (none, record w { exceeded = true })
    else (some (length bytes), record w { buf = w.buf ++ bytes })

-- A line that ended in a line feed loses a carriage return before it.
abbrev chomp : Text → Text
chomp [] = []
chomp (c ∷ line) = if c == 13 then reverse line else reverse (c ∷ line)

abbrev lines_from : Text → Text → List Text
lines_from [] [] = []
lines_from (c ∷ line) [] = reverse (c ∷ line) ∷ []
lines_from line (c ∷ s) = if c == 10 then chomp line ∷ lines_from [] s else lines_from (c ∷ line) s

-- `str::lines`.
unfoldable pub lines : Text → List Text
lines s = lines_from [] s

abbrev join_lines : List Text → Text
join_lines [] = []
join_lines (line ∷ []) = line
join_lines (line ∷ rest) = line ++ 10 ∷ join_lines rest

unfoldable pub last_n_lines : Text → ℕ → Text
last_n_lines text zero = []
last_n_lines text (suc n) = let ls = lines text in join_lines (drop (length ls - suc n) ls)

unfoldable pub drop_partial_first_line : Text → Text
drop_partial_first_line [] = []
drop_partial_first_line (c ∷ s) = if c == 10 then s else drop_partial_first_line s

pub record MatchHit : Type 0 where
  pub line : ℕ
  pub text : Text

-- `max_chars` characters and an ellipsis.
unfoldable pub truncate_line : Text → ℕ → Text
truncate_line line max_chars =
    if leb (length line) max_chars then line else take max_chars line ++ 0x2026 ∷ []

abbrev pub enumerate {ℓ} : {A : Type ℓ} → ℕ → List A → List (ℕ × A)
enumerate i [] = []
enumerate i (x ∷ xs) = (i, x) ∷ enumerate (suc i) xs

-- The lines from index `start` up to `to`, numbered from 1 and cut by `cut`.
abbrev pub window : (Text → Text) → List Text → ℕ → ℕ → List MatchHit
window cut ls start to =
    map (λ (i, l). record { line = i + 1; text = cut l })
      (drop start (take (to + 1) (enumerate 0 ls)))

pub record GrepMatches : Type 0 where
  pub hits : List MatchHit
  pub total : ℕ
  pub truncated : Bool

-- The loop of `grep_lines`: the matching lines so far, and the indices left.
abbrev grep_loop :
    (Text → Bool) → ℕ → ℕ → List Text → List (ℕ × Text) → ℕ → ℕ → List MatchHit → ℕ × List MatchHit
grep_loop re context max_matches ls [] total emitted hits = (total, hits)
grep_loop re context max_matches ls ((idx, line) ∷ rest) total emitted hits =
    let to = min (idx + context) (length ls - 1) in
    let found = hits ++ window (λ l. l) ls (idx - context) to in
    elim (re line) [
      | false ↦ grep_loop re context max_matches ls rest total emitted hits
      | true ↦ elim (leb max_matches emitted) [
        | true ↦ grep_loop re context max_matches ls rest (total + 1) emitted hits
        | false ↦ grep_loop re context max_matches ls rest (total + 1) (emitted + 1) found
      ]
    ]

unfoldable pub grep_lines : Text → (Text → Bool) → ℕ → ℕ → GrepMatches
grep_lines text re context_lines max_matches =
    let ls = lines text in
    let (total, hits) = grep_loop re context_lines max_matches ls (enumerate 0 ls) 0 0 [] in
    record { hits = hits; total = total; truncated = ltb max_matches total }

pub data Sliced : Type 0 where
  sliced_text : Text → Sliced
  sliced_matches : GrepMatches → Sliced

-- `slice`, the pattern compiled; `none` where it does not compile.
unfoldable pub slice :
    (Text → Option (Text → Bool)) → Text → Option ℕ → Option Text → ℕ → ℕ → Option Sliced
slice compile text tail_lines grep context_lines max_matches =
    let trimmed : Text = elim tail_lines [ none ↦ text | some n ↦ last_n_lines text n ] in
    elim grep [
      | none ↦ some (sliced_text trimmed)
      | some pattern ↦ elim (compile pattern) [
        | none ↦ none
        | some re ↦ some (sliced_matches (grep_lines trimmed re context_lines max_matches))
      ]
    ]

pub record Scanning : Type 0 where
  pub hits : List MatchHit
  pub hit_count : ℕ
  pub last_emitted : Option ℕ

abbrev pub start_after : ℕ → Option ℕ → ℕ
start_after from none = from
start_after from (some last) = max from (last + 1)

-- A matching line, below the limit: its context but for what was already emitted.
abbrev pub emit : List Text → ℕ → ℕ → Scanning → Scanning
emit ls from to s =
    let start = start_after from s.last_emitted in
    if leb start to
    then record s {
      hits = s.hits ++ window (λ l. truncate_line l digest_max_line_chars) ls start to;
      last_emitted = some to;
    }
    else s

abbrev pub scan_line : (Text → Bool) → ℕ → ℕ → List Text → ℕ × Text → Scanning → Scanning
scan_line set context max_hits ls (idx, line) s =
    if set line
    then (let s = record s { hit_count = s.hit_count + 1 } in
        if ltb max_hits s.hit_count
        then s
        else emit ls (idx - context) (min (idx + context) (length ls - 1)) s)
    else s

abbrev pub scan_loop : (Text → Bool) → ℕ → ℕ → List Text → List (ℕ × Text) → Scanning → Scanning
scan_loop set context max_hits ls [] s = s
scan_loop set context max_hits ls (entry ∷ rest) s =
    scan_loop set context max_hits ls rest (scan_line set context max_hits ls entry s)

pub record ScanResult : Type 0 where
  pub hits : List MatchHit
  pub hit_count : ℕ
  pub more_hits : Bool
  pub total_lines : ℕ

unfoldable pub scan_markers : Text → (Text → Bool) → ℕ → ℕ → ScanResult
scan_markers text set context max_hits =
    let ls = lines text in
    let s =
      scan_loop set context max_hits ls (enumerate 0 ls)
        (record { hits = []; hit_count = 0; last_emitted = none }) in
    record {
      hits = s.hits;
      hit_count = s.hit_count;
      more_hits = ltb max_hits s.hit_count;
      total_lines = length ls;
    }

unfoldable pub tail_hits : Text → ℕ → List MatchHit
tail_hits text zero = []
tail_hits text (suc n) =
    let ls = lines text in
    let start = length ls - suc n in
    map
      (λ (i, line). record {
        line = start + i + 1;
        text = truncate_line line digest_max_line_chars;
      })
      (enumerate 0 (drop start ls))
