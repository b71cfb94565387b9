-- ===== src/Fetch/Decode.antt =====
-- Decompressed artifacts and archives, src/tools/artifact.rs. What the decoders write, and whether
-- they end without an error, is a parameter, and so are the entries of an archive.
use ruoqa_mcp.Common.{
  ℕ, zero, suc, ◌+◌, ◌≤◌, ◌≡◌, refl, sym, subst, Bool, true, false, Option, none, some, List, [],
  ◌∷◌, ◌++◌, arith, ltb, if◌then◌else◌, is_none, length, length-append, Result, ok, err, ◌>>=◌,
  ok_or, >>=-eq-ok, ok-injective,
}
use ruoqa_mcp.Common.Text.{Text, text_eq}
use ruoqa_mcp.Otel.Proto.{Bytes}
use ruoqa_mcp.Artifact.{CappedWriter, write_capped, Sniff, gzip, xz, tar, plain}
use ruoqa_mcp.Fetch.{Bail, decoded_too_large, undecodable, no_member}

pub record TarMember : Type 0 where
  pub path : Text
  pub size : ℕ

-- An entry: its path, if it has one, and what reading it gives.
pub record TarEntry : Type 0 where
  pub path : Option Text
  pub size : ℕ
  pub chunks : List Bytes
  pub whole : Bool

abbrev writer : ℕ → CappedWriter
writer ceiling = record { buf = []; limit = ceiling; exceeded = false }

abbrev written : CappedWriter → Bytes → Bool → Option ℕ × CappedWriter
written w chunk big =
    if big
    then (none, record w { exceeded = true })
    else (some (length chunk), record w { buf = w.buf ++ chunk })

module _ {E : Type 0} where
  -- `std::io::copy` into the writer.
  abbrev pub copy : CappedWriter → List Bytes → Bool → Result Bytes (Bail E)
  copy w [] whole = if whole then ok w.buf else err undecodable
  copy w (chunk ∷ chunks) whole =
      let (taken, w) = write_capped w chunk in
      let rest = copy w chunks whole in
      if is_none taken then err (decoded_too_large w.limit) else rest

  unfoldable pub decompress :
      (Sniff → Bytes → List Bytes × Bool) → Bytes → Sniff → ℕ → Result Bytes (Bail E)
  decompress decode bytes plain ceiling = ok bytes
  decompress decode bytes tar ceiling = ok bytes
  decompress decode bytes gzip ceiling =
      let (chunks, whole) = decode gzip bytes in copy (writer ceiling) chunks whole
  decompress decode bytes xz ceiling =
      let (chunks, whole) = decode xz bytes in copy (writer ceiling) chunks whole

  -- The loop of `tar_members`, with the number of entries that it may still list.
  abbrev pub members_from : ℕ → List (Option TarEntry) → Result (List TarMember × Bool) (Bail E)
  members_from left [] = ok ([], false)
  members_from zero (entry ∷ entries) = ok ([], true)
  members_from (suc left) (none ∷ entries) = err undecodable
  members_from (suc left) (some entry ∷ entries) =
      let rest = members_from left entries in
      ok_or entry.path undecodable >>= λ path. rest >>= λ (members, truncated).
      ok (record { path = path; size = entry.size } ∷ members, truncated)

  unfoldable pub tar_members :
      (Bytes → Option (List (Option TarEntry)))
      → Bytes
      → ℕ
      → Result (List TarMember × Bool) (Bail E)
  tar_members entries bytes limit =
      ok_or (entries bytes) undecodable >>= λ es. members_from limit es

  -- The loop of `extract_tar_member`.
  abbrev pub extract_from : Text → ℕ → List (Option TarEntry) → Result Bytes (Bail E)
  extract_from member ceiling [] = err (no_member member)
  extract_from member ceiling (none ∷ entries) = err undecodable
  extract_from member ceiling (some entry ∷ entries) =
      let rest = extract_from member ceiling entries in
      ok_or entry.path undecodable >>= λ path.
      (if text_eq path member then copy (writer ceiling) entry.chunks entry.whole else rest)

  unfoldable pub extract_tar_member :
      (Bytes → Option (List (Option TarEntry))) → Bytes → Text → ℕ → Result Bytes (Bail E)
  extract_tar_member entries bytes member ceiling =
      ok_or (entries bytes) undecodable >>= λ es. extract_from member ceiling es

  abbrev copied : ℕ → List Bytes → Bool → Option ℕ × CappedWriter → Result Bytes (Bail E)
  copied limit chunks whole (taken, w) =
      if is_none taken then err (decoded_too_large w.limit) else copy w chunks whole

  -- What is copied fits the writer.
  pub copy_lem :
      (w : CappedWriter) (chunks : List Bytes) (whole : Bool) {out : Bytes}
      → length w.buf ≤ w.limit
      → copy w chunks whole ≡ ok out
      → length out ≤ w.limit
  unfolding write_capped
  copy_lem w [] true fits e = subst (λ b. length b ≤ w.limit) (ok-injective e) fits
  copy_lem w [] false fits e = absurd (cc)
  copy_lem w (chunk ∷ chunks) whole {out = out} fits e =
      by_size (copy_lem (record w { buf = w.buf ++ chunk }) chunks whole)
        (ltb w.limit (length w.buf + length chunk)) refl e
    where
      by_size :
          (length (w.buf ++ chunk) ≤ w.limit
            → copy (record w { buf = w.buf ++ chunk }) chunks whole ≡ ok out
            → length out ≤ w.limit)
          → (big : Bool) → ltb w.limit (length w.buf + length chunk) ≡ big
          → copied w.limit chunks whole (written w chunk big) ≡ ok out
          → length out ≤ w.limit
      by_size later true size e = absurd (cc)
      by_size later false size e =
          later (subst (λ n. n ≤ w.limit) (sym (length-append w.buf chunk)) (ground (arith, size)))
            e

  pub extract_from_lem :
      (member : Text) (ceiling : ℕ) (entries : List (Option TarEntry)) {out : Bytes}
      → extract_from member ceiling entries ≡ ok out
      → length out ≤ ceiling
  extract_from_lem member ceiling [] e = absurd (cc)
  extract_from_lem member ceiling (none ∷ entries) e = absurd (cc)
  extract_from_lem member ceiling (some entry ∷ entries) {out = out} e =
      let (path, _, e) = >>=-eq-ok (ok_or entry.path undecodable) _ e in
      by_name (λ r. extract_from_lem member ceiling entries r) (text_eq path member) e
    where
      by_name :
          (extract_from member ceiling entries ≡ ok out → length out ≤ ceiling)
          → (same : Bool)
          → (if same
              then copy (writer ceiling) entry.chunks entry.whole
              else extract_from member ceiling entries)
            ≡ ok out
          → length out ≤ ceiling
      by_name later true e = copy_lem (writer ceiling) entry.chunks entry.whole (ground (arith)) e
      by_name later false e = later e
