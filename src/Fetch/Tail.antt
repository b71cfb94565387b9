-- ===== src/Fetch/Tail.antt =====
-- The reading of a tail: which attempt answers, and what has been read.
use ruoqa_mcp.Common.{
  ℕ, ◌+◌, ◌-◌, ◌≤◌, ◌≡◌, refl, sym, ap, ◌∙◌, subst, ◌⊎◌, inl, inr, Bool, true, false, ◌&&◌, Option,
  none, some, List, [], ◌∷◌, ◌++◌, map, append-nil, append_assoc, arith, ltb, if◌then◌else◌, length,
  length-append, Result, ok, err, ◌>>=◌, ok-injective, if_err_lem,
}
use ruoqa_mcp.Common.Text.{Text}
use ruoqa_mcp.Common.Int.{ℤ}
use ruoqa_mcp.Otel.Proto.{Bytes}
use ruoqa_mcp.Fetch.{
  Bail, Response, Probe, TailFetch, changed, read_capped_from, read_capped, artifact_path,
  requested, take_tail, after_get, tail_loop, tail_range, fetch_tail,
}

abbrev pub gathered : List Bytes → Bytes
gathered [] = []
gathered (c ∷ cs) = c ++ gathered cs

fits_lem :
    (limit : ℕ) (buf c : Bytes)
    → length buf ≤ limit
    → ltb (limit - length buf) (length c) ≡ false
    → length (buf ++ c) ≤ limit
fits_lem limit buf c fits small =
    subst (λ n. n ≤ limit) (sym (length-append buf c)) (ground (arith, fits, small))

-- A body that is read is whole, and no longer than the limit.
pub read_capped_from_lem :
    {E : Type 0} (limit : ℕ) (buf : Bytes) (chunks : List (Option Bytes)) {bytes : Bytes}
    → length buf ≤ limit
    → ◌≡◌ {A = Result Bytes (Bail E)} (read_capped_from limit buf chunks) (ok bytes)
    → (cs : List Bytes) × (chunks ≡ map some cs)
      × (bytes ≡ buf ++ gathered cs)
      × (length bytes ≤ limit)
read_capped_from_lem limit buf [] fits e = (
  [],
  refl,
  sym (ok-injective e) ∙ sym (append-nil buf),
  subst (λ b. length b ≤ limit) (ok-injective e) fits,
)
read_capped_from_lem limit buf (none ∷ chunks) fits e = absurd (cc)
read_capped_from_lem limit buf (some c ∷ chunks) fits e =
    let (small, rest) = if_err_lem (ltb (limit - length buf) (length c)) _ _ e in
    let (cs, whole, bytes, bound) =
      read_capped_from_lem limit (buf ++ c) chunks (fits_lem limit buf c fits small) rest in
    (c ∷ cs, ap (λ l. some c ∷ l) whole, bytes ∙ append_assoc buf c (gathered cs), bound)

pub read_capped_lem :
    {E : Type 0} (limit : ℕ) (chunks : List (Option Bytes)) {bytes : Bytes}
    → ◌≡◌ {A = Result Bytes (Bail E)} (read_capped limit chunks) (ok bytes)
    → (cs : List Bytes) × (chunks ≡ map some cs) × (bytes ≡ gathered cs) × (length bytes ≤ limit)
unfolding read_capped
read_capped_lem limit chunks e = read_capped_from_lem limit [] chunks (ground (arith)) e

module _ {E : Type 0} (utf8_percent_encode : Text → (ℕ → Bool) → Text)
    (prepare : Text → Result Text E) (execute : ℕ → Text → Option Text → Result Response E)
    (p : Probe) (ceiling : ℕ) (path range : Text) where
  -- What attempt k ended with, where the answer of attempt n is passed over if it has changed.
  abbrev pub Ends : ℕ → ℕ → Option (Result TailFetch (Bail E) × ℕ) → Type 0
  Ends n k out =
      ((why : Bail E) × (out ≡ some (err why, k + 1)))
      ⊎ ((resp : Response) × (cs : List Bytes) × (requested utf8_percent_encode prepare execute k
              path (some range)
            ≡ ok resp)
          × (resp.chunks ≡ map some cs)
          × (length (gathered cs) ≤ ceiling)
          × ((changed p resp ≡ false) ⊎ (k ≡ n + 1))
          × (out
              ≡ some (
                ok (record { bytes = gathered cs; changed_during_read = changed p resp }),
                k + 1,
              )))

  read_lem :
      (n k : ℕ) (resp : Response)
      → requested utf8_percent_encode prepare execute k path (some range) ≡ ok resp
      → (changed p resp ≡ false) ⊎ (k ≡ n + 1)
      → (r : Result Bytes (Bail E)) → read_capped ceiling resp.chunks ≡ r
      → Ends n k (
          some (
            (r >>= λ bytes. ok (record { bytes = bytes; changed_during_read = changed p resp })),
            k + 1,
          ))
  read_lem n k resp asked why (err e) read = inl (e, refl)
  read_lem n k resp asked why (ok bytes) read =
      let (cs, whole, same, bound) = read_capped_lem ceiling resp.chunks read in
      inr (
        resp,
        cs,
        asked,
        whole,
        subst (λ b. length b ≤ ceiling) same bound,
        why,
        ap (λ b. some (ok (record { bytes = b; changed_during_read = changed p resp }), k + 1))
            same,
      )

  -- An attempt that is the last one, or whose answer has not changed, ends the reading.
  abbrev attempt :
      Bool
      → ℕ
      → Option (Result TailFetch (Bail E) × ℕ)
      → Result Response (Bail E)
      → Option (Result TailFetch (Bail E) × ℕ)
  attempt first k retry r = after_get utf8_percent_encode prepare execute p ceiling first k retry r

  attempt_lem :
      (n k : ℕ) (first : Bool) (retry : Option (Result TailFetch (Bail E) × ℕ))
      (r : Result Response (Bail E))
      → requested utf8_percent_encode prepare execute k path (some range) ≡ r
      → (first ≡ true) ⊎ (k ≡ n + 1)
      → ((first ≡ true) × (attempt first k retry r ≡ retry)) ⊎ Ends n k (attempt first k retry r)
  attempt_lem n k first retry (err why) asked place = inr (inl (why, refl))
  attempt_lem n k first retry (ok resp) asked place = ends (changed p resp) first refl place
    where
      ends :
          (moved f : Bool)
          → changed p resp ≡ moved
          → (f ≡ true) ⊎ (k ≡ n + 1)
          → ((f ≡ true)
              × ((if moved && f
                    then retry
                    else some (take_tail utf8_percent_encode prepare execute p ceiling resp, k + 1))
                  ≡ retry))
            ⊎ Ends n k (
                if moved && f
                then retry
                else some (take_tail utf8_percent_encode prepare execute p ceiling resp, k + 1))
      ends true true moves place = inl (refl, refl)
      ends true false moves (inl wrong) = absurd (cc)
      ends true false moves (inr second) = inr (read_lem n k resp asked (inr second) _ refl)
      ends false f moves place = inr (read_lem n k resp asked (inl moves) _ refl)

  tail_loop_lem :
      (n : ℕ)
      → (k : ℕ) × ((k ≡ n) ⊎ (k ≡ n + 1))
        × Ends n k (tail_loop utf8_percent_encode prepare execute path range p ceiling 2 true n)
  tail_loop_lem n = elim (attempt_lem n n true (again n) (asked n) refl (inl refl)) [
    | inr ends ↦ (n, inl refl, ends)
    | inl (_, same) ↦ elim (attempt_lem n (n + 1) false none (asked (n + 1)) refl (inr refl)) [
      | inl (wrong, _) ↦ absurd (cc)
      | inr ends ↦ (n + 1, inr refl, subst (Ends n (n + 1)) (sym same) ends)
    ]
  ]
    where
      asked : ℕ → Result Response (Bail E)
      asked k = requested utf8_percent_encode prepare execute k path (some range)

      again : ℕ → Option (Result TailFetch (Bail E) × ℕ)
      again k = tail_loop utf8_percent_encode prepare execute path range p ceiling 1 false (k + 1)

-- A tail is read by one attempt or by two, and the reading always ends with one of these: it fails;
-- or the last attempt was answered by a response whose whole body, no longer than the ceiling, is
-- what is returned, the flag says whether that response is of another file than the probe saw, and
-- it can be only on the second attempt.
pub fetch_tail_lem :
    {E : Type 0} (utf8_percent_encode : Text → (ℕ → Bool) → Text) (prepare : Text → Result Text E)
    (execute : ℕ → Text → Option Text → Result Response E) (n : ℕ) (job_id : ℤ) (filename : Text)
    (p : Probe) (window ceiling : ℕ)
    → (k : ℕ) × ((k ≡ n) ⊎ (k ≡ n + 1))
      × Ends utf8_percent_encode prepare execute p ceiling
          (artifact_path utf8_percent_encode prepare execute job_id filename)
          (tail_range utf8_percent_encode prepare execute p window)
          n
          k
          (fetch_tail utf8_percent_encode prepare execute n job_id filename p window ceiling)
unfolding fetch_tail
fetch_tail_lem utf8_percent_encode prepare execute n job_id filename p window ceiling =
    tail_loop_lem utf8_percent_encode prepare execute p ceiling
      (artifact_path utf8_percent_encode prepare execute job_id filename)
      (tail_range utf8_percent_encode prepare execute p window) n
