-- ===== src/Audit/Sink/Lost.antt =====
-- The sink of src/audit.rs after a rotation whose `open_append` failed: the live path is missing,
-- and `len` is still the old length.
use ruoqa_mcp.Common.{
  ℕ, zero, suc, ◌+◌, ◌-◌, ◌≤◌, ◌<◌, ◌≡◌, refl, sym, ap, ◌∙◌, subst, true, none, List, [], ◌∷◌,
  arith, if◌then◌else◌, length, All, Result, ok, err,
}
use ruoqa_mcp.Otel.Proto.{Bytes}
use ruoqa_mcp.Audit.Disk.{ErrorKind, not_found, Disk, rename}
use ruoqa_mcp.Audit.Sink.{
  World, ◌>>=◌, needs_rotation, reopen, rotate, write_line, line_bytes, append,
}
use ruoqa_mcp.Audit.Sink.Shift.{shift_down_lem, remove_file-cases}
use ruoqa_mcp.Audit.Sink.Rotate.{rotate_step}

-- The slots after one more rotation that found no live file.
record Drained (j : ℕ) (d d' : Disk) : Type 0 where
  live : d'.names 0 ≡ none
  first : d'.names 1 ≡ none
  up : (k : ℕ) → k < j → d'.names (suc (suc k)) ≡ d.names (suc k)
  faults : d'.faults ≡ []

reopen_missing :
    (w : World) → w.disk.faults ≡ [] → w.disk.names 0 ≡ none → reopen w ≡ (err not_found, w)
unfolding reopen rename
reopen_missing w f e = ground arith

rotate_missing :
    (j : ℕ) (w : World)
    → w.sink.rotate_keep ≡ suc j
    → w.disk.faults ≡ []
    → w.disk.names 0 ≡ none
    → (d : Disk) × (rotate w ≡ (err not_found, record { sink = w.sink; disk = d }))
      × Drained j w.disk d
rotate_missing j w k f e =
    let (a, p, r) = remove_file-cases w.disk (suc j) f in
    let (b, q, s) = shift_down_lem j (record w { disk = a }) (r.same.faults ∙ f) r.gone in
    let live : b.names 0 ≡ none = s.live ∙ r.rest 0 (omega arith) ∙ e in
    let faults : b.faults ≡ [] = s.same.faults ∙ r.same.faults ∙ f in
    (
      b,
      rotate_step j w a k p
          ∙ ap (λ o. o >>= λ r. reopen r.1) q
          ∙ reopen_missing (record { sink = w.sink; disk = b }) faults live,
      record {
        live = live;
        first = s.first;
        faults = faults;
        up = λ k lt. s.up k lt ∙ r.rest (suc k) (omega arith);
      },
    )

-- Appends one after the other, with the result of each.
abbrev pub append_all : List Bytes → World → List (Result (Unit {0}) ErrorKind) × World
append_all [] w = ([], w)
append_all (line ∷ lines) w =
    let (r, w') = append line w in let (rs, w'') = append_all lines w' in (r ∷ rs, w'')

-- The state that a failed `open_append` leaves.
pub record IsLost (w : World) : Type 0 where
  pub live : w.disk.names 0 ≡ none
  pub faults : w.disk.faults ≡ []
  pub keep : 0 < w.sink.rotate_keep

append_missing :
    (line : Bytes) (w w' : World)
    → needs_rotation w.sink (length (line_bytes line)) ≡ true
    → rotate w ≡ (err not_found, w')
    → append line w ≡ (err not_found, w')
unfolding append
append_missing line w w' n e =
    ap (λ b. (if b then rotate w else (ok tt, w)) >>= λ r. write_line (line_bytes line) r.1) n
    ∙ ap (λ o. o >>= λ r. write_line (line_bytes line) r.1) e

abbrev pub Refused : Result (Unit {0}) ErrorKind → Type 0
Refused r = r ≡ err not_found

-- After `n` such appends the first `n` kept slots are empty.
abbrev Emptied : ℕ → World → Type 0
Emptied n w = (k : ℕ) → k < n → k < w.sink.rotate_keep → w.disk.names (suc k) ≡ none

append_all_step :
    (line : Bytes) (lines : List Bytes) (w w' : World) {r : Result (Unit {0}) ErrorKind}
    → append line w ≡ (r, w')
    → append_all (line ∷ lines) w ≡ (r ∷ (append_all lines w').0, (append_all lines w').1)
append_all_step line lines w w' e =
    ap (λ o. (o.0 ∷ (append_all lines o.1).0, (append_all lines o.1).1)) e

keep-suc : (w : World) → IsLost w → w.sink.rotate_keep ≡ suc (w.sink.rotate_keep - 1)
keep-suc w l = omega (arith, l.keep)

Drained-Emptied :
    (j n : ℕ) (w : World) (d : Disk)
    → w.sink.rotate_keep ≡ suc j
    → Drained j w.disk d
    → Emptied n w
    → Emptied (suc n) (record { sink = w.sink; disk = d })
Drained-Emptied j n w d q r e zero lt lk = r.first
Drained-Emptied j n w d q r e (suc k) lt lk =
    r.up k (omega (arith, q, lk)) ∙ e k (omega arith) (omega (arith, lk))

Outcome : ℕ → ℕ → World → List (Result (Unit {0}) ErrorKind) × World → Type 0
Outcome n m w (rs, w') = (length rs ≡ m) × All Refused rs × (w'.sink ≡ w.sink) × Emptied (n + m) w'

append_all_from :
    (n : ℕ) (lines : List Bytes) (w : World)
    → IsLost w
    → All (λ line. needs_rotation w.sink (length (line_bytes line)) ≡ true) lines
    → Emptied n w
    → Outcome n (length lines) w (append_all lines w)
unfolding Outcome
append_all_from n [] w l a e = (refl, tt, refl, λ k lt. e k (omega (arith, lt)))
append_all_from n (line ∷ lines) w l (p, a) e =
    let j = w.sink.rotate_keep - 1 in
    let (d, q, r) = rotate_missing j w (keep-suc w l) l.faults l.live in
    let w' : World = record { sink = w.sink; disk = d } in
    let l' : IsLost w' = record { live = r.live; faults = r.faults; keep = l.keep } in
    let (len, errs, same, empty) =
      append_all_from (suc n) lines w' l' a (Drained-Emptied j n w d (keep-suc w l) r e) in
    subst (Outcome n (suc (length lines)) w)
      (sym (append_all_step line lines w w' (append_missing line w w' p q)))
      (ap suc len, (refl, errs), same, λ k lt. empty k (omega (arith, lt)))

-- In the state that a rotation leaves whose `open_append` failed after the rename (no file under
-- the live path, the sink's length still calling for a rotation), every later append of such
-- lines returns `not_found` although no call of the disk fails of itself; and after `rotate_keep`
-- of them each kept slot is empty.
pub append_all_lost :
    (lines : List Bytes) (w : World) (k : ℕ)
    → IsLost w
    → All (λ line. needs_rotation w.sink (length (line_bytes line)) ≡ true) lines
    → w.sink.rotate_keep ≤ length lines
    → k < w.sink.rotate_keep
    → All Refused (append_all lines w).0
      × (length (append_all lines w).0 ≡ length lines)
      × ((append_all lines w).1.disk.names (suc k) ≡ none)
unfolding Outcome
append_all_lost lines w k l a le lt =
    let (len, errs, same, empty) = append_all_from 0 lines w l a (λ k lt. absurd (omega arith)) in
    (errs, len, empty k (omega arith) (subst (λ s. k < s.rotate_keep) (sym same) lt))
