-- ===== src/Audit/Sink/Append.antt =====
-- Appending to the audit stream on a disk whose calls do not fail, against a description of the
-- stream as a row of byte strings: slot 0 is the live file, slots 1 to `rotate_keep` the kept ones.
use ruoqa_mcp.Common.{
  ℕ, suc, ◌-◌, ◌<◌, ◌≡◌, sym, ap, ◌∙◌, inl, inr, true, false, [], ◌∷◌, arith, if◌then◌else◌,
  Bool-cases, length, length-append, ok,
}
use ruoqa_mcp.Otel.Proto.{Bytes}
use ruoqa_mcp.Audit.Sink.{World, ◌>>=◌, needs_rotation, rotate, write_line, line_bytes, append}
use ruoqa_mcp.Audit.Sink.Rotate.{Rotated, rotate_lem}
use ruoqa_mcp.Audit.Sink.View.{
  view, shifted, extended, appended, IsValid, IsBounded, written, write_line-cases, written-IsValid,
  view-written,
}
use ruoqa_mcp.Audit.Sink.Appending.{Rotated-IsValid, view-appended}

-- The outcome of an append: the world it leaves, and what that world shows.
pub record Appended (w : World) (buf : Bytes) (w' : World) : Type 0 where
  pub valid : IsValid w'
  pub row : (k : ℕ) → view w'.disk k ≡ appended w.sink buf (view w.disk) k
  pub bounded : IsBounded w' buf

append-kept :
    (line : Bytes) (w : World)
    → needs_rotation w.sink (length (line_bytes line)) ≡ false
    → append line w ≡ write_line (line_bytes line) w
unfolding append
append-kept line w n =
    ap (λ b. (if b then rotate w else (ok tt, w)) >>= λ r. write_line (line_bytes line) r.1) n

append-rotated :
    (line : Bytes) (w w' : World)
    → needs_rotation w.sink (length (line_bytes line)) ≡ true
    → rotate w ≡ (ok tt, w')
    → append line w ≡ write_line (line_bytes line) w'
unfolding append
append-rotated line w w' n e =
    ap (λ b. (if b then rotate w else (ok tt, w)) >>= λ r. write_line (line_bytes line) r.1) n
    ∙ ap (λ o. o >>= λ r. write_line (line_bytes line) r.1) e

Appended-kept :
    (buf : Bytes) (w : World)
    → IsValid w
    → needs_rotation w.sink (length buf) ≡ false
    → 0 < length buf
    → Appended w buf (written buf w)
unfolding appended
Appended-kept buf w v n p = record {
  valid = written-IsValid buf w v;
  row = λ k.
      view-written buf w v k
      ∙ ap
          (λ b.
            (if b then shifted w.sink.rotate_keep buf (view w.disk) else extended buf (view w.disk))
              k)
          (sym n);
  bounded = record { bound = ground arith };
}

Appended-Rotated :
    (j : ℕ) (buf : Bytes) (w w' : World)
    → w.sink.rotate_keep ≡ suc j
    → IsValid w
    → Rotated j w w'
    → needs_rotation w.sink (length buf) ≡ true
    → Appended w buf (written buf w')
unfolding appended
Appended-Rotated j buf w w' e v r n = record {
  valid = written-IsValid buf w' (Rotated-IsValid j w w' v r);
  row = λ k.
      view-appended j buf w w' e v r k
      ∙ ap
          (λ b.
            (if b then shifted w.sink.rotate_keep buf (view w.disk) else extended buf (view w.disk))
              k)
          (sym n);
  bounded = record { bound = inr (inr (omega (arith, ap (λ s. s.len) r.sink))) };
}

keep-suc : (w : World) → IsValid w → w.sink.rotate_keep ≡ suc (w.sink.rotate_keep - 1)
keep-suc w v = omega (arith, v.keep)

-- On a disk whose calls do not fail, `append` succeeds from every valid state and leaves a valid
-- state again. The directory then shows the appended stream: without a rotation the line stands
-- at the end of the live file and the other slots are as before; with one the line is alone in the
-- live file, slots 1 to `rotate_keep` show what the slots before them showed, and those beyond
-- are as before. The live file stays within `rotate_max_bytes` (where that is not 0) or holds the
-- one line.
pub append_lem :
    (line : Bytes) (w : World)
    → IsValid w
    → (w' : World) × (append line w ≡ (ok tt, w')) × Appended w (line_bytes line) w'
append_lem line w v = elim (Bool-cases (needs_rotation w.sink (length (line_bytes line)))) [
  | inl n ↦
      let (w', e, r) =
        rotate_lem (w.sink.rotate_keep - 1) w w.sink.file (keep-suc w v) v.faults v.live in
      (
        written (line_bytes line) w',
        append-rotated line w w' n e ∙ write_line-cases (line_bytes line) w' r.faults,
        Appended-Rotated (w.sink.rotate_keep - 1) (line_bytes line) w w' (keep-suc w v) v r n,
      )
  | inr n ↦ (
    written (line_bytes line) w,
    append-kept line w n ∙ write_line-cases (line_bytes line) w v.faults,
    Appended-kept (line_bytes line) w v n (omega (arith, length-append line (10 ∷ []))),
  )
]
