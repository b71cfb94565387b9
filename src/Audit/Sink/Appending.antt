-- ===== src/Audit/Sink/Appending.antt =====
-- What a reader of the audit directory sees after a rotation.
use ruoqa_mcp.Common.{
  ℕ, zero, suc, ◌<◌, ◌≡◌, refl, sym, ap, ◌∙◌, subst, inl, inr, Option, none, some, [], ◌++◌, arith,
  ltb, leb, if◌then◌else◌, ltb→lt, leb→le, Bool-cases, unwrap_or, length,
}
use ruoqa_mcp.Otel.Proto.{Bytes}
use ruoqa_mcp.Audit.Sink.{World}
use ruoqa_mcp.Audit.Sink.Rotate.{Rotated}
use ruoqa_mcp.Audit.Sink.View.{
  contents_of, view, shifted, IsValid, written, view-named, view-written,
}

Rotated-from :
    (j : ℕ) (w w' : World)
    → Rotated j w w'
    → (k : ℕ) → (i : ℕ) × (w'.disk.names (suc k) ≡ w.disk.names i)
Rotated-from j w w' r k = elim (Bool-cases (ltb k (suc j))) [
  | inl e ↦ (k, r.up k (ltb→lt k (suc j) e))
  | inr e ↦ (suc k, r.beyond (suc k) (ground arith))
]

Rotated-file : (j : ℕ) (w w' : World) → Rotated j w w' → w'.sink.file ≡ w.disk.fresh
Rotated-file j w w' r = ap (λ s. s.file) r.sink

Rotated-bounded :
    (j : ℕ) (w w' : World)
    → IsValid w
    → Rotated j w w'
    → (k f : ℕ) → w'.disk.names (suc k) ≡ some f
    → f < w.disk.fresh
Rotated-bounded j w w' v r k f h = let (i, e) = Rotated-from j w w' r k in v.bounded i f (sym e ∙ h)

Rotated-all :
    (j : ℕ) (w w' : World)
    → IsValid w
    → Rotated j w w'
    → (k f : ℕ) → w'.disk.names k ≡ some f
    → f < w'.disk.fresh
Rotated-all j w w' v r zero f h =
    let e : some w.disk.fresh ≡ some f = sym r.live ∙ h in
    let p : w.disk.fresh ≡ f = cc in omega (arith, p, r.fresh)
Rotated-all j w w' v r (suc k) f h = omega (arith, Rotated-bounded j w w' v r k f h, r.fresh)

pub Rotated-IsValid : (j : ℕ) (w w' : World) → IsValid w → Rotated j w w' → IsValid w'
Rotated-IsValid j w w' v r = record {
  live = r.live ∙ ap some (sym (Rotated-file j w w' r));
  len =
      ap (λ f. length (w'.disk.contents f)) (Rotated-file j w w' r)
      ∙ ap length r.empty
      ∙ ap (λ s. s.len) (sym r.sink);
  apart = λ k h. omega (arith, Rotated-bounded j w w' v r k w'.sink.file h, Rotated-file j w w' r);
  bounded = Rotated-all j w w' v r;
  faults = r.faults;
  keep = subst (λ s. 0 < s.rotate_keep) (sym r.sink) v.keep;
}

contents_of-Rotated :
    (j : ℕ) (w w' : World)
    → Rotated j w w'
    → (o : Option ℕ) → ((f : ℕ) → o ≡ some f → f < w.disk.fresh)
    → contents_of w'.disk o ≡ contents_of w.disk o
contents_of-Rotated j w w' r none h = refl
contents_of-Rotated j w w' r (some f) h =
    let lt : f < w.disk.fresh = h f refl in ap some (r.contents f (omega arith))

view-Rotated :
    (j : ℕ) (w w' : World)
    → IsValid w
    → Rotated j w w'
    → (k i : ℕ) → w'.disk.names k ≡ w.disk.names i
    → view w'.disk k ≡ view w.disk i
unfolding view
view-Rotated j w w' v r k i e =
    ap (contents_of w'.disk) e ∙ contents_of-Rotated j w w' r (w.disk.names i) (v.bounded i)

-- The rotated stream with the line written to its new file.
pub view-appended :
    (j : ℕ) (buf : Bytes) (w w' : World)
    → w.sink.rotate_keep ≡ suc j
    → IsValid w
    → Rotated j w w'
    → (k : ℕ) → view (written buf w').disk k ≡ shifted w.sink.rotate_keep buf (view w.disk) k
view-appended j buf w w' e v r zero =
    view-written buf w' (Rotated-IsValid j w w' v r) 0
    ∙ ap (λ o. some (unwrap_or o [] ++ buf)) (view-named w'.disk 0 r.live ∙ ap some r.empty)
view-appended j buf w w' e v r (suc k) =
    view-written buf w' (Rotated-IsValid j w w' v r) (suc k)
    ∙ elim (Bool-cases (leb (suc k) w.sink.rotate_keep)) [
      | inl c ↦
          view-Rotated j w w' v r (suc k) k
            (r.up k (omega (arith, e, leb→le (suc k) w.sink.rotate_keep c)))
          ∙ ap (λ b. if b then view w.disk k else view w.disk (suc k)) (sym c)
      | inr c ↦
          let lt : w.sink.rotate_keep < suc k = ground arith in
          view-Rotated j w w' v r (suc k) (suc k) (r.beyond (suc k) (omega (arith, e, lt)))
          ∙ ap (λ b. if b then view w.disk k else view w.disk (suc k)) (sym c)
    ]
