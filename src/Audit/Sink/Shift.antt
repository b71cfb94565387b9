-- ===== src/Audit/Sink/Shift.antt =====
-- The renames of a rotation, on a disk whose calls do not fail.
use ruoqa_mcp.Common.{
  ℕ, zero, suc, ◌<◌, ◌≡◌, refl, sym, ap, ◌∙◌, subst, ◌≢◌, inl, inr, none, some, [], arith, ◌==◌,
  Bool-cases, Option-cases, ok, err,
}
use ruoqa_mcp.Audit.Disk.{not_found, Disk, update, remove_file, rename}
use ruoqa_mcp.Audit.Sink.{World, ◌>>=◌, on_disk, ignore_not_found, ignoring, shift_down}

-- The files keep their contents and no fault is due.
pub record SameFiles (d d' : Disk) : Type 0 where
  pub contents : (f : ℕ) → d'.contents f ≡ d.contents f
  pub fresh : d'.fresh ≡ d.fresh
  pub faults : d'.faults ≡ d.faults

-- A renamed slot.
record Moved (d d' : Disk) (i : ℕ) : Type 0 where
  away : d'.names (suc i) ≡ none
  up : d'.names (suc (suc i)) ≡ d.names (suc i)
  rest : (k : ℕ) → k ≢ suc i → k ≢ suc (suc i) → d'.names k ≡ d.names k
  same : SameFiles d d'

pub SameFiles-refl : (d : Disk) → SameFiles d d
SameFiles-refl d = record { contents = λ f. refl; fresh = refl; faults = refl }

SameFiles-trans : {a b c : Disk} → SameFiles a b → SameFiles b c → SameFiles a c
SameFiles-trans p q = record {
  contents = λ f. q.contents f ∙ p.contents f;
  fresh = q.fresh ∙ p.fresh;
  faults = q.faults ∙ p.faults;
}

abbrev moved_names : Disk → ℕ → ℕ → Disk
moved_names d from to = record d { names = update (update d.names to (d.names from)) from none }

rename_missing :
    (d : Disk) (from to : ℕ)
    → d.faults ≡ []
    → d.names from ≡ none
    → rename d from to ≡ (err not_found, d)
unfolding rename
rename_missing d from to f e = ground arith

rename_there :
    (d : Disk) (from to : ℕ) {file : ℕ}
    → d.faults ≡ []
    → d.names from ≡ some file
    → rename d from to ≡ (ok tt, moved_names d from to)
unfolding rename
rename_there d from to f e = ground arith

ignoring-rename :
    (d : Disk) (i : ℕ)
    → d.faults ≡ []
    → d.names (suc (suc i)) ≡ none
    → (d' : Disk) × (ignoring (rename d (suc i) (suc (suc i))) ≡ (ok tt, d')) × Moved d d' i
unfolding ignore_not_found
ignoring-rename d i f free = elim (Option-cases (d.names (suc i))) [
  | inl e ↦ (
    d,
    rw (rename_missing d (suc i) (suc (suc i)) f e) refl,
    record { away = e; up = free ∙ sym e; rest = λ k _ _. refl; same = SameFiles-refl d },
  )
  | inr (file, e) ↦ (
    moved_names d (suc i) (suc (suc i)),
    rw (rename_there d (suc i) (suc (suc i)) f e) refl,
    record {
      away = ground arith;
      up = ground arith;
      rest = λ k p q. ground arith;
      same = record { contents = λ _. refl; fresh = refl; faults = refl };
    },
  )
]

-- What the loop of renames does to the names.
pub record Shifted (d d' : Disk) (i : ℕ) : Type 0 where
  pub up : (k : ℕ) → k < i → d'.names (suc (suc k)) ≡ d.names (suc k)
  pub first : d'.names 1 ≡ none
  pub live : d'.names 0 ≡ d.names 0
  pub beyond : (k : ℕ) → suc i < k → d'.names k ≡ d.names k
  pub same : SameFiles d d'

-- Slot i is where the shift of the lower slots ends.
Shifted-up :
    {a b c : Disk} (i : ℕ)
    → Moved a b i
    → Shifted b c i
    → (k : ℕ) → k < suc i
    → c.names (suc (suc k)) ≡ a.names (suc k)
Shifted-up {a = a} {c = c} i m s k lt = elim (Bool-cases (k == i)) [
  | inl e ↦
      let p : k ≡ i = ground arith in
      subst (λ j. c.names (suc (suc j)) ≡ a.names (suc j)) (sym p)
        (s.beyond (suc (suc i)) (omega arith) ∙ m.up)
  | inr e ↦
      let p : k ≢ i = ground arith in
      s.up k (omega arith) ∙ m.rest (suc k) (omega arith) (omega arith)
]

Shifted-step : {a b c : Disk} (i : ℕ) → Moved a b i → Shifted b c i → Shifted a c (suc i)
Shifted-step i m s = record {
  up = Shifted-up i m s;
  first = s.first;
  live = s.live ∙ m.rest 0 (omega arith) (omega arith);
  beyond = λ k lt. s.beyond k (omega arith) ∙ m.rest k (omega arith) (omega arith);
  same = SameFiles-trans m.same s.same;
}

shift_down_step :
    (i : ℕ) (w : World) (d : Disk)
    → ignoring (rename w.disk (suc i) (suc (suc i))) ≡ (ok tt, d)
    → shift_down (suc i) w ≡ shift_down i (record w { disk = d })
unfolding shift_down
shift_down_step i w d e = ap (λ r. on_disk w.sink r >>= λ r. shift_down i r.1) e

pub shift_down_lem :
    (i : ℕ) (w : World)
    → w.disk.faults ≡ []
    → w.disk.names (suc i) ≡ none
    → (d : Disk) × (shift_down i w ≡ (ok tt, record w { disk = d })) × Shifted w.disk d i
unfolding shift_down
shift_down_lem zero w f free = (
  w.disk,
  refl,
  record {
    up = λ k lt. absurd (omega arith);
    first = free;
    live = refl;
    beyond = λ k lt. refl;
    same = SameFiles-refl w.disk;
  },
)
shift_down_lem (suc i) w f free =
    let (d, e, m) = ignoring-rename w.disk i f free in
    let (d', e', s) = shift_down_lem i (record w { disk = d }) (m.same.faults ∙ f) m.away in
    (d', shift_down_step i w d e ∙ e', Shifted-step i m s)

-- A slot whose file is gone.
pub record Removed (d d' : Disk) (n : ℕ) : Type 0 where
  pub gone : d'.names n ≡ none
  pub rest : (k : ℕ) → k ≢ n → d'.names k ≡ d.names k
  pub same : SameFiles d d'

pub remove_file-cases :
    (d : Disk) (n : ℕ)
    → d.faults ≡ []
    → (d' : Disk) × (ignoring (remove_file d n) ≡ (ok tt, d')) × Removed d d' n
unfolding remove_file ignore_not_found
remove_file-cases d n f = elim (Option-cases (d.names n)) [
  | inl e ↦ (d, ground arith, record { gone = e; rest = λ k _. refl; same = SameFiles-refl d })
  | inr (file, e) ↦ (
    record d { names = update d.names n none },
    ground arith,
    record {
      gone = ground arith;
      rest = λ k p. ground arith;
      same = record { contents = λ _. refl; fresh = refl; faults = refl };
    },
  )
]
