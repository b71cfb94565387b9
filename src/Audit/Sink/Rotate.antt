-- ===== src/Audit/Sink/Rotate.antt =====
-- Rotation on a disk whose calls do not fail.
use ruoqa_mcp.Common.{
  ℕ, zero, suc, ◌+◌, ◌-◌, ◌<◌, ◌≡◌, sym, ap, ◌∙◌, ◌≢◌, Option, none, some, [], arith, ok,
}
use ruoqa_mcp.Audit.Disk.{update_other, update_same, Disk, update, remove_file, rename, open_append}
use ruoqa_mcp.Audit.Sink.{World, ◌>>=◌, on_disk, ignoring, shift_down, reopen, rotate}
use ruoqa_mcp.Audit.Sink.Shift.{Shifted, shift_down_lem, Removed, remove_file-cases}

-- The state after a rotation that kept `suc j` files.
pub record Rotated (j : ℕ) (w w' : World) : Type 0 where
  pub up : (k : ℕ) → k < suc j → w'.disk.names (suc k) ≡ w.disk.names k
  pub live : w'.disk.names 0 ≡ some w.disk.fresh
  pub beyond : (k : ℕ) → suc j < k → w'.disk.names k ≡ w.disk.names k
  pub contents : (f : ℕ) → f ≢ w.disk.fresh → w'.disk.contents f ≡ w.disk.contents f
  pub empty : w'.disk.contents w.disk.fresh ≡ []
  pub fresh : w'.disk.fresh ≡ suc w.disk.fresh
  pub faults : w'.disk.faults ≡ []
  pub sink : w'.sink ≡ record w.sink { file = w.disk.fresh; len = 0 }

abbrev reopened : World → Option ℕ → World
reopened w live = record {
  sink = record w.sink { file = w.disk.fresh; len = 0 };
  disk = record w.disk {
    names = update (update (update w.disk.names 1 live) 0 none) 0 (some w.disk.fresh);
    contents = update w.disk.contents w.disk.fresh [];
    fresh = w.disk.fresh + 1;
  };
}

reopen-cases :
    (w : World) (file : ℕ)
    → w.disk.faults ≡ []
    → w.disk.names 0 ≡ some file
    → reopen w ≡ (ok tt, reopened w (w.disk.names 0))
unfolding reopen rename open_append
reopen-cases w file f e = ground arith

pub rotate_step :
    (j : ℕ) (w : World) (d : Disk)
    → w.sink.rotate_keep ≡ suc j
    → ignoring (remove_file w.disk (suc j)) ≡ (ok tt, d)
    → rotate w ≡ (shift_down j (record w { disk = d }) >>= λ r. reopen r.1)
unfolding rotate
rotate_step j w d k e =
    ap
      (λ n. on_disk w.sink (ignoring (remove_file w.disk n)) >>= λ r.
        shift_down (n - 1) r.1 >>= λ r. reopen r.1)
      k
    ∙ ap
        (λ n. on_disk w.sink (ignoring (remove_file w.disk (suc j))) >>= λ r.
          shift_down n r.1 >>= λ r. reopen r.1)
        (omega arith)
    ∙ ap (λ r. on_disk w.sink r >>= λ r. shift_down j r.1 >>= λ r. reopen r.1) e

-- What `reopen` does to the slots above 1, and to slot 1.
reopened-names :
    (w : World) (live : Option ℕ) (k : ℕ) → 1 < k → (reopened w live).disk.names k ≡ w.disk.names k
reopened-names w live k lt =
    update_other (update (update w.disk.names 1 live) 0 none) 0 (some w.disk.fresh) k (omega arith)
    ∙ update_other (update w.disk.names 1 live) 0 none k (omega arith)
    ∙ update_other w.disk.names 1 live k (omega arith)

Rotated-up :
    (j : ℕ) (w : World) (a b : Disk)
    → Removed w.disk a (suc j)
    → Shifted a b j
    → (k : ℕ) → k < suc j
    → (reopened (record { sink = w.sink; disk = b }) (b.names 0)).disk.names (suc k)
      ≡ w.disk.names k
Rotated-up j w a b r s zero lt = s.live ∙ r.rest 0 (omega arith)
Rotated-up j w a b r s (suc k) lt =
    reopened-names (record { sink = w.sink; disk = b }) (b.names 0) (suc (suc k)) (omega arith)
    ∙ s.up k (omega arith)
    ∙ r.rest (suc k) (omega arith)

-- The names after the three parts of a rotation.
Rotated-intro :
    (j : ℕ) (w : World) (a b : Disk)
    → Removed w.disk a (suc j)
    → Shifted a b j
    → w.disk.faults ≡ []
    → Rotated j w (reopened (record { sink = w.sink; disk = b }) (b.names 0))
Rotated-intro j w a b r s f =
    let fr : b.fresh ≡ w.disk.fresh = s.same.fresh ∙ r.same.fresh in
    record {
      up = Rotated-up j w a b r s;
      live = ap some fr;
      beyond = λ k lt.
          reopened-names (record { sink = w.sink; disk = b }) (b.names 0) k (omega arith)
          ∙ s.beyond k (omega arith)
          ∙ r.rest k (omega arith);
      contents = λ g p.
          update_other b.contents b.fresh [] g (λ e. p (e ∙ fr))
          ∙ s.same.contents g
          ∙ r.same.contents g;
      empty = update_same b.contents b.fresh [] w.disk.fresh (sym fr);
      fresh = omega (arith, fr);
      faults = s.same.faults ∙ r.same.faults ∙ f;
      sink = ap (λ n. record w.sink { file = n; len = 0 }) fr;
    }

-- A rotation of a fault-free disk.
pub rotate_lem :
    (j : ℕ) (w : World) (file : ℕ)
    → w.sink.rotate_keep ≡ suc j
    → w.disk.faults ≡ []
    → w.disk.names 0 ≡ some file
    → (w' : World) × (rotate w ≡ (ok tt, w')) × Rotated j w w'
rotate_lem j w file k f e =
    let (a, p, r) = remove_file-cases w.disk (suc j) f in
    let (b, q, s) = shift_down_lem j (record w { disk = a }) (r.same.faults ∙ f) r.gone in
    let w' : World = record { sink = w.sink; disk = b } in
    let live : b.names 0 ≡ some file = s.live ∙ r.rest 0 (omega arith) ∙ e in
    (
      reopened w' (b.names 0),
      rotate_step j w a k p
          ∙ ap (λ o. o >>= λ r. reopen r.1) q
          ∙ reopen-cases w' file (s.same.faults ∙ r.same.faults ∙ f) live,
      Rotated-intro j w a b r s f,
    )
