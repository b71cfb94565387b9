-- ===== src/Audit/Disk.antt =====
-- The part of the file system that the audit sink uses: one directory, whose slot 0 is the
-- configured path and whose slot n + 1 is `numbered(path, n + 1)`. A name leads to a file, and an
-- open handle is the file itself, so a handle follows its file through a rename. Each call can
-- fail: it takes the next entry of `faults`, and where that is `some` it fails so, a write after
-- `written` bytes and any other call with no effect.
use ruoqa_mcp.Common.{
  ℕ, ◌+◌, ◌≡◌, ◌≢◌, Option, none, some, List, [], ◌∷◌, ◌++◌, arith, ◌==◌, if◌then◌else◌, is_none,
  take, Result, ok, err,
}
use ruoqa_mcp.Otel.Proto.{Bytes}

pub data ErrorKind : Type 0 where
  not_found : ErrorKind
  other : ErrorKind

pub record Fault : Type 0 where
  pub kind : ErrorKind
  pub written : ℕ

pub record Disk : Type 0 where
  pub names : ℕ → Option ℕ
  pub contents : ℕ → Bytes
  pub fresh : ℕ
  pub faults : List (Option Fault)

abbrev pub update {ℓ} : {A : Type ℓ} → (ℕ → A) → ℕ → A → ℕ → A
update f k v n = if n == k then v else f n

pub update_other {ℓ} :
    {A : Type ℓ} (f : ℕ → A) (n : ℕ) (v : A) (k : ℕ) → k ≢ n → update f n v k ≡ f k
update_other f n v k p = ground arith

pub update_same {ℓ} : {A : Type ℓ} (f : ℕ → A) (n : ℕ) (v : A) (k : ℕ) → k ≡ n → update f n v k ≡ v
update_same f n v k p = ground arith

abbrev pub Io : Type 0 → Type 0
Io A = Result A ErrorKind × Disk

-- The fault of this call, and the disk with the later ones.
abbrev pub next_fault : Disk → Option Fault × Disk
next_fault d = elim d.faults [ [] ↦ (none, d) | f ∷ fs ↦ (f, record d { faults = fs }) ]

abbrev pub faulty {ℓ} : {B : Type ℓ} → Option Fault → (Fault → B) → B → B
faulty none fail go = go
faulty (some f) fail go = fail f

-- `std::fs::remove_file`.
unfoldable pub remove_file : Disk → ℕ → Io (Unit {0})
remove_file disk n =
    let (f, d) = next_fault disk in
    faulty f (λ e. (err e.kind, d))
      (if is_none (d.names n)
        then (err not_found, d)
        else (ok tt, record d { names = update d.names n none }))

-- `std::fs::rename`: what the target named is gone.
unfoldable pub rename : Disk → ℕ → ℕ → Io (Unit {0})
rename disk from to =
    let (f, d) = next_fault disk in
    faulty f (λ e. (err e.kind, d))
      (if is_none (d.names from)
        then (err not_found, d)
        else (ok tt, record d { names = update (update d.names to (d.names from)) from none }))

abbrev open_named : Disk → ℕ → Option ℕ → Io ℕ
open_named d n (some file) = (ok file, d)
open_named d n none = (
  ok d.fresh,
  record d {
    names = update d.names n (some d.fresh);
    contents = update d.contents d.fresh [];
    fresh = d.fresh + 1;
  },
)

-- `open_append`: the file is created where there is none. (A symbolic link is an error.)
unfoldable pub open_append : Disk → ℕ → Io ℕ
open_append disk n =
    let (f, d) = next_fault disk in faulty f (λ e. (err e.kind, d)) (open_named d n (d.names n))

abbrev pub write_to : Disk → ℕ → Bytes → Disk
write_to d file bytes = record d { contents = update d.contents file (d.contents file ++ bytes) }

-- `File::write_all` on a handle opened for appending.
unfoldable pub write_all : Disk → ℕ → Bytes → Io (Unit {0})
write_all disk file bytes =
    let (f, d) = next_fault disk in
    faulty f (λ e. (err e.kind, write_to d file (take e.written bytes)))
      (ok tt, write_to d file bytes)

-- `File::sync_data`.
unfoldable pub sync_data : Disk → ℕ → Io (Unit {0})
sync_data disk file = let (f, d) = next_fault disk in faulty f (λ e. (err e.kind, d)) (ok tt, d)
