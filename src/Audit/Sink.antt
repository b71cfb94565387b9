-- ===== src/Audit/Sink.antt =====
-- The append-only sink behind the audit stream: `append` and `rotate` of src/audit.rs, over the
-- disk. Each takes the sink and the disk, and returns both, changed as far as the call came.
pub mod Shift
pub mod Rotate
pub mod View
pub mod Appending
pub mod Append
pub mod Lost
use ruoqa_mcp.Common.{
  ℕ, zero, suc, ◌+◌, ◌-◌, ◌*◌, ◌/◌, ◌%◌, ◌^◌, ◌≤◌, ◌<◌, min, max, String, ◌≡◌, refl, sym, ap, ◌∙◌,
  subst, ◌≢◌, ◌↔◌, ◌⊎◌, inl, inr, Bool, true, false, ◌&&◌, ◌||◌, not, Option, none, some, List, [],
  ◌∷◌, ◌++◌, map, reverse, append-nil, append_assoc, arith, str_eq, eq_iff, ltb, leb, ◌==◌,
  if◌then◌else◌, ltb→lt, lt→ltb, leb→le, ==_iff, Bool-cases, Option-cases, is_some, is_none,
  unwrap_or, length, get_elem?, take, drop, replicate, any, all, length-append, All, All-append,
  take-append-drop, length-take, length-drop, take_append, drop_append, length-map, filter_map,
  filter, Result, ok, err, map_err, ok_or, is_ok, Result-cases, >>=-eq-ok,
}
use ruoqa_mcp.Otel.Proto.{Bytes}
use ruoqa_mcp.Audit.Disk.{
  ErrorKind, not_found, other, Disk, Io, remove_file, rename, open_append, write_all, sync_data,
}

pub record Sink : Type 0 where
  pub file : ℕ
  pub len : ℕ
  pub fsync : Bool
  pub rotate_max_bytes : ℕ
  pub rotate_keep : ℕ

pub record World : Type 0 where
  pub sink : Sink
  pub disk : Disk

abbrev pub Step : Type 0 → Type 0
Step A = Result A ErrorKind × World

-- `?` on a result: the state is as the failed call left it.
infixl 5 ◌>>=◌
abbrev pub ◌>>=◌ : {A B : Type 0} → Step A → (A × World → Step B) → Step B
(ok a, w) >>= f = f (a, w)
(err e, w) >>= f = (err e, w)

abbrev pub on_disk : {A : Type 0} → Sink → Io A → Step A
on_disk s (r, d) = (r, record { sink = s; disk = d })

unfoldable pub ignore_not_found : Result (Unit {0}) ErrorKind → Result (Unit {0}) ErrorKind
ignore_not_found (err not_found) = ok tt
ignore_not_found r = r

abbrev pub ignoring : Io (Unit {0}) → Io (Unit {0})
ignoring (r, d) = (ignore_not_found r, d)

-- `for i in (1..keep).rev()`, from `i` down: slot i is moved to slot i + 1.
unfoldable pub shift_down : ℕ → World → Step (Unit {0})
unfolding ignore_not_found
shift_down zero w = (ok tt, w)
shift_down (suc i) w =
    on_disk w.sink (ignoring (rename w.disk (suc i) (suc (suc i)))) >>= λ r. shift_down i r.1

-- The live file becomes slot 1, and a new one is opened in its place.
unfoldable pub reopen : World → Step (Unit {0})
reopen w = on_disk w.sink (rename w.disk 0 1) >>= λ r.
    on_disk w.sink (open_append r.1.disk 0) >>= λ h.
    (ok tt, record { sink = record w.sink { file = h.0; len = 0 }; disk = h.1.disk })

unfoldable pub rotate : World → Step (Unit {0})
unfolding ignore_not_found
rotate w =
    let keep = w.sink.rotate_keep in
    on_disk w.sink (ignoring (remove_file w.disk keep)) >>= λ r.
    shift_down (keep - 1) r.1 >>= λ r. reopen r.1

abbrev pub needs_rotation : Sink → ℕ → Bool
needs_rotation s buf_len =
    ltb 0 s.rotate_max_bytes && ltb 0 s.len && ltb s.rotate_max_bytes (s.len + buf_len)

-- The write, the optional sync, and the new length.
unfoldable pub write_line : Bytes → World → Step (Unit {0})
write_line buf w = on_disk w.sink (write_all w.disk w.sink.file buf) >>= λ r.
    (if w.sink.fsync then on_disk w.sink (sync_data r.1.disk w.sink.file) else (ok tt, r.1))
    >>= λ r.
        (ok tt, record { sink = record w.sink { len = w.sink.len + length buf }; disk = r.1.disk })

-- `line` and a newline.
abbrev pub line_bytes : Bytes → Bytes
line_bytes line = line ++ 10 ∷ []

unfoldable pub append : Bytes → World → Step (Unit {0})
append line w =
    (if needs_rotation w.sink (length (line_bytes line)) then rotate w else (ok tt, w)) >>= λ r.
    write_line (line_bytes line) r.1
