-- ===== src/Audit/Sink/View.antt =====
-- What a reader of the audit directory sees, before and after a line is written.
use ruoqa_mcp.Common.{
  ℕ, zero, suc, ◌+◌, ◌≤◌, ◌<◌, ◌≡◌, refl, sym, ap, ◌∙◌, ◌≢◌, ◌⊎◌, Option, none, some, [], ◌++◌,
  arith, leb, if◌then◌else◌, unwrap_or, length, length-append, ok,
}
use ruoqa_mcp.Otel.Proto.{Bytes}
use ruoqa_mcp.Audit.Disk.{update_other, update_same, Disk, write_all, sync_data, write_to}
use ruoqa_mcp.Audit.Sink.{Sink, World, needs_rotation, write_line}

abbrev pub contents_of : Disk → Option ℕ → Option Bytes
contents_of d none = none
contents_of d (some f) = some (d.contents f)

-- What a reader of the directory sees.
unfoldable pub view : Disk → ℕ → Option Bytes
view d k = contents_of d (d.names k)

-- The stream after one more line, described on its slots.
abbrev pub shifted : ℕ → Bytes → (ℕ → Option Bytes) → ℕ → Option Bytes
shifted keep line row zero = some line
shifted keep line row (suc k) = if leb (suc k) keep then row k else row (suc k)

abbrev pub extended : Bytes → (ℕ → Option Bytes) → ℕ → Option Bytes
extended line row zero = some (unwrap_or (row 0) [] ++ line)
extended line row (suc k) = row (suc k)

unfoldable pub appended : Sink → Bytes → (ℕ → Option Bytes) → ℕ → Option Bytes
appended s line row =
    if needs_rotation s (length line) then shifted s.rotate_keep line row else extended line row

-- The sink holds the live file and its length, no other name leads to that file, and no call is
-- going to fail.
pub record IsValid (w : World) : Type 0 where
  pub live : w.disk.names 0 ≡ some w.sink.file
  pub len : length (w.disk.contents w.sink.file) ≡ w.sink.len
  pub apart : (k : ℕ) → w.disk.names (suc k) ≢ some w.sink.file
  pub bounded : (k f : ℕ) → w.disk.names k ≡ some f → f < w.disk.fresh
  pub faults : w.disk.faults ≡ []
  pub keep : 0 < w.sink.rotate_keep

-- The file is within the limit, where there is one, or holds one line.
pub record IsBounded (w : World) (line : Bytes) : Type 0 where
  pub bound :
      (w.sink.rotate_max_bytes ≡ 0)
      ⊎ ((w.sink.len ≤ w.sink.rotate_max_bytes) ⊎ (w.sink.len ≡ length line))

abbrev pub written : Bytes → World → World
written buf w = record {
  sink = record w.sink { len = w.sink.len + length buf };
  disk = write_to w.disk w.sink.file buf;
}

pub write_line-cases :
    (buf : Bytes) (w : World) → w.disk.faults ≡ [] → write_line buf w ≡ (ok tt, written buf w)
unfolding write_line write_all sync_data
write_line-cases buf w f = ground arith

written-live :
    (buf : Bytes) (w : World)
    → (written buf w).disk.contents w.sink.file ≡ w.disk.contents w.sink.file ++ buf
written-live buf w =
    update_same w.disk.contents w.sink.file (w.disk.contents w.sink.file ++ buf) w.sink.file refl

pub written-IsValid : (buf : Bytes) (w : World) → IsValid w → IsValid (written buf w)
written-IsValid buf w v = record {
  live = v.live;
  len =
      ap length (written-live buf w)
      ∙ length-append (w.disk.contents w.sink.file) buf
      ∙ ap (λ n. n + length buf) v.len;
  apart = v.apart;
  bounded = v.bounded;
  faults = v.faults;
  keep = v.keep;
}

pub view-named : (d : Disk) (k : ℕ) {f : ℕ} → d.names k ≡ some f → view d k ≡ some (d.contents f)
unfolding view
view-named d k e = ap (contents_of d) e

contents_of-written :
    (buf : Bytes) (w : World) (o : Option ℕ)
    → o ≢ some w.sink.file
    → contents_of (written buf w).disk o ≡ contents_of w.disk o
contents_of-written buf w none p = refl
contents_of-written buf w (some f) p = ap some (
    update_other w.disk.contents w.sink.file (w.disk.contents w.sink.file ++ buf) f
      (λ e. p (ap some e)))

view-written-kept :
    (buf : Bytes) (w : World) (k : ℕ)
    → w.disk.names k ≢ some w.sink.file
    → view (written buf w).disk k ≡ view w.disk k
unfolding view
view-written-kept buf w k p = contents_of-written buf w (w.disk.names k) p

pub view-written :
    (buf : Bytes) (w : World)
    → IsValid w
    → (k : ℕ) → view (written buf w).disk k ≡ extended buf (view w.disk) k
view-written buf w v zero =
    view-named (written buf w).disk 0 v.live
    ∙ ap some (written-live buf w)
    ∙ ap (λ o. some (unwrap_or o [] ++ buf)) (sym (view-named w.disk 0 v.live))
view-written buf w v (suc k) = view-written-kept buf w (suc k) (v.apart k)
