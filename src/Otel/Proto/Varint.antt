-- ===== src/Otel/Proto/Varint.antt =====
-- Numbers on the wire: what `write_varint` and `to_le_bytes` append, read back.
use mathlib.Core.WellFounded.{Acc}
use ruoqa_mcp.Common.{
  ℕ, zero, suc, ◌+◌, ◌-◌, ◌*◌, ◌/◌, ◌%◌, ◌^◌, ◌≤◌, ◌<◌, ◌≡◌, refl, ap, some, [], ◌∷◌, ◌++◌,
  append-nil, append_assoc, arith, length, All,
}
use native.Mathlib.Nat.{pow-suc}
use ruoqa_mcp.Common.Order.{lt_wf}
use ruoqa_mcp.Otel.Proto.{Bytes, varint_loop, high_groups_lt, write_varint, le_bytes}
use ruoqa_mcp.Otel.Proto.Reader.{read_varint, read_le, ◌>>=◌}

varint_loop-append :
    (buf : Bytes) (v : ℕ) (w : Acc ◌<◌ v) → varint_loop buf v w ≡ buf ++ varint_loop [] v w
unfolding varint_loop
varint_loop-append buf v (Acc.intro _ below) =
    let group : Bytes = (v % 128 + 128) ∷ [] in
    grind (
      arith,
      λ (p : 0 < v / 128).
          varint_loop-append (buf ++ group) (v / 128) (below (v / 128) (high_groups_lt v p)),
      λ (p : 0 < v / 128).
          varint_loop-append group (v / 128) (below (v / 128) (high_groups_lt v p)),
      append_assoc,
    )

-- The lowest group comes first, and the top bit says that the loop goes on.
read_varint-group :
    (v : ℕ) (more : Bytes)
    → read_varint ((v % 128 + 128) ∷ more)
      ≡ (read_varint more >>= λ r. some (v % 128 + 128 - 128 + 128 * r.0, r.1))
unfolding read_varint
read_varint-group v more = ground arith

read_varint-loop :
    (v : ℕ) (w : Acc ◌<◌ v) (rest : Bytes)
    → read_varint (varint_loop [] v w ++ rest) ≡ some (v, rest)
unfolding varint_loop read_varint
read_varint-loop v (Acc.intro _ below) rest =
    let group : Bytes = (v % 128 + 128) ∷ [] in
    grind (
      arith,
      λ (p : 0 < v / 128).
          varint_loop-append group (v / 128) (below (v / 128) (high_groups_lt v p)),
      λ (p : 0 < v / 128). read_varint-loop (v / 128) (below (v / 128) (high_groups_lt v p)) rest,
      append_assoc,
    )

-- `write_varint` appends to what it is given.
pub write_varint-append : (buf : Bytes) (v : ℕ) → write_varint buf v ≡ buf ++ write_varint [] v
unfolding write_varint
write_varint-append buf v = varint_loop-append buf v (lt_wf.apply v)

-- Whatever follows, the number that was written is read back, and what follows is left.
pub read_varint-write_varint :
    (v : ℕ) (rest : Bytes) → read_varint (write_varint [] v ++ rest) ≡ some (v, rest)
unfolding write_varint
read_varint-write_varint v rest = read_varint-loop v (lt_wf.apply v) rest

high_bytes_lt : (n v : ℕ) → v < 256 ^ suc n → v / 256 < 256 ^ n
high_bytes_lt n v h = let e : 256 ^ suc n ≡ 256 ^ n * 256 = pow-suc 256 n in omega (arith, e)

-- The little-endian bytes of a value that fits are read back.
pub read_le-le_bytes :
    (n v : ℕ) (rest : Bytes) → v < 256 ^ n → read_le n (le_bytes n v ++ rest) ≡ some (v, rest)
unfolding read_le le_bytes
read_le-le_bytes zero v rest h = let e : v ≡ 0 = omega arith in rw e
read_le-le_bytes (suc n) v rest h =
    ground (arith, high_bytes_lt n v h, read_le-le_bytes n (v / 256) rest)

pub length-le_bytes : (n v : ℕ) → length (le_bytes n v) ≡ n
unfolding le_bytes
length-le_bytes zero v = refl
length-le_bytes (suc n) v = ap suc (length-le_bytes n (v / 256))

pos-length_of_read : (bs : Bytes) {r : ℕ × Bytes} → read_varint bs ≡ some r → 0 < length bs
unfolding read_varint
pos-length_of_read [] h = absurd (cc)
pos-length_of_read (b ∷ bs) h = omega arith

-- A number takes a byte at least.
pub pos-length-write_varint : (v : ℕ) → 0 < length (write_varint [] v)
pos-length-write_varint v =
    pos-length_of_read (write_varint [] v) {r = (v, [])}
      (rw append-nil at (read_varint-write_varint v []))

-- Seven bits a byte: what is below 128 ^ (k + 1) takes at most k + 1 bytes, each below 256.
varint_loop_shape :
    (k v : ℕ) (w : Acc ◌<◌ v)
    → v < 128 ^ suc k
    → (length (varint_loop [] v w) ≤ suc k) × All (λ b. b < 256) (varint_loop [] v w)
unfolding varint_loop
varint_loop_shape zero v (Acc.intro _ below) h = let small : v < 128 = h in ground arith
varint_loop_shape (suc k) v (Acc.intro _ below) h =
    let group : Bytes = (v % 128 + 128) ∷ [] in
    let e : 128 ^ suc (suc k) ≡ 128 ^ suc k * 128 = pow-suc 128 (suc k) in
    grind (
      arith,
      λ (p : 0 < v / 128).
          varint_loop-append group (v / 128) (below (v / 128) (high_groups_lt v p)),
      λ (p : 0 < v / 128).
          varint_loop_shape k (v / 128) (below (v / 128) (high_groups_lt v p)) (omega (arith, e)),
    )

-- The encoding of a 64-bit number is at most ten long, and all of it is bytes.
pub write_varint_shape :
    (v : ℕ)
    → v < 2 ^ 64
    → (length (write_varint [] v) ≤ 10) × All (λ b. b < 256) (write_varint [] v)
unfolding write_varint
write_varint_shape v h = varint_loop_shape 9 v (lt_wf.apply v) (omega arith)
