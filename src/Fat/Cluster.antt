-- ===== src/Fat/Cluster.antt =====
-- One cluster: the sectors read into the buffer, and the bytes copied out of it.
use cookies_os.Base.{
  ℕ, zero, suc, ◌+◌, ◌*◌, ◌-◌, ◌≤◌, ◌≡◌, ◌⊎◌, false, arith, ◌&&◌, leb, ltb, if◌then◌else◌, Mem,
  write,
}
use cookies_os.Fat.{read_sectors, sectors_loop, cluster_loop}

pub sectors_loop_lem :
    (disk : ℕ → ℕ) (from buffer n left i : ℕ) (m : Mem) (a : ℕ)
    → i + left ≡ n
    → sectors_loop disk from buffer left i m a
      ≡ (if leb (buffer + i) a && ltb a (buffer + n) then disk (from + (a - buffer)) else m a)
unfolding sectors_loop write
sectors_loop_lem disk from buffer n zero i m a e = ground arith
sectors_loop_lem disk from buffer n (suc left) i m a e = ground (
  arith,
  sectors_loop_lem disk from buffer n left (i + 1) (write m (buffer + i) (disk (from + i))) a
      (omega arith),
)

pub read_sectors_lem :
    (disk : ℕ → ℕ) (lba sectors buffer : ℕ) (m : Mem) (a : ℕ)
    → read_sectors disk lba sectors buffer m a ≡ (
        if leb buffer a && ltb a (buffer + sectors * 512)
        then disk (lba * 512 + (a - buffer))
        else m a)
read_sectors_lem disk lba sectors buffer m a = ground (
  arith,
  sectors_loop_lem disk (lba * 512) buffer (sectors * 512) (sectors * 512) 0 m a (omega arith),
)

-- The bytes from `lo` up to `hi` and those of the buffer are apart.
abbrev pub Clear : ℕ → ℕ → ℕ → ℕ → Type 0
Clear buffer n lo hi = (hi ≤ buffer) ⊎ (buffer + n ≤ lo)

pub record Copied (buffer ptr left i index : ℕ) (m : Mem) (out : ℕ × Mem) : Type 0 where
  pub position : out.0 ≡ index + left
  pub cells :
      (a : ℕ)
      → out.1 a ≡ (
          if leb (ptr + index) a && ltb a (ptr + index + left)
          then m (buffer + i + (a - (ptr + index)))
          else m a)

pub cluster_loop-Copied :
    (size buffer ptr n left i index : ℕ) (m : Mem)
    → index + left ≤ size
    → i + left ≤ n
    → Clear buffer n ptr (ptr + size)
    → Copied buffer ptr left i index m (cluster_loop size buffer ptr left i index m)
unfolding cluster_loop write
cluster_loop-Copied size buffer ptr n zero i index m fits within clear = record {
  position = omega arith;
  cells = λ a. ground arith;
}
cluster_loop-Copied size buffer ptr n (suc left) i index m fits within clear =
    let below : ltb size (index + 1) ≡ false = ground arith in
    rw below (
      let stored = write m (ptr + index) (m (buffer + i)) in
      let rest =
        cluster_loop-Copied size buffer ptr n left (i + 1) (index + 1) stored (omega arith)
          (omega arith) clear in
      record { position = omega (arith, rest.position); cells = λ a. ground (arith, rest.cells a) })
