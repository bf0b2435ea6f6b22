-- ===== src/Libc/Copy.antt =====
-- memcpy, memmove and memset, address by address.
use cookies_os.Base.{
  ℕ, zero, suc, ◌+◌, ◌-◌, ◌≤◌, ◌≡◌, ◌⊎◌, inl, inr, Bool, ◌&&◌, arith, leb, ltb, if◌then◌else◌, Mem,
  write, u8, Bool-cases, refl, ◌<◌, le_or_lt,
}
use cookies_os.Libc.{memcpy_loop, memcpy, memmove_back, memmove, memset_loop, memset}

-- `a` lies in the `n` cells from `p`.
abbrev pub within : ℕ → ℕ → ℕ → Bool
within p n a = leb p a && ltb a (p + n)

-- The memory in which the `n` cells from `dst` are those that stood from `src`.
abbrev pub moved {ℓ} : {A : Type ℓ} → (ℕ → A) → ℕ → ℕ → ℕ → ℕ → A
moved m dst src n a = if within dst n a then m (src + (a - dst)) else m a

-- A forward copy reads no cell after writing it.
abbrev pub Forward : ℕ → ℕ → ℕ → Type 0
Forward dst src n = (dst ≤ src) ⊎ (src + n ≤ dst)

pub memcpy_loop-moved :
    {A : Type 0} (dst src n left i : ℕ) (m : ℕ → A) (a : ℕ)
    → Forward dst src n
    → i + left ≡ n
    → memcpy_loop dst src left i m a
      ≡ (if leb (dst + i) a && ltb a (dst + n) then m (src + (a - dst)) else m a)
unfolding memcpy_loop write
memcpy_loop-moved dst src n zero i m a safe e = ground arith
memcpy_loop-moved dst src n (suc left) i m a safe e =
    let ih =
      memcpy_loop-moved dst src n left (i + 1) (write m (dst + i) (m (src + i))) a safe
        (omega arith) in
    ground (arith, ih)

-- memcpy fills the destination with the old source and changes nothing else, also where the two
-- overlap with the destination below.
pub memcpy_lem :
    (m : Mem) (dst src size a : ℕ)
    → Forward dst src size
    → memcpy m dst src size a ≡ moved m dst src size a
unfolding memcpy
memcpy_lem m dst src size a safe =
    ground (arith, memcpy_loop-moved dst src size size 0 m a safe (omega arith))

memmove_back-moved :
    (dst src i : ℕ) (m : Mem) (a : ℕ) → src ≤ dst → memmove_back dst src i m a ≡ moved m dst src i a
unfolding memmove_back write
memmove_back-moved dst src zero m a h = ground arith
memmove_back-moved dst src (suc i) m a h =
    let ih = memmove_back-moved dst src i (write m (dst + i) (m (src + i))) a h in
    ground (arith, ih)

-- memmove does so for every pair of regions, however they overlap.
pub memmove_lem : (m : Mem) (dst src size a : ℕ) → memmove m dst src size a ≡ moved m dst src size a
unfolding memmove
memmove_lem m dst src size a = elim (Bool-cases (ltb dst src)) [
  | inl below ↦
      rw below (
        ground
          (arith, memcpy_loop-moved dst src size size 0 m a (inl (ground arith)) (omega arith)))
  | inr above ↦ rw above (memmove_back-moved dst src size m a (ground arith))
]

memset_loop-within :
    (buf value n left i : ℕ) (m : Mem) (a : ℕ)
    → i + left ≡ n
    → memset_loop buf value left i m a
      ≡ (if leb (buf + i) a && ltb a (buf + n) then u8 value else m a)
unfolding memset_loop write
memset_loop-within buf value n zero i m a e = ground arith
memset_loop-within buf value n (suc left) i m a e =
    let ih =
      memset_loop-within buf value n left (i + 1) (write m (buf + i) (u8 value)) a (omega arith) in
    ground (arith, ih)

-- memset stores the low byte of `value` in the `size` cells from `buf`, and nowhere else.
pub memset_lem :
    (m : Mem) (buf value size a : ℕ)
    → memset m buf value size a ≡ (if within buf size a then u8 value else m a)
unfolding memset
memset_lem m buf value size a =
    ground (arith, memset_loop-within buf value size size 0 m a (omega arith))

memcpy_loop_below :
    (dst src left i : ℕ) (m : Mem) (a : ℕ) → a < dst + i → memcpy_loop dst src left i m a ≡ m a
unfolding memcpy_loop write
memcpy_loop_below dst src zero i m a h = refl
memcpy_loop_below dst src (suc left) i m a h = ground (
  arith,
  memcpy_loop_below dst src left (i + 1) (write m (dst + i) (m (src + i))) a (omega arith),
)

memcpy_loop_prefix :
    (dst src k left i : ℕ) (m : Mem) (t : ℕ)
    → Forward dst src k
    → i ≤ t
    → t < i + left
    → t < k
    → memcpy_loop dst src left i m (dst + t) ≡ m (src + t)
unfolding memcpy_loop write
memcpy_loop_prefix dst src k zero i m t safe le lt short = absurd (omega arith)
memcpy_loop_prefix dst src k (suc left) i m t safe le lt short =
    let m' = write m (dst + i) (m (src + i)) in
    elim (le_or_lt t i) [
      | inl last ↦
          let here : t ≡ i = omega arith in
          ground (arith, memcpy_loop_below dst src left (i + 1) m' (dst + t) (omega arith))
      | inr more ↦ ground (
        arith,
        memcpy_loop_prefix dst src k left (i + 1) m' t safe (omega (arith, more)) (omega arith)
            short,
      )
    ]

-- Whatever the whole copy overlaps, its first `k` bytes are right if the first `k` bytes of the
-- source lie below the destination or behind its start.
pub memcpy_prefix :
    (m : Mem) (dst src size k t : ℕ)
    → Forward dst src k
    → t < size
    → t < k
    → memcpy m dst src size (dst + t) ≡ m (src + t)
unfolding memcpy
memcpy_prefix m dst src size k t safe lt short =
    memcpy_loop_prefix dst src k size 0 m t safe (omega arith) (omega arith) short
