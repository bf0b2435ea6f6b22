-- ===== src/Base/Memory.antt =====
-- Memory as a function from addresses to the values that stand there, and fixed widths.
use Prim.Native.Nat.{ℕ, ◌%◌, ◌^◌}
use mathlib.Core.Path.{◌≡◌}
use mathlib.Core.Logic.{◌≢◌}
use native.Mathlib.Omega.{arith}
use cookies_os.Base.Tests.{◌==◌, if◌then◌else◌}

abbrev pub u8 : ℕ → ℕ
u8 n = n % 2 ^ 8

abbrev pub u16 : ℕ → ℕ
u16 n = n % 2 ^ 16

abbrev pub u32 : ℕ → ℕ
u32 n = n % 2 ^ 32

-- A cell may be a byte, a word or a struct: `A` is what stands at an address.
module _ {ℓ} {A : Type ℓ} where
  -- `*p = v`.
  unfoldable pub write : (ℕ → A) → ℕ → A → ℕ → A
  write m p v a = if p == a then v else m a

  pub write_at : (m : ℕ → A) (p : ℕ) (v : A) (a : ℕ) → p ≡ a → write m p v a ≡ v
  unfolding write
  write_at m p v a e = ground arith

  pub write_off : (m : ℕ → A) (p : ℕ) (v : A) (a : ℕ) → p ≢ a → write m p v a ≡ m a
  unfolding write
  write_off m p v a ne = ground arith

-- Bytes in memory.
abbrev pub Mem : Type 0
Mem = ℕ → ℕ
