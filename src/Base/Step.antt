-- ===== src/Base/Step.antt =====
-- The lowest digit of `bit_and` and `bit_or`, from the recursion on digits that they stand for.
use Prim.Native.Nat.{
  ℕ, zero, suc, ◌+◌, ◌-◌, ◌*◌, ◌/◌, ◌%◌, ◌≤◌, min, max, bit_and, bit_or, digits, bitwise,
  bit_and-bitwise, bit_or-bitwise,
}
use mathlib.Core.Path.{◌≡◌, refl, sym, ap, ◌∙◌}
use native.Mathlib.Omega.{arith}

module _ (above : ℕ → ℕ) (op : ℕ → ℕ → ℕ) where
  -- Spare fuel changes nothing.
  spare :
      (x y have more : ℕ) → x ≤ have → digits above op (have + more) x y ≡ digits above op have x y
  spare zero y zero zero le = refl
  spare zero y zero (suc more) le = let e : 0 + suc more ≡ suc more = omega arith in rw e refl
  spare zero y (suc have) more le =
      let e : suc have + more ≡ suc (have + more) = omega arith in rw e refl
  spare (suc x) y zero more le = absurd (omega arith)
  spare (suc x) y (suc have) more le =
      let e : suc have + more ≡ suc (have + more) = omega arith in
      rw (e, spare (suc x / 2) (y / 2) have more (omega arith)) refl

  lowest :
      (x y : ℕ)
      → bitwise above op (suc x) y
        ≡ op (suc x % 2) (y % 2) + 2 * bitwise above op (suc x / 2) (y / 2)
  lowest x y =
      let half = suc x / 2 in
      let split : half + (x - half) ≡ x = omega arith in
      let same : digits above op x half (y / 2) ≡ digits above op half half (y / 2) =
        ap (λ (k : ℕ). digits above op k half (y / 2)) (sym split)
        ∙ spare half (y / 2) half (x - half) (omega arith) in
      omega (arith, same)

pub bit_or_step : (x y : ℕ) → bit_or x y ≡ max (x % 2) (y % 2) + 2 * bit_or (x / 2) (y / 2)
bit_or_step zero y = rw (bit_or-bitwise 0 y, bit_or-bitwise 0 (y / 2)) (omega arith)
bit_or_step (suc x) y =
    rw (bit_or-bitwise (suc x) y, bit_or-bitwise (suc x / 2) (y / 2))
      (lowest (λ high. high) max x y)

pub bit_and_step : (x y : ℕ) → bit_and x y ≡ min (x % 2) (y % 2) + 2 * bit_and (x / 2) (y / 2)
bit_and_step zero y = rw (bit_and-bitwise 0 y, bit_and-bitwise 0 (y / 2)) (omega arith)
bit_and_step (suc x) y =
    rw (bit_and-bitwise (suc x) y, bit_and-bitwise (suc x / 2) (y / 2)) (lowest (λ high. 0) min x y)
