-- ===== src/Base/Masks.antt =====
-- Masks, shifts and fields: `&`, `|` and `<<` as arithmetic.
use Prim.Native.Nat.{ℕ, zero, suc, ◌+◌, ◌-◌, ◌*◌, ◌/◌, ◌%◌, ◌^◌, ◌≤◌, ◌<◌, bit_and, bit_or}
use mathlib.Core.Path.{◌≡◌, refl, ap, sym, ◌∙◌}
use mathlib.Core.Logic.{◌⊎◌, inl, inr}
use native.Mathlib.Omega.{arith}
use native.Mathlib.Nat.{
  pow-suc, pow-succ', div-div-eq-div-mul, one-le-pow, div-add-mod, mul_assoc, pow-le-pow_right,
}
use cookies_os.Base.Tests.{◌==◌, if◌then◌else◌, Bool-cases}
use cookies_os.Base.Step.{bit_or_step, bit_and_step}
use cookies_os.Base.Bits.{
  bit, complement, half_pow, bit-le-one, bit-bit_or, bit-bit_and, bit-pow_self, bit-pow_ne,
  bit-complement,
}

zero_or_pos : (x : ℕ) → (x ≡ 0) ⊎ (0 < x)
zero_or_pos zero = inl refl
zero_or_pos (suc x) = inr (omega arith)

-- Both go from the half of a number to the number, so they hold below every bound.
and_none : (bound x : ℕ) → x < bound → bit_and x 0 ≡ 0
and_none zero x lt = absurd (omega arith)
and_none (suc bound) x lt = elim (zero_or_pos x) [
  | inl e ↦ rw e refl
  | inr p ↦ omega (arith, bit_and_step x 0, and_none bound (x / 2) (omega arith))
]

or_none : (bound x : ℕ) → x < bound → bit_or x 0 ≡ x
or_none zero x lt = absurd (omega arith)
or_none (suc bound) x lt = elim (zero_or_pos x) [
  | inl e ↦ rw e refl
  | inr p ↦ omega (arith, bit_or_step x 0, or_none bound (x / 2) (omega arith))
]

pub bit_and-zero : (x : ℕ) → bit_and x 0 ≡ 0
bit_and-zero x = and_none (x + 1) x (omega arith)

-- `a & (1 << k)` is zero exactly when bit `k` is.
pub bit_and-pow : (k a : ℕ) → bit_and a (2 ^ k) ≡ bit k a * 2 ^ k
unfolding bit
bit_and-pow zero a = omega (arith, bit_and_step a 1, bit_and-zero (a / 2))
bit_and-pow (suc k) a =
    let e : bit_and (a / 2) (2 ^ suc k / 2) ≡ bit k (a / 2) * 2 ^ k =
      rw (half_pow k) (bit_and-pow k (a / 2)) in
    let double : bit k (a / 2) * 2 ^ suc k ≡ 2 * (bit k (a / 2) * 2 ^ k) =
      omega (arith, ap (λ (t : ℕ). bit k (a / 2) * t) (pow-suc 2 k)) in
    omega (arith, bit_and_step a (2 ^ suc k), pow-suc 2 k)

shift_suc : (field w : ℕ) → field * 2 ^ suc w ≡ 2 * (field * 2 ^ w)
shift_suc field w = omega (arith, ap (λ (p : ℕ). field * p) (pow-suc 2 w))

-- `(q << k) | r` is a sum when `r` has `k` bits.
pub bit_or-shifted : (w high low : ℕ) → low < 2 ^ w → bit_or (high * 2 ^ w) low ≡ high * 2 ^ w + low
bit_or-shifted zero high low fits =
    let empty : low ≡ 0 = omega arith in
    rw empty (or_none (high * 1 + 1) (high * 1) (omega arith) ∙ omega arith)
bit_or-shifted (suc w) high low fits =
    let halved : high * 2 ^ suc w / 2 ≡ high * 2 ^ w = omega (arith, shift_suc high w) in
    omega (
      arith,
      bit_or-shifted w high (low / 2) (omega (arith, pow-suc 2 w)),
      bit_or_step (high * 2 ^ suc w) low,
      ap (λ (p : ℕ). bit_or p (low / 2)) halved,
      shift_suc high w,
    )

half_shift : (a k : ℕ) → a / 2 ^ suc k ≡ a / 2 / 2 ^ k
half_shift a k = ap (λ (t : ℕ). a / t) (pow-succ' 2 k) ∙ sym (div-div-eq-div-mul a 2 (2 ^ k))

-- `(a & (m << k)) >> k` is `(a >> k) & m`.
pub bit_and-shifted : (k a m : ℕ) → bit_and a (m * 2 ^ k) / 2 ^ k ≡ bit_and (a / 2 ^ k) m
bit_and-shifted zero a m =
    let one : m * 1 ≡ m = omega arith in
    let whole : a / 1 ≡ a = omega arith in rw (one, whole) (omega arith)
bit_and-shifted (suc k) a m =
    let e : m * 2 ^ suc k / 2 ≡ m * 2 ^ k = omega (arith, shift_suc m k) in
    let low : bit_and a (m * 2 ^ suc k) / 2 ≡ bit_and (a / 2) (m * 2 ^ k) =
      omega (arith, bit_and_step a (m * 2 ^ suc k), ap (λ (t : ℕ). bit_and (a / 2) t) e) in
    half_shift (bit_and a (m * 2 ^ suc k)) k
    ∙ ap (λ (t : ℕ). t / 2 ^ k) low
    ∙ bit_and-shifted k (a / 2) m
    ∙ ap (λ (t : ℕ). bit_and t m) (sym (half_shift a k))

pub bit_and_fifteen : (a : ℕ) → bit_and a 15 ≡ a % 16
bit_and_fifteen a = omega (
  arith,
  bit_and_step a 15,
  bit_and_step (a / 2) 7,
  bit_and_step (a / 2 / 2) 3,
  bit_and_step (a / 2 / 2 / 2) 1,
  bit_and-zero (a / 2 / 2 / 2 / 2),
)

bit_or_comm_fuel : (n a b : ℕ) → a ≤ n → b ≤ n → bit_or a b ≡ bit_or b a
bit_or_comm_fuel zero a b p q =
    let zero_a : a ≡ 0 = omega arith in let zero_b : b ≡ 0 = omega arith in rw (zero_a, zero_b)
bit_or_comm_fuel (suc n) a b p q = omega (
  arith,
  bit_or_step a b,
  bit_or_step b a,
  bit_or_comm_fuel n (a / 2) (b / 2) (omega arith) (omega arith),
)

pub bit_or_comm : (a b : ℕ) → bit_or a b ≡ bit_or b a
bit_or_comm a b = bit_or_comm_fuel (a + b) a b (omega arith) (omega arith)

pub bit_or-zero : (x : ℕ) → bit_or x 0 ≡ x
bit_or-zero x = or_none (x + 1) x (omega arith)

-- `a & mask` on the bits above `k` and on the `k` bits below them.
pub bit_and_parts :
    (k a high low : ℕ)
    → low < 2 ^ k
    → bit_and a (high * 2 ^ k + low) ≡ bit_and (a / 2 ^ k) high * 2 ^ k + bit_and a low
bit_and_parts zero a high low fits =
    let empty : low ≡ 0 = omega arith in
    let whole : a / 1 ≡ a = omega arith in
    let same : high * 1 + 0 ≡ high = omega arith in
    rw (empty, whole, same) (omega (arith, bit_and-zero a))
bit_and_parts (suc k) a high low fits =
    let halved : (high * 2 ^ suc k + low) / 2 ≡ high * 2 ^ k + low / 2 =
      omega (arith, shift_suc high k) in
    let above : bit_and (a / 2 / 2 ^ k) high ≡ bit_and (a / 2 ^ suc k) high =
      ap (λ (t : ℕ). bit_and t high) (sym (half_shift a k)) in
    omega (
      arith,
      bit_and_step a (high * 2 ^ suc k + low),
      bit_and_step a low,
      ap (λ (t : ℕ). bit_and (a / 2) t) halved,
      bit_and_parts k (a / 2) high (low / 2) (omega (arith, pow-suc 2 k)),
      ap (λ (t : ℕ). t * 2 ^ k) above,
      shift_suc (bit_and (a / 2 ^ suc k) high) k,
      shift_suc high k,
    )

mod_twice : (a p : ℕ) → a % (2 * p) ≡ a % 2 + 2 * (a / 2 % p)
mod_twice a p =
    let whole : 2 * p * (a / (2 * p)) ≡ 2 * (p * (a / 2 / p)) =
      rw (div-div-eq-div-mul a 2 p) (mul_assoc 2 p (a / (2 * p))) in
    omega (arith, whole, div-add-mod a (2 * p), div-add-mod (a / 2) p)

-- A mask of the low `k` bits.
pub bit_and_low_bits : (k a : ℕ) → bit_and a (2 ^ k - 1) ≡ a % 2 ^ k
bit_and_low_bits zero a = bit_and-zero a ∙ omega arith
bit_and_low_bits (suc k) a =
    let half : (2 ^ suc k - 1) / 2 ≡ 2 ^ k - 1 =
      omega (arith, pow-suc 2 k, one-le-pow k 2 (omega arith)) in
    omega (
      arith,
      bit_and_step a (2 ^ suc k - 1),
      ap (λ (t : ℕ). bit_and (a / 2) t) half,
      bit_and_low_bits k (a / 2),
      mod_twice a (2 ^ k),
      pow-suc 2 k,
      one-le-pow k 2 (omega arith),
      ap (λ (t : ℕ). a % t) (pow-succ' 2 k),
    )

-- `a | (b << k)` on the bits above `k` and on the `k` bits below them.
pub bit_or_parts : (k a b : ℕ) → bit_or a (b * 2 ^ k) ≡ bit_or (a / 2 ^ k) b * 2 ^ k + a % 2 ^ k
bit_or_parts zero a b =
    let whole : a / 1 ≡ a = omega arith in
    let same : b * 1 ≡ b = omega arith in rw (whole, same) (omega arith)
bit_or_parts (suc k) a b =
    let halved : b * 2 ^ suc k / 2 ≡ b * 2 ^ k = omega (arith, shift_suc b k) in
    let above : bit_or (a / 2 / 2 ^ k) b ≡ bit_or (a / 2 ^ suc k) b =
      ap (λ (t : ℕ). bit_or t b) (sym (half_shift a k)) in
    omega (
      arith,
      bit_or_step a (b * 2 ^ suc k),
      ap (λ (t : ℕ). bit_or (a / 2) t) halved,
      bit_or_parts k (a / 2) b,
      ap (λ (t : ℕ). t * 2 ^ k) above,
      shift_suc (bit_or (a / 2 ^ suc k) b) k,
      shift_suc b k,
      mod_twice a (2 ^ k),
      ap (λ (t : ℕ). a % t) (pow-succ' 2 k),
    )

pub bit_or-one : (a : ℕ) → bit_or a 1 ≡ a / 2 * 2 + 1
bit_or-one a = omega (arith, bit_or_step a 1, bit_or-zero (a / 2))

pub bit_or-two : (a : ℕ) → bit_or a 2 ≡ a / 4 * 4 + 2 + a % 2
bit_or-two a = omega (arith, bit_or_step a 2, bit_or-one (a / 2))

-- The low bits survive the cut to `w` bits.
pub bit-mod : (w j a : ℕ) → j < w → bit j (a % 2 ^ w) ≡ bit j a
unfolding bit
bit-mod zero j a h = absurd (omega arith)
bit-mod (suc w) zero a h = omega (arith, ap (λ (t : ℕ). a % t) (pow-succ' 2 w), mod_twice a (2 ^ w))
bit-mod (suc w) (suc j) a h =
    let e : a % 2 ^ suc w / 2 ≡ a / 2 % 2 ^ w =
      omega (arith, ap (λ (t : ℕ). a % t) (pow-succ' 2 w), mod_twice a (2 ^ w)) in
    rw e (bit-mod w j (a / 2) (omega arith))

-- One bit set, and one bit cleared.
pub bit_of_set : (w k j : ℕ) → bit j (bit_or w (2 ^ k)) ≡ (if k == j then 1 else bit j w)
bit_of_set w k j = elim (Bool-cases (k == j)) [
  | inl e ↦
      let same : k ≡ j = ground arith in
      rw (e, ← same) (ground (arith, bit-bit_or k w (2 ^ k), bit-pow_self k, bit-le-one k w))
  | inr ne ↦
      rw ne (ground (arith, bit-bit_or j w (2 ^ k), bit-pow_ne j k (ground arith), bit-le-one j w))
]

pow_lt_word : (k : ℕ) → k < 32 → 2 ^ k < 2 ^ 32
pow_lt_word k h =
    let le : 2 ^ k ≤ 2 ^ 31 = pow-le-pow_right (omega arith) {j = 31} (omega arith) in
    omega (arith, le)

pub bit_of_clear :
    (w k j : ℕ)
    → k < 32
    → j < 32
    → bit j (bit_and w (complement 32 (2 ^ k))) ≡ (if k == j then 0 else bit j w)
bit_of_clear w k j hk hj =
    let both = bit-bit_and j w (complement 32 (2 ^ k)) in
    let flip = bit-complement 32 j (2 ^ k) hj (pow_lt_word k hk) in
    elim (Bool-cases (k == j)) [
      | inl e ↦
          let same : k ≡ j = ground arith in
          let one : bit j (2 ^ k) ≡ 1 = rw same (bit-pow_self j) in rw e (omega (arith, both, flip))
      | inr ne ↦ rw ne (omega (arith, both, flip, bit-pow_ne j k (ground arith), bit-le-one j w))
    ]
