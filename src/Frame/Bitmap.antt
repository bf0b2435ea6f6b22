-- ===== src/Frame/Bitmap.antt =====
-- The bit of one frame, under set, clear and test.
use cookies_os.Base.{
  bit_of_set, bit_of_clear, ℕ, zero, suc, ◌+◌, ◌*◌, ◌/◌, ◌%◌, ◌^◌, ◌≤◌, ◌≡◌, ◌≢◌, ◌↔◌, arith, ◌&&◌,
  leb, ltb, ◌==◌, if◌then◌else◌, inl, inr, Bool-cases, write_at, write_off, bit, bit-le-one,
  bit_and-pow, complement, bit_and, bit_or,
}
use native.Mathlib.Nat.{one-le-pow}
use cookies_os.Frame.{Frames, frame_set, frame_clear, frame_test, set_loop, clear_loop}

-- 1 if frame `i` is taken, 0 if it is free.
abbrev pub taken : Frames → ℕ → ℕ
taken f i = bit (i % 32) (f.words (i / 32))

-- frame_set takes the one frame and leaves every other as it was.
pub taken-frame_set :
    (f : Frames) (i j : ℕ) → taken (frame_set f i) j ≡ (if i == j then 1 else taken f j)
unfolding frame_set
taken-frame_set f i j =
    let w = f.words (i / 32) in
    let here = write_at f.words (i / 32) (bit_or w (2 ^ (i % 32))) (j / 32) in
    let off = write_off f.words (i / 32) (bit_or w (2 ^ (i % 32))) (j / 32) in
    elim (Bool-cases (i / 32 == j / 32)) [
      | inl e ↦
          let same : i / 32 ≡ j / 32 = ground arith in
          rw (here same) (ground (arith, same, bit_of_set w (i % 32) (j % 32)))
      | inr ne ↦ rw (off (ground arith)) (ground arith)
    ]

-- frame_clear frees the one frame and leaves every other as it was.
pub taken-frame_clear :
    (f : Frames) (i j : ℕ) → taken (frame_clear f i) j ≡ (if i == j then 0 else taken f j)
unfolding frame_clear
taken-frame_clear f i j =
    let w = f.words (i / 32) in
    let v = bit_and w (complement 32 (2 ^ (i % 32))) in
    elim (Bool-cases (i / 32 == j / 32)) [
      | inl e ↦
          let same : i / 32 ≡ j / 32 = ground arith in
          rw (write_at f.words (i / 32) v (j / 32) same)
            (ground (arith, same, bit_of_clear w (i % 32) (j % 32) (omega arith) (omega arith)))
      | inr ne ↦ rw (write_off f.words (i / 32) v (j / 32) (ground arith)) (ground arith)
    ]

nonzero_iff : (x p : ℕ) → x ≤ 1 → 1 ≤ p → (x * p ≢ 0) ↔ (x ≡ 1)
nonzero_iff zero p h q = (λ ne. absurd (ne (omega arith)), λ e. absurd (omega arith))
nonzero_iff (suc zero) p h q = (λ ne. omega arith, λ e. omega arith)
nonzero_iff (suc (suc x)) p h q = absurd (omega arith)

-- frame_test is nonzero exactly on a taken frame.
pub frame_test_iff : (f : Frames) (i : ℕ) → (frame_test f i ≢ 0) ↔ (taken f i ≡ 1)
unfolding frame_test
frame_test_iff f i =
    rw (bit_and-pow (i % 32) (f.words (i / 32))) (
      nonzero_iff (taken f i) (2 ^ (i % 32)) (bit-le-one _ _) (one-le-pow (i % 32) 2 (omega arith)))

pub taken-set_loop :
    (f : Frames) (idx n left i j : ℕ)
    → i + left ≡ n
    → taken (set_loop idx left i f) j
      ≡ (if leb (idx + i) j && ltb j (idx + n) then 1 else taken f j)
unfolding set_loop
taken-set_loop f idx n zero i j e = ground arith
taken-set_loop f idx n (suc left) i j e = ground (
  arith,
  taken-set_loop (frame_set f (idx + i)) idx n left (i + 1) j (omega arith),
  taken-frame_set f (idx + i) j,
)

pub taken-clear_loop :
    (f : Frames) (index n j : ℕ)
    → taken (clear_loop index n f) j ≡ (if (index == j) && ltb 0 n then 0 else taken f j)
unfolding clear_loop
taken-clear_loop f index zero j = ground arith
taken-clear_loop f index (suc n) j =
    ground (arith, taken-clear_loop (frame_clear f index) index n j, taken-frame_clear f index j)
