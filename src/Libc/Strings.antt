-- ===== src/Libc/Strings.antt =====
-- strlen, and what a C string is.
use cookies_os.Base.{
  ℕ, zero, suc, ◌+◌, ◌≤◌, ◌<◌, ◌≡◌, ◌≢◌, ◌↔◌, inl, inr, arith, some, Mem, ◌==◌, le_or_lt,
  Bool-cases,
}
use cookies_os.Libc.{strlen_loop, strlen}

-- The string at `s` has `n` bytes before its terminator.
pub record IsText (m : Mem) (s n : ℕ) : Type 0 where
  pub ends : m (s + n) ≡ 0
  pub inside : (j : ℕ) → j < n → m (s + j) ≢ 0

module _ (m : Mem) (s : ℕ) where
  strlen_loop_complete :
      (fuel i n : ℕ) → IsText m s n → i ≤ n → n < i + fuel → strlen_loop fuel m s i ≡ some n
  unfolding strlen_loop
  strlen_loop_complete zero i n t p q = absurd (omega arith)
  strlen_loop_complete (suc fuel) i n t p q = elim (le_or_lt n i) [
    | inl end ↦
        let here : i ≡ n = omega arith in let nul : m (s + i) ≡ 0 = rw here t.ends in ground arith
    | inr before ↦ ground (
      arith,
      t.inside i before,
      strlen_loop_complete fuel (i + 1) n t (omega arith) (omega arith),
    )
  ]

  record Found (i n : ℕ) : Type 0 where
    from : i ≤ n
    ends : m (s + n) ≡ 0
    inside : (j : ℕ) → i ≤ j → j < n → m (s + j) ≢ 0

  strlen_loop_sound : (fuel i n : ℕ) → strlen_loop fuel m s i ≡ some n → Found i n
  unfolding strlen_loop
  strlen_loop_sound zero i n e = cc
  strlen_loop_sound (suc fuel) i n e = elim (Bool-cases (m (s + i) == 0)) [
    | inl nul ↦
        let here : i ≡ n = ground arith in
        record { from = omega arith; ends = ground arith; inside = λ j p q. absurd (omega arith) }
    | inr some_byte ↦
        let rest = strlen_loop_sound fuel (i + 1) n (ground arith) in
        record {
          from = omega (arith, rest.from);
          ends = rest.ends;
          inside = λ j p q. elim (le_or_lt j i) [
            | inl le ↦ let here : j ≡ i = omega arith in ground arith
            | inr lt ↦ rest.inside j (omega arith) q
          ];
        }
  ]

  -- With fuel for the string, strlen returns `n` exactly when the first NUL stands at index `n`.
  pub strlen_iff : (fuel n : ℕ) → n < fuel → (strlen fuel m s ≡ some n) ↔ IsText m s n
  unfolding strlen
  strlen_iff fuel n h = (
    λ e.
        let f = strlen_loop_sound fuel 0 n e in
        record { ends = f.ends; inside = λ j lt. f.inside j (omega arith) lt },
    λ t. strlen_loop_complete fuel 0 n t (omega arith) (omega arith),
  )
