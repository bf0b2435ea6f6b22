-- ===== src/Paging/Fill.antt =====
-- The loops that fill a table of 1024 entries.
use cookies_os.Base.{
  ℕ, zero, suc, ◌+◌, ◌*◌, ◌<◌, ◌≤◌, ◌≡◌, ◌⊎◌, inl, inr, refl, arith, ◌∙◌, write_at, write_off,
  write, ap, ◌==◌, Bool-cases,
}
use cookies_os.Paging.{fill_loop}

-- `a` is in none of the 4096 bytes from `table` on.
abbrev pub Outside : ℕ → ℕ → Type 0
Outside table a = (a < table) ⊎ (table + 4096 ≤ a)

-- `place` are the entries of the table.
module _ (table : ℕ) (place value : ℕ → ℕ)
    (entries : (i : ℕ) → i < 1024 → place i ≡ table + 4 * i) where
  fill_loop_off :
      (left i : ℕ) (words : ℕ → ℕ) (a : ℕ)
      → i + left ≤ 1024
      → Outside table a
      → fill_loop place value left i words a ≡ words a
  unfolding fill_loop
  fill_loop_off zero i words a n off = refl
  fill_loop_off (suc left) i words a n off =
      fill_loop_off left (i + 1) (write words (place i) (value i)) a (omega arith) off
      ∙ write_off words (place i) (value i) a (ground (arith, off, entries i (omega arith)))

  fill_loop_on :
      (left i j : ℕ) (words : ℕ → ℕ)
      → i + left ≤ 1024
      → j < i + left
      → (i ≤ j) ⊎ (words (table + 4 * j) ≡ value j)
      → fill_loop place value left i words (table + 4 * j) ≡ value j
  unfolding fill_loop
  fill_loop_on zero i j words n lt d = ground (arith, d)
  fill_loop_on (suc left) i j words n lt d =
      let at = table + 4 * j in
      fill_loop_on left (i + 1) j (write words (place i) (value i)) (omega arith) (omega arith)
        (elim (Bool-cases (i == j)) [
          | inl e ↦
              let same : i ≡ j = ground arith in
              inr (
                write_at words (place i) (value i) at
                  (entries i (omega arith) ∙ omega (arith, same))
                ∙ ap value same)
          | inr ne ↦ elim d [
            | inl le ↦ inl (ground arith)
            | inr old ↦ inr (
                write_off words (place i) (value i) at (ground (arith, entries i (omega arith)))
                ∙ old)
          ]
        ])

  pub filled_off :
      (words : ℕ → ℕ) (a : ℕ) → Outside table a → fill_loop place value 1024 0 words a ≡ words a
  filled_off words a off = fill_loop_off 1024 0 words a (omega arith) off

  pub filled_on :
      (words : ℕ → ℕ) (j : ℕ)
      → j < 1024
      → fill_loop place value 1024 0 words (table + 4 * j) ≡ value j
  filled_on words j lt = fill_loop_on 1024 0 j words (omega arith) (omega arith) (inl (omega arith))
