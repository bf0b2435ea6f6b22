-- ===== src/Libc/Trim.antt =====
-- strdeltoc: the path is cut behind its last `char`, the final byte left aside.
use cookies_os.Base.{
  ℕ, zero, suc, ◌+◌, ◌-◌, ◌<◌, ◌^◌, ◌≡◌, ◌≢◌, ◌⊎◌, inl, inr, refl, ap, arith, some, Mem, write,
  write_at, write_off, ◌∙◌, ◌==◌, le_or_lt, Bool-cases, u32,
}
use cookies_os.Libc.{Deltoc, strdeltoc_loop, strdeltoc, strlen}
use cookies_os.Libc.Strings.{IsText, strlen_iff}

-- `k` is the last index below `hi` that holds `char`.
pub record LastAt (m : Mem) (path char hi k : ℕ) : Type 0 where
  pub below : k < hi
  pub holds : m (path + k) ≡ char
  pub last : (j : ℕ) → k < j → j < hi → m (path + j) ≢ char

abbrev pub Absent : Mem → ℕ → ℕ → ℕ → Type 0
Absent m path char hi = (j : ℕ) → j < hi → m (path + j) ≢ char

module _ (m : Mem) (path char : ℕ) where
  abbrev Cut : ℕ → ℕ → Deltoc → Type 0
  Cut i cnt d =
      ((k : ℕ) × LastAt m path char i k
        × (d ≡ record { stat = cnt + (i - 1 - k); mem = write m (path + k + 1) 0 }))
      ⊎ (Absent m path char i × (d ≡ record { stat = 0; mem = m }))

  Absent-up : (i : ℕ) → m (path + i) ≢ char → Absent m path char i → Absent m path char (suc i)
  Absent-up i ne h j lt = elim (le_or_lt i j) [
    | inl le ↦ let here : j ≡ i = omega arith in ground arith
    | inr lt ↦ h j lt
  ]

  Cut-up : (i cnt : ℕ) (d : Deltoc) → m (path + i) ≢ char → Cut i (cnt + 1) d → Cut (suc i) cnt d
  Cut-up i cnt d ne (inl (k, l, e)) = inl (
    k,
    record {
      below = omega (arith, l.below);
      holds = l.holds;
      last = λ j p q. elim (le_or_lt i j) [
        | inl le ↦ let here : j ≡ i = omega arith in ground arith
        | inr lt ↦ l.last j p lt
      ];
    },
    let count : cnt + 1 + (i - 1 - k) ≡ cnt + (suc i - 1 - k) = omega (arith, l.below) in
        rw (e, count),
  )
  Cut-up i cnt d ne (inr (h, e)) = inr (Absent-up i ne h, e)

  strdeltoc_loop-Cut : (i cnt : ℕ) → Cut i cnt (strdeltoc_loop path char i cnt m)
  unfolding strdeltoc_loop
  strdeltoc_loop-Cut zero cnt = inr (λ j lt. absurd (omega arith), refl)
  strdeltoc_loop-Cut (suc i) cnt = elim (Bool-cases (m (path + i) == char)) [
    | inl hit ↦ rw hit (
        inl (
          i,
          record {
            below = omega arith;
            holds = ground arith;
            last = λ j p q. absurd (omega arith);
          },
          let count : cnt ≡ cnt + (suc i - 1 - i) = omega arith in rw (← count),
        ))
    | inr miss ↦ rw miss (Cut-up i cnt _ (ground arith) (strdeltoc_loop-Cut i (cnt + 1)))
  ]

-- On a string of `len` bytes, not empty, strdeltoc returns. Either the string is cut behind the
-- last `char` that stands before its final byte, and the number of bytes passed over is returned,
-- or there is no such `char`, and 0 is returned with the memory as it was.
pub strdeltoc_lem :
    (m : Mem) (path char len fuel : ℕ)
    → IsText m path len
    → 0 < len
    → len < 2 ^ 32
    → len < fuel
    → (d : Deltoc) × (strdeltoc fuel m path char ≡ some d)
      × (((k : ℕ) × LastAt m path char (len - 1) k
            × (d.stat ≡ len - 2 - k)
            × (d.mem ≡ write m (path + k + 1) 0)
            × IsText d.mem path (k + 1))
          ⊎ (Absent m path char (len - 1) × (d.stat ≡ 0) × (d.mem ≡ m)))
unfolding strdeltoc
strdeltoc_lem m path char len fuel t pos small enough =
    let size : strlen fuel m path ≡ some len = (strlen_iff m path fuel len enough).1 t in
    let start : u32 (len + 2 ^ 32 - 1) ≡ len - 1 = omega arith in
    let d = strdeltoc_loop path char (len - 1) 0 m in
    (d, rw (size, strdeltoc) (rw start), cut_result d (strdeltoc_loop-Cut m path char (len - 1) 0))
  where
    cut_result :
        (d : Deltoc)
        → Cut m path char (len - 1) 0 d
        → ((k : ℕ) × LastAt m path char (len - 1) k
            × (d.stat ≡ len - 2 - k)
            × (d.mem ≡ write m (path + k + 1) 0)
            × IsText d.mem path (k + 1))
          ⊎ (Absent m path char (len - 1) × (d.stat ≡ 0) × (d.mem ≡ m))
    cut_result d (inl (k, l, e)) = inl (
      k,
      l,
      ap (λ (x : Deltoc). x.stat) e ∙ omega arith,
      ap (λ (x : Deltoc). x.mem) e,
      rw e (record {
        ends = write_at m (path + k + 1) 0 (path + (k + 1)) (omega arith);
        inside = λ j lt.
            rw (write_off m (path + k + 1) 0 (path + j) (omega arith))
              (t.inside j (omega (arith, l.below)));
      }),
    )
    cut_result d (inr (h, e)) = inr (h, ap (λ (x : Deltoc). x.stat) e, ap (λ (x : Deltoc). x.mem) e)
