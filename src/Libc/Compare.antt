-- ===== src/Libc/Compare.antt =====
-- memcmp and strcmp: what their results say of the bytes.
use cookies_os.Base.{
  ℕ, zero, suc, ◌+◌, ◌≤◌, ◌<◌, ◌≡◌, ◌≢◌, ◌⊎◌, ◌↔◌, inl, inr, refl, arith, some, Mem, ℤ, pos, negsuc,
  ltb, ◌==◌, le_or_lt, Bool-cases,
}
use cookies_os.Libc.{memcmp_loop, memcmp, byte_diff, strcmp_loop, strcmp}
use cookies_os.Libc.Strings.{IsText}

-- The bytes from `a` and from `b` agree at the indices from `lo` up to `hi`.
abbrev pub Agree : Mem → ℕ → ℕ → ℕ → ℕ → Type 0
Agree m a b lo hi = (j : ℕ) → lo ≤ j → j < hi → m (a + j) ≡ m (b + j)

-- The first index, from `lo`, at which they differ.
pub record Differ (m : Mem) (a b lo hi k : ℕ) : Type 0 where
  pub from : lo ≤ k
  pub below : k < hi
  pub agree : Agree m a b lo k

-- The order of the first bytes that differ decides.
abbrev pub Compared : Mem → ℕ → ℕ → ℕ → ℕ → ℤ → Type 0
Compared m a b lo hi r =
    ((r ≡ pos 0) × Agree m a b lo hi)
    ⊎ ((r ≡ negsuc 0) × ((k : ℕ) × Differ m a b lo hi k × (m (a + k) < m (b + k))))
    ⊎ ((r ≡ pos 1) × ((k : ℕ) × Differ m a b lo hi k × (m (b + k) < m (a + k))))

module _ (m : Mem) (a b : ℕ) where
  Agree-down : (i k : ℕ) → m (a + i) ≡ m (b + i) → Agree m a b (i + 1) k → Agree m a b i k
  Agree-down i k e h j p q = elim (le_or_lt j i) [
    | inl le ↦ let same : j ≡ i = omega arith in ground arith
    | inr lt ↦ h j (omega arith) q
  ]

  Differ-down : (i n k : ℕ) → m (a + i) ≡ m (b + i) → Differ m a b (i + 1) n k → Differ m a b i n k
  Differ-down i n k e d = record {
    from = omega arith;
    below = d.below;
    agree = Agree-down i k e d.agree;
  }

  Compared-down :
      (i n : ℕ) (r : ℤ) → m (a + i) ≡ m (b + i) → Compared m a b (i + 1) n r → Compared m a b i n r
  Compared-down i n r e (inl (z, same)) = inl (z, Agree-down i n e same)
  Compared-down i n r e (inr (inl (z, (k, d, o)))) = inr (inl (z, (k, Differ-down i n k e d, o)))
  Compared-down i n r e (inr (inr (z, (k, d, o)))) = inr (inr (z, (k, Differ-down i n k e d, o)))

  Differ-here : (i n : ℕ) → i < n → Differ m a b i n i
  Differ-here i n h = record {
    from = omega arith;
    below = h;
    agree = λ j p q. absurd (omega arith);
  }

  memcmp_loop-Compared :
      (n left i : ℕ) → i + left ≡ n → Compared m a b i n (memcmp_loop m a b left i)
  unfolding memcmp_loop
  memcmp_loop-Compared n zero i e = inl (refl, λ j p q. absurd (omega arith))
  memcmp_loop-Compared n (suc left) i e = elim (Bool-cases (ltb (m (a + i)) (m (b + i)))) [
    | inl lt ↦ rw lt (inr (inl (refl, (i, Differ-here i n (omega arith), ground arith))))
    | inr ge ↦ rw ge (elim (Bool-cases (ltb (m (b + i)) (m (a + i)))) [
      | inl gt ↦ rw gt (inr (inr (refl, (i, Differ-here i n (omega arith), ground arith))))
      | inr le ↦
          rw le
            (Compared-down i n _ (ground arith) (memcmp_loop-Compared n left (i + 1) (omega arith)))
    ])
  ]

  -- memcmp returns 0 when all `size` bytes agree, and otherwise -1 or 1 by the order of the first
  -- bytes that differ.
  pub memcmp-Compared : (size : ℕ) → Compared m a b 0 size (memcmp m a b size)
  unfolding memcmp
  memcmp-Compared size = memcmp_loop-Compared size size 0 (omega arith)

  Agree-of_zero : (n : ℕ) (r : ℤ) → Compared m a b 0 n r → r ≡ pos 0 → Agree m a b 0 n
  Agree-of_zero n r (inl (z, same)) e = same
  Agree-of_zero n r (inr (inl (z, d))) e = cc
  Agree-of_zero n r (inr (inr (z, d))) e = ground arith

  zero_of_Agree : (n : ℕ) (r : ℤ) → Compared m a b 0 n r → Agree m a b 0 n → r ≡ pos 0
  zero_of_Agree n r (inl (z, same)) h = z
  zero_of_Agree n r (inr (inl (z, (k, d, o)))) h = ground (arith, h k (omega arith) d.below)
  zero_of_Agree n r (inr (inr (z, (k, d, o)))) h = ground (arith, h k (omega arith) d.below)

  -- memcmp returns 0 exactly when the first `size` bytes agree.
  pub memcmp-zero_iff : (size : ℕ) → (memcmp m a b size ≡ pos 0) ↔ Agree m a b 0 size
  memcmp-zero_iff size =
      (Agree-of_zero size _ (memcmp-Compared size), zero_of_Agree size _ (memcmp-Compared size))

-- The index at which strcmp stops: at a difference, or at the end of the second string.
pub record Stops (m : Mem) (a b lo len k : ℕ) : Type 0 where
  pub from : lo ≤ k
  pub within : k ≤ len
  pub agree : Agree m a b lo k
  pub stop : (m (a + k) ≢ m (b + k)) ⊎ (k ≡ len)

module _ (m : Mem) (a b len : ℕ) (text : IsText m b len) (bytes : (p : ℕ) → m p < 256) where
  strcmp_loop-Stops :
      (fuel i : ℕ)
      → i ≤ len
      → len < i + fuel
      → (k : ℕ) × Stops m a b i len k
        × (strcmp_loop fuel m a b i ≡ some (byte_diff (m (a + k)) (m (b + k))))
  unfolding strcmp_loop
  strcmp_loop-Stops zero i p q = absurd (omega arith)
  strcmp_loop-Stops (suc fuel) i p q = elim (le_or_lt len i) [
    | inl end ↦ (
      i,
      record {
        from = omega arith;
        within = p;
        agree = λ j r s. absurd (omega arith);
        stop = inr (omega arith);
      },
      let here : i ≡ len = omega arith in
          let nul : m (b + i) ≡ 0 = rw here text.ends in ground arith,
    )
    | inr before ↦ elim (Bool-cases (m (a + i) == m (b + i))) [
      | inr differ ↦ (
        i,
        record {
          from = omega arith;
          within = p;
          agree = λ j r s. absurd (omega arith);
          stop = inl (ground arith);
        },
        ground (arith, bytes (a + i), bytes (b + i)),
      )
      | inl same ↦
          let (k, s, e) = strcmp_loop-Stops fuel (i + 1) (omega arith) (omega arith) in
          let here : m (a + i) ≡ m (b + i) = ground arith in
          (
            k,
            record {
              from = omega (arith, s.from);
              within = s.within;
              agree = Agree-down m a b i k here s.agree;
              stop = s.stop;
            },
            ground (arith, text.inside i, bytes (b + i)),
          )
    ]
  ]

  -- strcmp returns, and its result is the difference of the bytes at the first index where the
  -- strings differ, or at the terminator of the second.
  pub strcmp-Stops :
      (fuel : ℕ)
      → len < fuel
      → (k : ℕ) × Stops m a b 0 len k
        × (strcmp fuel m a b ≡ some (byte_diff (m (a + k)) (m (b + k))))
  unfolding strcmp
  strcmp-Stops fuel h = strcmp_loop-Stops fuel 0 (omega arith) (omega arith)

  -- strcmp returns, and it returns 0 exactly when the strings are the same, terminator included.
  pub strcmp-zero_iff :
      (fuel : ℕ)
      → len < fuel
      → (r : ℕ) × (strcmp fuel m a b ≡ some r) × ((r ≡ 0) ↔ Agree m a b 0 (len + 1))
  strcmp-zero_iff fuel h =
      let (k, s, e) = strcmp-Stops fuel h in
      (
        byte_diff (m (a + k)) (m (b + k)),
        e,
        (
          λ z j p q. elim (le_or_lt k j) [
            | inl le ↦ ground (arith, s.stop, s.within, bytes (a + k), bytes (b + k))
            | inr lt ↦ s.agree j p lt
          ],
          λ all. ground (arith, all k (omega arith) (omega (arith, s.within)), bytes (b + k)),
        ),
      )
