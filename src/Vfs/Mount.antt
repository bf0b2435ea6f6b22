-- ===== src/Vfs/Mount.antt =====
-- _find_relative_mount: which mount point a path belongs to.
use cookies_os.Base.{
  ℕ, zero, suc, ◌+◌, ◌-◌, ◌^◌, ◌≤◌, ◌<◌, ◌≡◌, ◌⊎◌, inl, inr, refl, ap, sym, subst, ◌∙◌, arith,
  Option, none, some, Mem, ◌==◌, le_or_lt, Bool-cases,
}
use cookies_os.Libc.Strings.{IsText}
use cookies_os.Libc.Compare.{Agree, strcmp-zero_iff}
use cookies_os.Vfs.{Mounts, mount_loop}

-- The path `path` of `len` bytes in the memory `m`, and the mount points, whose paths have the
-- lengths `size`.
module _ (m : Mem) (path len : ℕ) (v : Mounts) (size : ℕ → ℕ) where
  -- The mount point `i` is the first `n` bytes of the path.
  pub record Matches (n i : ℕ) : Type 0 where
    pub long : size i ≡ n
    pub bytes : (j : ℕ) → j < n → m ((v.mount_points i).path + j) ≡ m (path + j)

  abbrev pub Unmatched : ℕ → ℕ → Type 0
  Unmatched n hi = (i : ℕ) → i < hi → Matches n i → ⊥

  -- The whole path, and what ends in `/`.
  abbrev pub IsCut : ℕ → Type 0
  IsCut n = (n ≡ len) ⊎ ((0 < n) × (n < len) × (m (path + (n - 1)) ≡ b'/'))

  -- `r` is the first mount point that is the longest cut, of at most `hi` bytes, that is one; it is
  -- 0 when no cut is.
  pub record Longest (hi r n : ℕ) : Type 0 where
    pub below : n ≤ hi
    pub cut : IsCut n
    pub matches : Matches n r
    pub index : r < v.mount_count
    pub first : Unmatched n r
    pub longest : (k : ℕ) → n < k → k ≤ hi → IsCut k → Unmatched k v.mount_count

  abbrev pub Nearest : ℕ → ℕ → Type 0
  Nearest hi r =
      ((n : ℕ) × Longest hi r n)
      ⊎ ((r ≡ 0) × ((k : ℕ) → k ≤ hi → IsCut k → Unmatched k v.mount_count))

  -- The copy at `p` is cut to `n` bytes, and all else is as it was.
  pub record Held (p n : ℕ) (m' : Mem) : Type 0 where
    pub within : n ≤ len
    pub prefix : (j : ℕ) → j < n → m' (p + j) ≡ m (path + j)
    pub ends : m' (p + n) ≡ 0
    pub outside : (a : ℕ) → (a < p) ⊎ (p + len < a) → m' a ≡ m a
    pub bytes : (a : ℕ) → m' a < 256

  -- A string that the copy does not overlap.
  pub record Apart (p s n : ℕ) : Type 0 where
    pub text : IsText m s n
    pub clear : (s + n < p) ⊎ (p + len < s)

  -- What the search of the copy at `p` needs: the strings lie apart from it and end within the
  -- fuel, the path is absolute, and "/" stands at `slash`.
  pub record Lookup (p slash fuel : ℕ) : Type 0 where
    pub text : IsText m path len
    pub mounts : (i : ℕ) → i < v.mount_count → Apart p (v.mount_points i).path (size i)
    pub short : (i : ℕ) → i < v.mount_count → size i < fuel
    pub root : Apart p slash 1
    pub root_byte : m slash ≡ b'/'
    pub absolute : m path ≡ b'/'
    pub fits : len < fuel
    pub word : len < 2 ^ 32

  module _ (p slash fuel : ℕ) (x : Lookup p slash fuel) where
    pub outside-IsText : (s n k : ℕ) (m' : Mem) → Apart p s n → Held p k m' → IsText m' s n
    outside-IsText s n k m' a h = record {
      ends = h.outside (s + n) (omega (arith, a.clear)) ∙ a.text.ends;
      inside = λ j lt e. a.text.inside j lt (sym (h.outside (s + j) (omega (arith, a.clear))) ∙ e);
    }

    -- The copy equals an apart string exactly when they have the same length and bytes.
    pub same_text :
        (s k n : ℕ) (m' : Mem)
        → Apart p s k
        → Held p n m'
        → Agree m' p s 0 (k + 1)
        → (k ≡ n) × ((j : ℕ) → j < n → m (s + j) ≡ m (path + j))
    same_text s k n m' a h agree =
        let copy : (j : ℕ) → j ≤ k → m' (p + j) ≡ m (s + j) = λ j le.
          agree j (omega arith) (omega arith) ∙ h.outside (s + j) (omega (arith, a.clear)) in
        let same : k ≡ n = elim (le_or_lt k n) [
          | inr longer ↦ absurd (a.text.inside n longer (sym (copy n (omega arith)) ∙ h.ends))
          | inl le ↦ elim (le_or_lt n k) [
            | inl ge ↦ omega arith
            | inr shorter ↦ absurd (
                x.text.inside k (omega (arith, h.within))
                  (sym (h.prefix k shorter) ∙ copy k (omega arith) ∙ a.text.ends))
          ]
        ] in
        (same, λ j lt. sym (copy j (omega (arith, same))) ∙ h.prefix j lt)

    pub Agree-text :
        (s k n : ℕ) (m' : Mem)
        → Apart p s k
        → Held p n m'
        → k ≡ n
        → ((j : ℕ) → j < n → m (s + j) ≡ m (path + j))
        → Agree m' p s 0 (k + 1)
    Agree-text s k n m' a h e all j ge lt = elim (le_or_lt n j) [
      | inl end ↦
          let last : j ≡ n = omega (arith, e) in
          let copied : m' (p + j) ≡ 0 = ap (λ (t : ℕ). m' (p + t)) last ∙ h.ends in
          let ended : m (s + j) ≡ 0 = ap (λ (t : ℕ). m (s + t)) (omega (arith, e)) ∙ a.text.ends in
          copied ∙ sym (h.outside (s + j) (omega (arith, a.clear)) ∙ ended)
      | inr before ↦
          h.prefix j before ∙ sym (h.outside (s + j) (omega (arith, a.clear)) ∙ all j before)
    ]

    -- What the inner loop from `i` on finds.
    abbrev pub Hit : ℕ → ℕ → Option ℕ → Type 0
    Hit n i none = (j : ℕ) → i ≤ j → j < v.mount_count → Matches n j → ⊥
    Hit n i (some r) =
        (i ≤ r) × (r < v.mount_count) × Matches n r × ((j : ℕ) → i ≤ j → j < r → Matches n j → ⊥)

    skip : (n i j : ℕ) → (Matches n i → ⊥) → (i + 1 ≤ j → Matches n j → ⊥) → i ≤ j → Matches n j → ⊥
    skip n i j miss later ge t = elim (le_or_lt j i) [
      | inl le ↦ miss (subst (λ (k : ℕ). Matches n k) (omega arith) t)
      | inr lt ↦ later (omega arith) t
    ]

    Hit-later : (n i : ℕ) (r : Option ℕ) → (Matches n i → ⊥) → Hit n (i + 1) r → Hit n i r
    Hit-later n i none miss h = λ j ge lt. skip n i j miss (λ above. h j above lt) ge
    Hit-later n i (some r) miss h =
        (omega (arith, h.0), h.1, h.2, λ j ge lt. skip n i j miss (λ above. h.3 j above lt) ge)

    pub mount_loop-Hit :
        (left i n : ℕ) (m' : Mem)
        → i + left ≡ v.mount_count
        → Held p n m'
        → (r : Option ℕ) × (mount_loop fuel m' v p left i ≡ some r) × Hit n i r
    unfolding mount_loop
    mount_loop-Hit zero i n m' e h = (none, refl, λ j ge lt t. absurd (omega arith))
    mount_loop-Hit (suc left) i n m' e h =
        let a = x.mounts i (omega arith) in
        let q = (v.mount_points i).path in
        let (r, got, zero_iff) =
          strcmp-zero_iff m' p q (size i) (outside-IsText q (size i) n m' a h) h.bytes fuel
            (x.short i (omega arith)) in
        let (r', got', hit) = mount_loop-Hit left (i + 1) n m' (omega arith) h in
        elim (Bool-cases (r == 0)) [
          | inl z ↦
              let same = same_text q (size i) n m' a h (zero_iff.0 (ground arith)) in
              (
                some i,
                rw (got, mount_loop) (rw z refl),
                (
                  omega arith,
                  omega arith,
                  record { long = same.0; bytes = same.1 },
                  λ j ge lt t. absurd (omega arith),
                ),
              )
          | inr nz ↦ (
            r',
            rw (got, mount_loop) (rw (nz, got') refl),
            Hit-later n i r'
                (λ t.
                  absurd
                    (ground (arith, zero_iff.1 (Agree-text q (size i) n m' a h t.long t.bytes))))
                hit,
          )
        ]
