-- ===== src/Vfs/Shorten.antt =====
-- _find_relative_mount: the outer loop, which shortens the copy.
use cookies_os.Base.{
  ℕ, zero, suc, ◌+◌, ◌-◌, ◌≤◌, ◌<◌, ◌≡◌, ◌≢◌, ◌⊎◌, ◌↔◌, inl, inr, refl, ap, sym, subst, ◌∙◌, arith,
  Option, none, some, Mem, write, write_at, write_off, ◌==◌, le_or_lt, Bool-cases, false,
}
use cookies_os.Libc.{strcmp, strdeltoc, Deltoc}
use cookies_os.Libc.Strings.{IsText}
use cookies_os.Libc.Compare.{Agree, strcmp-zero_iff}
use cookies_os.Libc.Trim.{LastAt, strdeltoc_lem}
use cookies_os.Vfs.{Mounts, mount_loop, shorten_loop}
use cookies_os.Vfs.Mount.{
  Unmatched, IsCut, Nearest, Held, Lookup, outside-IsText, same_text, Agree-text, Hit,
  mount_loop-Hit,
}

module _ (m : Mem) (path len : ℕ) (v : Mounts) (size : ℕ → ℕ) (p slash fuel : ℕ)
    (look : Lookup m path len v size p slash fuel) where
  abbrev Copy : ℕ → Mem → Type 0
  Copy n c = Held m path len v size p n c

  abbrev Cuts : ℕ → Type 0
  Cuts n = IsCut m path len v size n

  abbrev Near : ℕ → ℕ → Type 0
  Near hi r = Nearest m path len v size hi r

  abbrev Misses : ℕ → ℕ → Type 0
  Misses n hi = Unmatched m path len v size n hi

  Copy-cut : (n k : ℕ) (m' : Mem) → Copy n m' → k < n - 1 → Copy (k + 1) (write m' (p + k + 1) 0)
  Copy-cut n k m' h lt = record {
    within = omega (arith, h.within);
    prefix = λ j le. write_off m' (p + k + 1) 0 (p + j) (omega arith) ∙ h.prefix j (omega arith);
    ends = write_at m' (p + k + 1) 0 (p + (k + 1)) (omega arith);
    outside =
        λ a far. write_off m' (p + k + 1) 0 a (omega (arith, far, h.within)) ∙ h.outside a far;
    bytes = λ a. elim (Bool-cases (p + k + 1 == a)) [
      | inl e ↦ omega (arith, write_at m' (p + k + 1) 0 a (ground arith))
      | inr ne ↦ omega (arith, write_off m' (p + k + 1) 0 a (ground arith), h.bytes a)
    ];
  }

  -- What strdeltoc leaves of the copy.
  shorten :
      (n : ℕ) (m' : Mem)
      → Copy n m'
      → 1 < n
      → (k : ℕ) × (d : Deltoc) × (strdeltoc fuel m' p b'/' ≡ some d)
        × LastAt m' p b'/' (n - 1) k
        × Copy (k + 1) d.mem
  shorten n m' h two =
      let text' : IsText m' p n = record {
        ends = h.ends;
        inside = λ j lt e. look.text.inside j (omega (arith, h.within)) (sym (h.prefix j lt) ∙ e);
      } in
      let (d, got, cut) =
        strdeltoc_lem m' p b'/' n fuel text' (omega arith) (omega (arith, h.within))
          (omega (arith, h.within)) in
      elim cut [
        | inl (k, last, stat, mem, t) ↦ (
          k,
          d,
          got,
          last,
          subst (λ (c : Mem). Copy (k + 1) c) (sym mem) (Copy-cut n k m' h last.below),
        )
        | inr (absent, stat, mem) ↦
            absurd (
              absent 0 (omega arith)
                (h.prefix 0 (omega arith) ∙ ap m (omega arith) ∙ look.absolute))
      ]

  -- Where the outer loop stops.
  pub record Stopped (n : ℕ) (out : ℕ × Mem) : Type 0 where
    pub nearest : Near n out.0
    pub outside : (a : ℕ) → (a < p) ⊎ (p + len < a) → out.1 a ≡ m a
    pub bytes : (a : ℕ) → out.1 a < 256

  -- A step to a shorter cut skips none.
  gap_miss :
      (n k x : ℕ)
      → Misses n v.mount_count
      → n ≤ len
      → ((j : ℕ) → k < j → j < n - 1 → m (path + j) ≢ b'/')
      → k + 1 < x
      → x ≤ n
      → Cuts x
      → Misses x v.mount_count
  gap_miss n k x miss within gap above le cut = elim (le_or_lt n x) [
    | inl ge ↦ subst (λ (y : ℕ). Misses y v.mount_count) (omega arith) miss
    | inr lt ↦ elim cut [
      | inl whole ↦ absurd (omega arith)
      | inr (pos, short', slash') ↦ absurd (gap (x - 1) (omega arith) (omega arith) slash')
    ]
  ]

  Near-up :
      (n k r : ℕ)
      → Misses n v.mount_count
      → n ≤ len
      → k + 1 < n
      → ((j : ℕ) → k < j → j < n - 1 → m (path + j) ≢ b'/')
      → Near (k + 1) r
      → Near n r
  Near-up n k r miss within lt gap (inl (w, l)) = inl (
    w,
    record {
      below = omega (arith, l.below);
      cut = l.cut;
      matches = l.matches;
      index = l.index;
      first = l.first;
      longest = λ x above le cut. elim (le_or_lt x (k + 1)) [
        | inl small ↦ l.longest x above small cut
        | inr big ↦ gap_miss n k x miss within gap big le cut
      ];
    },
  )
  Near-up n k r miss within lt gap (inr (z, all)) = inr (
    z,
    λ x le cut. elim (le_or_lt x (k + 1)) [
      | inl small ↦ all x small cut
      | inr big ↦ gap_miss n k x miss within gap big le cut
    ],
  )

  abbrev pub Result : ℕ → ℕ → Mem → Type 0
  Result rounds n m' =
      (out : ℕ × Mem) × (shorten_loop rounds fuel slash v p m' ≡ some out) × Stopped n out

  -- The copy is not "/" and matches nothing: the next round has a shorter one.
  next_round :
      (rounds n : ℕ) (m' : Mem)
      → n ≤ suc rounds
      → Copy n m'
      → ((k : ℕ) (c : Mem) → 0 < k → k ≤ rounds → Cuts k → Copy k c → Result rounds k c)
      → (s : ℕ) → mount_loop fuel m' v p v.mount_count 0 ≡ some none
      → Misses n v.mount_count
      → strcmp fuel m' p slash ≡ some s
      → (s == 0) ≡ false
      → 1 < n
      → Result (suc rounds) n m'
  unfolding shorten_loop
  next_round rounds n m' le h ih s got miss got2 nz two =
      let (k, d, gotd, last, held) = shorten n m' h two in
      let byte : m (path + (k + 1 - 1)) ≡ b'/' =
        ap (λ (j : ℕ). m (path + j)) (omega arith)
        ∙ sym (h.prefix k (omega (arith, last.below)))
        ∙ last.holds in
      let (out, goto, st) =
        ih (k + 1) d.mem (omega arith) (omega (arith, last.below))
          (inr (omega arith, omega (arith, last.below, h.within), byte)) held in
      (
        out,
        rw (got, shorten_loop) (rw got2 (rw (nz, gotd) goto)),
        record {
          nearest =
              Near-up n k out.0 miss h.within (omega (arith, last.below))
                (λ j above lt e. last.last j above lt (h.prefix j (omega arith) ∙ e)) st.nearest;
          outside = st.outside;
          bytes = st.bytes;
        },
      )

  not_root :
      (n s : ℕ) (m' : Mem) → 0 < n → Copy n m' → ((s ≡ 0) ↔ Agree m' p slash 0 2) → s ≢ 0 → 1 < n
  not_root n s m' pos h iff nz = elim (le_or_lt n 1) [
    | inr lt ↦ lt
    | inl le ↦ absurd (
        nz (
          iff.1 (
            Agree-text m path len v size p slash fuel look slash 1 n m' look.root h (omega arith)
              (λ j lt.
                ap m (omega arith) ∙ look.root_byte ∙ sym look.absolute ∙ ap m (omega arith)))))
  ]

  round :
      (rounds n : ℕ) (m' : Mem)
      → 0 < n
      → n ≤ suc rounds
      → Cuts n
      → Copy n m'
      → ((k : ℕ) (c : Mem) → 0 < k → k ≤ rounds → Cuts k → Copy k c → Result rounds k c)
      → (r : Option ℕ) → mount_loop fuel m' v p v.mount_count 0 ≡ some r
      → Hit m path len v size p slash fuel look n 0 r
      → Result (suc rounds) n m'
  unfolding shorten_loop
  round rounds n m' pos le cut h ih (some i) got hit = (
    (i, m'),
    rw (got, shorten_loop) refl,
    record {
      nearest = inl (
        n,
        record {
          below = omega arith;
          cut = cut;
          matches = hit.2;
          index = hit.1;
          first = λ j lt. hit.3 j (omega arith) lt;
          longest = λ x above le' c. absurd (omega arith);
        },
      );
      outside = h.outside;
      bytes = h.bytes;
    },
  )
  round rounds n m' pos le cut h ih none got hit =
      let miss : Misses n v.mount_count = λ j lt. hit j (omega arith) lt in
      let (s, got2, iff) =
        strcmp-zero_iff m' p slash 1
          (outside-IsText m path len v size p slash fuel look slash 1 n m' look.root h) h.bytes fuel
          (omega (arith, h.within)) in
      elim (Bool-cases (s == 0)) [
        | inl z ↦
            let same =
              same_text m path len v size p slash fuel look slash 1 n m' look.root h
                (iff.0 (ground arith)) in
            (
              (0, m'),
              rw (got, shorten_loop) (rw got2 (rw z refl)),
              record {
                nearest = inr (
                  refl,
                  λ x le' c.
                      let here : n ≡ x = omega (arith, c, same.0, h.within) in
                      subst (λ (y : ℕ). Misses y v.mount_count) here miss,
                );
                outside = h.outside;
                bytes = h.bytes;
              },
            )
        | inr nz ↦
            next_round rounds n m' le h ih s got miss got2 nz
              (not_root n s m' pos h iff (ground arith))
      ]

  pub shorten_loop-Stopped :
      (rounds n : ℕ) (m' : Mem) → 0 < n → n ≤ rounds → Cuts n → Copy n m' → Result rounds n m'
  shorten_loop-Stopped zero n m' pos le cut h = absurd (omega arith)
  shorten_loop-Stopped (suc rounds) n m' pos le cut h =
      let (r, got, hit) =
        mount_loop-Hit m path len v size p slash fuel look v.mount_count 0 n m' (omega arith) h in
      round rounds n m' pos le cut h (shorten_loop-Stopped rounds) r got hit
