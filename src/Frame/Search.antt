-- ===== src/Frame/Search.antt =====
-- frame_frist_free: which run of free frames is found, and what is returned for it.
use cookies_os.Base.{
  ℕ, zero, suc, ◌+◌, ◌-◌, ◌*◌, ◌/◌, ◌%◌, ◌^◌, ◌≤◌, ◌<◌, ◌≡◌, ◌↔◌, ◌⊎◌, inl, inr, refl, arith, leb,
  ◌==◌, if◌then◌else◌, le_or_lt, Bool-cases, bit, bit-le-one, bit_and-pow, bit_and,
}
use native.Mathlib.Nat.{one-le-pow}
use cookies_os.Frame.{Frames, Scan, found, more, scan_word, scan_words, frame_frist_free, no_frame}
use cookies_os.Frame.Bitmap.{taken}

-- The `n` frames from `s` are free.
abbrev pub IsFree : Frames → ℕ → ℕ → Type 0
IsFree f s n = (q : ℕ) → s ≤ q → q < s + n → taken f q ≡ 0

-- Some frame of the `n` from `s` is taken.
abbrev pub Blocked : Frames → ℕ → ℕ → Type 0
Blocked f s n = (q : ℕ) × (s ≤ q) × (q < s + n) × (taken f q ≡ 1)

-- `s` is the first place below `limit` where `n` frames are free.
pub record FirstRun (f : Frames) (n limit s : ℕ) : Type 0 where
  pub fits : s + n ≤ limit
  pub free : IsFree f s n
  pub first : (t : ℕ) → t < s → Blocked f t n

-- What is returned: the word of the run's first frame with the bit of its last.
abbrev pub run_code : ℕ → ℕ → ℕ
run_code n s = s / 32 * 32 + (s + n - 1) % 32

abbrev pub Searched : Frames → ℕ → ℕ → ℕ → Type 0
Searched f n limit r =
    ((s : ℕ) × FirstRun f n limit s × (r ≡ run_code n s))
    ⊎ (((t : ℕ) → t + n ≤ limit → Blocked f t n) × (r ≡ no_frame))

-- The scan at frame `p`: the `cnt` frames before it are free, and no run starts earlier.
record Scanning (f : Frames) (n p cnt bi : ℕ) : Type 0 where
  fits : cnt ≤ p
  short : cnt < n
  free : (q : ℕ) → p ≤ q + cnt → q < p → taken f q ≡ 0
  blocked : (t : ℕ) → t + cnt < p → Blocked f t n
  word : 0 < cnt → bi ≡ (p - cnt) / 32

-- The bit test of the loop.
zero_of_scaled : (x p : ℕ) → 1 ≤ p → (x * p == 0) ≡ (x == 0)
zero_of_scaled zero p h = ground arith
zero_of_scaled (suc x) p h = ground arith

test_zero : (w j : ℕ) → (bit_and w (2 ^ j) == 0) ≡ (bit j w == 0)
test_zero w j =
    rw (bit_and-pow j w) (zero_of_scaled (bit j w) (2 ^ j) (one-le-pow j 2 (omega arith)))

taken_at : (f : Frames) (i j : ℕ) → j < 32 → bit j (f.words i) ≡ taken f (i * 32 + j)
taken_at f i j h =
    let word : (i * 32 + j) / 32 ≡ i = omega arith in
    let place : (i * 32 + j) % 32 ≡ j = omega arith in rw (word, place)

module _ (f : Frames) (n : ℕ) (pos : 0 < n) where
  advance_free :
      (p cnt bi : ℕ)
      → Scanning f n p cnt bi
      → taken f p ≡ 0
      → cnt + 1 < n
      → Scanning f n (p + 1) (cnt + 1) (if cnt == 0 then p / 32 else bi)
  advance_free p cnt bi s free more_left = record {
    fits = omega (arith, s.fits);
    short = more_left;
    free = λ q lo hi. elim (le_or_lt p q) [
      | inl le ↦ let here : q ≡ p = omega arith in ground arith
      | inr lt ↦ s.free q (omega arith) lt
    ];
    blocked = λ t lt. s.blocked t (omega arith);
    word = λ _. ground (arith, s.word, s.fits);
  }

  advance_taken : (p cnt bi : ℕ) → Scanning f n p cnt bi → taken f p ≡ 1 → Scanning f n (p + 1) 0 bi
  advance_taken p cnt bi s full = record {
    fits = omega arith;
    short = pos;
    free = λ q lo hi. absurd (omega arith);
    blocked = λ t lt. elim (le_or_lt p (t + cnt)) [
      | inl le ↦ (p, omega arith, omega (arith, s.short), full)
      | inr early ↦ s.blocked t early
    ];
    word = λ h. absurd (omega arith);
  }

  finish :
      (p cnt bi limit : ℕ)
      → Scanning f n p cnt bi
      → taken f p ≡ 0
      → n ≤ cnt + 1
      → p < limit
      → Searched f n limit ((if cnt == 0 then p / 32 else bi) * 32 + p % 32)
  finish p cnt bi limit s free enough below = inl (
    p - cnt,
    record {
      fits = omega (arith, s.fits, s.short);
      free = λ q lo hi. elim (le_or_lt p q) [
        | inl le ↦ let here : q ≡ p = omega (arith, s.fits, s.short) in ground arith
        | inr lt ↦ s.free q (omega arith) lt
      ];
      first = λ t lt. s.blocked t (omega (arith, s.fits));
    },
    let last : p - cnt + n - 1 ≡ p = omega (arith, s.fits, s.short) in
        rw last (ground (arith, s.word, s.fits)),
  )

  -- What the rest of the search makes of the scan of one word.
  abbrev Scanned : ℕ → ℕ → Scan → Type 0
  Scanned limit p (found r) = Searched f n limit r
  Scanned limit p (more cnt bi bj) = Scanning f n p cnt bi

  scan_word-Scanned :
      (i left j cnt bi bj limit : ℕ)
      → j + left ≡ 32
      → i * 32 + 32 ≤ limit
      → Scanning f n (i * 32 + j) cnt bi
      → Scanned limit (i * 32 + 32) (scan_word n f.words i left j cnt bi bj)
  unfolding scan_word
  scan_word-Scanned i zero j cnt bi bj limit e h s =
      let end : i * 32 + j ≡ i * 32 + 32 = omega arith in rw (← end) s
  scan_word-Scanned i (suc left) j cnt bi bj limit e h s =
      let at = taken_at f i j (omega arith) in
      let word : (i * 32 + j) / 32 ≡ i = omega arith in
      let place : (i * 32 + j) % 32 ≡ j = omega arith in
      let step : i * 32 + j + 1 ≡ i * 32 + (j + 1) = omega arith in
      rw (test_zero (f.words i) j) (elim (Bool-cases (bit j (f.words i) == 0)) [
        | inl free ↦
            let clear : taken f (i * 32 + j) ≡ 0 = ground arith in
            rw free (elim (Bool-cases (leb n (cnt + 1))) [
              | inl enough ↦ rw enough (
                  rw (word, place) at
                    (finish (i * 32 + j) cnt bi limit s clear (ground arith) (omega arith)))
              | inr short ↦ rw short (
                  scan_word-Scanned i left (j + 1) (cnt + 1) (if cnt == 0 then i else bi) j limit
                    (omega arith) h
                    (rw (word, step) at (advance_free (i * 32 + j) cnt bi s clear (ground arith))))
            ])
        | inr full ↦
            let set : taken f (i * 32 + j) ≡ 1 = ground (arith, bit-le-one j (f.words i)) in
            rw full (
              scan_word-Scanned i left (j + 1) 0 bi bj limit (omega arith) h
                (rw step at (advance_taken (i * 32 + j) cnt bi s set)))
      ])

  scan_words-Searched :
      (left i cnt bi bj limit : ℕ)
      → i * 32 + left * 32 ≡ limit
      → Scanning f n (i * 32) cnt bi
      → Searched f n limit (scan_words n f.words left i cnt bi bj)
  unfolding scan_words
  scan_words-Searched zero i cnt bi bj limit e s =
      inr (λ t fits. s.blocked t (omega (arith, s.short, s.fits)), refl)
  scan_words-Searched (suc left) i cnt bi bj limit e s =
      after (scan_word n f.words i 32 0 cnt bi bj)
        (scan_word-Scanned i 32 0 cnt bi bj limit (omega arith) (omega arith)
          (let start : i * 32 ≡ i * 32 + 0 = omega arith in rw start at s))
        (λ cnt' bi' bj' s'.
          scan_words-Searched left (i + 1) cnt' bi' bj' limit (omega arith)
            (let next : i * 32 + 32 ≡ (i + 1) * 32 = omega arith in rw next at s'))
    where
      after :
          (r : Scan)
          → Scanned limit (i * 32 + 32) r
          → ((cnt' bi' bj' : ℕ)
              → Scanning f n (i * 32 + 32) cnt' bi'
              → Searched f n limit (scan_words n f.words left (i + 1) cnt' bi' bj'))
          → Searched f n limit (elim r [
            | found q ↦ q
            | more cnt' bi' bj' ↦ scan_words n f.words left (i + 1) cnt' bi' bj'
          ])
      after (found q) h next = h
      after (more cnt' bi' bj') h next = next cnt' bi' bj' h

-- frame_frist_free finds the first run of `n` free frames in the whole words of the bitmap and
-- returns the number made of the word of its first frame and the bit of its last, or it returns -1
-- and there is no such run.
pub frame_frist_free-Searched :
    (f : Frames) (n : ℕ) → 0 < n → Searched f n (f.frames_max / 32 * 32) (frame_frist_free f n)
unfolding frame_frist_free
frame_frist_free-Searched f n pos =
    scan_words-Searched f n pos (f.frames_max / 32) 0 0 0 0 (f.frames_max / 32 * 32) (omega arith)
      (record {
        fits = omega arith;
        short = pos;
        free = λ q lo hi. absurd (omega arith);
        blocked = λ t lt. absurd (omega arith);
        word = λ h. absurd (omega arith);
      })

-- So the number returned is the run's first frame exactly for lengths that leave 1 by 32.
pub run_code_iff : (n s : ℕ) → 0 < n → (run_code n s ≡ s) ↔ (n % 32 ≡ 1)
run_code_iff n s h = (λ e. omega arith, λ e. omega arith)
