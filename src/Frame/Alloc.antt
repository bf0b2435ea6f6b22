-- ===== src/Frame/Alloc.antt =====
-- frame_alloc_ex, frame_free_ex and frame_init on the bitmap.
use cookies_os.Base.{
  true, false, ℕ, zero, suc, ◌+◌, ◌-◌, ◌*◌, ◌/◌, ◌%◌, ◌^◌, ◌≤◌, ◌<◌, ◌≡◌, inl, inr, refl, arith,
  ◌&&◌, leb, ltb, ◌==◌, if◌then◌else◌, le_or_lt, bit-zero, u32,
}
use cookies_os.Frame.{
  Frames, no_frame, Alloced, panicked, alloced, set_loop, frame_set, frame_alloc_ex, frame_free_ex,
  frame_alloc, frame_free, frame_init, clear_bytes, frame_block_size, clear_loop, frame_clear,
}
use cookies_os.Frame.Bitmap.{taken, taken-set_loop, taken-clear_loop}
use cookies_os.Frame.Search.{FirstRun, Blocked, run_code, frame_frist_free-Searched}

-- The frames that a search covers: those of the whole words of the bitmap.
abbrev pub covered : Frames → ℕ
covered f = f.frames_max / 32 * 32

-- At most 4 GB of memory.
abbrev pub Fits : Frames → Type 0
Fits f = f.frames_max ≤ 2 ^ 20

set_loop_rest :
    (idx left i : ℕ) (f : Frames)
    → ((set_loop idx left i f).alloced_frames ≡ f.alloced_frames)
      × ((set_loop idx left i f).frames_max ≡ f.frames_max)
unfolding set_loop frame_set
set_loop_rest idx zero i f = (refl, refl)
set_loop_rest idx (suc left) i f = set_loop_rest idx left (i + 1) (frame_set f (idx + i))

-- What an allocation of `n` frames returns for the search result `idx`.
pub record Handed (f : Frames) (n idx addr : ℕ) (f' : Frames) : Type 0 where
  pub address : addr ≡ idx * frame_block_size
  pub marks : (j : ℕ) → taken f' j ≡ (if leb idx j && ltb j (idx + n) then 1 else taken f j)
  pub counts : f'.alloced_frames ≡ u32 (f.alloced_frames + n)
  pub keeps : f'.frames_max ≡ f.frames_max

abbrev pub Outcome : Frames → ℕ → Alloced → Type 0
Outcome f n panicked = (t : ℕ) → t + n ≤ covered f → Blocked f t n
Outcome f n (alloced addr f') =
    (s : ℕ) × FirstRun f n (covered f) s × Handed f n (run_code n s) addr f'

run_code-lt :
    (f : Frames) (n s : ℕ) → 0 < n → Fits f → FirstRun f n (covered f) s → run_code n s < 2 ^ 20
run_code-lt f n s pos fits r = omega (arith, r.fits)

-- frame_alloc_ex panics exactly when no run of `n` free frames is covered; otherwise it marks `n`
-- frames from the number that the search returns for the first such run, counts them, and returns
-- the address of the first one marked.
pub frame_alloc_ex-Outcome :
    (f : Frames) (n : ℕ) → 0 < n → Fits f → Outcome f n (frame_alloc_ex f n)
unfolding frame_alloc_ex
frame_alloc_ex-Outcome f n pos fits = elim (frame_frist_free-Searched f n pos) [
  | inl (s, run, e) ↦
      let idx = run_code n s in
      let small = run_code-lt f n s pos fits run in
      let valid : (idx == no_frame) ≡ false = ground (arith, small) in
      rw (e, valid)
        (
          s,
          run,
          record {
            address = omega (arith, small);
            marks = λ j. ground (arith, taken-set_loop f idx n n 0 j (omega arith));
            counts = rw ((set_loop_rest idx n 0 f).0);
            keeps = (set_loop_rest idx n 0 f).1;
          },
        )
  | inr (blocked, e) ↦ rw e blocked
]

abbrev pub OneFrame : Frames → Alloced → Type 0
OneFrame f panicked = (t : ℕ) → t < covered f → taken f t ≡ 1
OneFrame f (alloced addr f') =
    (s : ℕ) × (addr ≡ s * frame_block_size)
    × (s < covered f)
    × (taken f s ≡ 0)
    × ((t : ℕ) → t < s → taken f t ≡ 1)
    × ((j : ℕ) → taken f' j ≡ (if s == j then 1 else taken f j))
    × (f'.alloced_frames ≡ u32 (f.alloced_frames + 1))
    × (f'.frames_max ≡ f.frames_max)

Blocked-one : (f : Frames) (t : ℕ) → Blocked f t 1 → taken f t ≡ 1
Blocked-one f t (q, lo, hi, full) = let here : q ≡ t = omega arith in rw here at full

one_of_Outcome : (f : Frames) (r : Alloced) → Outcome f 1 r → OneFrame f r
one_of_Outcome f panicked h = λ t lt. Blocked-one f t (h t (omega arith))
one_of_Outcome f (alloced addr f') (s, run, given) =
    let code : run_code 1 s ≡ s = omega arith in
    (
      s,
      rw code at given.address,
      omega (arith, run.fits),
      run.free s (omega arith) (omega arith),
      λ t lt. Blocked-one f t (run.first t lt),
      λ j. ground (arith, given.marks j, code),
      given.counts,
      given.keeps,
    )

-- Allocating one frame takes the lowest free frame and no other, counts it and returns its
-- address; it panics only when every covered frame is taken.
pub frame_alloc-OneFrame : (f : Frames) → Fits f → OneFrame f (frame_alloc f)
frame_alloc-OneFrame f fits =
    one_of_Outcome f (frame_alloc f) (frame_alloc_ex-Outcome f 1 (omega arith) fits)

-- The bits after freeing `n` frames.
pub taken-frame_free_ex :
    (f : Frames) (addr n j : ℕ)
    → taken (frame_free_ex f addr n) j
      ≡ (if (addr / frame_block_size == j) && ltb 0 n then 0 else taken f j)
unfolding frame_free_ex
taken-frame_free_ex f addr n j = taken-clear_loop f (addr / frame_block_size) n j

clear_loop_rest :
    (index n : ℕ) (f : Frames)
    → ((clear_loop index n f).alloced_frames ≡ f.alloced_frames)
      × ((clear_loop index n f).frames_max ≡ f.frames_max)
unfolding clear_loop frame_clear
clear_loop_rest index zero f = (refl, refl)
clear_loop_rest index (suc n) f = clear_loop_rest index n (frame_clear f index)

pub frame_free_ex_counts :
    (f : Frames) (addr n : ℕ)
    → ((frame_free_ex f addr n).alloced_frames ≡ u32 (f.alloced_frames + 2 ^ 32 - n))
      × ((frame_free_ex f addr n).frames_max ≡ f.frames_max)
unfolding frame_free_ex
frame_free_ex_counts f addr n =
    let rest = clear_loop_rest (addr / frame_block_size) n f in (rw (rest.0), rest.1)

-- Freeing `n` frames frees only the first of them, and takes `n` off the count, which wraps at 2 ^ 32; the
-- number of frames stays.
pub frame_free_ex-FirstFreed :
    (f : Frames) (addr n : ℕ)
    → ((j : ℕ)
        → taken (frame_free_ex f addr n) j
          ≡ (if (addr / frame_block_size == j) && ltb 0 n then 0 else taken f j))
      × ((frame_free_ex f addr n).alloced_frames ≡ u32 (f.alloced_frames + 2 ^ 32 - n))
      × ((frame_free_ex f addr n).frames_max ≡ f.frames_max)
frame_free_ex-FirstFreed f addr n =
    let (count, max) = frame_free_ex_counts f addr n in
    (λ j. taken-frame_free_ex f addr n j, count, max)

-- Freeing the frame just allocated gives the bitmap and the count back.
pub frame_free-alloc :
    (f f' : Frames) (addr : ℕ)
    → Fits f
    → f.alloced_frames + 1 < 2 ^ 32
    → frame_alloc f ≡ alloced addr f'
    → ((j : ℕ) → taken (frame_free f' addr) j ≡ taken f j)
      × ((frame_free f' addr).alloced_frames ≡ f.alloced_frames)
frame_free-alloc f f' addr fits small e =
    let got : OneFrame f (alloced addr f') = rw e at (frame_alloc-OneFrame f fits) in
    let (s, at, below, free, first, marks, counts, keeps) = got in
    (
      λ j. ground (arith, taken-frame_free_ex f' addr 1 j, marks j, free),
      ground (arith, frame_free_ex_counts f' addr 1, counts),
    )

not_before : (f : Frames) (n limit s t : ℕ) → FirstRun f n limit s → FirstRun f n limit t → s ≤ t
not_before f n limit s t a b = elim (le_or_lt s t) [
  | inl le ↦ le
  | inr lt ↦ let (q, lo, hi, full) = a.first t lt in absurd (omega (arith, b.free q lo hi))
]

FirstRun-unique :
    (f : Frames) (n limit s t : ℕ) → FirstRun f n limit s → FirstRun f n limit t → s ≡ t
FirstRun-unique f n limit s t a b =
    omega (arith, not_before f n limit s t a b, not_before f n limit t s b a)

-- Two or more frames are handed out wrongly: when the first free run lies in one word, and the
-- frame behind the run is taken, the second frame of the allocation is that taken one.
pub frame_alloc_ex_overlap :
    (f f' : Frames) (n s addr : ℕ)
    → Fits f
    → 2 ≤ n
    → FirstRun f n (covered f) s
    → s % 32 + n ≤ 32
    → taken f (s + n) ≡ 1
    → frame_alloc_ex f n ≡ alloced addr f'
    → taken f (addr / frame_block_size + 1) ≡ 1
frame_alloc_ex_overlap f f' n s addr fits two run word full e =
    let got : Outcome f n (alloced addr f') =
      rw e at (frame_alloc_ex-Outcome f n (omega arith) fits) in
    let (s', run', given) = got in
    let same = FirstRun-unique f n (covered f) s s' run run' in
    let at : addr / frame_block_size + 1 ≡ s + n = omega (arith, given.address) in rw at full

-- After frame_init every covered frame is free.
pub frame_init-free :
    (f : Frames) (mem : ℕ → ℕ) (end_addr j : ℕ)
    → j < covered (frame_init f mem end_addr)
    → taken (frame_init f mem end_addr) j ≡ 0
unfolding frame_init clear_bytes
frame_init-free f mem end_addr j h =
    let all : leb (4 * (j / 32 + 1)) (end_addr / 4096 / 8) ≡ true = ground arith in
    rw all (bit-zero (j % 32))
