-- ===== src/Frame/Count.antt =====
-- `alloced_frames` counts the taken frames, and the releases of free ones.
use cookies_os.Base.{
  ℕ, zero, suc, ◌+◌, ◌*◌, ◌/◌, ◌%◌, ◌^◌, ◌≤◌, ◌<◌, ◌≡◌, refl, ap, arith, ◌==◌, if◌then◌else◌,
  bit-le-one, le_or_lt, inl, inr, ◌⊎◌, u32,
}
use cookies_os.Frame.{Frames, alloced, frame_alloc, frame_free, frame_init, frame_block_size}
use cookies_os.Frame.Bitmap.{taken}
use cookies_os.Frame.Alloc.{
  covered, Fits, OneFrame, frame_alloc-OneFrame, taken-frame_free_ex, frame_free_ex_counts,
  frame_init-free,
}

-- The taken frames below `n`.
unfoldable pub total : Frames → ℕ → ℕ
total f zero = 0
total f (suc n) = total f n + taken f n

-- With `lost` releases of frames that were not taken.
pub record IsCounted (f : Frames) (lost : ℕ) : Type 0 where
  pub fits : Fits f
  pub word : f.alloced_frames < 2 ^ 32
  pub counted : u32 (f.alloced_frames + lost) ≡ total f (covered f)

total_same :
    (f g : Frames) (n : ℕ) → ((j : ℕ) → j < n → taken f j ≡ taken g j) → total f n ≡ total g n
unfolding total
total_same f g zero h = refl
total_same f g (suc n) h =
    omega (arith, h n (omega arith), total_same f g n (λ j lt. h j (omega arith)))

total_change :
    (f g : Frames) (n s v : ℕ)
    → s < n
    → ((j : ℕ) → taken g j ≡ (if s == j then v else taken f j))
    → total g n + taken f s ≡ total f n + v
unfolding total
total_change f g zero s v lt h = absurd (omega arith)
total_change f g (suc n) s v lt h = elim (le_or_lt n s) [
  | inl le ↦
      let last : s ≡ n = omega arith in
      let below = total_same g f n (λ j lt'. ground (arith, h j)) in ground (arith, h n)
  | inr before ↦ ground (arith, total_change f g n s v before h, h n)
]

total-le : (f : Frames) (n : ℕ) → total f n ≤ n
unfolding total
total-le f zero = omega arith
total-le f (suc n) = omega (arith, total-le f n, bit-le-one (n % 32) (f.words (n / 32)))

-- Allocating a frame keeps the count right.
pub frame_alloc-IsCounted :
    (f f' : Frames) (addr lost : ℕ)
    → IsCounted f lost
    → frame_alloc f ≡ alloced addr f'
    → IsCounted f' lost
frame_alloc-IsCounted f f' addr lost c e =
    let got : OneFrame f (alloced addr f') = rw e at (frame_alloc-OneFrame f c.fits) in
    let (s, at, below, free, first, marks, counts, keeps) = got in
    let change = total_change f f' (covered f) s 1 below marks in
    record {
      fits = rw keeps c.fits;
      word = omega (arith, counts);
      counted = omega (
        arith,
        counts,
        change,
        free,
        c.counted,
        c.fits,
        total-le f' (covered f),
        ap (λ (m : ℕ). total f' (m / 32 * 32)) keeps,
      );
    }

-- So does freeing one that is taken.
pub frame_free-IsCounted :
    (f : Frames) (addr lost : ℕ)
    → IsCounted f lost
    → addr / frame_block_size < covered f
    → taken f (addr / frame_block_size) ≡ 1
    → IsCounted (frame_free f addr) lost
frame_free-IsCounted f addr lost c below full =
    let (count, max) = frame_free_ex_counts f addr 1 in
    let change =
      total_change f (frame_free f addr) (covered f) (addr / frame_block_size) 0 below
        (λ j. ground (arith, taken-frame_free_ex f addr 1 j)) in
    record {
      fits = rw max c.fits;
      word = omega (arith, count);
      counted = omega (
        arith,
        count,
        change,
        c.counted,
        c.word,
        c.fits,
        total-le f (covered f),
        ap (λ (m : ℕ). total (frame_free f addr) (m / 32 * 32)) max,
      );
    }

-- No frame that the search covers is taken at the address.
abbrev pub Spare : Frames → ℕ → Type 0
Spare f addr = (covered f ≤ addr / frame_block_size) ⊎ (taken f (addr / frame_block_size) ≡ 0)

-- Freeing anything else takes one off the count all the same.
pub frame_free-loses :
    (f : Frames) (addr lost : ℕ)
    → IsCounted f lost
    → Spare f addr
    → IsCounted (frame_free f addr) (lost + 1)
frame_free-loses f addr lost c spare =
    let (count, max) = frame_free_ex_counts f addr 1 in
    let same : (j : ℕ) → j < covered f → taken f j ≡ taken (frame_free f addr) j =
      λ j lt. ground (arith, taken-frame_free_ex f addr 1 j, spare) in
    record {
      fits = rw max c.fits;
      word = omega (arith, count);
      counted = omega (
        arith,
        count,
        total_same f (frame_free f addr) (covered f) same,
        c.counted,
        c.word,
        ap (λ (m : ℕ). total (frame_free f addr) (m / 32 * 32)) max,
      );
    }

total_free : (f : Frames) (n : ℕ) → ((j : ℕ) → j < n → taken f j ≡ 0) → total f n ≡ 0
unfolding total
total_free f zero h = refl
total_free f (suc n) h =
    omega (arith, h n (omega arith), total_free f n (λ j lt. h j (omega arith)))

pub frame_init-IsCounted :
    (f : Frames) (mem : ℕ → ℕ) (end_addr : ℕ)
    → end_addr < 2 ^ 32
    → f.alloced_frames ≡ 0
    → IsCounted (frame_init f mem end_addr) 0
unfolding frame_init
frame_init-IsCounted f mem end_addr small zero_count =
    let f' = frame_init f mem end_addr in
    record {
      fits = omega arith;
      word = omega (arith, zero_count);
      counted =
          omega (arith, zero_count, total_free f' (covered f') (frame_init-free f mem end_addr));
    }

-- The kernel's use of single frames: allocate, or free any address. Counted is how often nothing
-- was taken there.
pub data Reach (f : Frames) : ℕ → Frames → Type 0 where
  here : Reach f 0 f
  allocate :
      {lost : ℕ} {g g' : Frames} (addr : ℕ)
      → Reach f lost g
      → frame_alloc g ≡ alloced addr g'
      → Reach f lost g'
  release :
      {lost : ℕ} {g : Frames} (addr : ℕ)
      → Reach f lost g
      → addr / frame_block_size < covered g
      → taken g (addr / frame_block_size) ≡ 1
      → Reach f lost (frame_free g addr)
  release_spare :
      {lost : ℕ} {g : Frames} (addr : ℕ)
      → Reach f lost g
      → Spare g addr
      → Reach f (lost + 1) (frame_free g addr)

-- From frame_init on, whatever single frames are allocated and whatever addresses are freed,
-- `alloced_frames` and the number of releases of frames that were not taken are together, up to wrapping
-- at 2 ^ 32, the number of taken frames.
pub Reach-IsCounted :
    (f : Frames) (mem : ℕ → ℕ) (end_addr lost : ℕ) {g : Frames}
    → end_addr < 2 ^ 32
    → f.alloced_frames ≡ 0
    → Reach (frame_init f mem end_addr) lost g
    → IsCounted g lost
Reach-IsCounted f mem end_addr _ small zero_count here =
    frame_init-IsCounted f mem end_addr small zero_count
Reach-IsCounted f mem end_addr _ small zero_count (allocate {lost} {g} {g'} addr r e) =
    frame_alloc-IsCounted g g' addr lost (Reach-IsCounted f mem end_addr lost small zero_count r) e
Reach-IsCounted f mem end_addr _ small zero_count (release {lost} {g} addr r below full) =
    frame_free-IsCounted g addr lost (Reach-IsCounted f mem end_addr lost small zero_count r) below
      full
Reach-IsCounted f mem end_addr _ small zero_count (release_spare {lost} {g} addr r spare) =
    frame_free-loses g addr lost (Reach-IsCounted f mem end_addr lost small zero_count r) spare
