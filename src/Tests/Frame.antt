-- ===== src/Tests/Frame.antt =====
-- src/kernel/frame.c.
use cookies_os.Base.{
  ℕ, zero, suc, bit, ◌+◌, ◌/◌, ◌*◌, ◌<◌, ◌≡◌, refl, arith, ltb, ◌==◌, if◌then◌else◌, ◌&&◌, u32, ◌^◌,
  ◌-◌, inr,
}
use cookies_os.Frame.{
  Frames, alloced, frame_set, frame_frist_free, frame_alloc_ex, frame_free_ex, frame_alloc,
  frame_free, frame_init, frame_block_size,
}
use cookies_os.Frame.Bitmap.{taken}
use cookies_os.Frame.Search.{FirstRun, Searched, frame_frist_free-Searched}
use cookies_os.Frame.Alloc.{
  covered, Outcome, OneFrame, frame_alloc_ex-Outcome, frame_alloc-OneFrame, frame_free-alloc,
  frame_alloc_ex_overlap, frame_free_ex-FirstFreed,
}
use cookies_os.Frame.Count.{
  IsCounted, Reach, Reach-IsCounted, here, allocate, release, release_spare,
}

-- 64 frames; 3 and 5 are taken.
abbrev few : Frames
few = record { words = λ i. if i == 0 then 0x28 else 0; frames_max = 70; alloced_frames = 2 }

-- The run 0 to 2 is free, and 2 is returned for it.
search_three : frame_frist_free few 3 ≡ 2
unfolding frame_frist_free
search_three = refl

search_one : frame_frist_free few 1 ≡ 0
unfolding frame_frist_free
search_one = refl

search_example : Searched few 3 (few.frames_max / 32 * 32) (frame_frist_free few 3)
search_example = frame_frist_free-Searched few 3 (omega arith)

alloc_ex_example : Outcome few 3 (frame_alloc_ex few 3)
alloc_ex_example = frame_alloc_ex-Outcome few 3 (omega arith) (omega arith)

alloc_example : OneFrame few (frame_alloc few)
alloc_example = frame_alloc-OneFrame few (omega arith)

-- The state after one frame is allocated.
abbrev after_one : Frames
after_one = record (frame_set few 0) { alloced_frames = 3 }

alloc_runs : frame_alloc few ≡ alloced 0 after_one
unfolding frame_alloc_ex frame_frist_free frame_set
alloc_runs = refl

free_alloc_example :
    ((j : ℕ) → taken (frame_free after_one 0) j ≡ taken few j)
    × ((frame_free after_one 0).alloced_frames ≡ 2)
free_alloc_example = frame_free-alloc few after_one 0 (omega arith) (omega arith) alloc_runs

few_free : (q : ℕ) → q < 3 → taken few q ≡ 0
unfolding bit
few_free zero h = refl
few_free (suc zero) h = refl
few_free (suc (suc zero)) h = refl
few_free (suc (suc (suc q))) h = absurd (omega arith)

few-FirstRun : FirstRun few 3 (covered few) 0
few-FirstRun = record {
  fits = omega arith;
  free = λ q lo hi. few_free q (omega arith);
  first = λ t lt. absurd (omega arith);
}

-- Frames 2 to 4 are handed out, and 3 is taken.
abbrev after_three : Frames
after_three = record (frame_set (frame_set (frame_set few 2) 3) 4) { alloced_frames = 5 }

three_runs : frame_alloc_ex few 3 ≡ alloced 8192 after_three
unfolding frame_alloc_ex frame_frist_free frame_set
three_runs = refl

few_full : taken few 3 ≡ 1
unfolding bit
few_full = refl

overlap_example : taken few (8192 / frame_block_size + 1) ≡ 1
overlap_example =
    frame_alloc_ex_overlap few after_three 3 0 8192 (omega arith) (omega arith) few-FirstRun
      (omega arith) few_full three_runs

free_ex_example :
    ((j : ℕ)
      → taken (frame_free_ex few 12288 3) j
        ≡ (if (12288 / frame_block_size == j) && ltb 0 3 then 0 else taken few j))
    × ((frame_free_ex few 12288 3).alloced_frames ≡ u32 (few.alloced_frames + 2 ^ 32 - 3))
    × ((frame_free_ex few 12288 3).frames_max ≡ few.frames_max)
free_ex_example = frame_free_ex-FirstFreed few 12288 3

abbrev blank : Frames
blank = record { words = λ i. 0; frames_max = 0; alloced_frames = 0 }

abbrev garbage : ℕ → ℕ
garbage i = 0xffffffff

abbrev booted : Frames
booted = frame_init blank garbage 0x100000

abbrev booted_one : Frames
booted_one = record (frame_set booted 0) { alloced_frames = 1 }

booted_runs : frame_alloc booted ≡ alloced 0 booted_one
unfolding frame_alloc_ex frame_frist_free frame_set frame_init
booted_runs = refl

taken_one : taken booted_one 0 ≡ 1
unfolding frame_set frame_init bit
taken_one = refl

freed_one : taken (frame_free booted_one 0) 0 ≡ 0
freed_one = (frame_free_ex-FirstFreed booted_one 0 1).0 0

-- The frame is freed twice.
released_twice : Reach booted 1 (frame_free (frame_free booted_one 0) 0)
unfolding frame_set frame_init
released_twice =
    release_spare 0 (release 0 (allocate 0 here booted_runs) (omega arith) taken_one)
      (inr freed_one)

Reach-IsCounted_example : IsCounted (frame_free (frame_free booted_one 0) 0) 1
Reach-IsCounted_example = Reach-IsCounted blank garbage 0x100000 1 (omega arith) refl released_twice
