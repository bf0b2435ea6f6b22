-- ===== src/Elf/Load.antt =====
-- elf_load: the segments, the run and the frames.
use cookies_os.Base.{
  ℕ, zero, suc, ◌+◌, ◌<◌, ◌≤◌, ◌≡◌, ◌≢◌, refl, ◌∙◌, arith, true, false, ◌==◌, ltb, none, some, ℤ,
}
use cookies_os.Libc.{memcpy}
use cookies_os.Frame.{Frames, frame_alloc_ex, frame_free_ex}
use cookies_os.Frame
use cookies_os.Paging.{Paging, paged, paging_map}
use cookies_os.Machine.{Machine, M}
use cookies_os.Machine.Names.{bind_some, bind_none}
use cookies_os.Elf.{
  elf_header_at, program_header_at, program_header_size, alloc_frames, map_frame, load_loop,
  elf_load, frames_for_program,
}

alloc_frames-some :
    (x : Machine) (n at : ℕ) (f : Frames)
    → frame_alloc_ex x.paging.frames n ≡ Frame.alloced at f
    → alloc_frames n x ≡ some (at, record x { paging = record x.paging { frames = f } })
unfolding alloc_frames
alloc_frames-some x n at f e = rw (e, alloc_frames) refl

alloc_frames-none :
    (x : Machine) (n : ℕ)
    → frame_alloc_ex x.paging.frames n ≡ Frame.panicked
    → alloc_frames n x ≡ none
unfolding alloc_frames
alloc_frames-none x n e = rw (e, alloc_frames) refl

map_frame-some :
    (x : Machine) (virt phys : ℕ) (p : Paging)
    → paging_map x.paging virt phys ≡ paged p
    → map_frame virt phys x ≡ some (tt, record x { paging = p })
unfolding map_frame
map_frame-some x virt phys p e = rw (e, map_frame) refl

-- The machine with a segment mapped and copied.
abbrev pub with_segment : Machine → Paging → ℕ → ℕ → ℕ → Machine
with_segment x p vaddr from size = record x { paging = p; mem = memcpy x.mem vaddr from size }

module _ (buffer phys_loc : ℕ) where
  -- `n` program headers, from number `i` at `ph` on to the last, lead from one machine to another: those of
  -- type 1 are mapped to the frame and copied to their address.
  pub data Segments : ℕ → ℕ → ℕ → Machine → Machine → Type 0 where
    no_more :
        {i ph : ℕ} {x : Machine} → (elf_header_at x.mem buffer).e_phnum ≤ i → Segments 0 i ph x x
    skipped :
        {n i ph : ℕ} {x y : Machine}
        → i < (elf_header_at x.mem buffer).e_phnum
        → (program_header_at x.mem ph).p_type ≢ 1
        → Segments n (i + 1) (ph + program_header_size) x y
        → Segments (suc n) i ph x y
    loaded :
        {n i ph : ℕ} {x y : Machine} (p : Paging)
        → i < (elf_header_at x.mem buffer).e_phnum
        → (program_header_at x.mem ph).p_type ≡ 1
        → paging_map x.paging (program_header_at x.mem ph).p_vaddr phys_loc ≡ paged p
        → Segments n
            (i + 1)
            (ph + program_header_size)
            (with_segment x p
              (program_header_at x.mem ph).p_vaddr
              (buffer + (program_header_at x.mem ph).p_offset)
              (program_header_at x.mem ph).p_filesz)
            y
        → Segments (suc n) i ph x y

  load_loop-Segments :
      (rounds n i ph : ℕ) (x y : Machine)
      → n < rounds
      → Segments n i ph x y
      → load_loop rounds buffer phys_loc i ph x ≡ some (tt, y)
  unfolding load_loop
  load_loop-Segments zero n i ph x y lt s = absurd (omega arith)
  load_loop-Segments (suc rounds) zero i ph x y lt (no_more done) =
      let over : ltb i (elf_header_at x.mem buffer).e_phnum ≡ false = ground arith in rw over refl
  load_loop-Segments (suc rounds) (suc n) i ph x y lt (skipped more other s) =
      let under : ltb i (elf_header_at x.mem buffer).e_phnum ≡ true = ground arith in
      let kind : ((program_header_at x.mem ph).p_type == 1) ≡ false = ground arith in
      rw (under, kind)
        (load_loop-Segments rounds n (i + 1) (ph + program_header_size) x y (omega arith) s)
  load_loop-Segments (suc rounds) (suc n) i ph x y lt (loaded p more one mapped s) =
      let under : ltb i (elf_header_at x.mem buffer).e_phnum ≡ true = ground arith in
      let kind : ((program_header_at x.mem ph).p_type == 1) ≡ true = ground arith in
      rw (under, kind)
        (bind_some (map_frame (program_header_at x.mem ph).p_vaddr phys_loc) _ x
            (record x { paging = p }) tt
            (map_frame-some x (program_header_at x.mem ph).p_vaddr phys_loc p mapped)
          ∙ load_loop-Segments rounds n (i + 1) (ph + program_header_size) _ y (omega arith) s)

-- The frames of the machine replaced.
abbrev pub with_frames : Machine → Frames → Machine
with_frames x f = record x { paging = record x.paging { frames = f } }

-- A program of `n` headers ran: three frames were found for it, its segments led to `y`, and its code, entered
-- at the address in the header, answered `r` and left `z`.
pub record Ran (run_code : ℕ → M ℤ) (buffer n : ℕ) (x : Machine) (at : ℕ) (r : ℤ) (z : Machine)
    : Type 0 where
  pub frames : Frames
  pub found : frame_alloc_ex x.paging.frames frames_for_program ≡ Frame.alloced at frames
  pub y : Machine
  pub segments :
      Segments buffer at n 0
        (buffer + (elf_header_at x.mem buffer).e_phoff)
        (with_frames x frames)
        y
  pub run : run_code (elf_header_at y.mem buffer).e_entry y ≡ some (r, z)

pub elf_load-Ran :
    (rounds : ℕ) (run_code : ℕ → M ℤ) (buffer n : ℕ) (x : Machine) (at : ℕ) (r : ℤ) (z : Machine)
    → n < rounds
    → Ran run_code buffer n x at r z
    → elf_load rounds run_code buffer x
      ≡ some (r, with_frames z (frame_free_ex z.paging.frames at frames_for_program))
unfolding elf_load
elf_load-Ran rounds run_code buffer n x at r z lt ran =
    let start = buffer + (elf_header_at x.mem buffer).e_phoff in
    let looped =
      load_loop-Segments buffer at rounds n 0 start (with_frames x ran.frames) ran.y lt
        ran.segments in
    bind_some (alloc_frames frames_for_program) _ x (with_frames x ran.frames) at
      (alloc_frames-some x frames_for_program at ran.frames ran.found)
    ∙ bind_some (load_loop rounds buffer at 0 start) _ (with_frames x ran.frames) ran.y tt looped
    ∙ bind_some (run_code (elf_header_at ran.y.mem buffer).e_entry) _ ran.y z r ran.run

-- Without three frames in a row the machine panics.
pub elf_load_stops :
    (rounds : ℕ) (run_code : ℕ → M ℤ) (buffer : ℕ) (x : Machine)
    → frame_alloc_ex x.paging.frames frames_for_program ≡ Frame.panicked
    → elf_load rounds run_code buffer x ≡ none
unfolding elf_load
elf_load_stops rounds run_code buffer x full =
    bind_none (alloc_frames frames_for_program) _ x (alloc_frames-none x frames_for_program full)
