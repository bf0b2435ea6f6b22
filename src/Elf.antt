-- ===== src/Elf.antt =====
-- src/utils/elf.c and src/utils/elf.h: the loader of programs. The memory is read and written by virtual
-- addresses; `run_code` is what the loaded code does, by its entry point.
pub mod Load
pub mod Probe
use cookies_os.Base.{
  ℕ, zero, suc, ◌+◌, ◌*◌, ◌^◌, ◌==◌, ltb, ◌||◌, not, if◌then◌else◌, Option, none, some, List, [],
  ◌∷◌, get_elem?, Mem, Bool, true, false, ℤ, pos, codes,
}
use cookies_os.Libc.{memcpy}
use cookies_os.Frame.{Frames, frame_alloc_ex, frame_free_ex}
use cookies_os.Frame
use cookies_os.Paging.{Paging, Paged, paging_map}
use cookies_os.Paging
use cookies_os.Machine.{Machine, M, ◌>>=◌, ◌>>◌, ret, halt, gets, modify, copy, print}
use cookies_os.Fat.{half_at}

abbrev pub word_at : Mem → ℕ → ℕ
word_at m a = half_at m a + 2 ^ 16 * half_at m (a + 2)

-- The fields of the headers that are read.
pub record ElfHeader : Type 0 where
  pub e_type : ℕ
  pub e_entry : ℕ
  pub e_phoff : ℕ
  pub e_phnum : ℕ

pub record ElfProgramHeader : Type 0 where
  pub p_type : ℕ
  pub p_offset : ℕ
  pub p_vaddr : ℕ
  pub p_filesz : ℕ

abbrev pub elf_header_at : Mem → ℕ → ElfHeader
elf_header_at m buffer = record {
  e_type = half_at m (buffer + 16);
  e_entry = word_at m (buffer + 24);
  e_phoff = word_at m (buffer + 28);
  e_phnum = half_at m (buffer + 44);
}

-- `sizeof(ElfProgramHeader_t)`.
abbrev pub program_header_size : ℕ
program_header_size = 32

abbrev pub program_header_at : Mem → ℕ → ElfProgramHeader
program_header_at m ph = record {
  p_type = word_at m ph;
  p_offset = word_at m (ph + 4);
  p_vaddr = word_at m (ph + 8);
  p_filesz = word_at m (ph + 16);
}

abbrev pub target_sig : List ℕ
target_sig = 0x7f ∷ 0x45 ∷ 0x4c ∷ 0x46 ∷ []

-- The loop of elf_probe, over the rest of the signature.
unfoldable pub probe_loop : Mem → ℕ → List ℕ → ℕ
probe_loop m p [] = 1
probe_loop m p (c ∷ cs) = let rest = probe_loop m (p + 1) cs in if m p == c then rest else 0

unfoldable pub elf_probe : Mem → ℕ → ℕ
unfolding probe_loop
elf_probe m buffer = probe_loop m buffer target_sig

-- frame_alloc_ex, frame_free_ex and paging_map on the machine; panic halts.
unfoldable pub alloc_frames : ℕ → M ℕ
alloc_frames frames x = elim (frame_alloc_ex x.paging.frames frames) [
  | Frame.panicked ↦ none
  | Frame.alloced at f ↦ some (at, record x { paging = record x.paging { frames = f } })
]

abbrev pub free_frames : ℕ → ℕ → M (Unit {0})
free_frames at frames = modify (λ x. record x {
  paging = record x.paging { frames = frame_free_ex x.paging.frames at frames };
})

unfoldable pub map_frame : ℕ → ℕ → M (Unit {0})
map_frame virt phys x = elim (paging_map x.paging virt phys) [
  | Paging.halted ↦ none
  | Paging.paged p ↦ some (tt, record x { paging = p })
]

-- The loop over the program headers, the next at `ph`; their number is read in each round. Each
-- segment is mapped to the same `phys_loc`.
unfoldable pub load_loop : ℕ → ℕ → ℕ → ℕ → ℕ → M (Unit {0})
load_loop zero buffer phys_loc i ph = halt
load_loop (suc rounds) buffer phys_loc i ph = do
  header ← gets (λ x. elf_header_at x.mem buffer)
  h ← gets (λ x. program_header_at x.mem ph)
  let rest = load_loop rounds buffer phys_loc (i + 1) (ph + program_header_size)
  let load : M (Unit {0}) = do
    map_frame h.p_vaddr phys_loc
    copy h.p_vaddr (buffer + h.p_offset) h.p_filesz
    rest
  if ltb i header.e_phnum then (if h.p_type == 1 then load else rest) else ret tt

abbrev pub frames_for_program : ℕ
frames_for_program = 3

unfoldable pub elf_load : ℕ → (ℕ → M ℤ) → ℕ → M ℤ
elf_load rounds run_code buffer = do
  header ← gets (λ x. elf_header_at x.mem buffer)
  phys_loc ← alloc_frames frames_for_program
  load_loop rounds buffer phys_loc 0 (buffer + header.e_phoff)
  loaded ← gets (λ x. elf_header_at x.mem buffer)
  retcode ← run_code loaded.e_entry
  free_frames phys_loc frames_for_program
  ret retcode

unfoldable pub elf_stat : ℕ → (ℕ → M ℤ) → ℕ → ℕ → M ℤ
elf_stat rounds run_code buffer size = do
  probed ← gets (λ x. elf_probe x.mem buffer)
  header ← gets (λ x. elf_header_at x.mem buffer)
  let not_elf : M ℤ = do print (codes "Not a elf format") []; ret (pos 0)
  let not_exec : M ℤ = do print (codes "Not a executable!\n") []; ret (pos 0)
  if (probed == 0) || ltb size 4
      then not_elf
      else if not (header.e_type == 2)
      then not_exec
      else elf_load rounds run_code buffer
