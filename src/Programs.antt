-- ===== src/Programs.antt =====
-- src/kernel/kernel.c: the programs of the shell. The addresses of literal paths and of the variables on
-- the stack are parameters.
pub mod Help
pub mod Malloctest
use cookies_os.Base.{
  ℕ, zero, suc, ◌+◌, ◌-◌, ◌*◌, ◌^◌, ◌==◌, ltb, leb, not, if◌then◌else◌, Option, none, some, List,
  [], ◌∷◌, ℤ, pos, negsuc, codes, u32,
}
use cookies_os.Terminal.{Term, Arg, int, str, term_write, term_clean}
use cookies_os.Kheap.Headers.{kheap_print_headers}
use cookies_os.Frame.{frame_count, frame_max}
use cookies_os.Ata.{ata_sector_size}
use cookies_os.Shell.{Programs}
use cookies_os.Machine.{
  Machine, M, ◌>>=◌, ◌>>◌, ret, halt, gets, modify, load, read_text, print, complain, kmalloc,
  kfree,
}
use cookies_os.Device.{devices_at}
use cookies_os.Files.{fopen, fclose, read_node, read_dir_node}
use cookies_os.Elf.{elf_stat}

-- An `int` as `va_arg` reads it for `%x`.
abbrev pub word_of : ℤ → ℕ
word_of (pos n) = u32 n
word_of (negsuc n) = u32 (2 ^ 32 - 1 - n)

-- term_writestring of a literal.
abbrev pub say : List ℕ → M (Unit {0})
say s = modify (λ x. record x { term = term_write x.term s })

unfoldable pub cls_prog : M (Unit {0})
cls_prog = modify (λ x. record x { term = term_clean x.term })

-- `left` names remain, the next with number `i`.
unfoldable pub help_loop : ℕ → Programs → ℕ → ℕ → M (Unit {0})
help_loop fuel ps zero i = ret tt
help_loop fuel ps (suc left) i = do
  name ← read_text fuel (ps.shell_prog_names i)
  print (codes "%s\n") (str name ∷ [])
  help_loop fuel ps left (i + 1)

unfoldable pub help_prog : ℕ → Programs → M (Unit {0})
help_prog fuel ps = help_loop fuel ps ps.shell_prog_size 0

unfoldable pub helloworld_prog : ℕ → M (Unit {0})
helloworld_prog fuel = do
  say (codes "Hello, World!")
  λ x. elim (kheap_print_headers fuel x.heap x.term) [
    | none ↦ none
    | some t ↦ some (tt, record x { term = t })
  ]

unfoldable pub malloctest_prog : ℕ → M (Unit {0})
malloctest_prog fuel = do
  say (codes "Testing malloc: \n")
  ptr1 ← kmalloc fuel 8
  print (codes "ptr1: %x\n") (int ptr1 ∷ [])
  kfree fuel ptr1
  ptr2 ← kmalloc fuel 8
  print (codes "ptr2: %x\n") (int ptr2 ∷ [])
  ptr3 ← kmalloc fuel 16
  print (codes "ptr3: %x\n") (int ptr3 ∷ [])
  kfree fuel ptr2
  kfree fuel ptr3

abbrev pub crash_size : ℕ
crash_size = 0x100

-- The loop has no end: the state after `rounds` rounds.
unfoldable pub crashme_loop : ℕ → ℕ → ℕ → M ℕ
crashme_loop fuel zero i = ret i
crashme_loop fuel (suc rounds) i = do
  let grown = u32 (i + crash_size)
  ptr ← kmalloc fuel crash_size
  frames ← gets (λ x. x.paging.frames)
  print (codes "Ptr: %x\nLen: %x\n (%x - %x) \n")
      (int ptr ∷ int grown ∷ int (frame_count frames) ∷ int (frame_max frames) ∷ [])
  crashme_loop fuel rounds grown

unfoldable pub crashme_prog : ℕ → ℕ → M ℕ
crashme_prog fuel rounds = do say (codes "You asked for it!"); crashme_loop fuel rounds 0

module _ (fuel : ℕ) (disk : ℕ → ℕ) (fe slash : ℕ) (eax : ℤ) where
  -- `for(;;)` over the entries, for at most `rounds` of them; `dirent` is the address of the entry.
  unfoldable pub listing_loop : ℕ → ℕ → ℕ → ℕ → M (Unit {0})
  listing_loop zero handle dirent index = halt
  listing_loop (suc rounds) handle dirent index = do
    status ← read_dir_node fuel disk fe slash eax handle index dirent
    let listed : M (Unit {0}) = do
      name ← read_text fuel dirent
      print (codes "(%x) %s\n") (int index ∷ str name ∷ [])
      listing_loop rounds handle dirent (index + 1)
    elim status [ pos zero ↦ listed | _ ↦ ret tt ]

  unfoldable pub devfstest_prog : ℕ → ℕ → ℕ → M (Unit {0})
  devfstest_prog rounds path dirent = do
    handle ← fopen fuel disk fe slash eax path
    let opened : M (Unit {0}) = do
      listing_loop rounds handle dirent 0
      fclose fuel disk fe slash eax handle
      ret tt
    if handle == 0 then ret tt else opened

  -- What both readers of files do with `size` bytes: open, read, close, and go on with the buffer.
  -- The messages are the literals of the one or the other.
  unfoldable pub with_file : ℕ → ℕ → ℕ → List ℕ → List ℕ → M (Unit {0}) → M (Unit {0})
  with_file path size buffer not_found not_read go_on = do
    fat ← fopen fuel disk fe slash eax path
    let opened : M (Unit {0}) = do
      status ← read_node fuel disk fe slash eax fat 0 size buffer
      let closed : M (Unit {0}) = do fclose fuel disk fe slash eax fat; go_on
      let unread : M (Unit {0}) = do complain not_read []; fclose fuel disk fe slash eax fat; ret tt
      elim status [ pos zero ↦ closed | _ ↦ unread ]
    if fat == 0 then complain not_found [] else opened

  unfoldable pub fatreader_prog : ℕ → M (Unit {0})
  unfolding with_file
  fatreader_prog path = do
    buffer ← kmalloc fuel 0x2000
    let shown : M (Unit {0}) = do text ← read_text fuel buffer; print (codes "%s\n") (str text ∷ [])
    let read : M (Unit {0}) = do
      with_file path 0x2000 buffer (codes "cannot find file\n") (codes "unable to read\n") shown
      kfree fuel buffer
    if buffer == 0 then ret tt else read

  -- The block is not tested here.
  unfoldable pub runinit_prog : ℕ → (ℕ → M ℤ) → ℕ → M (Unit {0})
  unfolding with_file
  runinit_prog rounds run_code path = do
    say (codes "Starting /BIN/INIT!\n")
    buffer ← kmalloc fuel 0x1000
    let run : M (Unit {0}) = do
      status ← elf_stat rounds run_code buffer 0x1000
      print (codes "\nInit returned: %x!\n") (int (word_of status) ∷ [])
    with_file path 0x1000 buffer (codes "cannot find init binnary\n")
        (codes "unable to read init binnary\n") run
    kfree fuel buffer

  -- `%x(%c) ` for each byte of the sector.
  unfoldable pub bytes_loop : ℕ → ℕ → ℕ → M (Unit {0})
  bytes_loop zero block i = ret tt
  bytes_loop (suc left) block i = do
    ch ← load (block + i)
    print (codes "%x(%c) ") (int ch ∷ int ch ∷ [])
    bytes_loop left block (i + 1)

  unfoldable pub ataread_prog : ℕ → M (Unit {0})
  unfolding bytes_loop
  ataread_prog block = do
    say (codes "Reading from ata drive!\n")
    device ← gets (λ x. devices_at x 0)
    read_node fuel disk fe slash eax device 0 1 block
    bytes_loop ata_sector_size block 0
