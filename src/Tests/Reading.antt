-- ===== src/Tests/Reading.antt =====
-- src/fs/fat.c on a small disk, and src/drivers/ata.c.
use cookies_os.Base.{
  ℕ, ◌^◌, ◌%◌, ◌≡◌, inl, refl, arith, ◌==◌, ◌||◌, if◌then◌else◌, some, ap, List, [], ◌∷◌, Mem,
  get_elem?,
}
use cookies_os.Kheap.{Kheap, magic_kheap}
use cookies_os.Kheap.Blocks.{Block, IsHeap}
use cookies_os.Vfs.{vfs_file}
use cookies_os.Fat.{FatRead, fat_file_read_with_handle, read_sectors, Parsed, parse_bpb}
use cookies_os.Fat.Boot.{BootRead, parse_bpb-BootRead}
use cookies_os.Fat.Whole.{FileRead, fat_file_read_with_handle-FileRead}
use cookies_os.Fat.Chain.{IsChain}
use cookies_os.Fat.Handles.{dirent_loop}
use cookies_os.Fat.Handles.Listing.{in_use, dirent_loop-listing}
use cookies_os.Pic.{Out}
use cookies_os.Ata.Identify.{Bus, ata_status_rdy}
use cookies_os.Ata.Command.{addressed}
use cookies_os.Ata.Reading.{ata_read_callback}
use cookies_os.Ata.Disk.{disk_of, IsDrive, ata_read_callback-read_sectors}
use cookies_os.Tests.Kheap.{two, used, spare, two-IsHeap}

-- Sectors of 512 bytes, one to a cluster, and a table in sector 1 that leads from cluster 2 to 3 and
-- ends there.
abbrev disk : ℕ → ℕ
disk a =
    if a == 12
    then 2
    else if (a == 13) || (a == 14)
    then 1
    else if a == 16
    then 2
    else if a == 22
    then 9
    else if a == 516
    then 3
    else if (a == 518) || (a == 519)
    then 255
    else if a == 517
    then 0
    else if a == 11
    then 0
    else if a == 15
    then 0
    else if a == 23
    then 0
    else a % 256

abbrev target : Block
target = record { at = 4096; size = 1024; freed = 0 }

abbrev one_block : Kheap
one_block = record {
  curr_addr = 8192;
  frist_hh = 4096;
  last_hh = 4096;
  header = λ a. record { magic_number = magic_kheap; size = 1024; freed = 0; next = 0 };
}

one_block-IsHeap : IsHeap one_block (target ∷ [])
one_block-IsHeap = record {
  chain = (refl, record { magic = refl; size = refl; freed = refl }, refl);
  ordered = omega arith;
  last = refl;
  room = omega arith;
}

abbrev blank : Mem
blank a = 0

fat_file_read_with_handle-FileRead_example :
    (r : FatRead) × (fat_file_read_with_handle (2 ^ 31) disk one_block blank vfs_file 2 1024 4112
      ≡ some r)
    × FileRead disk (2 ∷ 3 ∷ []) 4112 blank (target ∷ []) r
unfolding IsChain
fat_file_read_with_handle-FileRead_example =
    fat_file_read_with_handle-FileRead (2 ^ 31) disk vfs_file 2 1024 4112 (2 ∷ 3 ∷ []) target
      one_block blank (target ∷ []) refl one_block-IsHeap (inl refl, refl) refl (omega arith) refl
      (omega arith) (refl, omega arith, (refl, omega arith, omega arith)) (omega arith)
      (omega arith) (omega arith) (omega arith)

parse_bpb-BootRead_example :
    (p : Parsed) × (parse_bpb (2 ^ 31) disk two blank ≡ some p)
    × BootRead disk two blank (used ∷ spare ∷ []) p
parse_bpb-BootRead_example =
    parse_bpb-BootRead (2 ^ 31) disk two blank (used ∷ spare ∷ []) two-IsHeap (omega arith)
      (omega arith)

dirent_loop-listing_example : dirent_loop disk 0 1 16 0 0 ≡ get_elem? (in_use disk 0 16 0) 1
dirent_loop-listing_example = dirent_loop-listing disk 0 1

-- A drive that is always ready, whose sectors hold their numbers.
abbrev ready : ℕ → ℕ → ℕ
ready port n = ata_status_rdy

abbrev numbers : ℕ → ℕ → ℕ
numbers lba i = lba % 65536

abbrev number_words : List Out → ℕ → ℕ
number_words outs = numbers (addressed outs)

ready-IsDrive : IsDrive ready number_words 0 numbers
ready-IsDrive = record {
  settles = λ r. (
    r,
    record { from = omega arith; before = λ k low high. absurd (omega arith); clear = refl },
    omega arith,
    omega arith,
  );
  serves = λ outs lba asked i. ap (λ (k : ℕ). numbers k i) asked.number;
}

abbrev waiting : Bus
waiting = record {
  reads = 0;
  outs = [];
  term = record { row = 0; column = 0; color = 7; buffer = λ i. 0; port = [] };
}

ata_read_callback-read_sectors_example :
    (b' : Bus) × (m' : Mem) × (ata_read_callback ready number_words 1 1 9 2 100 blank waiting
      ≡ some (m', b'))
    × ((a : ℕ) → m' a ≡ read_sectors (disk_of numbers) 9 2 100 blank a)
ata_read_callback-read_sectors_example =
    ata_read_callback-read_sectors ready number_words 0 1 numbers (omega arith) ready-IsDrive 9 2
      100 blank waiting (omega arith)
