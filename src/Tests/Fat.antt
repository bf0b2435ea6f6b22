-- ===== src/Tests/Fat.antt =====
-- src/fs/fat.c.
use cookies_os.Base.{ℕ, ◌+◌, Bool, ◌%◌, ◌≡◌, refl, arith, inr, ◌==◌, ◌||◌, if◌then◌else◌, some, Mem}
use cookies_os.Libc.{strlen}
use cookies_os.Fat.{FatBpb}
use cookies_os.Fat.Paths.{basename_loop, fat_basename, IsBase, fat_basename-IsBase}
use cookies_os.Fat.Paths.{strtok}
use cookies_os.Fat.Tokens.{Copied, strtok-Part}
use cookies_os.Tests.Vfs.{given, no_blocks, one_block}
use cookies_os.Tests.Libc.{paths, kb-IsText}

base_runs : fat_basename 9 paths 100 ≡ some 5
unfolding fat_basename basename_loop strlen
base_runs = refl

fat_basename-IsBase_example : (i : ℕ) × (fat_basename 9 paths 100 ≡ some i) × IsBase paths 100 7 i
fat_basename-IsBase_example =
    fat_basename-IsBase 9 paths 100 7 kb-IsText (omega arith) (omega arith) (omega arith)

-- Two clusters, 2 and 3: the table stands in the second sector.
abbrev disk : ℕ → ℕ
disk a =
    if a == 516
    then 3
    else (if a == 517 then 0 else (if (a == 518) || (a == 519) then 255 else a % 256))

abbrev bpb : FatBpb
bpb = record {
  bytes_per_sector = 512;
  sectors_per_cluster = 1;
  reserved_sectors = 1;
  number_of_fats = 2;
  sectors_per_fat = 9;
}

abbrev blank : Mem
blank a = 0

-- "/DEV/kb", with "k" as the separator.
strtok-Part_example :
    (met : Bool) × (k : ℕ) × (m' : Mem) × (strtok 1 8 no_blocks paths 0 100 b'k'
      ≡ some (record {
        result = 1016;
        input = if met then 100 + k + 1 else 0;
        heap = one_block;
        mem = m';
      }))
    × Copied paths b'k' 100 1016 7 0 k met m'
strtok-Part_example =
    strtok-Part 0 8 no_blocks one_block paths 0 100 b'k' 7 1016 kb-IsText (omega arith)
      (omega arith) (omega arith) (omega arith) given (inr (omega arith))
