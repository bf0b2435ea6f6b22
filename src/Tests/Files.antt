-- ===== src/Tests/Files.antt =====
-- fopen of "/DEV/kb", with a disk on "/".
use cookies_os.Base.{
  ℕ, zero, suc, ◌+◌, ◌*◌, ◌<◌, ◌≡◌, ◌⊎◌, refl, arith, inl, inr, ◌==◌, if◌then◌else◌, Option, none,
  some, Mem, [], pos, write,
}
use cookies_os.Kheap.{
  Kheap, malloc, free, append_block, find_good_block, find_loop, merge_free_blocks, merge_loop,
  merge_body, merge_end,
}
use cookies_os.Vfs.{Vfs, vfs_node_new, vfs_filesystem, vfs_directory, Callback}
use cookies_os.Libc.Strings.{IsText}
use cookies_os.Vfs.Mount.{Apart, IsCut, Matches, Nearest}
use cookies_os.Machine.{Machine}
use cookies_os.Files.Open.{IsDevfs}
use cookies_os.Files.Found.{master_of, Opening, fopen-Opening}
use cookies_os.Tests.Libc.{paths}
use cookies_os.Tests.Vfs.{mounted, sizes, no_blocks}
use cookies_os.Tests.Devices.{machine}

abbrev directory : Vfs
directory = record vfs_node_new {
  flag = vfs_filesystem;
  read_dir = some Callback.devfs_read_dir;
  find_dir = some Callback.devfs_find_dir;
}

-- "kb" stands at 5000, the table of devices.
abbrev files : Mem
files a = if a == 5000 then b'k' else if a == 5001 then b'b' else paths a

-- The root of a disk at 5, mounted on "/", and the directory of devices at 3, on "/DEV/".
abbrev node_of : ℕ → Vfs
node_of a =
    if a == 1
    then record vfs_node_new { master = 5 }
    else if a == 2
    then record vfs_node_new { master = 3 }
    else if a == 3
    then directory
    else if a == 5
    then record vfs_node_new {
      flag = vfs_directory;
      read_dir = some Callback.fat_read_dir;
      find_dir = some Callback.fat_find_dir;
    }
    else vfs_node_new

abbrev mounted_machine : Machine
mounted_machine = record machine {
  mem = files;
  heap = no_blocks;
  nodes = node_of;
  m_devices = 5000;
  m_devices_number = 1;
  mounts = mounted;
}

abbrev after : {A : Type 0} → Option (A × Kheap) → Kheap
after none = no_blocks
after (some (a, h)) = h

abbrev heap1 : Kheap
heap1 = after (malloc 8 no_blocks 88)

abbrev heap2 : Kheap
heap2 = after (malloc 8 heap1 8)

abbrev heap3 : Kheap
heap3 = after (free 8 heap2 1432)

abbrev heap4 : Kheap
heap4 = after (free 8 heap3 1016)

got : malloc 8 no_blocks 88 ≡ some (1016, heap1)
unfolding malloc append_block write
got = refl

copied : malloc 8 heap1 8 ≡ some (1432, heap2)
unfolding malloc append_block find_good_block find_loop write
copied = refl

back : free 8 heap2 1432 ≡ some ([], heap3)
unfolding malloc append_block find_good_block find_loop free merge_free_blocks merge_loop merge_body
    merge_end write
back = refl

freed : free 8 heap3 1016 ≡ some ([], heap4)
unfolding malloc append_block find_good_block find_loop free merge_free_blocks merge_loop merge_body
    merge_end write
freed = refl

path-IsText : IsText files 100 7
path-IsText = record { ends = refl; inside = λ j lt. ground arith }

mounts_apart :
    (i : ℕ) → i < 2 → Apart files 100 7 mounted sizes 1432 (mounted.mount_points i).path (sizes i)
mounts_apart zero lt = record {
  text = record { ends = refl; inside = λ j below. ground arith };
  clear = inl (omega arith);
}
mounts_apart (suc zero) lt = record {
  text = record { ends = refl; inside = λ j below. ground arith };
  clear = inl (omega arith);
}
mounts_apart (suc (suc i)) lt = absurd (omega arith)

files_bytes : (a : ℕ) → files a < 256
files_bytes a = ground arith

same_bytes : (j : ℕ) → j < 5 → files (200 + j) ≡ files (100 + j)
same_bytes zero lt = refl
same_bytes (suc zero) lt = refl
same_bytes (suc (suc zero)) lt = refl
same_bytes (suc (suc (suc zero))) lt = refl
same_bytes (suc (suc (suc (suc zero)))) lt = refl
same_bytes (suc (suc (suc (suc (suc j))))) lt = absurd (omega arith)

devices_match : Matches files 100 7 mounted sizes 5 1
devices_match = record { long = refl; bytes = same_bytes }

devices-IsCut : IsCut files 100 7 mounted sizes 5
devices-IsCut = inr (omega arith, omega arith, refl)

Nearest-IsDevfs :
    (i : ℕ)
    → i < 2
    → Nearest files 100 7 mounted sizes 7 i
    → IsDevfs
        (mounted_machine.nodes (master_of 8 files 0 204 (pos 0) mounted_machine 100 7 sizes i))
Nearest-IsDevfs zero lt (inl (n, l)) = absurd (
    l.longest 5 (omega (arith, l.matches.long)) (omega arith) devices-IsCut 1 (omega arith)
      devices_match)
Nearest-IsDevfs zero lt (inr (e, unmatched)) =
    absurd (unmatched 5 (omega arith) devices-IsCut 1 (omega arith) devices_match)
Nearest-IsDevfs (suc zero) lt near = record { kind = refl; listing = refl; search = refl }
Nearest-IsDevfs (suc (suc i)) lt near = absurd (omega arith)

closed : (k : ℕ) → k < 1 → (mounted_machine.nodes (5000 + 88 * k)).open_callback ≡ none
closed zero lt = refl
closed (suc k) lt = absurd (omega arith)

fopen-Opening_example :
    (i : ℕ) × (m' : Mem) × Nearest files 100 7 mounted sizes 7 i
    × ((a : ℕ) → (a < 1432) ⊎ (1432 + 7 < a) → m' a ≡ files a)
    × Opening 8 files 0 204
        (pos 0)
        mounted_machine
        100
        7
        sizes
        1016
        i
        (record mounted_machine { heap = heap3; mem = m' })
        heap4
fopen-Opening_example =
    fopen-Opening 8 files 0 204 (pos 0) mounted_machine 100 7 sizes 1016 1432 heap1 heap2 heap3
      heap4 [] got copied back freed (record { text = path-IsText; clear = inl (omega arith) })
      mounts_apart (λ i lt. ground arith)
      (record {
        text = record { ends = refl; inside = λ j below. ground arith };
        clear = inl (omega arith);
      })
      refl refl (omega arith) (omega arith) (omega arith) files_bytes (omega arith) Nearest-IsDevfs
      closed
