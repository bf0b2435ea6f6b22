-- ===== src/Tests/Vfs.antt =====
-- src/fs/vfs.c and src/fs/vfs.h.
use cookies_os.Base.{
  ℕ, ◌+◌, ◌<◌, ◌≡◌, ◌⊎◌, refl, arith, inl, ◌==◌, if◌then◌else◌, some, Mem, [], write, zero, suc,
}
use cookies_os.Kheap.{
  Kheap, new_header, malloc, free, append_block, merge_free_blocks, merge_loop, merge_body,
  merge_end,
}
use cookies_os.Vfs.{Mounts, find_relative_mount}
use cookies_os.Vfs.Mount.{Apart, Nearest}
use cookies_os.Vfs.Search.{find_relative_mount-Nearest}
use cookies_os.Tests.Libc.{paths, dev-IsText, kb-IsText, paths_bytes}

-- "/" stands at 204, the end of "/DEV/".
abbrev pub mounted : Mounts
mounted = record {
  mount_points =
      λ i. if i == 0 then record { path = 204; device = 1 } else record { path = 200; device = 2 };
  mount_count = 2;
}

abbrev pub sizes : ℕ → ℕ
sizes i = if i == 0 then 1 else 5

abbrev pub no_blocks : Kheap
no_blocks = record { curr_addr = 1000; frist_hh = 0; last_hh = 0; header = λ a. new_header 0 0 }

abbrev pub one_block : Kheap
one_block = record {
  curr_addr = 1096;
  frist_hh = 1000;
  last_hh = 1000;
  header = λ a. if 1000 == a then new_header 8 0 else new_header 0 0;
}

pub given : malloc 8 no_blocks 8 ≡ some (1016, one_block)
unfolding malloc append_block write
given = refl

abbrev taken_back : Kheap
taken_back = record one_block {
  header =
      λ a. if 1000 == a then record (one_block.header 1000) { freed = 1 } else one_block.header a;
}

freed : free 8 one_block 1016 ≡ some ([], taken_back)
unfolding free merge_free_blocks merge_loop merge_body merge_end write
freed = refl

root : Apart paths 100 7 mounted sizes 1016 204 1
root = record {
  text = record { ends = refl; inside = λ j lt. ground arith };
  clear = inl (omega arith);
}

dev : Apart paths 100 7 mounted sizes 1016 200 5
dev = record { text = dev-IsText; clear = inl (omega arith) }

find_example :
    (i : ℕ) × (m' : Mem) × (find_relative_mount 8 no_blocks paths mounted 204 100
      ≡ some (record { index = i; heap = taken_back; mem = m' }))
    × Nearest paths 100 7 mounted sizes 7 i
    × ((a : ℕ) → (a < 1016) ⊎ (1016 + 7 < a) → m' a ≡ paths a)
    × ((a : ℕ) → m' a < 256)
find_example =
    find_relative_mount-Nearest paths 100 7 mounted sizes 8 1016 204 no_blocks one_block taken_back
      [] (record { text = kb-IsText; clear = inl (omega arith) }) mounts (λ i lt. ground arith) root
      refl refl (omega arith) (omega arith) (omega arith) paths_bytes given freed
  where
    mounts :
        (i : ℕ)
        → i < 2
        → Apart paths 100 7 mounted sizes 1016 (mounted.mount_points i).path (sizes i)
    mounts zero lt = root
    mounts (suc zero) lt = dev
    mounts (suc (suc i)) lt = absurd (omega arith)
