-- ===== src/Tests/Kheap.antt =====
-- src/kernel/kheap.c.
use cookies_os.Base.{
  ℕ, ◌+◌, ◌^◌, ◌≡◌, inl, refl, arith, some, List, [], ◌∷◌, Mem, ◌==◌, if◌then◌else◌,
}
use cookies_os.Kheap.{Kheap, magic_kheap, header_size, malloc, free, realloc, Realloced}
use cookies_os.Kheap.Blocks.{Block, IsHeap, fit}
use cookies_os.Kheap.Malloc.{alloc, malloc-IsHeap}
use cookies_os.Kheap.Safe.{Given, malloc-Given}
use cookies_os.Kheap.Free.{yells_for}
use cookies_os.Kheap.Merged.{Freed, free-Freed}
use cookies_os.Kheap.Realloc.{Moved, realloc-Moved}

-- A block in use and a free one, with a gap between them.
abbrev pub used : Block
used = record { at = 4096; size = 8; freed = 0 }

abbrev pub spare : Block
spare = record { at = 5000; size = 40; freed = 1 }

abbrev pub two : Kheap
two = record {
  curr_addr = 8192;
  frist_hh = 4096;
  last_hh = 5000;
  header = λ a.
      if a == 4096
      then record { magic_number = magic_kheap; size = 8; freed = 0; next = 5000 }
      else record { magic_number = magic_kheap; size = 40; freed = 1; next = 0 };
}

abbrev empty : Kheap
empty = record {
  curr_addr = 4096;
  frist_hh = 0;
  last_hh = 0;
  header = λ a. record { magic_number = 0; size = 0; freed = 0; next = 0 };
}

pub two-IsHeap : IsHeap two (used ∷ spare ∷ [])
two-IsHeap = record {
  chain = (
    refl,
    record { magic = refl; size = refl; freed = refl },
    (refl, record { magic = refl; size = refl; freed = refl }, refl),
  );
  ordered = omega arith;
  last = refl;
  room = omega arith;
}

empty-IsHeap : IsHeap empty []
empty-IsHeap = record { chain = refl; ordered = omega arith; last = refl; room = omega arith }

malloc_list : alloc 8 8192 (used ∷ spare ∷ []) ≡ (
  5016,
  used
      ∷ record { at = 5000; size = 8; freed = 0 }
      ∷ record { at = 5024; size = 16; freed = 1 }
      ∷ [],
)
unfolding fit
malloc_list = refl

malloc_example :
    (h' : Kheap) × (malloc 8192 two 8 ≡ some ((alloc 8 8192 (used ∷ spare ∷ [])).0, h'))
    × IsHeap h' (alloc 8 8192 (used ∷ spare ∷ [])).1
malloc_example = malloc-IsHeap 8192 8 two (used ∷ spare ∷ []) two-IsHeap (omega arith) (omega arith)

given_example :
    (at : ℕ) × (h' : Kheap) × (cs : List Block) × (malloc 8192 two 100
      ≡ some (at + header_size, h'))
    × IsHeap h' cs
    × Given 100 1 at (used ∷ spare ∷ []) cs
given_example = malloc-Given 8192 100 two (used ∷ spare ∷ []) two-IsHeap (omega arith) (omega arith)

free_example :
    (h' : Kheap) × (cs : List Block) × (free 8192 two (4096 + header_size)
      ≡ some (yells_for used, h'))
    × IsHeap h' cs
    × Freed 4096 (used ∷ spare ∷ []) cs
free_example = free-Freed 8192 two used (used ∷ spare ∷ []) two-IsHeap (inl refl) (omega arith)

abbrev ramp : Mem
ramp a = a

realloc_example :
    (r : Realloced) × (realloc (2 ^ 31) two ramp (4096 + header_size) 20 ≡ some r)
    × Moved two ramp (used ∷ spare ∷ []) used 20 r
realloc_example =
    realloc-Moved (2 ^ 31) two ramp (used ∷ spare ∷ []) used 20 two-IsHeap (inl refl, refl)
      (omega arith) (omega arith)
