-- ===== src/Fat/Boot.antt =====
-- The boot sector, read on a well-formed heap.
use cookies_os.Base.{
  ℕ, ◌+◌, ◌*◌, ◌^◌, ◌≤◌, ◌<◌, ◌≡◌, ◌⊎◌, inl, inr, refl, arith, some, List, [], Mem,
}
use cookies_os.Kheap.{Kheap, Yell, header_size, malloc, free}
use cookies_os.Kheap.Blocks.{Block, stop, IsHeap}
use cookies_os.Kheap.Safe.{Given, malloc-Given}
use cookies_os.Kheap.Merged.{Uses}
use cookies_os.Kheap.Borrow.{Borrowed, give_back}
use cookies_os.Kheap.Reach.{malloc_curr, free_curr}
use cookies_os.Fat.{Parsed, bpb_at, half_at, read_sectors, parse_bpb}
use cookies_os.Fat.Cluster.{read_sectors_lem}

-- `a` is a byte of the block.
abbrev pub Inside : ℕ → Block → Type 0
Inside a b = (b.at + header_size ≤ a) × (a < stop b)

-- What reading the boot sector leaves.
pub record BootRead (disk : ℕ → ℕ) (h : Kheap) (m : Mem) (bs : List Block) (p : Parsed)
    : Type 0 where
  pub fields : p.bpb ≡ bpb_at disk 0
  pub heap : Borrowed bs p.heap
  pub reach : p.heap.curr_addr ≤ h.curr_addr + 4 * (512 + header_size)
  pub kept : (b : Block) → Uses bs b → (a : ℕ) → Inside a b → p.mem a ≡ m a

read_at :
    (disk : ℕ → ℕ) (buffer i : ℕ) (m : Mem)
    → i < 512
    → read_sectors disk 0 1 buffer m (buffer + i) ≡ disk i
read_at disk buffer i m lt = ground (arith, read_sectors_lem disk 0 1 buffer m (buffer + i))

read_half :
    (disk : ℕ → ℕ) (buffer i : ℕ) (m : Mem)
    → i + 1 < 512
    → half_at (read_sectors disk 0 1 buffer m) (buffer + i) ≡ half_at disk i
read_half disk buffer i m lt =
    ground
      (arith, read_at disk buffer i m (omega arith), read_at disk buffer (i + 1) m (omega arith))

bpb_read :
    (disk : ℕ → ℕ) (buffer : ℕ) (m : Mem)
    → bpb_at (read_sectors disk 0 1 buffer m) buffer ≡ bpb_at disk 0
bpb_read disk buffer m = λ i. record {
  bytes_per_sector = read_half disk buffer 11 m (omega arith) i;
  sectors_per_cluster = read_at disk buffer 13 m (omega arith) i;
  reserved_sectors = read_half disk buffer 14 m (omega arith) i;
  number_of_fats = read_at disk buffer 16 m (omega arith) i;
  sectors_per_fat = read_half disk buffer 22 m (omega arith) i;
}

-- A byte of a block in use is not one of the buffer that was given.
pub outside_buffer :
    (size n at a : ℕ) (bs cs : List Block) (g : Given size 1 at bs cs) (b : Block)
    → n ≤ size
    → Uses bs b
    → Inside a b
    → (a < at + header_size) ⊎ (at + header_size + n ≤ a)
outside_buffer size n at a bs cs g b le (i, u) (from, to) = elim (g.kept b i u).1 [
  | inl before ↦ inl (omega (arith, before, g.address))
  | inr behind ↦ inr (omega (arith, behind, g.address, g.large))
]

sector_kept :
    (disk : ℕ → ℕ) (buffer a : ℕ) (m : Mem)
    → (a < buffer) ⊎ (buffer + 512 ≤ a)
    → read_sectors disk 0 1 buffer m a ≡ m a
sector_kept disk buffer a m out = ground (arith, read_sectors_lem disk 0 1 buffer m a)

-- parse_bpb, when malloc and free succeed.
parse_bpb_runs :
    (fuel : ℕ) (disk : ℕ → ℕ) (h h1 h2 : Kheap) (m : Mem) (buffer : ℕ) (ys : List Yell)
    → malloc fuel h 512 ≡ some (buffer, h1)
    → free fuel h1 buffer ≡ some (ys, h2)
    → parse_bpb fuel disk h m
      ≡ some (record {
        bpb = bpb_at (read_sectors disk 0 1 buffer m) buffer;
        heap = h2;
        mem = read_sectors disk 0 1 buffer m;
      })
unfolding parse_bpb
parse_bpb_runs fuel disk h h1 h2 m buffer ys got freed =
    rw (got, parse_bpb) (rw (freed, parse_bpb) refl)

-- On a well-formed heap with room for a sector, parse_bpb returns with the fields that the disk's first
-- sector holds. The heap that it leaves is well formed and has the same blocks in use, their bytes
-- unchanged.
pub parse_bpb-BootRead :
    (fuel : ℕ) (disk : ℕ → ℕ) (h : Kheap) (m : Mem) (bs : List Block)
    → IsHeap h bs
    → h.curr_addr + 4 * (512 + header_size) ≤ 2 ^ 31
    → 2 ^ 31 ≤ fuel
    → (p : Parsed) × (parse_bpb fuel disk h m ≡ some p) × BootRead disk h m bs p
parse_bpb-BootRead fuel disk h m bs heap room f =
    let (at, h1, mid, got, well1, given) =
      malloc-Given fuel 512 h bs heap room (omega (arith, heap.room)) in
    let (h2, freed, back) = give_back fuel 512 at h1 bs mid well1 given f in
    let buffer = at + header_size in
    (
      record {
        bpb = bpb_at (read_sectors disk 0 1 buffer m) buffer;
        heap = h2;
        mem = read_sectors disk 0 1 buffer m;
      },
      parse_bpb_runs fuel disk h h1 h2 m buffer [] got freed,
      record {
        fields = bpb_read disk buffer m;
        heap = back;
        reach = omega (
          arith,
          malloc_curr fuel 512 h buffer h1 (omega arith) got,
          free_curr fuel buffer h1 [] h2 freed,
        );
        kept = λ b used a inside.
            sector_kept disk buffer a m
              (outside_buffer 512 512 at a bs mid given b (omega arith) used inside);
      },
    )
