-- ===== src/Fat.antt =====
-- src/fs/fat.c and src/fs/fat.h: reading a file through its chain of clusters. `disk` is the byte at
-- each position of the device, which `vread` of whole sectors of 512 bytes copies to memory.
pub mod Cluster
pub mod Chain
pub mod Paths
pub mod Tokens
pub mod Handles
pub mod Boot
pub mod Whole
use cookies_os.Base.{
  ℕ, zero, suc, ◌+◌, ◌-◌, ◌*◌, ◌/◌, ◌%◌, ◌^◌, leb, ltb, ◌==◌, ◌||◌, if◌then◌else◌, Option, none,
  some, Mem, write, u32, ℤ, pos, negsuc,
}
use cookies_os.Libc.{strlen, memcmp}
use cookies_os.Vfs.{vfs_file, vfs_directory}
use cookies_os.Kheap.{Kheap, malloc, free}

abbrev pub fat16_eof : ℕ
fat16_eof = 0xFFF8

-- A little-endian half-word.
abbrev pub half_at : Mem → ℕ → ℕ
half_at m a = m a + 256 * m (a + 1)

-- The fields that the driver uses.
pub record FatBpb : Type 0 where
  pub bytes_per_sector : ℕ
  pub sectors_per_cluster : ℕ
  pub reserved_sectors : ℕ
  pub number_of_fats : ℕ
  pub sectors_per_fat : ℕ

-- `vread(dev, lba, sectors, buffer)`.
pub sectors_loop : (ℕ → ℕ) → ℕ → ℕ → ℕ → ℕ → Mem → Mem
sectors_loop disk from buffer zero i m = m
sectors_loop disk from buffer (suc left) i m =
    sectors_loop disk from buffer left (i + 1) (write m (buffer + i) (disk (from + i)))

abbrev pub read_sectors : (ℕ → ℕ) → ℕ → ℕ → ℕ → Mem → Mem
read_sectors disk lba sectors buffer m = sectors_loop disk (lba * 512) buffer (sectors * 512) 0 m

-- `buffer+3` onwards, as the packed struct lays it out.
abbrev pub bpb_at : Mem → ℕ → FatBpb
bpb_at m buffer = record {
  bytes_per_sector = half_at m (buffer + 11);
  sectors_per_cluster = m (buffer + 13);
  reserved_sectors = half_at m (buffer + 14);
  number_of_fats = m (buffer + 16);
  sectors_per_fat = half_at m (buffer + 22);
}

pub record Parsed : Type 0 where
  pub bpb : FatBpb
  pub heap : Kheap
  pub mem : Mem

unfoldable pub parse_bpb : ℕ → (ℕ → ℕ) → Kheap → Mem → Option Parsed
parse_bpb fuel disk h m = elim (malloc fuel h 512) [
  | none ↦ none
  | some (buffer, h1) ↦
      let read = read_sectors disk 0 1 buffer m in
      elim (free fuel h1 buffer) [
        | none ↦ none
        | some (yells, h2) ↦ some (record { bpb = bpb_at read buffer; heap = h2; mem = read })
      ]
]

abbrev pub root_lba : FatBpb → ℕ
root_lba b = u32 (b.number_of_fats * b.sectors_per_fat + b.reserved_sectors)

-- `lba_ctx`.
abbrev pub cluster_lba : FatBpb → ℕ → ℕ
cluster_lba b cluster = u32 (root_lba b + 32 + (cluster + 2 ^ 32 - 2) * b.sectors_per_cluster)

-- The loop over the buffer: `index` and the memory behind it.
pub cluster_loop : ℕ → ℕ → ℕ → ℕ → ℕ → ℕ → Mem → ℕ × Mem
cluster_loop size buffer ptr zero i index m = (index, m)
cluster_loop size buffer ptr (suc left) i index m =
    let stored = write m (ptr + index) (m (buffer + i)) in
    let rest = cluster_loop size buffer ptr left (i + 1) (index + 1) stored in
    if ltb size (index + 1) then (index + 1, stored) else rest

-- The next cluster, from the table on the disk.
pub chain_loop : ℕ → (ℕ → ℕ) → FatBpb → ℕ → ℕ → ℕ → ℕ → ℕ → Mem → Option Mem
chain_loop zero disk b size buffer ptr current index m = none
chain_loop (suc fuel) disk b size buffer ptr current index m =
    let m1 = read_sectors disk (cluster_lba b current) b.sectors_per_cluster buffer m in
    let (index', m2) = cluster_loop size buffer ptr (512 * b.sectors_per_cluster) 0 index m1 in
    let fat_offset = current * 2 in
    let fat_sector = b.reserved_sectors + fat_offset / b.bytes_per_sector in
    let ent_offset = fat_offset % b.bytes_per_sector in
    let m3 = read_sectors disk fat_sector 1 buffer m2 in
    let rest =
      chain_loop fuel disk b size buffer ptr (half_at m3 (buffer + ent_offset)) index' m3 in
    if leb current fat16_eof then rest else some m

pub record FatRead : Type 0 where
  pub status : ℕ
  pub heap : Kheap
  pub mem : Mem

unfoldable pub fat_file_read_with_handle :
    ℕ → (ℕ → ℕ) → Kheap → Mem → (flag starting_cluster size ptr : ℕ) → Option FatRead
fat_file_read_with_handle fuel disk h m flag starting_cluster size ptr =
    if (flag == vfs_file) || (flag == vfs_directory)
    then elim (parse_bpb fuel disk h m) [
      | none ↦ none
      | some p ↦ elim (malloc fuel p.heap (512 * p.bpb.sectors_per_cluster)) [
        | none ↦ none
        | some (buffer, h1) ↦
            elim (chain_loop fuel disk p.bpb size buffer ptr starting_cluster 0 p.mem) [
              | none ↦ none
              | some m' ↦ elim (free fuel h1 buffer) [
                | none ↦ none
                | some (yells, h2) ↦ some (record { status = 0; heap = h2; mem = m' })
              ]
            ]
      ]
    ]
    else some (record { status = 1; heap = h; mem = m })

-- _fat_get_filehandle_buffer: the 16 entries of 32 bytes from `b512` on. `0` is NULL.
pub entry_loop : Mem → ℕ → ℕ → ℕ → ℕ → ℕ → ℕ
entry_loop m path len b512 zero i = 0
entry_loop m path len b512 (suc left) i =
    let rest = entry_loop m path len b512 left (i + 32) in
    elim (memcmp m (b512 + i) path len) [ pos zero ↦ b512 + i | _ ↦ rest ]

-- `strlen(path)` is the same in each round.
unfoldable pub fat_get_filehandle_buffer : ℕ → Mem → ℕ → ℕ → Option ℕ
fat_get_filehandle_buffer fuel m path b512 = elim (strlen fuel m path) [
  | none ↦ none
  | some len ↦ some (entry_loop m path len b512 16 0)
]
