-- ===== src/Fat/Whole.antt =====
-- A whole file, read on a well-formed heap: the boot sector, the clusters and both buffers.
use cookies_os.Base.{
  ℕ, ◌+◌, ◌*◌, ◌^◌, ◌≤◌, ◌<◌, ◌≡◌, ◌⊎◌, inl, inr, refl, ◌∙◌, arith, true, some, List, [], length,
  ◌==◌, ◌||◌, Mem,
}
use cookies_os.Kheap.{Kheap, Yell, header_size, malloc, free}
use cookies_os.Kheap.Blocks.{Block, IsHeap}
use cookies_os.Kheap.Safe.{Given, malloc-Given}
use cookies_os.Kheap.Merged.{Uses}
use cookies_os.Kheap.Borrow.{Borrowed, Borrowed-trans, give_back}
use cookies_os.Vfs.{vfs_file, vfs_directory}
use cookies_os.Fat.{
  FatBpb, Parsed, FatRead, bpb_at, parse_bpb, chain_loop, fat_file_read_with_handle,
}
use cookies_os.Fat.Cluster.{Clear}
use cookies_os.Fat.Chain.{IsChain, Followed, chain_loop-Follows, cluster_bytes, content, total}
use cookies_os.Fat.Boot.{Inside, BootRead, outside_buffer, parse_bpb-BootRead}

-- What reading a whole file leaves.
pub record FileRead (disk : ℕ → ℕ) (ds : List ℕ) (ptr : ℕ) (m : Mem) (bs : List Block) (r : FatRead)
    : Type 0 where
  pub good : r.status ≡ 0
  pub bytes :
      (t : ℕ) → t < total (bpb_at disk 0) ds → r.mem (ptr + t) ≡ content disk (bpb_at disk 0) ds t
  pub heap : Borrowed bs r.heap
  pub kept :
      (b : Block)
      → Uses bs b
      → (a : ℕ) → Inside a b
      → (a < ptr) ⊎ (ptr + total (bpb_at disk 0) ds ≤ a)
      → r.mem a ≡ m a

-- fat_file_read_with_handle, when each of its steps succeeds.
read_runs :
    (fuel : ℕ) (disk : ℕ → ℕ) (h h1 h2 : Kheap) (m m' : Mem) (p : Parsed)
    (flag cluster size ptr buffer : ℕ) (ys : List Yell)
    → ((flag == vfs_file) || (flag == vfs_directory)) ≡ true
    → parse_bpb fuel disk h m ≡ some p
    → malloc fuel p.heap (512 * p.bpb.sectors_per_cluster) ≡ some (buffer, h1)
    → chain_loop fuel disk p.bpb size buffer ptr cluster 0 p.mem ≡ some m'
    → free fuel h1 buffer ≡ some (ys, h2)
    → fat_file_read_with_handle fuel disk h m flag cluster size ptr
      ≡ some (record { status = 0; heap = h2; mem = m' })
unfolding fat_file_read_with_handle
read_runs fuel disk h h1 h2 m m' p flag cluster size ptr buffer ys kind parsed got ran freed =
    rw kind (rw parsed (rw got (rw ran (rw freed refl))))

-- The target lies in a block in use, so the buffer is apart from it.
target-Clear :
    (want size ptr at : ℕ) (bs cs : List Block) (g : Given want 1 at bs cs) (old : Block)
    → Uses bs old
    → ptr ≡ old.at + header_size
    → size ≤ old.size
    → Clear (at + header_size) want ptr (ptr + size)
target-Clear want size ptr at bs cs g old (i, u) start fits = elim (g.kept old i u).1 [
  | inl before ↦ inl (omega (arith, before, g.address))
  | inr behind ↦ inr (omega (arith, behind, g.address, g.large))
]

-- The room for both buffers.
room_left :
    (spc curr curr' : ℕ)
    → curr' ≤ curr + 4 * (512 + header_size)
    → curr + 4 * (512 + header_size) + 4 * (512 * spc + header_size) ≤ 2 ^ 31
    → curr' + 4 * (512 * spc + header_size) ≤ 2 ^ 31
room_left spc curr curr' reach room = omega (arith, reach, room)

bytes_from :
    (disk : ℕ → ℕ) (b : FatBpb) {buffer : ℕ} (ptr : ℕ) (ds : List ℕ) (m m' : Mem)
    → Followed disk b buffer (ptr + 0) ds m m'
    → (t : ℕ) → t < total b ds
    → m' (ptr + t) ≡ content disk b ds t
bytes_from disk b ptr ds m m' followed t lt = ground (arith, followed.bytes t lt)

bytes_kept :
    (disk : ℕ → ℕ) (b : FatBpb) (buffer ptr : ℕ) (ds : List ℕ) (m m' : Mem) (a : ℕ)
    → Followed disk b buffer (ptr + 0) ds m m'
    → (a < ptr) ⊎ (ptr + total b ds ≤ a)
    → (a < buffer) ⊎ (buffer + cluster_bytes b ≤ a)
    → m' a ≡ m a
bytes_kept disk b buffer ptr ds m m' a followed outside away =
    followed.others a (ground (arith, outside)) away

module _ (fuel : ℕ) (disk : ℕ → ℕ) (flag cluster size ptr : ℕ) (ds : List ℕ) (old : Block) where
  -- Behind the boot sector.
  after_boot :
      (h : Kheap) (m : Mem) (bs : List Block) (p : Parsed)
      → let b = bpb_at disk 0 in
        p.bpb ≡ b
        → ((flag == vfs_file) || (flag == vfs_directory)) ≡ true
        → parse_bpb fuel disk h m ≡ some p
        → BootRead disk h m bs p
        → Uses bs old
        → ptr ≡ old.at + header_size
        → size ≤ old.size
        → b.bytes_per_sector ≡ 512
        → 1 ≤ b.sectors_per_cluster
        → IsChain disk b cluster ds
        → total b ds ≤ size
        → h.curr_addr + 4 * (512 + header_size) + 4 * (cluster_bytes b + header_size) ≤ 2 ^ 31
        → 2 ^ 31 ≤ fuel
        → length ds < fuel
        → (r : FatRead) × (fat_file_read_with_handle fuel disk h m flag cluster size ptr ≡ some r)
          × FileRead disk ds ptr m bs r
  after_boot h m bs p ep kind parsed boot used start fits sector one chain within room f enough =
      let b = bpb_at disk 0 in
      let (at, h1, mid, got, well1, given) =
        malloc-Given fuel (cluster_bytes b) p.heap boot.heap.blocks boot.heap.well
          (room_left b.sectors_per_cluster h.curr_addr p.heap.curr_addr boot.reach room)
          (omega (arith, boot.heap.well.room)) in
      let (h2, freed, back) =
        give_back fuel (cluster_bytes b) at h1 boot.heap.blocks mid well1 given f in
      let clear =
        target-Clear (cluster_bytes b) size ptr at boot.heap.blocks mid given old
          ((boot.heap.uses old).1 used) start fits in
      let (m', ran, followed) =
        chain_loop-Follows disk b size (at + header_size) ptr one clear sector fuel cluster 0 ds
          p.mem enough chain (omega (arith, within)) in
      (
        record { status = 0; heap = h2; mem = m' },
        read_runs fuel disk h h1 h2 m m' p flag cluster size ptr (at + header_size) [] kind parsed
            (rw ep got) (rw ep ran) freed,
        record {
          good = refl;
          bytes = λ t lt. bytes_from disk b ptr ds p.mem m' followed t lt;
          heap = Borrowed-trans bs p.heap h2 boot.heap back;
          kept = λ k usedk a inside outside.
              bytes_kept disk b (at + header_size) ptr ds p.mem m' a followed outside (
                outside_buffer (cluster_bytes b) (cluster_bytes b) at a boot.heap.blocks mid given k
                  (omega arith) ((boot.heap.uses k).1 usedk) inside)
              ∙ boot.kept k usedk a inside;
        },
      )

-- A file or directory is read into a block in use that is large enough, from a well-formed heap with
-- room for the two buffers. The disk has sectors of 512 bytes, at least one to a cluster, and the file's
-- chain of clusters ends in a number above 0xFFF8. Then the read returns 0, the target holds the clusters
-- of the chain one behind the other, the heap is well formed with exactly the same blocks in use, and
-- their bytes outside the target are as they were.
pub fat_file_read_with_handle-FileRead :
    (fuel : ℕ) (disk : ℕ → ℕ) (flag cluster size ptr : ℕ) (ds : List ℕ) (old : Block) (h : Kheap)
    (m : Mem) (bs : List Block)
    → ((flag == vfs_file) || (flag == vfs_directory)) ≡ true
    → IsHeap h bs
    → Uses bs old
    → ptr ≡ old.at + header_size
    → size ≤ old.size
    → (bpb_at disk 0).bytes_per_sector ≡ 512
    → 1 ≤ (bpb_at disk 0).sectors_per_cluster
    → IsChain disk (bpb_at disk 0) cluster ds
    → total (bpb_at disk 0) ds ≤ size
    → h.curr_addr + 4 * (512 + header_size) + 4 * (cluster_bytes (bpb_at disk 0) + header_size)
      ≤ 2 ^ 31
    → 2 ^ 31 ≤ fuel
    → length ds < fuel
    → (r : FatRead) × (fat_file_read_with_handle fuel disk h m flag cluster size ptr ≡ some r)
      × FileRead disk ds ptr m bs r
fat_file_read_with_handle-FileRead fuel disk flag cluster size ptr ds old h m bs kind heap used
      start fits sector one chain within room f enough =
    let (p, parsed, boot) = parse_bpb-BootRead fuel disk h m bs heap (omega (arith, room)) f in
    after_boot fuel disk flag cluster size ptr ds old h m bs p boot.fields kind parsed boot used
      start fits sector one chain within room f enough
