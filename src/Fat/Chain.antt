-- ===== src/Fat/Chain.antt =====
-- The clusters of a file: what following the table on the disk copies to memory.
use cookies_os.Base.{
  ℕ, zero, suc, ◌+◌, ◌-◌, ◌*◌, ◌/◌, ◌%◌, ◌≤◌, ◌<◌, ◌≡◌, ◌⊎◌, inl, inr, refl, sym, true, false,
  arith, ◌&&◌, leb, ltb, if◌then◌else◌, Mem, le_or_lt, List, [], ◌∷◌, length, some,
}
use cookies_os.Fat.{FatBpb, fat16_eof, half_at, read_sectors, cluster_lba, cluster_loop, chain_loop}
use cookies_os.Fat.Cluster.{Clear, Copied, read_sectors_lem, cluster_loop-Copied}

-- The entry of the table on the disk.
abbrev pub next_cluster : (ℕ → ℕ) → FatBpb → ℕ → ℕ
next_cluster disk b c = half_at disk ((b.reserved_sectors + c * 2 / 512) * 512 + c * 2 % 512)

unfoldable pub IsChain : (ℕ → ℕ) → FatBpb → ℕ → List ℕ → Type 0
IsChain disk b c [] = fat16_eof < c
IsChain disk b c (d ∷ ds) = (c ≡ d) × (c ≤ fat16_eof) × IsChain disk b (next_cluster disk b c) ds

abbrev pub cluster_bytes : FatBpb → ℕ
cluster_bytes b = 512 * b.sectors_per_cluster

-- Byte `t` of the clusters laid one behind the other.
pub content : (ℕ → ℕ) → FatBpb → List ℕ → ℕ → ℕ
content disk b [] t = 0
content disk b (d ∷ ds) t =
    let rest = content disk b ds (t - cluster_bytes b) in
    if ltb t (cluster_bytes b) then disk (cluster_lba b d * 512 + t) else rest

abbrev pub total : FatBpb → List ℕ → ℕ
total b ds = length ds * cluster_bytes b

-- What `chain_loop` leaves: the bytes from `start` on, and the rest of the memory but the buffer.
pub record Followed (disk : ℕ → ℕ) (b : FatBpb) (buffer start : ℕ) (ds : List ℕ) (m m' : Mem)
    : Type 0 where
  pub bytes : (t : ℕ) → t < total b ds → m' (start + t) ≡ content disk b ds t
  pub others :
      (a : ℕ)
      → (a < start) ⊎ (start + total b ds ≤ a)
      → (a < buffer) ⊎ (buffer + cluster_bytes b ≤ a)
      → m' a ≡ m a

-- After one round.
record Turned (disk : ℕ → ℕ) (b : FatBpb) (buffer ptr c index : ℕ) (m m' : Mem) : Type 0 where
  pub next : half_at m' (buffer + c * 2 % 512) ≡ next_cluster disk b c
  pub cells :
      (a : ℕ)
      → (a < buffer) ⊎ (buffer + cluster_bytes b ≤ a)
      → m' a ≡ (
          if leb (ptr + index) a && ltb a (ptr + index + cluster_bytes b)
          then disk (cluster_lba b c * 512 + (a - (ptr + index)))
          else m a)

-- The loop returns, and leaves that.
abbrev pub Follows : (ℕ → ℕ) → FatBpb → ℕ → ℕ → ℕ → ℕ → ℕ → ℕ → List ℕ → Mem → Type 0
Follows disk b size buffer ptr fuel c index ds m =
    (m' : Mem) × (chain_loop fuel disk b size buffer ptr c index m ≡ some m')
    × Followed disk b buffer (ptr + index) ds m m'

module _ (disk : ℕ → ℕ) (b : FatBpb) (size buffer ptr : ℕ) (one : 1 ≤ b.sectors_per_cluster)
    (clear : Clear buffer (cluster_bytes b) ptr (ptr + size)) where
  round-Turned :
      (c index : ℕ) (m : Mem) (out : ℕ × Mem)
      → index + cluster_bytes b ≤ size
      → Copied buffer ptr
          (cluster_bytes b)
          0
          index
          (read_sectors disk (cluster_lba b c) b.sectors_per_cluster buffer m)
          out
      → Turned disk b buffer ptr c index m
          (read_sectors disk (b.reserved_sectors + c * 2 / 512) 1 buffer (out.1))
  round-Turned c index m out fits copied = record {
    next = ground (
      arith,
      read_sectors_lem disk (b.reserved_sectors + c * 2 / 512) 1 buffer (out.1)
          (buffer + c * 2 % 512),
      read_sectors_lem disk (b.reserved_sectors + c * 2 / 512) 1 buffer (out.1)
          (buffer + c * 2 % 512 + 1),
    );
    cells = λ a outside. ground (
      arith,
      read_sectors_lem disk (b.reserved_sectors + c * 2 / 512) 1 buffer (out.1) a,
      copied.cells a,
      read_sectors_lem disk (cluster_lba b c) b.sectors_per_cluster buffer m a,
      read_sectors_lem disk (cluster_lba b c) b.sectors_per_cluster buffer m
          (buffer + 0 + (a - (ptr + index))),
    );
  }

  apart : (a : ℕ) → ptr ≤ a → a < ptr + size → (a < buffer) ⊎ (buffer + cluster_bytes b ≤ a)
  apart a above below = elim clear [
    | inl before ↦ inl (omega arith)
    | inr behind ↦ inr (omega arith)
  ]

  extend-Followed :
      (c index index' : ℕ) (ds : List ℕ) (m m1 m' : Mem)
      → index' ≡ index + cluster_bytes b
      → index + total b (c ∷ ds) ≤ size
      → Turned disk b buffer ptr c index m m1
      → Followed disk b buffer (ptr + index') ds m1 m'
      → Followed disk b buffer (ptr + index) (c ∷ ds) m m'
  unfolding content
  extend-Followed c index index' ds m m1 m' e fits round after = record {
    bytes = λ t below. elim (le_or_lt (cluster_bytes b) t) [
      | inl later ↦ ground (arith, after.bytes (t - cluster_bytes b) (omega arith))
      | inr first ↦ ground (
        arith,
        round.cells (ptr + index + t) (apart (ptr + index + t) (omega arith) (omega arith)),
        after.others (ptr + index + t) (inl (omega arith))
            (apart (ptr + index + t) (omega arith) (omega arith)),
      )
    ];
    others =
        λ a outside away. ground (arith, round.cells a away, after.others a (ground arith) away);
  }

  -- `index` and the memory when a cluster is copied, and the memory when its entry is read.
  after_cluster : ℕ → ℕ → Mem → ℕ × Mem
  after_cluster c index m =
      cluster_loop size buffer ptr (cluster_bytes b) 0 index
        (read_sectors disk (cluster_lba b c) b.sectors_per_cluster buffer m)

  after_round : ℕ → ℕ → Mem → Mem
  after_round c index m =
      read_sectors disk (b.reserved_sectors + c * 2 / 512) 1 buffer ((after_cluster c index m).1)

  chain_loop_live :
      b.bytes_per_sector ≡ 512
      → (fuel c index : ℕ) (m : Mem) → c ≤ fat16_eof
      → chain_loop (suc fuel) disk b size buffer ptr c index m
        ≡ chain_loop fuel disk b size buffer ptr
            (half_at (after_round c index m) (buffer + c * 2 % 512))
            ((after_cluster c index m).0)
            (after_round c index m)
  unfolding chain_loop after_cluster after_round
  chain_loop_live sector fuel c index m live =
      let go : leb c fat16_eof ≡ true = ground arith in rw (go, sector) refl

  -- For a chain of clusters that ends in a number above 0xFFF8, more fuel than clusters, sectors of 512
  -- bytes, at least one sector to a cluster, room in `size`, and a target apart from the buffer, the
  -- loop returns; then the target holds the clusters of the chain one behind the other, and all memory
  -- outside the target and the buffer is as it was.
  pub chain_loop-Follows :
      b.bytes_per_sector ≡ 512
      → (fuel c index : ℕ) (ds : List ℕ) (m : Mem) → length ds < fuel
      → IsChain disk b c ds
      → index + total b ds ≤ size
      → Follows disk b size buffer ptr fuel c index ds m
  unfolding chain_loop IsChain after_cluster after_round
  chain_loop-Follows sector zero c index ds m enough chain fits = grind arith
  chain_loop-Follows sector (suc fuel) c index [] m enough chain fits =
      let stop : leb c fat16_eof ≡ false = ground arith in
      rw stop (m, refl, record { bytes = λ t below. omega arith; others = λ a outside away. refl })
  chain_loop-Follows sector (suc fuel) c index (d ∷ ds) m enough (e, live, chain) fits =
      rw (sym e, chain_loop_live sector fuel c index m live)
        (let copied =
            cluster_loop-Copied size buffer ptr (cluster_bytes b) (cluster_bytes b) 0 index
              (read_sectors disk (cluster_lba b c) b.sectors_per_cluster buffer m) (omega arith)
              (omega arith) clear in
          let round = round-Turned c index m (after_cluster c index m) (omega arith) copied in
          let (m', runs, after) =
            chain_loop-Follows sector fuel (half_at (after_round c index m) (buffer + c * 2 % 512))
              ((after_cluster c index m).0) ds (after_round c index m) (omega arith)
              (rw round.next chain) (omega (arith, copied.position)) in
          (
            m',
            runs,
            extend-Followed c index ((after_cluster c index m).0) ds m (after_round c index m) m'
                copied.position (omega arith) round after,
          ))
