-- ===== src/Kheap/Blocks.antt =====
-- The list of blocks that a heap stands for, the invariant, and what the operations do on lists.
use cookies_os.Base.{
  ℕ, ◌+◌, ◌-◌, ◌^◌, ◌≤◌, ◌<◌, ◌≡◌, ◌⊎◌, inl, inr, arith, Option, none, some, List, [], ◌∷◌, ltb,
  leb, ◌==◌, not, ◌&&◌, if◌then◌else◌, length,
}
use cookies_os.Kheap.{KheapHeader, Kheap, magic_kheap, header_size}

pub record Block : Type 0 where
  pub at : ℕ
  pub size : ℕ
  pub freed : ℕ

-- The first address behind a block.
abbrev pub stop : Block → ℕ
stop b = b.at + header_size + b.size

-- The header at a block's address describes it.
pub record Describes (hdr : ℕ → KheapHeader) (b : Block) : Type 0 where
  pub magic : (hdr b.at).magic_number ≡ magic_kheap
  pub size : (hdr b.at).size ≡ b.size
  pub freed : (hdr b.at).freed ≡ b.freed

-- From `p` the `next` pointers lead through the blocks to NULL.
abbrev pub Chain : (ℕ → KheapHeader) → ℕ → List Block → Type 0
Chain hdr p [] = p ≡ 0
Chain hdr p (b ∷ bs) = (p ≡ b.at) × Describes hdr b × Chain hdr (hdr b.at).next bs

-- The blocks lie one behind the other between `lo` and `hi`, and none overlaps another.
abbrev pub Ordered : ℕ → List Block → ℕ → Type 0
Ordered lo [] hi = lo ≤ hi
Ordered lo (b ∷ bs) hi = (lo ≤ b.at) × Ordered (stop b) bs hi

-- The address of the last block, `d` if there is none.
abbrev pub last_of : ℕ → List Block → ℕ
last_of d [] = d
last_of d (b ∷ bs) = last_of b.at bs

-- The heap `h` stands for the blocks `bs`. It lies below 2 GB.
pub record IsHeap (h : Kheap) (bs : List Block) : Type 0 where
  pub chain : Chain h.header h.frist_hh bs
  pub ordered : Ordered 1 bs h.curr_addr
  pub last : h.last_hh ≡ last_of 0 bs
  pub room : h.curr_addr ≤ 2 ^ 31

-- The first free block of at least `size` bytes, cut to `size` if a header and a byte remain.
abbrev pub carve : ℕ → Block → List Block → List Block
carve size b bs =
    if ltb (size + header_size) b.size
    then record { at = b.at; size = size; freed = 0 }
      ∷ (record { at = b.at + header_size + size; size = b.size - size - header_size; freed = 1 }
          ∷ bs)
    else record b { freed = 0 } ∷ bs

unfoldable pub fit : ℕ → List Block → Option (ℕ × List Block)
fit size [] = none
fit size (b ∷ bs) =
    let rest : Option (ℕ × List Block) = elim (fit size bs) [
      | none ↦ none
      | some (a, cs) ↦ some (a, b ∷ cs)
    ] in
    if not (b.freed == 0) && leb size b.size then some (b.at, carve size b bs) else rest

-- Each run of free blocks becomes one block; `current` is the run so far.
abbrev pub grow : Block → Block → Block
grow c b = record c { size = c.size + b.size + header_size }

unfoldable pub merge_from : Option Block → List Block → List Block
merge_from none [] = []
merge_from (some c) [] = c ∷ []
merge_from none (b ∷ bs) =
    let kept = b ∷ merge_from none bs in
    let begun = merge_from (some b) bs in if b.freed == 0 then kept else begun
merge_from (some c) (b ∷ bs) =
    let kept = c ∷ (b ∷ merge_from none bs) in
    let grown = merge_from (some (grow c b)) bs in if b.freed == 0 then kept else grown

module _ {hdr hdr' : ℕ → KheapHeader} where
  pub Describes-same : {b : Block} → hdr' b.at ≡ hdr b.at → Describes hdr b → Describes hdr' b
  Describes-same {b} e d = record { magic = rw e d.magic; size = rw e d.size; freed = rw e d.freed }

  -- A chain survives any change below it.
  pub Chain-same :
      (lo hi p : ℕ) (bs : List Block)
      → Ordered lo bs hi
      → ((a : ℕ) → lo ≤ a → hdr' a ≡ hdr a)
      → Chain hdr p bs
      → Chain hdr' p bs
  Chain-same lo hi p [] o same c = c
  Chain-same lo hi p (b ∷ bs) o same c =
      let here = same b.at o.0 in
      (
        c.0,
        Describes-same here c.1,
        rw here (Chain-same (stop b) hi _ bs o.1 (λ a le. same a (omega (arith, o.0))) c.2),
      )

-- The end of the region bounds the blocks.
pub Ordered-le : (lo : ℕ) (bs : List Block) (hi : ℕ) → Ordered lo bs hi → lo ≤ hi
Ordered-le lo [] hi o = o
Ordered-le lo (b ∷ bs) hi o = omega (arith, o.0, Ordered-le (stop b) bs hi o.1)

-- So there is fuel for the list.
pub length-le : (lo : ℕ) (bs : List Block) (hi : ℕ) → Ordered lo bs hi → lo + length bs ≤ hi
length-le lo [] hi o = omega arith
length-le lo (b ∷ bs) hi o = omega (arith, o.0, length-le (stop b) bs hi o.1)

-- What an operation on the blocks from `p` made of the heap `h`: the list `cs` in the same region,
-- and no header below it touched.
pub record Became (h h' : Kheap) (d lo hi p : ℕ) (cs : List Block) : Type 0 where
  pub chain : Chain h'.header p cs
  pub ordered : Ordered lo cs hi
  pub below : (a : ℕ) → a < lo → h'.header a ≡ h.header a
  pub last : h'.last_hh ≡ last_of d cs
  pub curr : h'.curr_addr ≡ h.curr_addr
  pub frist : h'.frist_hh ≡ h.frist_hh

-- The block `b` is in the list.
abbrev pub In : Block → List Block → Type 0
In b [] = ⊥
In b (x ∷ xs) = (b ≡ x) ⊎ In b xs

-- Two blocks share no byte, headers included.
abbrev pub Apart : Block → Block → Type 0
Apart b c = (stop b ≤ c.at) ⊎ (stop c ≤ b.at)

pub In-bounds :
    (b : Block) (lo : ℕ) (bs : List Block) (hi : ℕ)
    → Ordered lo bs hi
    → In b bs
    → (lo ≤ b.at) × (stop b ≤ hi)
In-bounds b lo [] hi o i = absurd i
In-bounds b lo (x ∷ xs) hi o (inl e) = rw e (o.0, Ordered-le (stop x) xs hi o.1)
In-bounds b lo (x ∷ xs) hi o (inr i) =
    let tail = In-bounds b (stop x) xs hi o.1 i in (omega (arith, o.0, tail), tail.1)
