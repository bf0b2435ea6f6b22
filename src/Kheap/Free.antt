-- ===== src/Kheap/Free.antt =====
-- free: the block becomes free, and runs of free blocks become one.
use cookies_os.Base.{
  ℕ, suc, ◌+◌, ◌-◌, ◌^◌, ◌≤◌, ◌≡◌, inl, inr, refl, sym, ap, subst, arith, none, some, List, [], ◌∷◌,
  ◌==◌, not, if◌then◌else◌, length, Bool-cases, write, write_at, write_off, ◌∙◌, u32,
}
use mathlib.Core.Bool.{Bool}
use cookies_os.Kheap.{
  KheapHeader, Kheap, magic_kheap, header_size, Yell, double_free, merge_loop, merge_free_blocks,
  free,
}
use cookies_os.Kheap.Blocks.{
  Block, stop, Describes, Chain, Ordered, last_of, IsHeap, merge_from, Describes-same, length-le,
  In, In-bounds,
}
use cookies_os.Kheap.Merge.{merge_loop-Merged}

-- The block at `a` is marked free.
abbrev pub mark_block : ℕ → Block → Block
mark_block a b = if b.at == a then record b { freed = 1 } else b

abbrev pub mark : ℕ → List Block → List Block
mark a [] = []
mark a (b ∷ bs) = mark_block a b ∷ mark a bs

pub mark_same :
    (a : ℕ) (b : Block) → ((mark_block a b).at ≡ b.at) × ((mark_block a b).size ≡ b.size)
mark_same a b = elim (Bool-cases (b.at == a)) [
  | inl e ↦ rw e (refl, refl)
  | inr e ↦ rw e (refl, refl)
]

length-mark : (a : ℕ) (bs : List Block) → length (mark a bs) ≡ length bs
length-mark a [] = refl
length-mark a (b ∷ bs) = ap suc (length-mark a bs)

last_of-mark : (a d : ℕ) (bs : List Block) → last_of d (mark a bs) ≡ last_of d bs
last_of-mark a d [] = refl
last_of-mark a d (b ∷ bs) =
    ap (λ (e : ℕ). last_of e (mark a bs)) (mark_same a b).0 ∙ last_of-mark a b.at bs

Ordered-mark : (a lo : ℕ) (bs : List Block) (hi : ℕ) → Ordered lo bs hi → Ordered lo (mark a bs) hi
Ordered-mark a lo [] hi o = o
Ordered-mark a lo (b ∷ bs) hi o =
    let same = mark_same a b in
    (rw (same.0) (o.0), rw (same.0, same.1) (Ordered-mark a (stop b) bs hi o.1))

module _ (hdr : ℕ → KheapHeader) (a : ℕ) where
  abbrev marked : ℕ → KheapHeader
  marked = write hdr a (record (hdr a) { freed = 1 })

  Describes-mark : (b : Block) → Describes hdr b → Describes marked (mark_block a b)
  Describes-mark b d = elim (Bool-cases (b.at == a)) [
    | inl e ↦
        let here = write_at hdr a (record (hdr a) { freed = 1 }) b.at (ground arith) in
        let at : a ≡ b.at = ground arith in
        rw e
          (record { magic = rw (here, at) d.magic; size = rw (here, at) d.size; freed = rw here })
    | inr e ↦ rw e (Describes-same (write_off hdr a _ b.at (ground arith)) d)
  ]

  next_marked : (p : ℕ) → (marked p).next ≡ (hdr p).next
  unfolding write
  next_marked p = ground arith

  Chain-mark : (p : ℕ) (bs : List Block) → Chain hdr p bs → Chain marked p (mark a bs)
  Chain-mark p [] c = c
  Chain-mark p (b ∷ bs) c =
      let same = mark_same a b in
      (
        rw (same.0) (c.0),
        Describes-mark b c.1,
        rw (same.0, next_marked b.at) (Chain-mark (hdr b.at).next bs c.2),
      )

-- A block of the list has its header.
In-Describes :
    (hdr : ℕ → KheapHeader) (p : ℕ) (b : Block) (bs : List Block)
    → Chain hdr p bs
    → In b bs
    → Describes hdr b
In-Describes hdr p b [] c i = absurd i
In-Describes hdr p b (x ∷ xs) c (inl e) = rw e c.1
In-Describes hdr p b (x ∷ xs) c (inr i) = In-Describes hdr (hdr x.at).next b xs c.2 i

-- The merging of a well-formed heap.
merge_free_blocks-IsHeap :
    (fuel : ℕ) (h : Kheap) (b : Block) (bs : List Block)
    → IsHeap h (b ∷ bs)
    → h.curr_addr ≤ fuel
    → (h' : Kheap) × (merge_free_blocks fuel h ≡ some h') × IsHeap h' (merge_from none (b ∷ bs))
unfolding merge_free_blocks
merge_free_blocks-IsHeap fuel h b bs heap f =
    let enough = length-le 1 (b ∷ bs) h.curr_addr heap.ordered in
    let (h', got, w) =
      merge_loop-Merged fuel 0 1 h.curr_addr h none b bs (omega arith) heap.ordered
        (refl, heap.chain.1, heap.chain.2) heap.room (omega arith) heap.last in
    (
      h',
      subst (λ (p : ℕ). merge_loop fuel p 0 h ≡ some h') (sym heap.chain.0) got,
      record {
        chain =
            subst (λ (p : ℕ). Chain h'.header p (merge_from none (b ∷ bs)))
              (sym (w.frist ∙ heap.chain.0)) w.chain;
        ordered = rw w.curr w.ordered;
        last = w.last;
        room = rw w.curr heap.room;
      },
    )

abbrev pub yells_for : Block → List Yell
yells_for b = if b.freed == 0 then [] else double_free ∷ []

free_step :
    (fuel : ℕ) (h h' : Kheap) (addr p : ℕ)
    → u32 (addr + 2 ^ 32 - header_size) ≡ p
    → (h.header p).magic_number ≡ magic_kheap
    → merge_free_blocks fuel (record h { header = marked h.header p }) ≡ some h'
    → free fuel h addr ≡ some ((if (h.header p).freed == 0 then [] else double_free ∷ []), h')
unfolding free
free_step fuel h h' addr p e magic got =
    let t : not ((h.header p).magic_number == magic_kheap) ≡ Bool.false = ground (arith, magic) in
    rw e (rw (t, got) (rw e))

-- free of a block of the heap returns, says so if the block was free already, and leaves the heap
-- well formed, with the block marked and the runs of free blocks merged.
pub free-IsHeap :
    (fuel : ℕ) (h : Kheap) (b : Block) (bs : List Block)
    → IsHeap h bs
    → In b bs
    → h.curr_addr ≤ fuel
    → (h' : Kheap) × (free fuel h (b.at + header_size) ≡ some (yells_for b, h'))
      × IsHeap h' (merge_from none (mark b.at bs))
free-IsHeap fuel h b [] heap i f = absurd i
free-IsHeap fuel h b (x ∷ xs) heap i f =
    let bounds = In-bounds b 1 (x ∷ xs) h.curr_addr heap.ordered i in
    let ptr : u32 (b.at + header_size + 2 ^ 32 - header_size) ≡ b.at =
      omega (arith, bounds, heap.room) in
    let d = In-Describes h.header _ b (x ∷ xs) heap.chain i in
    let g : Kheap = record h { header = marked h.header b.at } in
    let (h', got, well) =
      merge_free_blocks-IsHeap fuel g (mark_block b.at x) (mark b.at xs)
        (record {
          chain = Chain-mark h.header b.at _ (x ∷ xs) heap.chain;
          ordered = Ordered-mark b.at 1 (x ∷ xs) h.curr_addr heap.ordered;
          last = heap.last ∙ sym (last_of-mark b.at 0 (x ∷ xs));
          room = heap.room;
        })
        f in
    (
      h',
      free_step fuel h h' (b.at + header_size) b.at ptr d.magic got
          ∙ ap (λ (f : ℕ). some ((if f == 0 then [] else double_free ∷ []), h')) d.freed,
      well,
    )
