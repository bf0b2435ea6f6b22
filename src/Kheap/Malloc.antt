-- ===== src/Kheap/Malloc.antt =====
-- malloc: the heap that it leaves, and the block that it hands out.
use cookies_os.Base.{
  ℕ, ◌+◌, ◌*◌, ◌^◌, ◌≤◌, ◌<◌, ◌≡◌, ◌≢◌, refl, arith, true, false, Option, none, some, List, [], ◌∷◌,
  ◌++◌, ◌==◌, write, write_at, write_off, sym, ap, subst, ◌∙◌,
}
use cookies_os.Kheap.{
  KheapHeader, Kheap, header_size, new_header, find_loop, find_good_block, append_block, malloc,
}
use cookies_os.Kheap.Blocks.{
  Block, stop, Describes, Chain, Ordered, last_of, IsHeap, fit, Describes-same, Ordered-le,
  length-le,
}
use cookies_os.Kheap.Find.{Found, find_loop-Found}

-- A block at the end of the heap.
abbrev pub fresh : ℕ → ℕ → Block
fresh at size = record { at = at; size = size; freed = 0 }

-- What malloc returns and makes of the list, for the heap that ends at `curr`.
abbrev pub alloc : ℕ → ℕ → List Block → ℕ × List Block
alloc size curr bs = elim (fit size bs) [
  | none ↦ (curr + header_size, bs ++ fresh curr size ∷ [])
  | some (a, cs) ↦ (a + header_size, cs)
]

last_of-le :
    (lo hi : ℕ) (b : Block) (bs : List Block) → Ordered lo (b ∷ bs) hi → lo ≤ last_of b.at bs
last_of-le lo hi b [] o = o.0
last_of-le lo hi b (c ∷ bs) o = omega (arith, o.0, last_of-le (stop b) hi c bs o.1)

last_of-lt :
    (lo hi : ℕ) (b : Block) (bs : List Block) → Ordered lo (b ∷ bs) hi → last_of b.at bs < hi
last_of-lt lo hi b [] o = omega (arith, o)
last_of-lt lo hi b (c ∷ bs) o = last_of-lt (stop b) hi c bs o.1

last_of-append : (d : ℕ) (bs : List Block) (n : Block) → last_of d (bs ++ n ∷ []) ≡ n.at
last_of-append d [] n = refl
last_of-append d (b ∷ bs) n = last_of-append b.at bs n

Ordered-append :
    (lo hi end : ℕ) (bs : List Block) (n : Block)
    → Ordered lo bs hi
    → hi ≤ n.at
    → stop n ≤ end
    → Ordered lo (bs ++ n ∷ []) end
Ordered-append lo hi end [] n o le below = (omega (arith, o), below)
Ordered-append lo hi end (b ∷ bs) n o le below =
    (o.0, Ordered-append (stop b) hi end bs n o.1 le below)

module _ {hdr hdr' : ℕ → KheapHeader} (n : Block) (described : Describes hdr' n)
    (ends : (hdr' n.at).next ≡ 0) where
  Chain-append :
      (lo hi p : ℕ) (b : Block) (bs : List Block)
      → Ordered lo (b ∷ bs) hi
      → hi ≤ n.at
      → Chain hdr p (b ∷ bs)
      → ((a : ℕ) → a < n.at → a ≢ last_of b.at bs → hdr' a ≡ hdr a)
      → hdr' (last_of b.at bs) ≡ record (hdr (last_of b.at bs)) { next = n.at }
      → Chain hdr' p (b ∷ (bs ++ n ∷ []))
  Chain-append lo hi p b [] o le c same at = (
    c.0,
    record { magic = rw at c.1.magic; size = rw at c.1.size; freed = rw at c.1.freed },
    (rw at, described, ends),
  )
  Chain-append lo hi p b (b' ∷ bs) o le c same at =
      let far = last_of-le (stop b) hi b' bs o.1 in
      let end = Ordered-le (stop b) (b' ∷ bs) hi o.1 in
      let here = same b.at (omega arith) (omega arith) in
      (c.0, Describes-same here c.1, rw here (Chain-append (stop b) hi _ b' bs o.1 le c.2 same at))

-- Putting a new block behind the others.
module _ (h : Kheap) (size : ℕ) (room : h.curr_addr + 4 * (size + header_size) ≤ 2 ^ 31) where
  append_block-IsHeap :
      (bs : List Block)
      → IsHeap h bs
      → ((append_block h size).0 ≡ h.curr_addr + header_size)
        × IsHeap (append_block h size).1 (bs ++ fresh h.curr_addr size ∷ [])
  unfolding append_block
  append_block-IsHeap [] heap =
      let start : (h.frist_hh == 0) ≡ true = ground (arith, heap.chain) in
      let at = write_at h.header h.curr_addr (new_header size 0) h.curr_addr refl in
      (
        refl,
        rw start (record {
          chain = (refl, record { magic = rw at; size = rw at; freed = rw at }, rw at);
          ordered = omega (arith, heap.ordered);
          last = refl;
          room = omega arith;
        }),
      )
  append_block-IsHeap (b ∷ bs) heap =
      let n = fresh h.curr_addr size in
      let start : (h.frist_hh == 0) ≡ false = ground (arith, heap.chain, heap.ordered) in
      let h1 = write h.header h.curr_addr (new_header size 0) in
      let at = write_at h.header h.curr_addr (new_header size 0) h.curr_addr refl in
      let low : h.last_hh < h.curr_addr =
        omega (arith, heap.last, last_of-lt 1 h.curr_addr b bs heap.ordered) in
      let off1 : h1 h.last_hh ≡ h.header h.last_hh =
        write_off h.header h.curr_addr _ h.last_hh (omega arith) in
      let h2 = write h1 h.last_hh (record (h1 h.last_hh) { next = h.curr_addr }) in
      let new_at : h2 h.curr_addr ≡ new_header size 0 =
        write_off h1 h.last_hh _ h.curr_addr (omega arith) ∙ at in
      (
        refl,
        rw start (record {
          chain =
              Chain-append n (record { magic = rw new_at; size = rw new_at; freed = rw new_at })
                (rw new_at) 1 h.curr_addr _ b bs heap.ordered (omega arith) heap.chain
                (λ a lt ne.
                  write_off h1 h.last_hh _ a (rw heap.last (λ e. ne (omega arith)))
                  ∙ write_off h.header h.curr_addr _ a (omega arith))
                (rw (← heap.last) (write_at h1 h.last_hh _ h.last_hh refl ∙ rw off1));
          ordered =
              Ordered-append 1 h.curr_addr _ (b ∷ bs) n heap.ordered (omega arith) (omega arith);
          last = sym (last_of-append b.at bs n);
          room = omega arith;
        }),
      )

module _ (fuel size : ℕ) (h : Kheap) (bs : List Block) (heap : IsHeap h bs)
    (room : h.curr_addr + 4 * (size + header_size) ≤ 2 ^ 31) where
  -- malloc for each result of the search.
  malloc_fitted :
      (fitted : Option (ℕ × List Block))
      → (h.frist_hh == 0) ≡ false
      → Found h 0 1 h.curr_addr h.frist_hh fitted (find_good_block fuel h size true)
      → let out : ℕ × List Block = elim fitted [
        | none ↦ (h.curr_addr + header_size, bs ++ fresh h.curr_addr size ∷ [])
        | some (a, cs) ↦ (a + header_size, cs)
      ] in
        (h' : Kheap) × (malloc fuel h size ≡ some (out.0, h')) × IsHeap h' out.1
  unfolding malloc
  malloc_fitted none start found =
      let (at, well) = append_block-IsHeap h size room bs heap in
      (
        (append_block h size).1,
        rw (start, found) (ap (λ (a : ℕ). some (a, (append_block h size).1)) at),
        well,
      )
  malloc_fitted (some (a, cs)) start (h', got, pos, w) =
      let real : (a == 0) ≡ false = ground arith in
      (
        h',
        rw (start, got) (rw real),
        record {
          chain = rw w.frist w.chain;
          ordered = rw w.curr w.ordered;
          last = w.last;
          room = rw w.curr heap.room;
        },
      )

-- malloc on a well-formed heap with room for the block and the pointer's fourfold step returns, and
-- the address and the new list of blocks are those of `alloc`.
pub malloc-IsHeap :
    (fuel size : ℕ) (h : Kheap) (bs : List Block)
    → IsHeap h bs
    → h.curr_addr + 4 * (size + header_size) ≤ 2 ^ 31
    → h.curr_addr ≤ fuel
    → (h' : Kheap) × (malloc fuel h size ≡ some ((alloc size h.curr_addr bs).0, h'))
      × IsHeap h' (alloc size h.curr_addr bs).1
unfolding find_good_block
malloc-IsHeap fuel size h [] heap room f =
    let (at, well) = append_block-IsHeap h size room [] heap in
    let start : (h.frist_hh == 0) ≡ true = ground (arith, heap.chain) in
    (
      (append_block h size).1,
      unfold malloc fit in rw start (ap (λ (a : ℕ). some (a, (append_block h size).1)) at),
      unfold fit in well,
    )
malloc-IsHeap fuel size h (b ∷ bs) heap room f =
    let start : (h.frist_hh == 0) ≡ false = ground (arith, heap.chain, heap.ordered) in
    let enough = length-le 1 (b ∷ bs) h.curr_addr heap.ordered in
    malloc_fitted fuel size h (b ∷ bs) heap room (fit size (b ∷ bs)) start (
      subst
        (λ (p : ℕ). Found h 0 1 h.curr_addr p (fit size (b ∷ bs)) (find_loop fuel size true p h))
        (sym heap.chain.0)
        (find_loop-Found fuel size 0 1 h.curr_addr h b bs (omega arith) heap.chain.1 heap.chain.2
          heap.ordered heap.room (omega arith) heap.last))
