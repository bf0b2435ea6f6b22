-- ===== src/Kheap/Safe.antt =====
-- What malloc promises its caller: a block of its own.
use cookies_os.Base.{
  ℕ, ◌+◌, ◌-◌, ◌*◌, ◌^◌, ◌≤◌, ◌≡◌, ◌≢◌, ◌⊎◌, inl, inr, refl, arith, Option, none, some, List, [],
  ◌∷◌, ◌++◌, ltb, leb, ◌==◌, not, ◌&&◌, Bool-cases, sym, ap, ◌∙◌,
}
use cookies_os.Kheap.{Kheap, header_size, malloc}
use cookies_os.Kheap.Blocks.{
  Block, stop, Ordered, IsHeap, carve, fit, Ordered-le, In, Apart, In-bounds,
}
use cookies_os.Kheap.Malloc.{fresh, alloc, malloc-IsHeap}

-- The block that was handed out at `at`: large enough, in use, and apart from every block that was
-- in use before; those are still there, and no others.
pub record Given (size lo at : ℕ) (bs cs : List Block) : Type 0 where
  pub block : Block
  pub address : block.at ≡ at
  pub above : lo ≤ at
  pub large : size ≤ block.size
  pub used : block.freed ≡ 0
  pub present : In block cs
  pub kept : (b : Block) → In b bs → b.freed ≡ 0 → In b cs × Apart b block
  pub only : (b : Block) → In b cs → b.freed ≡ 0 → In b bs ⊎ (b ≡ block)

abbrev GivenIf : ℕ → ℕ → List Block → Option (ℕ × List Block) → Type 0
GivenIf size lo bs none = Unit {0}
GivenIf size lo bs (some (a, cs)) = Given size lo a bs cs

-- A block in use behind the free block `x` is not touched when a part of `x` is given out.
used_behind :
    (lo hi : ℕ) (x n : Block) (xs cs : List Block)
    → Ordered lo (x ∷ xs) hi
    → x.freed ≢ 0
    → stop n ≤ stop x
    → ((b : Block) → In b xs → In b cs)
    → (b : Block) → In b (x ∷ xs)
    → b.freed ≡ 0
    → In b cs × Apart b n
used_behind lo hi x n xs cs o free le stay b (inl e) u =
    absurd (free (ap (λ (k : Block). k.freed) (sym e) ∙ u))
used_behind lo hi x n xs cs o free le stay b (inr i) u =
    (stay b i, inr (omega (arith, le, In-bounds b (stop x) xs hi o.1 i)))

-- The rest of a block that is cut is free.
only_cut :
    (x n rest : Block) (xs : List Block)
    → rest.freed ≡ 1
    → (b : Block) → In b (n ∷ (rest ∷ xs))
    → b.freed ≡ 0
    → In b (x ∷ xs) ⊎ (b ≡ n)
only_cut x n rest xs free b (inl e) u = inr e
only_cut x n rest xs free b (inr (inl e)) u =
    absurd (omega (arith, ap (λ (k : Block). k.freed) e, free, u))
only_cut x n rest xs free b (inr (inr i)) u = inl (inr i)

Given-here :
    (size lo hi : ℕ) (x : Block) (xs : List Block)
    → Ordered lo (x ∷ xs) hi
    → x.freed ≢ 0
    → size ≤ x.size
    → Given size lo x.at (x ∷ xs) (carve size x xs)
Given-here size lo hi x xs o free big = elim (Bool-cases (ltb (size + header_size) x.size)) [
  | inl cut ↦
      let n = fresh x.at size in
      let rest : Block = record {
        at = x.at + header_size + size;
        size = x.size - size - header_size;
        freed = 1;
      } in
      rw cut (record {
        block = n;
        address = refl;
        above = o.0;
        large = omega arith;
        used = refl;
        present = inl refl;
        kept = used_behind lo hi x n xs (n ∷ (rest ∷ xs)) o free (omega arith) (λ b i. inr (inr i));
        only = only_cut x n rest xs refl;
      })
  | inr whole ↦
      let n = record x { freed = 0 } in
      rw whole (record {
        block = n;
        address = refl;
        above = o.0;
        large = big;
        used = refl;
        present = inl refl;
        kept = used_behind lo hi x n xs (n ∷ xs) o free (omega arith) (λ b i. inr i);
        only = λ b i u. elim i [ inl e ↦ inr e | inr j ↦ inl (inr j) ];
      })
]

given_behind :
    (size lo hi : ℕ) (x : Block) (xs : List Block) (r : Option (ℕ × List Block))
    → lo ≤ x.at
    → GivenIf size (stop x) xs r
    → GivenIf size lo (x ∷ xs) (elim r [ none ↦ none | some (a, cs) ↦ some (a, x ∷ cs) ])
given_behind size lo hi x xs none le g = tt
given_behind size lo hi x xs (some (a, cs)) le g = record {
  block = g.block;
  address = g.address;
  above = omega (arith, g.above);
  large = g.large;
  used = g.used;
  present = inr g.present;
  kept = kept;
  only = λ b i u. elim i [
    | inl e ↦ inl (inl e)
    | inr j ↦ elim (g.only b j u) [ inl old ↦ inl (inr old) | inr new ↦ inr new ]
  ];
}
  where
    kept : (b : Block) → In b (x ∷ xs) → b.freed ≡ 0 → In b (x ∷ cs) × Apart b g.block
    kept b (inl e) u = (inl e, inl (rw e (omega (arith, g.above, g.address))))
    kept b (inr i) u = let (stays, apart) = g.kept b i u in (inr stays, apart)

fit-GivenIf :
    (size lo hi : ℕ) (bs : List Block) → Ordered lo bs hi → GivenIf size lo bs (fit size bs)
unfolding fit
fit-GivenIf size lo hi [] o = tt
fit-GivenIf size lo hi (x ∷ xs) o = elim (Bool-cases (not (x.freed == 0) && leb size x.size)) [
  | inl take ↦ rw take (Given-here size lo hi x xs o (ground arith) (ground arith))
  | inr skip ↦
      rw skip (given_behind size lo hi x xs (fit size xs) o.0 (fit-GivenIf size (stop x) hi xs o.1))
]

In-append : (b n : Block) (bs : List Block) → In b bs → In b (bs ++ n ∷ [])
In-append b n [] i = absurd i
In-append b n (x ∷ xs) (inl e) = inl e
In-append b n (x ∷ xs) (inr i) = inr (In-append b n xs i)

In-append_only : (b n : Block) (bs : List Block) → In b (bs ++ n ∷ []) → In b bs ⊎ (b ≡ n)
In-append_only b n [] (inl e) = inr e
In-append_only b n [] (inr i) = elim i [ ]
In-append_only b n (x ∷ xs) (inl e) = inl (inl e)
In-append_only b n (x ∷ xs) (inr i) = elim (In-append_only b n xs i) [
  | inl old ↦ inl (inr old)
  | inr new ↦ inr new
]

In-last : (n : Block) (bs : List Block) → In n (bs ++ n ∷ [])
In-last n [] = inl refl
In-last n (x ∷ xs) = inr (In-last n xs)

-- The same for the whole of malloc on the list.
alloc-Given :
    (size curr : ℕ) (bs : List Block)
    → Ordered 1 bs curr
    → let (addr, cs) = alloc size curr bs in
      (at : ℕ) × (addr ≡ at + header_size) × Given size 1 at bs cs
alloc-Given size curr bs o = go (fit size bs) (fit-GivenIf size 1 curr bs o)
  where
    go :
        (r : Option (ℕ × List Block))
        → GivenIf size 1 bs r
        → let out : ℕ × List Block = elim r [
          | none ↦ (curr + header_size, bs ++ fresh curr size ∷ [])
          | some (a, cs) ↦ (a + header_size, cs)
        ] in
          (at : ℕ) × (out.0 ≡ at + header_size) × Given size 1 at bs out.1
    go none g = (
      curr,
      refl,
      record {
        block = fresh curr size;
        address = refl;
        above = Ordered-le 1 bs curr o;
        large = omega arith;
        used = refl;
        present = In-last (fresh curr size) bs;
        kept = λ b i u. (In-append b _ bs i, inl (In-bounds b 1 bs curr o i).1);
        only = λ b i u. In-append_only b (fresh curr size) bs i;
      },
    )
    go (some (a, cs)) g = (a, refl, g)

-- On a well-formed heap with room, malloc returns the address behind the header of a block that is
-- in use, has at least `size` bytes and shares no byte with any block that was in use; those blocks
-- stay in use, no others are, and the heap is well formed again.
pub malloc-Given :
    (fuel size : ℕ) (h : Kheap) (bs : List Block)
    → IsHeap h bs
    → h.curr_addr + 4 * (size + header_size) ≤ 2 ^ 31
    → h.curr_addr ≤ fuel
    → (at : ℕ) × (h' : Kheap) × (cs : List Block) × (malloc fuel h size
        ≡ some (at + header_size, h'))
      × IsHeap h' cs
      × Given size 1 at bs cs
malloc-Given fuel size h bs heap room f =
    let (h', got, well) = malloc-IsHeap fuel size h bs heap room f in
    let (at, addr, given) = alloc-Given size h.curr_addr bs heap.ordered in
    (at, h', (alloc size h.curr_addr bs).1, got ∙ ap (λ (a : ℕ). some (a, h')) addr, well, given)
