-- ===== src/Kheap/Borrow.antt =====
-- A block that is allocated and freed again leaves the same blocks in use.
use cookies_os.Base.{
  ℕ, ◌+◌, ◌*◌, ◌^◌, ◌≤◌, ◌≡◌, ◌≢◌, ◌↔◌, inl, inr, sym, ap, ◌∙◌, arith, true, some, List, [], ◌==◌,
}
use cookies_os.Kheap.{Kheap, Yell, header_size, malloc, free}
use cookies_os.Kheap.Blocks.{Block, Apart, IsHeap}
use cookies_os.Kheap.Safe.{Given, malloc-Given}
use cookies_os.Kheap.Free.{yells_for}
use cookies_os.Kheap.Merged.{Uses, Freed, free-Freed}

-- Blocks that share no byte have headers at different addresses.
Apart-ne : (b c : Block) → Apart b c → b.at ≢ c.at
Apart-ne b c apart e = omega (arith, e, apart)

pub yells_for_used : (b : Block) → b.freed ≡ 0 → yells_for b ≡ []
yells_for_used b used = let quiet : (b.freed == 0) ≡ true = ground arith in rw quiet

-- The blocks in use when the block that was given is freed again.
pub Uses-same :
    (size at : ℕ) (bs cs ds : List Block) (g : Given size 1 at bs cs)
    → Freed g.block.at cs ds
    → (b : Block) → Uses ds b ↔ Uses bs b
Uses-same size at bs cs ds g f b = (
  λ used.
      let ((present, freed), ne) = (f.uses b).0 used in
      elim (g.only b present freed) [
        | inl old ↦ (old, freed)
        | inr new ↦ absurd (ne (ap (λ (k : Block). k.at) new))
      ],
  λ (present, freed).
      let (stays, apart) = g.kept b present freed in
      (f.uses b).1 ((stays, freed), Apart-ne b g.block apart),
)

-- What was borrowed and given back.
pub record Borrowed (bs : List Block) (h' : Kheap) : Type 0 where
  pub blocks : List Block
  pub well : IsHeap h' blocks
  pub uses : (b : Block) → Uses blocks b ↔ Uses bs b

-- The same blocks in use, twice over.
pub Borrowed-trans :
    (bs : List Block) (h1 h2 : Kheap) (b1 : Borrowed bs h1) → Borrowed b1.blocks h2 → Borrowed bs h2
Borrowed-trans bs h1 h2 b1 b2 = record {
  blocks = b2.blocks;
  well = b2.well;
  uses = λ b. (λ u. (b1.uses b).0 ((b2.uses b).0 u), λ u. (b2.uses b).1 ((b1.uses b).1 u));
}

-- A block that was given, freed again.
pub give_back :
    (fuel size at : ℕ) (h1 : Kheap) (bs mid : List Block)
    → IsHeap h1 mid
    → Given size 1 at bs mid
    → 2 ^ 31 ≤ fuel
    → (h2 : Kheap) × (free fuel h1 (at + header_size) ≡ some ([], h2)) × Borrowed bs h2
give_back fuel size at h1 bs mid well1 given f =
    let (h2, final, got2, well2, freed) =
      free-Freed fuel h1 given.block mid well1 given.present (omega (arith, well1.room)) in
    (
      h2,
      ap (λ a. free fuel h1 (a + header_size)) (sym given.address)
          ∙ got2
          ∙ ap (λ (l : List Yell). some (l, h2)) (yells_for_used given.block given.used),
      record { blocks = final; well = well2; uses = Uses-same size at bs mid final given freed },
    )

-- On a well-formed heap with room, a block can be allocated and freed again: neither call complains, and
-- the heap that is left is well formed and has exactly the same blocks in use.
pub free-malloc :
    (fuel size : ℕ) (h : Kheap) (bs : List Block)
    → IsHeap h bs
    → h.curr_addr + 4 * (size + header_size) ≤ 2 ^ 31
    → 2 ^ 31 ≤ fuel
    → (p : ℕ) × (h1 : Kheap) × (h2 : Kheap) × (malloc fuel h size ≡ some (p, h1))
      × (free fuel h1 p ≡ some ([], h2))
      × Borrowed bs h2
free-malloc fuel size h bs heap room f =
    let (at, h1, mid, got, well1, given) =
      malloc-Given fuel size h bs heap room (omega (arith, heap.room)) in
    let (h2, freed, back) = give_back fuel size at h1 bs mid well1 given f in
    (at + header_size, h1, h2, got, freed, back)

-- Two blocks that were given one after the other, freed in that order.
pub give_back_two :
    (fuel s2 s3 a2 a3 : ℕ) (h : Kheap) (bs mid2 mid3 : List Block)
    → (g2 : Given s2 1 a2 bs mid2) → (g3 : Given s3 1 a3 mid2 mid3) → IsHeap h mid3
    → 2 ^ 31 ≤ fuel
    → (h1 : Kheap) × (h2 : Kheap) × (free fuel h (a2 + header_size) ≡ some ([], h1))
      × (free fuel h1 (a3 + header_size) ≡ some ([], h2))
      × Borrowed bs h2
give_back_two fuel s2 s3 a2 a3 h bs mid2 mid3 g2 g3 heap f =
    let b2 = g2.block in
    let b3 = g3.block in
    let (stays, apart) = g3.kept b2 g2.present g2.used in
    let distinct = Apart-ne b2 b3 apart in
    let (h1, ds, got1, well1, f1) =
      free-Freed fuel h b2 mid3 heap stays (omega (arith, heap.room)) in
    let still = (f1.uses b3).1 ((g3.present, g3.used), λ e. distinct (sym e)) in
    let (h2, es, got2, well2, f2) =
      free-Freed fuel h1 b3 ds well1 still.0 (omega (arith, well1.room)) in
    (
      h1,
      h2,
      ap (λ a. free fuel h (a + header_size)) (sym g2.address)
          ∙ got1
          ∙ ap (λ (l : List Yell). some (l, h1)) (yells_for_used b2 g2.used),
      ap (λ a. free fuel h1 (a + header_size)) (sym g3.address)
          ∙ got2
          ∙ ap (λ (l : List Yell). some (l, h2)) (yells_for_used b3 g3.used),
      record {
        blocks = es;
        well = well2;
        uses = λ b. (
          λ used.
              let (used_ds, ne3) = (f2.uses b).0 used in
              let ((present, freed), ne2) = (f1.uses b).0 used_ds in
              elim (g3.only b present freed) [
                | inl old ↦ elim (g2.only b old freed) [
                  | inl older ↦ (older, freed)
                  | inr new ↦ absurd (ne2 (ap (λ (k : Block). k.at) new))
                ]
                | inr new ↦ absurd (ne3 (ap (λ (k : Block). k.at) new))
              ],
          λ (present, freed).
              let (in2, apart2) = g2.kept b present freed in
              let (in3, apart3) = g3.kept b in2 freed in
              (f2.uses b).1
                ((f1.uses b).1 ((in3, freed), Apart-ne b b2 apart2), Apart-ne b b3 apart3),
        );
      },
    )
