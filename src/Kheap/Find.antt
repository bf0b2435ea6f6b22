-- ===== src/Kheap/Find.antt =====
-- _split_block and _find_good_block.
use cookies_os.Base.{
  ℕ, zero, suc, ◌^◌, ◌≤◌, ◌<◌, ◌≡◌, inl, inr, refl, arith, true, false, Option, none, some, List,
  [], ◌∷◌, leb, ◌==◌, not, ◌&&◌, if◌then◌else◌, length, Bool-cases,
}
use cookies_os.Kheap.{Kheap, split_block, find_loop}
use cookies_os.Kheap.Blocks.{
  Block, stop, Describes, Chain, Ordered, last_of, carve, fit, Describes-same, Became,
}
use cookies_os.Kheap.Split.{taken_heap, split-Became}

abbrev pub Found : Kheap → ℕ → ℕ → ℕ → ℕ → Option (ℕ × List Block) → Option (ℕ × Kheap) → Type 0
Found h d lo hi p none r = r ≡ some (0, h)
Found h d lo hi p (some (a, cs)) r =
    (h' : Kheap) × (r ≡ some (a, h')) × (0 < a) × Became h h' d lo hi p cs

-- What is found behind a block is found from it.
Found-behind :
    (h : Kheap) (d lo hi p : ℕ) (b : Block) (fitted : Option (ℕ × List Block))
    (r : Option (ℕ × Kheap))
    → Describes h.header b
    → lo ≤ b.at
    → (h.header b.at).next ≡ p
    → Found h b.at (stop b) hi p fitted r
    → Found h d lo hi b.at (elim fitted [ none ↦ none | some (a, cs) ↦ some (a, b ∷ cs) ]) r
Found-behind h d lo hi p b none r here le e f = f
Found-behind h d lo hi p b (some (a, cs)) r here le e (h', got, pos, w) = (
  h',
  got,
  pos,
  let same = w.below b.at (omega arith) in
      record {
        chain = (refl, Describes-same same here, rw (same, e) w.chain);
        ordered = (le, w.ordered);
        below = λ a lt. w.below a (omega arith);
        last = w.last;
        curr = w.curr;
        frist = w.frist;
      },
)

-- One round: the block is taken if it is free and large enough, otherwise the rest decides.
Found-here :
    (size d lo hi : ℕ) (h : Kheap) (b : Block) (bs : List Block) (skip : Option (ℕ × List Block))
    (onward : Option (ℕ × Kheap))
    → Describes h.header b
    → Chain h.header (h.header b.at).next bs
    → Ordered lo (b ∷ bs) hi
    → hi ≤ 2 ^ 31
    → 1 ≤ lo
    → h.last_hh ≡ last_of b.at bs
    → Found h d lo hi b.at skip onward
    → Found h d lo hi b.at
        (if not (b.freed == 0) && leb size b.size then some (b.at, carve size b bs) else skip)
        (if (h.header b.at).freed == 0
          then onward
          else if leb size (h.header b.at).size
          then some (b.at, (split_block (taken_heap h b.at) b.at size).0)
          else onward)
Found-here size d lo hi h b bs skip onward here rest o small pos l f =
    rw (here.freed, here.size)
      (elim (Bool-cases (b.freed == 0)) [
        | inl live ↦ rw live f
        | inr free ↦ rw free (elim (Bool-cases (leb size b.size)) [
          | inl big ↦
              let enough : size ≤ b.size = ground arith in
              rw big (
                (split_block (taken_heap h b.at) b.at size).0,
                refl,
                omega (arith, o.0),
                split-Became h d lo hi size b bs here rest o small pos enough l,
              )
          | inr less ↦ rw less f
        ])
      ])

-- The loop from the first block finds what `fit` finds in the list.
pub find_loop-Found :
    (fuel size d lo hi : ℕ) (h : Kheap) (b : Block) (bs : List Block)
    → length bs < fuel
    → Describes h.header b
    → Chain h.header (h.header b.at).next bs
    → Ordered lo (b ∷ bs) hi
    → hi ≤ 2 ^ 31
    → 1 ≤ lo
    → h.last_hh ≡ last_of b.at bs
    → Found h d lo hi b.at (fit size (b ∷ bs)) (find_loop fuel size true b.at h)
unfolding find_loop fit taken_heap
find_loop-Found zero size d lo hi h b bs f here rest o small pos l = absurd (omega arith)
find_loop-Found (suc fuel) size d lo hi h b [] f here rest o small pos l =
    Found-here size d lo hi h b [] none
      (if (h.header b.at).next == 0
        then some (0, h)
        else find_loop fuel size true (h.header b.at).next h)
      here rest o small pos l (rw rest)
find_loop-Found (suc fuel) size d lo hi h b (c ∷ bs) f here rest o small pos l =
    let some_next : (c.at == 0) ≡ false = ground (arith, o.1) in
    Found-here size d lo hi h b (c ∷ bs)
      (elim (fit size (c ∷ bs)) [ none ↦ none | some (a, cs) ↦ some (a, b ∷ cs) ])
      (if (h.header b.at).next == 0
        then some (0, h)
        else find_loop fuel size true (h.header b.at).next h)
      here rest o small pos l
      (rw (rest.0, some_next)
        (Found-behind h d lo hi c.at b (fit size (c ∷ bs)) _ here o.0 rest.0 (
          find_loop-Found fuel size b.at (stop b) hi h c bs (omega arith) rest.1 rest.2 o.1 small
            (omega arith) l)))
