-- ===== src/Kheap/Merged.antt =====
-- What merging does to the list: no block in use is touched, no byte is lost, and no two free
-- blocks are neighbours.
use cookies_os.Base.{
  ℕ, ◌+◌, ◌≤◌, ◌≡◌, ◌≢◌, ◌⊎◌, ◌↔◌, inl, inr, refl, sym, ap, arith, Option, none, some, List, [],
  ◌∷◌, ◌==◌, Bool-cases, ◌∙◌,
}
use mathlib.Core.Bool.{Bool}
use cookies_os.Kheap.{Kheap, header_size, free}
use cookies_os.Kheap.Blocks.{Block, IsHeap, grow, merge_from, In}
use cookies_os.Kheap.Free.{mark, mark_same, yells_for, free-IsHeap}

-- A block that is in use.
abbrev pub Uses : List Block → Block → Type 0
Uses bs b = In b bs × (b.freed ≡ 0)

-- The bytes of the blocks, headers included.
unfoldable pub bytes : List Block → ℕ
bytes [] = 0
bytes (b ∷ bs) = header_size + b.size + bytes bs

-- No free block follows a free one; `freed` is the flag of the block in front.
abbrev pub Separated : ℕ → List Block → Type 0
Separated freed [] = Unit {0}
Separated freed (b ∷ bs) = ((freed ≡ 0) ⊎ (b.freed ≡ 0)) × Separated b.freed bs

abbrev with_run : Option Block → List Block → List Block
with_run none bs = bs
with_run (some c) bs = c ∷ bs

Separated-live : (b : Block) (cs : List Block) → b.freed ≡ 0 → Separated 0 cs → Separated b.freed cs
Separated-live b cs e s = rw e s

merge_from-Separated : (cur : Option Block) (bs : List Block) → Separated 0 (merge_from cur bs)
unfolding merge_from
merge_from-Separated none [] = tt
merge_from-Separated (some c) [] = (inl refl, tt)
merge_from-Separated none (b ∷ bs) = elim (Bool-cases (b.freed == 0)) [
  | inl live ↦ rw live (inl refl, Separated-live b _ (ground arith) (merge_from-Separated none bs))
  | inr free ↦ rw free (merge_from-Separated (some b) bs)
]
merge_from-Separated (some c) (b ∷ bs) = elim (Bool-cases (b.freed == 0)) [
  | inl live ↦
      let zero_freed : b.freed ≡ 0 = ground arith in
      rw live
        (inl refl, (inr zero_freed, Separated-live b _ zero_freed (merge_from-Separated none bs)))
  | inr free ↦ rw free (merge_from-Separated (some (grow c b)) bs)
]

bytes-merge_from :
    (cur : Option Block) (bs : List Block) → bytes (merge_from cur bs) ≡ bytes (with_run cur bs)
unfolding merge_from bytes
bytes-merge_from none [] = refl
bytes-merge_from (some c) [] = refl
bytes-merge_from none (b ∷ bs) = elim (Bool-cases (b.freed == 0)) [
  | inl live ↦ rw live (omega (arith, bytes-merge_from none bs))
  | inr free ↦ rw free (bytes-merge_from (some b) bs)
]
bytes-merge_from (some c) (b ∷ bs) = elim (Bool-cases (b.freed == 0)) [
  | inl live ↦ rw live (omega (arith, bytes-merge_from none bs))
  | inr free ↦ rw free (omega (arith, bytes-merge_from (some (grow c b)) bs))
]

-- The blocks in use are the same; those of a run are free.
abbrev IsRun : Option Block → Type 0
IsRun none = Unit {0}
IsRun (some c) = c.freed ≢ 0

⊎_map : {A B C D : Type 0} → (A → C) → (B → D) → A ⊎ B → C ⊎ D
⊎_map f g (inl a) = inl (f a)
⊎_map f g (inr b) = inr (g b)

-- A block in use is not the head of a list that is free.
not_head : (b x : Block) (bs : List Block) → b.freed ≢ 0 → x.freed ≡ 0 → In x (b ∷ bs) → In x bs
not_head b x bs free u (inl e) = absurd (free (ap (λ (k : Block). k.freed) (sym e) ∙ u))
not_head b x bs free u (inr i) = i

not_free :
    (b x : Block) (bs : List Block)
    → (b.freed == 0) ≡ Bool.false
    → x.freed ≡ 0
    → In x (b ∷ bs)
    → In x bs
not_free b x bs free u i = not_head b x bs (ground arith) u i

merge_from-uses :
    (cur : Option Block) (bs : List Block) (x : Block)
    → x.freed ≡ 0
    → In x bs
    → In x (merge_from cur bs)
unfolding merge_from
merge_from-uses cur [] x u i = absurd i
merge_from-uses none (b ∷ bs) x u i = elim (Bool-cases (b.freed == 0)) [
  | inl live ↦ rw live (⊎_map (λ e. e) (merge_from-uses none bs x u) i)
  | inr free ↦ rw free (merge_from-uses (some b) bs x u (not_free b x bs free u i))
]
merge_from-uses (some c) (b ∷ bs) x u i = elim (Bool-cases (b.freed == 0)) [
  | inl live ↦ rw live (inr (⊎_map (λ e. e) (merge_from-uses none bs x u) i))
  | inr free ↦ rw free (merge_from-uses (some (grow c b)) bs x u (not_free b x bs free u i))
]

merge_from-uses_only :
    (cur : Option Block) (bs : List Block) (x : Block)
    → IsRun cur
    → x.freed ≡ 0
    → In x (merge_from cur bs)
    → In x bs
unfolding merge_from
merge_from-uses_only none [] x r u i = i
merge_from-uses_only (some c) [] x r u (inl e) =
    absurd (r (ap (λ (k : Block). k.freed) (sym e) ∙ u))
merge_from-uses_only (some c) [] x r u (inr i) = i
merge_from-uses_only none (b ∷ bs) x r u i = elim (Bool-cases (b.freed == 0)) [
  | inl live ↦
      let j : In x (b ∷ merge_from none bs) = rw live at i in
      ⊎_map (λ e. e) (merge_from-uses_only none bs x tt u) j
  | inr free ↦ inr (merge_from-uses_only (some b) bs x (ground arith) u (rw free at i))
]
merge_from-uses_only (some c) (b ∷ bs) x r u i = elim (Bool-cases (b.freed == 0)) [
  | inl live ↦
      let j : In x (c ∷ (b ∷ merge_from none bs)) = rw live at i in
      ⊎_map (λ e. e) (merge_from-uses_only none bs x tt u)
        (not_head c x (b ∷ merge_from none bs) r u j)
  | inr free ↦ inr (merge_from-uses_only (some (grow c b)) bs x r u (rw free at i))
]

mark-uses : (a : ℕ) (bs : List Block) (x : Block) → x.at ≢ a → In x bs → In x (mark a bs)
mark-uses a [] x ne i = i
mark-uses a (b ∷ bs) x ne (inl e) =
    let off : (b.at == a) ≡ Bool.false = ground arith in rw off (inl e)
mark-uses a (b ∷ bs) x ne (inr i) = inr (mark-uses a bs x ne i)

mark-uses_only :
    (a : ℕ) (bs : List Block) (x : Block) → x.freed ≡ 0 → In x (mark a bs) → In x bs × (x.at ≢ a)
mark-uses_only a [] x u i = absurd i
mark-uses_only a (b ∷ bs) x u (inr i) = let (j, ne) = mark-uses_only a bs x u i in (inr j, ne)
mark-uses_only a (b ∷ bs) x u (inl e) = elim (Bool-cases (b.at == a)) [
  | inl here ↦
      let e' : x ≡ record b { freed = 1 } = rw here at e in
      absurd (omega (arith, ap (λ (k : Block). k.freed) e', u))
  | inr off ↦
      let e' : x ≡ b = rw off at e in (inl e', λ at. ground (arith, ap (λ (k : Block). k.at) e'))
]

bytes-mark : (a : ℕ) (bs : List Block) → bytes (mark a bs) ≡ bytes bs
unfolding bytes
bytes-mark a [] = refl
bytes-mark a (b ∷ bs) = omega (arith, bytes-mark a bs, mark_same a b)

-- What free makes of the list.
pub record Freed (a : ℕ) (bs cs : List Block) : Type 0 where
  pub separated : Separated 0 cs
  pub same_bytes : bytes cs ≡ bytes bs
  pub uses : (x : Block) → Uses cs x ↔ (Uses bs x × (x.at ≢ a))

Freed-merge_from : (a : ℕ) (bs : List Block) → Freed a bs (merge_from none (mark a bs))
Freed-merge_from a bs = record {
  separated = merge_from-Separated none (mark a bs);
  same_bytes = bytes-merge_from none (mark a bs) ∙ bytes-mark a bs;
  uses = λ x. (
    λ (i, u).
        let (j, ne) = mark-uses_only a bs x u (merge_from-uses_only none (mark a bs) x tt u i) in
        ((j, u), ne),
    λ ((i, u), ne). (merge_from-uses none (mark a bs) x u (mark-uses a bs x ne i), u),
  );
}

-- free of a block of a well-formed heap returns and reports exactly a block that was free already.
-- The heap is well formed again: the blocks in use are those from before without the one at that
-- address, no two free blocks are neighbours, and no byte is lost.
pub free-Freed :
    (fuel : ℕ) (h : Kheap) (b : Block) (bs : List Block)
    → IsHeap h bs
    → In b bs
    → h.curr_addr ≤ fuel
    → (h' : Kheap) × (cs : List Block) × (free fuel h (b.at + header_size) ≡ some (yells_for b, h'))
      × IsHeap h' cs
      × Freed b.at bs cs
free-Freed fuel h b bs heap i f =
    let (h', got, well) = free-IsHeap fuel h b bs heap i f in
    (h', merge_from none (mark b.at bs), got, well, Freed-merge_from b.at bs)
