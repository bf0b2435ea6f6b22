-- ===== src/Kheap/Split.antt =====
-- _split_block.
use cookies_os.Base.{
  ℕ, ◌+◌, ◌-◌, ◌^◌, ◌≤◌, ◌<◌, ◌≡◌, ◌≢◌, inl, inr, refl, arith, true, false, List, [], ◌∷◌, ltb,
  ◌==◌, if◌then◌else◌, Bool-cases, write, write_at, write_off, ap, ◌∙◌, u32,
}
use cookies_os.Kheap.{
  KheapHeader, magic_kheap, Kheap, header_size, remainder, is_positive, split_block,
}
use cookies_os.Kheap.Blocks.{
  Block, stop, Describes, Chain, Ordered, last_of, carve, Chain-same, Ordered-le, Became,
}

-- The loop's test is the comparison that `carve` makes.
pub positive_iff :
    (have size : ℕ)
    → size ≤ have
    → have ≤ 2 ^ 31
    → is_positive (remainder have size) ≡ ltb (size + header_size) have
positive_iff have size le small = ground arith

-- What a split writes, with `new` the address of the header split off.
pub record Split (g g' : Kheap) (p size new : ℕ) : Type 0 where
  pub front : g'.header p ≡ record (g.header p) { size = size; next = new }
  pub back : g'.header new ≡ record {
    magic_number = magic_kheap;
    size = remainder (g.header p).size size;
    freed = 1;
    next = (g.header p).next;
  }
  pub others : (a : ℕ) → a ≢ p → a ≢ new → g'.header a ≡ g.header a
  pub last : g'.last_hh ≡ (if (g.header p).next == 0 then new else g.last_hh)
  pub curr : g'.curr_addr ≡ g.curr_addr
  pub frist : g'.frist_hh ≡ g.frist_hh

module _ (g : Kheap) (p size : ℕ) where
  pub split_block-whole :
      is_positive (remainder (g.header p).size size) ≡ false → (split_block g p size).0 ≡ g
  unfolding split_block
  split_block-whole e = rw e

  pub split_block-Split :
      (new : ℕ)
      → is_positive (remainder (g.header p).size size) ≡ true
      → u32 (p + header_size + size) ≡ new
      → p < new
      → Split g (split_block g p size).0 p size new
  unfolding split_block write
  split_block-Split new e at lt =
      let same : (new == new) ≡ true = ground arith in
      let same_p : (p == p) ≡ true = ground arith in
      let up : (p == new) ≡ false = ground arith in
      let down : (new == p) ≡ false = ground arith in
      rw (e, at)
        (record {
          front = simp (same, same_p, down);
          back = simp (same, same_p, up, down);
          others = λ a q r.
              let off_p : (p == a) ≡ false = ground arith in
              let off_new : (new == a) ≡ false = ground arith in simp (off_p, off_new);
          last = simp (same, same_p, up, down);
          curr = refl;
          frist = refl;
        })

-- A free block that is taken.
unfoldable pub taken_heap : Kheap → ℕ → Kheap
taken_heap h p = record h { header = write h.header p (record (h.header p) { freed = 0 }) }

-- The `next` pointer in front of a chain is NULL exactly at its end.
pub next_of_Chain :
    (hdr : ℕ → KheapHeader) (p lo hi : ℕ) (bs : List Block) (x y z : ℕ)
    → 1 ≤ lo
    → Ordered lo bs hi
    → Chain hdr p bs
    → y ≡ last_of z bs
    → (if p == 0 then x else y) ≡ last_of x bs
next_of_Chain hdr p lo hi [] x y z pos o c e = ground arith
next_of_Chain hdr p lo hi (b ∷ bs) x y z pos o c e = ground arith

module _ (h : Kheap) (d lo hi size : ℕ) (b : Block) (bs : List Block) (here : Describes h.header b)
    (rest : Chain h.header (h.header b.at).next bs) (order : Ordered lo (b ∷ bs) hi)
    (small : hi ≤ 2 ^ 31) (pos : 1 ≤ lo) (big : size ≤ b.size)
    (last : h.last_hh ≡ last_of b.at bs) where
  abbrev pub g : Kheap
  g = taken_heap h b.at

  pub g_at : g.header b.at ≡ record (h.header b.at) { freed = 0 }
  unfolding taken_heap
  g_at = write_at h.header b.at _ b.at refl

  pub g_off : (a : ℕ) → b.at ≢ a → g.header a ≡ h.header a
  unfolding taken_heap
  g_off a ne = write_off h.header b.at _ a ne

  pub g_same : (g.last_hh ≡ h.last_hh) × (g.curr_addr ≡ h.curr_addr) × (g.frist_hh ≡ h.frist_hh)
  unfolding taken_heap
  g_same = (refl, refl, refl)

  pub whole-Became : Became h g d lo hi b.at (record b { freed = 0 } ∷ bs)
  whole-Became = record {
    chain = (
      refl,
      record { magic = rw g_at here.magic; size = rw g_at here.size; freed = rw g_at },
      rw g_at (Chain-same (stop b) hi _ bs order.1 (λ a le. g_off a (omega arith)) rest),
    );
    ordered = order;
    below = λ a lt. g_off a (omega (arith, order.0));
    last = g_same.0 ∙ last;
    curr = g_same.1;
    frist = g_same.2;
  }

  abbrev pub new : ℕ
  new = b.at + header_size + size

  pub cut-Became :
      size + header_size < b.size
      → (g' : Kheap) → Split g g' b.at size new
      → Became h g' d lo hi b.at (
          record { at = b.at; size = size; freed = 0 }
          ∷ (record { at = new; size = b.size - size - header_size; freed = 1 } ∷ bs))
  cut-Became room g' s =
      let far = Ordered-le (stop b) bs hi order.1 in
      let front : g'.header b.at ≡ record (h.header b.at) { freed = 0; size = size; next = new } =
        s.front ∙ ap (λ (k : KheapHeader). record k { size = size; next = new }) g_at in
      record {
        chain = (
          refl,
          record { magic = rw front here.magic; size = rw front; freed = rw front },
          (
            rw front,
            record {
              magic = rw s.back;
              size = rw (s.back, g_at, here.size) (omega arith);
              freed = rw s.back;
            },
            rw (s.back, g_at)
                (Chain-same (stop b) hi _ bs order.1
                  (λ a le. s.others a (omega arith) (omega arith) ∙ g_off a (omega arith)) rest),
          ),
        );
        ordered = (
          order.0,
          (
            omega arith,
            let end : stop b ≡ new + header_size + (b.size - size - header_size) = omega arith in
                rw end at order.1,
          ),
        );
        below = λ a lt.
            s.others a (omega (arith, order.0)) (omega (arith, order.0))
            ∙ g_off a (omega (arith, order.0));
        last =
            s.last
            ∙ rw (g_at, g_same.0)
                (next_of_Chain h.header _ (stop b) hi bs new h.last_hh b.at (omega arith) order.1
                  rest last);
        curr = s.curr ∙ g_same.1;
        frist = s.frist ∙ g_same.2;
      }

  -- Taking the block and splitting it makes of the list what `carve` does.
  pub split-Became : Became h (split_block g b.at size).0 d lo hi b.at (carve size b bs)
  split-Became =
      let far = Ordered-le (stop b) bs hi order.1 in
      let have : (g.header b.at).size ≡ b.size = rw g_at here.size in
      let test = positive_iff b.size size big (omega (arith, order.0)) in
      elim (Bool-cases (ltb (size + header_size) b.size)) [
        | inl cut ↦ rw cut (
            cut-Became (ground arith) _ (
              split_block-Split g b.at size new (rw have (test ∙ cut)) (omega (arith, order.0))
                (omega arith)))
        | inr whole ↦
            rw (whole, split_block-whole g b.at size (rw have (test ∙ whole))) whole-Became
      ]

-- A search that finds nothing leaves the heap; one that finds a block takes it.
