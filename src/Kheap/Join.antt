-- ===== src/Kheap/Join.antt =====
-- The body of the loop of _merge_free_blocks.
use cookies_os.Base.{
  ℕ, ◌+◌, ◌^◌, ◌≤◌, ◌<◌, ◌≡◌, ◌≢◌, refl, arith, true, false, Option, none, some, List, [], ◌∷◌,
  ◌==◌, write, u32,
}
use cookies_os.Kheap.{Kheap, header_size, merge_body}
use cookies_os.Kheap.Blocks.{
  Block, stop, Describes, Chain, Ordered, grow, Describes-same, Chain-same, Ordered-le, Became,
}

-- The pointer `current`, and the chain with the block that it points to in front.
abbrev pub current_of : Option Block → ℕ
current_of none = 0
current_of (some c) = c.at

abbrev pub start : Option Block → ℕ → ℕ
start none p = p
start (some c) p = c.at

abbrev pub pending : Option Block → List Block → List Block
pending none bs = bs
pending (some c) bs = c ∷ bs

-- A region may begin lower.
pub Ordered-weaken :
    (lo lo' : ℕ) (bs : List Block) (hi : ℕ) → lo' ≤ lo → Ordered lo bs hi → Ordered lo' bs hi
Ordered-weaken lo lo' [] hi le o = omega arith
Ordered-weaken lo lo' (b ∷ bs) hi le o = (omega (arith, o.0), o.1)

-- What the body does when it adds the free block at `q` to the one at `p`.
pub record Grown (h h' : Kheap) (p q : ℕ) : Type 0 where
  pub front : h'.header p ≡ record (h.header p) {
    size = u32 ((h.header p).size + (h.header q).size + header_size);
    next = (h.header q).next;
  }
  pub others : (a : ℕ) → p ≢ a → h'.header a ≡ h.header a
  pub last : h'.last_hh ≡ h.last_hh
  pub curr : h'.curr_addr ≡ h.curr_addr
  pub frist : h'.frist_hh ≡ h.frist_hh

module _ (h : Kheap) (p q : ℕ) where
  pub merge_body-live : (h.header q).freed ≡ 0 → merge_body q p h ≡ (0, h)
  unfolding merge_body
  merge_body-live e = rw e

  pub merge_body-begin : (h.header q).freed ≢ 0 → p ≡ 0 → merge_body q p h ≡ (q, h)
  unfolding merge_body
  merge_body-begin free e = let t : ((h.header q).freed == 0) ≡ false = ground arith in rw (t, e)

  pub merge_body-grow :
      (h.header q).freed ≢ 0
      → p ≢ 0
      → p ≢ q
      → (h' : Kheap) × (merge_body q p h ≡ (p, h')) × Grown h h' p q
  unfolding merge_body write
  merge_body-grow free ne apart =
      let t : ((h.header q).freed == 0) ≡ false = ground arith in
      let u : (p == 0) ≡ false = ground arith in
      let same : (p == p) ≡ true = ground arith in
      let off : (p == q) ≡ false = ground arith in
      (
        (merge_body q p h).1,
        rw (t, u),
        rw (t, u)
            (record {
              front = simp (same, off);
              others = λ a na. let v : (p == a) ≡ false = ground arith in simp v;
              last = refl;
              curr = refl;
              frist = refl;
            }),
      )

-- What the loop makes of the blocks.
abbrev pub Merged : Kheap → ℕ → ℕ → ℕ → ℕ → List Block → Option Kheap → Type 0
Merged h d lo hi p cs r = (h' : Kheap) × (r ≡ some h') × Became h h' d lo hi p cs

-- The blocks in front of `bs` that are final: the run so far, and the allocated block `b`.
module _ (h : Kheap) (d lo hi : ℕ) (b : Block) (here : Describes h.header b) where
  pub keep_live :
      (cur : Option Block) (p : ℕ) (bs cs : List Block) (r : Option Kheap)
      → Ordered lo (pending cur (b ∷ bs)) hi
      → Chain h.header (start cur b.at) (pending cur (b ∷ bs))
      → (h.header b.at).next ≡ p
      → Merged h b.at (stop b) hi p cs r
      → Merged h d lo hi (start cur b.at) (pending cur (b ∷ cs)) r
  keep_live none p bs cs r o c e (h', got, w) =
      let same = w.below b.at (omega arith) in
      (
        h',
        got,
        record {
          chain = (refl, Describes-same same here, rw (same, e) w.chain);
          ordered = (o.0, w.ordered);
          below = λ a lt. w.below a (omega (arith, o.0));
          last = w.last;
          curr = w.curr;
          frist = w.frist;
        },
      )
  keep_live (some k) p bs cs r o c e (h', got, w) =
      let same = w.below b.at (omega arith) in
      let same_k = w.below k.at (omega (arith, o.1)) in
      (
        h',
        got,
        record {
          chain = (
            refl,
            Describes-same same_k c.1,
            (rw same_k c.2.0, Describes-same same here, rw (same, e) w.chain),
          );
          ordered = (o.0, (o.1.0, w.ordered));
          below = λ a lt. w.below a (omega (arith, o));
          last = w.last;
          curr = w.curr;
          frist = w.frist;
        },
      )

-- The heap and the run after the body has met the free block `b`.
abbrev pub next_run : Option Block → Block → Block
next_run none b = b
next_run (some c) b = grow c b

pub record Joined (h h' : Kheap) (lo hi : ℕ) (cur : Option Block) (b : Block) (bs : List Block)
    : Type 0 where
  pub body : merge_body b.at (current_of cur) h ≡ ((next_run cur b).at, h')
  pub chain : Chain h'.header (next_run cur b).at (next_run cur b ∷ bs)
  pub ordered : Ordered lo (next_run cur b ∷ bs) hi
  pub next : (h'.header b.at).next ≡ (h.header b.at).next
  pub below : (a : ℕ) → a < lo → h'.header a ≡ h.header a
  pub last : h'.last_hh ≡ h.last_hh
  pub curr : h'.curr_addr ≡ h.curr_addr
  pub frist : h'.frist_hh ≡ h.frist_hh

module _ (h : Kheap) (lo hi : ℕ) (b : Block) (bs : List Block) (small : hi ≤ 2 ^ 31) (pos : 1 ≤ lo)
    (free : b.freed ≢ 0) where
  pub join :
      (cur : Option Block)
      → Ordered lo (pending cur (b ∷ bs)) hi
      → Chain h.header (start cur b.at) (pending cur (b ∷ bs))
      → (h' : Kheap) × Joined h h' lo hi cur b bs
  join none o c = (
    h,
    record {
      body = merge_body-begin h 0 b.at (λ e. free (omega (arith, c.1.freed))) refl;
      chain = c;
      ordered = o;
      next = refl;
      below = λ a lt. refl;
      last = refl;
      curr = refl;
      frist = refl;
    },
  )
  join (some k) o c =
      let here : Describes h.header b = c.2.1 in
      let far = Ordered-le (stop b) bs hi o.1.1 in
      let (h', got, g) =
        merge_body-grow h k.at b.at (λ e. free (omega (arith, here.freed))) (omega (arith, o))
          (omega (arith, o)) in
      (
        h',
        record {
          body = got;
          chain = (
            refl,
            record {
              magic = rw g.front c.1.magic;
              size = rw (g.front, c.1.size, here.size) (omega (arith, o));
              freed = rw g.front c.1.freed;
            },
            rw g.front
                (Chain-same (stop b) hi _ bs o.1.1 (λ a le. g.others a (omega (arith, o))) c.2.2),
          );
          ordered = (o.0, Ordered-weaken (stop b) _ bs hi (omega (arith, o)) o.1.1);
          next = rw (g.others b.at (omega (arith, o)));
          below = λ a lt. g.others a (omega (arith, o));
          last = g.last;
          curr = g.curr;
          frist = g.frist;
        },
      )
