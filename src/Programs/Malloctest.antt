-- ===== src/Programs/Malloctest.antt =====
-- malloctest_prog on a well-formed heap.
use cookies_os.Base.{ℕ, ◌+◌, ◌*◌, ◌^◌, ◌≤◌, ◌≡◌, refl, ◌∙◌, arith, some, List, [], ◌∷◌, ◌++◌, codes}
use cookies_os.Terminal.{Term, int, term_write, hex_text}
use cookies_os.Kheap.{Kheap, header_size, malloc, free}
use cookies_os.Kheap.Blocks.{Block, IsHeap}
use cookies_os.Kheap.Safe.{malloc-Given}
use cookies_os.Kheap.Borrow.{Borrowed, Borrowed-trans, give_back, give_back_two}
use cookies_os.Kheap.Reach.{malloc_curr, free_curr}
use cookies_os.Machine.{Machine, print, kmalloc, kfree}
use cookies_os.Machine.Names.{bind_some, print-some, kmalloc-some, kfree-some}
use cookies_os.Programs.{malloctest_prog}

-- The line of one address.
abbrev pub line : List ℕ → ℕ → List ℕ
line head ptr = head ++ (hex_text ptr 8 ++ (b'\n' ∷ []))

abbrev started : Term → Term
started t = term_write t (codes "Testing malloc: \n")

abbrev first_line : Term → ℕ → Term
first_line t ptr1 = term_write (started t) (line (codes "ptr1: ") ptr1)

abbrev second_line : Term → ℕ → ℕ → Term
second_line t ptr1 ptr2 = term_write (first_line t ptr1) (line (codes "ptr2: ") ptr2)

-- What is printed of the three addresses.
abbrev pub addresses : Term → (ptr1 ptr2 ptr3 : ℕ) → Term
addresses t ptr1 ptr2 ptr3 = term_write (second_line t ptr1 ptr2) (line (codes "ptr3: ") ptr3)

-- What the program leaves.
pub record Tested (x : Machine) (bs : List Block) (x' : Machine) : Type 0 where
  pub ptr1 : ℕ
  pub ptr2 : ℕ
  pub ptr3 : ℕ
  pub heap : Borrowed bs x'.heap
  pub term : x'.term ≡ addresses x.term ptr1 ptr2 ptr3
  pub mem : x'.mem ≡ x.mem

-- The program, when each call succeeds.
runs :
    (fuel p1 p2 p3 : ℕ) (x : Machine) (h1 h2 h3 h4 h5 h6 : Kheap)
    → malloc fuel x.heap 8 ≡ some (p1, h1)
    → free fuel h1 p1 ≡ some ([], h2)
    → malloc fuel h2 8 ≡ some (p2, h3)
    → malloc fuel h3 16 ≡ some (p3, h4)
    → free fuel h4 p2 ≡ some ([], h5)
    → free fuel h5 p3 ≡ some ([], h6)
    → malloctest_prog fuel x ≡ some (tt, record x { heap = h6; term = addresses x.term p1 p2 p3 })
unfolding malloctest_prog
runs fuel p1 p2 p3 x h1 h2 h3 h4 h5 h6 e1 e2 e3 e4 e5 e6 =
    let at : Term → Kheap → Machine = λ t h. record x { term = t; heap = h } in
    let t1 = first_line x.term p1 in
    let t2 = second_line x.term p1 p2 in
    let t3 = addresses x.term p1 p2 p3 in
    bind_some (kmalloc fuel 8) _ (at (started x.term) x.heap) (at (started x.term) h1) p1
      (kmalloc-some fuel 8 p1 (at (started x.term) x.heap) h1 e1)
    ∙ bind_some (print (codes "ptr1: %x\n") (int p1 ∷ [])) _ (at (started x.term) h1) (at t1 h1) tt
        (print-some (at (started x.term) h1) (codes "ptr1: %x\n") (int p1 ∷ [])
          (line (codes "ptr1: ") p1) refl)
    ∙ bind_some (kfree fuel p1) _ (at t1 h1) (at t1 h2) tt (kfree-some fuel p1 (at t1 h1) h2 e2)
    ∙ bind_some (kmalloc fuel 8) _ (at t1 h2) (at t1 h3) p2
        (kmalloc-some fuel 8 p2 (at t1 h2) h3 e3)
    ∙ bind_some (print (codes "ptr2: %x\n") (int p2 ∷ [])) _ (at t1 h3) (at t2 h3) tt
        (print-some (at t1 h3) (codes "ptr2: %x\n") (int p2 ∷ []) (line (codes "ptr2: ") p2) refl)
    ∙ bind_some (kmalloc fuel 16) _ (at t2 h3) (at t2 h4) p3
        (kmalloc-some fuel 16 p3 (at t2 h3) h4 e4)
    ∙ bind_some (print (codes "ptr3: %x\n") (int p3 ∷ [])) _ (at t2 h4) (at t3 h4) tt
        (print-some (at t2 h4) (codes "ptr3: %x\n") (int p3 ∷ []) (line (codes "ptr3: ") p3) refl)
    ∙ bind_some (kfree fuel p2) _ (at t3 h4) (at t3 h5) tt (kfree-some fuel p2 (at t3 h4) h5 e5)
    ∙ kfree-some fuel p3 (at t3 h5) h6 e6

-- On a well-formed heap with room for its blocks, malloctest_prog returns and prints three addresses; the
-- heap is well formed again with exactly the same blocks in use, and the memory is as it was.
pub malloctest_prog-Tested :
    (fuel : ℕ) (x : Machine) (bs : List Block)
    → IsHeap x.heap bs
    → x.heap.curr_addr + 4 * (8 + header_size) + 4 * (8 + header_size) + 4 * (16 + header_size)
      ≤ 2 ^ 31
    → 2 ^ 31 ≤ fuel
    → (x' : Machine) × (malloctest_prog fuel x ≡ some (tt, x')) × Tested x bs x'
malloctest_prog-Tested fuel x bs heap room f =
    let (a1, h1, mid1, e1, well1, g1) =
      malloc-Given fuel 8 x.heap bs heap (omega (arith, room)) (omega (arith, heap.room)) in
    let (h2, e2, back) = give_back fuel 8 a1 h1 bs mid1 well1 g1 f in
    let p1 = a1 + header_size in
    let c1 = malloc_curr fuel 8 x.heap p1 h1 (omega (arith, room)) e1 in
    let c2 = free_curr fuel p1 h1 [] h2 e2 in
    let (a2, h3, mid2, e3, well2, g2) =
      malloc-Given fuel 8 h2 back.blocks back.well (omega (arith, room, c1, c2))
        (omega (arith, back.well.room)) in
    let p2 = a2 + header_size in
    let c3 = malloc_curr fuel 8 h2 p2 h3 (omega (arith, room, c1, c2)) e3 in
    let (a3, h4, mid3, e4, well3, g3) =
      malloc-Given fuel 16 h3 mid2 well2 (omega (arith, room, c1, c2, c3))
        (omega (arith, well2.room)) in
    let p3 = a3 + header_size in
    let (h5, h6, e5, e6, end) =
      give_back_two fuel 8 16 a2 a3 h4 back.blocks mid2 mid3 g2 g3 well3 f in
    (
      record x { heap = h6; term = addresses x.term p1 p2 p3 },
      runs fuel p1 p2 p3 x h1 h2 h3 h4 h5 h6 e1 e2 e3 e4 e5 e6,
      record {
        ptr1 = p1;
        ptr2 = p2;
        ptr3 = p3;
        heap = Borrowed-trans bs h2 h6 back end;
        term = refl;
        mem = refl;
      },
    )
