-- ===== src/Kheap/Headers.antt =====
-- kheap_print_headers of src/kernel/kheap.c: what it prints of a heap.
use cookies_os.Base.{
  ℕ, zero, suc, ◌+◌, ◌*◌, ◌<◌, ◌≡◌, refl, sym, ap, ◌∙◌, arith, true, false, ◌==◌, if◌then◌else◌,
  Option, none, some, List, [], ◌∷◌, ◌++◌, length, u32, codes,
}
use cookies_os.Kheap.{Kheap, header_size}
use mathlib.Core.List.{append-nil}
use cookies_os.Kheap.Blocks.{Block, stop, Chain, Describes, Ordered, IsHeap}
use cookies_os.Terminal.{Term, int, str, term_write, term_vprintf, hex_text}
use cookies_os.Terminal.Text.{term_write-append}
use cookies_os.Terminal.Printf.{formatted, term_vprintf-some}

abbrev pub address_message : List ℕ
address_message = codes "\n[addr %x (real: %x) ]:\n"

abbrev pub size_message : List ℕ
size_message = codes "size: %x\n"

abbrev pub freed_message : List ℕ
freed_message = codes "freed: %s\n"

-- The body of the loop, for the header at `next`; adding a size to that pointer moves it 16 times as
-- many bytes.
unfoldable pub print_header : Kheap → ℕ → Term → Option Term
print_header h next t =
    elim (term_vprintf t address_message
      (int next ∷ int (u32 (next + header_size * header_size)) ∷ [])) [
        | none ↦ none
        | some t1 ↦ elim (term_vprintf t1 size_message (int (h.header next).size ∷ [])) [
          | none ↦ none
          | some t2 ↦
              let freed_msg = if (h.header next).freed == 0 then codes "No" else codes "Yes" in
              term_vprintf t2 freed_message (str freed_msg ∷ [])
        ]
      ]

-- `do ... while ((next = next->next))`.
unfoldable pub print_loop : ℕ → Kheap → ℕ → Term → Option Term
print_loop zero h next t = none
print_loop (suc fuel) h next t = elim (print_header h next t) [
  | none ↦ none
  | some t' ↦
      let next' = (h.header next).next in
      let rest = print_loop fuel h next' t' in if next' == 0 then some t' else rest
]

unfoldable pub kheap_print_headers : ℕ → Kheap → Term → Option Term
unfolding print_loop
kheap_print_headers fuel h t = print_loop fuel h h.frist_hh t

abbrev address_text : ℕ → List ℕ
address_text at =
    codes "\n[addr "
    ++ (hex_text at 8 ++ (codes " (real: " ++ (hex_text (u32 (at + 256)) 8 ++ codes ") ]:\n")))

abbrev size_text : ℕ → List ℕ
size_text size = codes "size: " ++ (hex_text size 8 ++ (b'\n' ∷ []))

abbrev freed_text : ℕ → List ℕ
freed_text freed =
    codes "freed: " ++ ((if freed == 0 then codes "No" else codes "Yes") ++ (b'\n' ∷ []))

-- The entry of a block: its address, what the pointer arithmetic makes of the address behind its
-- header, its size, and whether it is free.
unfoldable pub entry_text : ℕ → ℕ → ℕ → List ℕ
entry_text at size freed = (address_text at ++ size_text size) ++ freed_text freed

unfoldable pub entries_text : List Block → List ℕ
entries_text [] = []
entries_text (b ∷ bs) = entry_text b.at b.size b.freed ++ entries_text bs

print_header_steps :
    (h : Kheap) (next : ℕ) (t t1 t2 t3 : Term)
    → term_vprintf t address_message (int next ∷ int (u32 (next + header_size * header_size)) ∷ [])
      ≡ some t1
    → term_vprintf t1 size_message (int (h.header next).size ∷ []) ≡ some t2
    → term_vprintf t2 freed_message
        (str (if (h.header next).freed == 0 then codes "No" else codes "Yes") ∷ [])
      ≡ some t3
    → print_header h next t ≡ some t3
unfolding print_header
print_header_steps h next t t1 t2 t3 e1 e2 e3 = rw (e1, print_header) (rw e2 e3)

freed_line :
    (freed : ℕ)
    → formatted freed_message (str (if freed == 0 then codes "No" else codes "Yes") ∷ [])
      ≡ some (freed_text freed)
freed_line freed = refl

print_header-entry_text :
    (h : Kheap) (next : ℕ) (t : Term)
    → print_header h next t
      ≡ some (term_write t (entry_text next (h.header next).size (h.header next).freed))
unfolding entry_text
print_header-entry_text h next t =
    let here = h.header next in
    let t1 = term_write t (address_text next) in
    let t2 = term_write t1 (size_text here.size) in
    let t3 = term_write t2 (freed_text here.freed) in
    print_header_steps h next t t1 t2 t3
      (term_vprintf-some t address_message
        (int next ∷ int (u32 (next + header_size * header_size)) ∷ []) (address_text next) refl)
      (term_vprintf-some t1 size_message (int here.size ∷ []) (size_text here.size) refl)
      (term_vprintf-some t2 freed_message
        (str (if here.freed == 0 then codes "No" else codes "Yes") ∷ []) (freed_text here.freed)
        (freed_line here.freed))
    ∙ ap some (
        sym (
          term_write-append t (address_text next ++ size_text here.size) (freed_text here.freed)
          ∙ ap (λ (u : Term). term_write u (freed_text here.freed))
              (term_write-append t (address_text next) (size_text here.size))))

print_loop_step :
    (fuel : ℕ) (h : Kheap) (next : ℕ) (t t' : Term)
    → print_header h next t ≡ some t'
    → print_loop (suc fuel) h next t
      ≡ (if (h.header next).next == 0 then some t' else print_loop fuel h (h.header next).next t')
unfolding print_loop
print_loop_step fuel h next t t' e = rw (e, print_loop) refl

-- One block, and whether the loop goes on.
printed_block :
    (fuel : ℕ) (h : Kheap) (b : Block) (t : Term)
    → Describes h.header b
    → print_loop (suc fuel) h b.at t ≡ (
        if (h.header b.at).next == 0
        then some (term_write t (entry_text b.at b.size b.freed))
        else print_loop fuel h (h.header b.at).next (term_write t (entry_text b.at b.size b.freed)))
printed_block fuel h b t d =
    print_loop_step fuel h b.at t (term_write t (entry_text b.at b.size b.freed)) (
      print_header-entry_text h b.at t
      ∙ ap (λ n. some (term_write t (entry_text b.at n (h.header b.at).freed))) d.size
      ∙ ap (λ n. some (term_write t (entry_text b.at b.size n))) d.freed)

print_loop-entries :
    (fuel : ℕ) (h : Kheap) (lo hi : ℕ) (b : Block) (bs : List Block) (t : Term)
    → 0 < lo
    → Chain h.header b.at (b ∷ bs)
    → Ordered lo (b ∷ bs) hi
    → length bs < fuel
    → print_loop fuel h b.at t ≡ some (term_write t (entries_text (b ∷ bs)))
unfolding entries_text
print_loop-entries zero h lo hi b bs t pos chain o enough = absurd (omega arith)
print_loop-entries (suc fuel) h lo hi b [] t pos (here, d, last) o enough =
    let ends : (h.header b.at).next == 0 ≡ true = ground (arith, last) in
    printed_block fuel h b t d
    ∙ rw ends (ap (λ s. some (term_write t s)) (sym (append-nil (entry_text b.at b.size b.freed))))
print_loop-entries (suc fuel) h lo hi b (c ∷ cs) t pos (here, d, (next, dc, rest)) o enough =
    let go : (h.header b.at).next == 0 ≡ false = ground (arith, next, o.1.0, pos, o.0) in
    printed_block fuel h b t d
    ∙ rw go (
        rw next (
          print_loop-entries fuel h (stop b) hi c cs (term_write t (entry_text b.at b.size b.freed))
            (omega arith) (refl, dc, rest) o.1 (omega arith)
          ∙ ap some
              (sym (term_write-append t (entry_text b.at b.size b.freed) (entries_text (c ∷ cs))))))

-- On a well-formed heap with a block, kheap_print_headers returns and prints one entry for each block,
-- in the order of their addresses.
pub kheap_print_headers-entries :
    (fuel : ℕ) (h : Kheap) (b : Block) (bs : List Block) (t : Term)
    → IsHeap h (b ∷ bs)
    → length bs < fuel
    → kheap_print_headers fuel h t ≡ some (term_write t (entries_text (b ∷ bs)))
unfolding kheap_print_headers
kheap_print_headers-entries fuel h b bs t heap enough =
    let first : h.frist_hh ≡ b.at = heap.chain.0 in
    ap (λ n. print_loop fuel h n t) first
    ∙ print_loop-entries fuel h 1 h.curr_addr b bs t (omega arith)
        (refl, heap.chain.1, heap.chain.2) heap.ordered enough
