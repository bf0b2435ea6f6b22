-- ===== src/Kheap/Reach.antt =====
-- How far the end of the heap moves: by one new block in malloc, and not at all in free.
use cookies_os.Base.{
  ℕ, zero, suc, ◌+◌, ◌-◌, ◌*◌, ◌^◌, ◌≤◌, ◌<◌, ◌≡◌, inl, inr, refl, ◌∙◌, arith, Bool, true, false,
  Bool-cases, not, leb, ◌==◌, if◌then◌else◌, Option, none, some, List, write, u32,
}
use cookies_os.Kheap.{
  Kheap, Yell, header_size, magic_kheap, split_block, remainder, is_positive, find_loop,
  find_good_block, append_block, malloc, merge_body, merge_end, merge_loop, merge_free_blocks, free,
}

split_block_curr :
    (h : Kheap) (header size : ℕ) → (split_block h header size).0.curr_addr ≡ h.curr_addr
unfolding split_block
split_block_curr h header size =
    elim (Bool-cases (is_positive (remainder (h.header header).size size))) [
      | inl cut ↦ rw cut refl
      | inr whole ↦ rw whole refl
    ]

-- The end of the heap in a result is `c`.
abbrev Ends : {A : Type 0} → ℕ → Option (A × Kheap) → Type 0
Ends c none = Unit {0}
Ends c (some (a, h)) = h.curr_addr ≡ c

Ends-if :
    {A : Type 0} (c : ℕ) (b : Bool) (p q : Option (A × Kheap))
    → Ends c p
    → Ends c q
    → Ends c (if b then p else q)
Ends-if c true p q hp hq = hp
Ends-if c false p q hp hq = hq

find_loop-Ends :
    (fuel size : ℕ) (flag : Bool) (next : ℕ) (h : Kheap)
    → Ends h.curr_addr (find_loop fuel size flag next h)
unfolding find_loop
find_loop-Ends zero size flag next h = tt
find_loop-Ends (suc fuel) size flag next h =
    let here = h.header next in
    let freed = if flag then 0 else here.freed in
    let taken = record h { header = write h.header next (record here { freed = freed }) } in
    let rest = find_loop fuel size flag here.next h in
    let advance = if here.next == 0 then some (0, h) else rest in
    let found : Option (ℕ × Kheap) = some (next, (split_block taken next size).0) in
    let advanced : Ends h.curr_addr advance =
      Ends-if h.curr_addr (here.next == 0) (some (0, h)) rest refl
        (find_loop-Ends fuel size flag here.next h) in
    Ends-if h.curr_addr (here.freed == 0) advance (if leb size here.size then found else advance)
      advanced
      (Ends-if h.curr_addr (leb size here.size) found advance (split_block_curr taken next size)
        advanced)

-- The end of the heap in a result is at most `c`.
abbrev Upto : {A : Type 0} → ℕ → Option (A × Kheap) → Type 0
Upto c none = Unit {0}
Upto c (some (a, h)) = h.curr_addr ≤ c

Upto-if :
    {A : Type 0} (c : ℕ) (b : Bool) (p q : Option (A × Kheap))
    → Upto c p
    → Upto c q
    → Upto c (if b then p else q)
Upto-if c true p q hp hq = hp
Upto-if c false p q hp hq = hq

append_block_curr :
    (h : Kheap) (size : ℕ)
    → h.curr_addr + 4 * (size + header_size) < 2 ^ 32
    → (append_block h size).1.curr_addr ≡ h.curr_addr + 4 * (size + header_size)
unfolding append_block
append_block_curr h size word = ground arith

-- malloc takes at most one new block from the end.
at_most :
    (size : ℕ) (h : Kheap) (r : Option (ℕ × Kheap))
    → h.curr_addr + 4 * (size + header_size) < 2 ^ 32
    → Ends h.curr_addr r
    → Upto (h.curr_addr + 4 * (size + header_size)) (elim r as (λ x. Option (ℕ × Kheap)) [
      | none ↦ none
      | some (at, h') ↦ if at == 0 then some (append_block h' size) else some (at + header_size, h')
    ])
at_most size h none word ends = tt
at_most size h (some (at, h')) word ends =
    Upto-if (h.curr_addr + 4 * (size + header_size)) (at == 0) (some (append_block h' size))
      (some (at + header_size, h'))
      (omega (arith, ends, append_block_curr h' size (omega (arith, ends)))) (omega (arith, ends))

malloc-Upto :
    (fuel size : ℕ) (h : Kheap)
    → h.curr_addr + 4 * (size + header_size) < 2 ^ 32
    → Upto (h.curr_addr + 4 * (size + header_size)) (malloc fuel h size)
unfolding malloc find_good_block
malloc-Upto fuel size h word =
    Upto-if (h.curr_addr + 4 * (size + header_size)) (h.frist_hh == 0) (some (append_block h size))
      _ (omega (arith, append_block_curr h size word))
      (at_most size h (find_loop fuel size true h.frist_hh h) word
        (find_loop-Ends fuel size true h.frist_hh h))

merge_body_curr :
    (next current : ℕ) (h : Kheap) → (merge_body next current h).1.curr_addr ≡ h.curr_addr
unfolding merge_body
merge_body_curr next current h = ground arith

merge_end_curr : (current : ℕ) (h : Kheap) → (merge_end current h).curr_addr ≡ h.curr_addr
unfolding merge_end
merge_end_curr current h = ground arith

abbrev Keeps : ℕ → Option Kheap → Type 0
Keeps c none = Unit {0}
Keeps c (some h) = h.curr_addr ≡ c

Keeps-if :
    (c : ℕ) (b : Bool) (p q : Option Kheap) → Keeps c p → Keeps c q → Keeps c (if b then p else q)
Keeps-if c true p q hp hq = hp
Keeps-if c false p q hp hq = hq

merge_loop-Keeps :
    (fuel next current c : ℕ) (h : Kheap)
    → h.curr_addr ≡ c
    → Keeps c (merge_loop fuel next current h)
unfolding merge_loop
merge_loop-Keeps zero next current c h e = tt
merge_loop-Keeps (suc fuel) next current c h e =
    let (current', h') = merge_body next current h in
    let next' = (h'.header next).next in
    let same : h'.curr_addr ≡ c = merge_body_curr next current h ∙ e in
    Keeps-if c (next' == 0) (some (merge_end current' h')) (merge_loop fuel next' current' h')
      (merge_end_curr current' h' ∙ same) (merge_loop-Keeps fuel next' current' c h' same)

Ends-merged :
    (c : ℕ) (yells : List Yell) (r : Option Kheap)
    → Keeps c r
    → Ends c
        (elim r as (λ x. Option (List Yell × Kheap)) [ none ↦ none | some h' ↦ some (yells, h') ])
Ends-merged c yells none k = tt
Ends-merged c yells (some h) k = k

free-Ends : (fuel p : ℕ) (h : Kheap) → Ends h.curr_addr (free fuel h p)
unfolding free merge_free_blocks
free-Ends fuel p h =
    let here = h.header (u32 (p + 2 ^ 32 - header_size)) in
    let marked = record h {
      header = write h.header (u32 (p + 2 ^ 32 - header_size)) (record here { freed = 1 });
    } in
    Ends-if h.curr_addr (not (here.magic_number == magic_kheap)) _ _ refl (
      Ends-merged h.curr_addr _ (merge_loop fuel h.frist_hh 0 marked)
        (merge_loop-Keeps fuel h.frist_hh 0 h.curr_addr marked refl))

-- malloc moves the end of the heap by at most the block that it appends, and free does not move it.
pub malloc_curr :
    (fuel size : ℕ) (h : Kheap) (p : ℕ) (h1 : Kheap)
    → h.curr_addr + 4 * (size + header_size) < 2 ^ 32
    → malloc fuel h size ≡ some (p, h1)
    → h1.curr_addr ≤ h.curr_addr + 4 * (size + header_size)
malloc_curr fuel size h p h1 word e = let reached = malloc-Upto fuel size h word in rw e at reached

pub free_curr :
    (fuel p : ℕ) (h : Kheap) (ys : List Yell) (h1 : Kheap)
    → free fuel h p ≡ some (ys, h1)
    → h1.curr_addr ≡ h.curr_addr
free_curr fuel p h ys h1 e = let kept = free-Ends fuel p h in rw e at kept
