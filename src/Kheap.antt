-- ===== src/Kheap.antt =====
-- src/kernel/kheap.c and src/kernel/kheap.h: the first-fit heap. `header` is what stands at an address,
-- read as a `KheapHeader`; a write changes the one header. (That the headers of the list never
-- overlap, so that this is what the bytes do, is part of the invariant of Kheap/Blocks.)
pub mod Blocks
pub mod Split
pub mod Find
pub mod Join
pub mod Merge
pub mod Malloc
pub mod Safe
pub mod Reach
pub mod Headers
pub mod Borrow
pub mod Free
pub mod Merged
pub mod Realloc
use cookies_os.Base.{
  ℕ, zero, suc, ◌+◌, ◌-◌, ◌*◌, ◌^◌, Bool, true, false, Option, none, some, List, [], ◌∷◌, ltb, leb,
  ◌==◌, not, ◌&&◌, if◌then◌else◌, Mem, write, u32,
}
use cookies_os.Libc.{memcpy}

abbrev pub magic_kheap : ℕ
magic_kheap = 69420

-- `sizeof(KheapHeader)`: four words.
abbrev pub header_size : ℕ
header_size = 16

pub record KheapHeader : Type 0 where
  pub magic_number : ℕ
  pub size : ℕ
  pub freed : ℕ
  pub next : ℕ

pub record Kheap : Type 0 where
  pub curr_addr : ℕ
  pub frist_hh : ℕ
  pub last_hh : ℕ
  pub header : ℕ → KheapHeader

abbrev pub new_header : ℕ → ℕ → KheapHeader
new_header size next = record { magic_number = magic_kheap; size = size; freed = 0; next = next }

-- `int new_size = header->size - size - sizeof(KheapHeader)` as a 32-bit pattern.
abbrev pub remainder : ℕ → ℕ → ℕ
remainder have size = u32 (have + 2 ^ 33 - size - header_size)

-- `new_size > 0` for the `int` with that pattern.
abbrev pub is_positive : ℕ → Bool
is_positive w = ltb 0 w && ltb w (2 ^ 31)

-- The header that is split off, or NULL.
unfoldable pub split_block : Kheap → ℕ → ℕ → Kheap × ℕ
split_block h header size =
    let new_size = remainder (h.header header).size size in
    if is_positive new_size
    then (let new = u32 (header + header_size + size) in
        let h1 = write h.header new (new_header new_size (h.header header).next) in
        let h2 = write h1 new (record (h1 new) { freed = 1 }) in
        let h3 = write h2 header (record (h2 header) { size = size }) in
        let h4 = write h3 header (record (h3 header) { next = new }) in
        (record h { header = h4; last_hh = if (h4 new).next == 0 then new else h.last_hh }, new))
    else (h, 0)

-- A loop over the list takes fuel; `none` when it runs out. Address 0 is NULL.
unfoldable pub find_loop : ℕ → ℕ → Bool → ℕ → Kheap → Option (ℕ × Kheap)
find_loop zero size reset_free_flag next h = none
find_loop (suc fuel) size reset_free_flag next h =
    let here = h.header next in
    let rest = find_loop fuel size reset_free_flag here.next h in
    let advance = if here.next == 0 then some (0, h) else rest in
    if here.freed == 0
    then advance
    else if leb size here.size
    then (let freed' = if reset_free_flag then 0 else here.freed in
        let taken = record h { header = write h.header next (record here { freed = freed' }) } in
        some (next, (split_block taken next size).0))
    else advance

unfoldable pub find_good_block : ℕ → Kheap → ℕ → Bool → Option (ℕ × Kheap)
unfolding find_loop
find_good_block fuel h size reset_free_flag = find_loop fuel size reset_free_flag h.frist_hh h

-- The body of the loop of `_merge_free_blocks`: the new `current` and heap.
unfoldable pub merge_body : ℕ → ℕ → Kheap → ℕ × Kheap
merge_body next current h =
    if (h.header next).freed == 0
    then (0, h)
    else if current == 0
    then (next, h)
    else (let grown = u32 ((h.header current).size + (h.header next).size + header_size) in
        let h1 = write h.header current (record (h.header current) { size = grown }) in
        let h2 = write h1 current (record (h1 current) { next = (h1 next).next }) in
        (current, record h { header = h2 }))

-- `if(current) last_hh = current;`
unfoldable pub merge_end : ℕ → Kheap → Kheap
merge_end current h = if current == 0 then h else record h { last_hh = current }

unfoldable pub merge_loop : ℕ → ℕ → ℕ → Kheap → Option Kheap
merge_loop zero next current h = none
merge_loop (suc fuel) next current h =
    let (current', h') = merge_body next current h in
    let next' = (h'.header next).next in
    let rest = merge_loop fuel next' current' h' in
    if next' == 0 then some (merge_end current' h') else rest

unfoldable pub merge_free_blocks : ℕ → Kheap → Option Kheap
unfolding merge_loop
merge_free_blocks fuel h = merge_loop fuel h.frist_hh 0 h

-- `malloc` behind the search: a new header at `curr_addr`. That pointer is a `uint32_t*`, so adding
-- `abs_size` to it moves it four times as many bytes.
unfoldable pub append_block : Kheap → ℕ → ℕ × Kheap
append_block h size =
    let addr = h.curr_addr in
    let h1 = write h.header addr (new_header size 0) in
    let abs_size = u32 (size + header_size) in
    let h2 =
      if h.frist_hh == 0 then h1 else write h1 h.last_hh (record (h1 h.last_hh) { next = addr }) in
    (
      addr + header_size,
      record {
        curr_addr = u32 (addr + 4 * abs_size);
        frist_hh = if h.frist_hh == 0 then addr else h.frist_hh;
        last_hh = addr;
        header = h2;
      },
    )

-- The address returned, and the heap.
unfoldable pub malloc : ℕ → Kheap → ℕ → Option (ℕ × Kheap)
malloc fuel h size =
    if h.frist_hh == 0
    then some (append_block h size)
    else elim (find_good_block fuel h size true) [
      | none ↦ none
      | some (at, h') ↦ if at == 0 then some (append_block h' size) else some (at + header_size, h')
    ]

-- What `free` prints by `yell`.
pub data Yell : Type 0 where
  magic_mismatch : (found : ℕ) → Yell
  double_free : Yell

unfoldable pub free : ℕ → Kheap → ℕ → Option (List Yell × Kheap)
free fuel h addr =
    let hh_ptr = u32 (addr + 2 ^ 32 - header_size) in
    let here = h.header hh_ptr in
    if not (here.magic_number == magic_kheap)
    then some (magic_mismatch here.magic_number ∷ [], h)
    else (let yells = if here.freed == 0 then [] else double_free ∷ [] in
        let marked = record h { header = write h.header hh_ptr (record here { freed = 1 }) } in
        elim (merge_free_blocks fuel marked) [ none ↦ none | some h' ↦ some (yells, h') ])

pub record Realloced : Type 0 where
  pub new_addr : ℕ
  pub heap : Kheap
  pub mem : Mem
  pub yells : List Yell

-- `size` bytes are copied, also where the old block has fewer. `m` holds the blocks' contents.
unfoldable pub realloc : ℕ → Kheap → Mem → ℕ → ℕ → Option Realloced
realloc fuel h m addr size = elim (malloc fuel h size) [
  | none ↦ none
  | some (new_addr, h1) ↦ elim (free fuel h1 addr) [
    | none ↦ none
    | some (yells, h2) ↦ some (record {
      new_addr = new_addr;
      heap = h2;
      mem = memcpy m new_addr addr size;
      yells = yells;
    })
  ]
]
