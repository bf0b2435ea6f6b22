-- ===== src/Paging.antt =====
-- src/kernel/paging.c and src/kernel/paging.h: page directory and page tables. `words` is the memory
-- in which they lie, a 32-bit word at each address that is a multiple of 4.
pub mod Entry
pub mod Map
pub mod Fill
pub mod Absent
pub mod Init
use cookies_os.Base.{
  ℕ, zero, suc, ◌+◌, ◌-◌, ◌*◌, ◌/◌, ◌^◌, bit_and, bit_or, ◌==◌, not, Bool, true, if◌then◌else◌,
  write, u32, complement,
}
use cookies_os.Frame.{Frames, Alloced, panicked, alloced, frame_alloc, frame_alloc_ex}

abbrev pub pte_present : ℕ
pte_present = 1

abbrev pub pde_present : ℕ
pde_present = 1

abbrev pub pde_writable : ℕ
pde_writable = 2

abbrev pub frame_mask : ℕ
frame_mask = 0x7FFFF000

abbrev pub pd_index : ℕ → ℕ
pd_index address = address / 2 ^ 22

abbrev pub pt_index : ℕ → ℕ
pt_index address = bit_and (address / 2 ^ 12) 0x3FF

abbrev pub page_phys_address : ℕ → ℕ
page_phys_address entry = bit_and entry (complement 32 0xFFF)

abbrev pub set_attribute : ℕ → ℕ → ℕ
set_attribute entry attr = bit_or entry attr

abbrev pub test_attribute : ℕ → ℕ → ℕ
test_attribute entry attr = bit_and entry attr

abbrev pub set_frame : ℕ → ℕ → ℕ
set_frame entry address = bit_or (bit_and entry (complement 32 frame_mask)) address

-- `cr3` and `paging_on` are what load_page_directory and enable_paging (src/arch/x86/memory.asm)
-- set in the processor.
pub record Paging : Type 0 where
  pub frames : Frames
  pub words : ℕ → ℕ
  pub current_page_dir : ℕ
  pub kernel_page_dir : ℕ
  pub cr3 : ℕ
  pub paging_on : Bool

-- `panic` in the frame allocator halts the machine.
pub data Paged : Type 0 where
  halted : Paged
  paged : Paging → Paged

-- `entries[i]` of a table or a directory.
abbrev pub entry_at : ℕ → ℕ → ℕ
entry_at table i = u32 (table + 4 * i)

unfoldable pub paging_page_new : Paging → ℕ → Paged
paging_page_new p page = elim (frame_alloc p.frames) [
  | panicked ↦ halted
  | alloced frame frames' ↦
      if frame == 0
      then paged (record p { frames = frames' })
      else let w1 = write p.words page (set_frame (p.words page) frame) in
        let w2 = write w1 page (set_attribute (w1 page) pte_present) in
        paged (record p { frames = frames'; words = w2 })
]

-- `for(; i < i + left; i++) *place(i) = value(i);`
pub fill_loop : (place value : ℕ → ℕ) → ℕ → ℕ → (ℕ → ℕ) → ℕ → ℕ
fill_loop place value zero i words = words
fill_loop place value (suc left) i words =
    fill_loop place value left (i + 1) (write words (place i) (value i))

-- `memset(newtab, 0x0, sizeof(PageTable))`, word by word.
abbrev pub clear_table : ℕ → (ℕ → ℕ) → ℕ → ℕ
clear_table table words = fill_loop (entry_at table) (λ i. 0) 1024 0 words

-- What paging_map does with the new table: the address is not entered.
pub enter_table : ℕ → ℕ → (ℕ → ℕ) → ℕ → ℕ
enter_table pd_entry newtab words =
    let w1 = clear_table newtab words in
    let w2 = write w1 pd_entry (set_attribute (w1 pd_entry) pde_present) in
    write w2 pd_entry (set_attribute (w2 pd_entry) pde_writable)

-- The rest of paging_map, behind the `if`.
pub map_page : Paging → ℕ → ℕ → Paging
map_page p virt phys =
    let pd_entry = entry_at p.current_page_dir (pd_index virt) in
    let table = page_phys_address (p.words pd_entry) in
    let page = entry_at table (pt_index virt) in
    let w1 = write p.words page (set_attribute (p.words page) pte_present) in
    let w2 = write w1 page (set_frame (w1 page) phys) in record p { words = w2 }

unfoldable pub paging_map : Paging → ℕ → ℕ → Paged
paging_map p virt phys =
    let pd_entry = entry_at p.current_page_dir (pd_index virt) in
    if test_attribute (p.words pd_entry) pte_present == pte_present
    then paged (map_page p virt phys)
    else elim (frame_alloc p.frames) [
      | panicked ↦ halted
      | alloced newtab frames' ↦
          if newtab == 0
          then paged (record p { frames = frames' })
          else let words' = enter_table pd_entry newtab p.words in
            paged (map_page (record p { frames = frames'; words = words' }) virt phys)
    ]

-- The address of the entry for `virt`.
unfoldable pub paging_page_get : Paging → ℕ → ℕ
paging_page_get p virt =
    let entry = entry_at p.current_page_dir (pd_index virt) in
    entry_at (page_phys_address (p.words entry)) (pt_index virt)

unfoldable pub paging_dir_switch : Paging → ℕ → Paging
paging_dir_switch p dir = record p { current_page_dir = dir; cr3 = dir }

-- The two loops of paging_dir_new. `frame` and `virt` go up by 4096 with `i`.
abbrev pub identity_table : ℕ → (ℕ → ℕ) → ℕ → ℕ
identity_table table words =
    fill_loop (λ i. entry_at table (pt_index (i * 4096)))
      (λ i. set_frame (set_attribute 0 pte_present) (i * 4096)) 1024 0 words

abbrev pub absent_directory : ℕ → (ℕ → ℕ) → ℕ → ℕ
absent_directory dir words = fill_loop (entry_at dir) (λ i. 2) 1024 0 words

-- What paging_dir_new returns.
pub data NewDir : Type 0 where
  halted : NewDir
  new_dir : (page_directory : ℕ) → Frames → (ℕ → ℕ) → NewDir

-- The last three steps of paging_dir_new, on the first entry of the directory.
pub enter_first : ℕ → ℕ → (ℕ → ℕ) → ℕ → ℕ
enter_first table entry words =
    let w1 = write words entry (set_attribute (words entry) pde_present) in
    let w2 = write w1 entry (set_attribute (w1 entry) pde_writable) in
    write w2 entry (set_frame (w2 entry) table)

-- The words once both addresses are there.
abbrev pub fill_dir : ℕ → ℕ → (ℕ → ℕ) → ℕ → ℕ
fill_dir table dir words =
    enter_first table (entry_at dir (pd_index 0))
      (absent_directory dir (identity_table table words))

unfoldable pub paging_dir_new : Paging → NewDir
paging_dir_new p = elim (frame_alloc p.frames) [
  | panicked ↦ halted
  | alloced table f1 ↦ elim (frame_alloc_ex f1 3) [
    | panicked ↦ halted
    | alloced dir f2 ↦ new_dir dir f2 (fill_dir table dir p.words)
  ]
]

unfoldable pub paging_init : Paging → Paged
paging_init p = elim (paging_dir_new p) [
  | halted ↦ halted
  | new_dir dir frames words ↦
      let switched =
        paging_dir_switch (record p { frames = frames; words = words; kernel_page_dir = dir })
          dir in
      paged (record switched { paging_on = true })
]
