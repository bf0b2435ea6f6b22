-- ===== src/Paging/Init.antt =====
-- paging_init: the first 4 MB are mapped to themselves, and nothing else is mapped.
use cookies_os.Base.{
  ℕ, ◌+◌, ◌*◌, ◌/◌, ◌^◌, ◌<◌, ◌≤◌, ◌≡◌, ◌≢◌, ◌⊎◌, true, arith, ap, subst, ◌∙◌, refl, write,
  write_at, write_off, some, none,
}
use cookies_os.Frame.{Frames, alloced, frame_alloc, frame_alloc_ex}
use cookies_os.Paging.{
  Paging, paged, new_dir, entry_at, pd_index, pt_index, fill_dir, enter_first, identity_table,
  absent_directory, paging_init, paging_dir_new, paging_dir_switch, pde_present, pde_writable,
  pte_present, set_frame, set_attribute,
}
use cookies_os.Paging.Entry.{pt_index_lem, set_frame_lem}
use cookies_os.Paging.Fill.{filled_off, filled_on}
use cookies_os.Paging.Map.{directory_entry, table_entry, translate, translate_present}

enter_first_off :
    (table entry : ℕ) (words : ℕ → ℕ) (a : ℕ)
    → entry ≢ a
    → enter_first table entry words a ≡ words a
unfolding enter_first
enter_first_off table entry words a ne =
    write_off _ entry _ a ne ∙ write_off _ entry _ a ne ∙ write_off words entry _ a ne

enter_first_at :
    (table entry : ℕ) (words : ℕ → ℕ)
    → enter_first table entry words entry
      ≡ set_frame (set_attribute (set_attribute (words entry) pde_present) pde_writable) table
unfolding enter_first
enter_first_at table entry words =
    let w1 = write words entry (set_attribute (words entry) pde_present) in
    let w2 = write w1 entry (set_attribute (w1 entry) pde_writable) in
    write_at w2 entry (set_frame (w2 entry) table) entry refl
    ∙ ap (λ (e : ℕ). set_frame e table)
        (write_at w1 entry (set_attribute (w1 entry) pde_writable) entry refl
          ∙ ap (λ (e : ℕ). set_attribute e pde_writable)
              (write_at words entry (set_attribute (words entry) pde_present) entry refl))

module _ (q dir : ℕ) (room : q * 4096 + 4096 ≤ 2 ^ 32) (dir_room : dir + 4096 ≤ 2 ^ 32)
    (apart : (q * 4096 + 4096 ≤ dir) ⊎ (dir + 4096 ≤ q * 4096)) (words : ℕ → ℕ) where
  abbrev table : ℕ
  table = q * 4096

  table_places : (i : ℕ) → i < 1024 → entry_at table (pt_index (i * 4096)) ≡ table + 4 * i
  table_places i lt = omega (arith, pt_index_lem (i * 4096))

  dir_places : (i : ℕ) → i < 1024 → entry_at dir i ≡ dir + 4 * i
  dir_places i lt = omega arith

  abbrev first : ℕ → ℕ
  first = identity_table table words

  abbrev both : ℕ → ℕ
  both = absent_directory dir first

  filled_table : (i : ℕ) → i < 1024 → both (table + 4 * i) ≡ i * 4096 + 1
  filled_table i lt =
      filled_off dir (entry_at dir) (λ i. 2) dir_places first (table + 4 * i)
        (ground (arith, apart))
      ∙ filled_on table _ (λ i. set_frame (set_attribute 0 pte_present) (i * 4096)) table_places
          words i lt
      ∙ set_frame_lem 1 i (omega arith) (omega arith)

  filled_dir : (i : ℕ) → i < 1024 → both (dir + 4 * i) ≡ 2
  filled_dir i lt = filled_on dir (entry_at dir) (λ i. 2) dir_places first i lt

  first_place : entry_at dir (pd_index 0) ≡ dir
  first_place = omega arith

  final_off : (a : ℕ) → dir ≢ a → fill_dir table dir words a ≡ both a
  final_off a ne = rw first_place (enter_first_off table dir both a ne)

  final_dir : fill_dir table dir words dir ≡ table + 3
  final_dir = rw first_place (
      enter_first_at table dir both
      ∙ ap (λ (e : ℕ). set_frame (set_attribute (set_attribute e pde_present) pde_writable) table)
          two
      ∙ set_frame_lem 3 q (omega arith) (omega arith))
    where
      zero_offset : dir + 4 * 0 ≡ dir
      zero_offset = omega arith

      two : both dir ≡ 2
      two = subst (λ (a : ℕ). both a ≡ 2) zero_offset (filled_dir 0 (omega arith))

  -- What the processor finds.
  low_pages : (v : ℕ) → v < 2 ^ 22 → translate (fill_dir table dir words) dir v ≡ some v
  low_pages v low =
      let w = fill_dir table dir words in
      let zero_entry : directory_entry dir v ≡ dir = omega (arith, low) in
      let pde : w (directory_entry dir v) ≡ table + 3 = rw zero_entry final_dir in
      let place : table_entry w dir v ≡ table + 4 * (v / 4096) = omega (arith, pde, low) in
      let pte : w (table_entry w dir v) ≡ v / 4096 * 4096 + 1 = rw place (
        final_off (table + 4 * (v / 4096)) (omega (arith, apart, low))
        ∙ filled_table (v / 4096) (omega (arith, low))) in
      translate_present w dir v (v / 4096 * 4096 + 1) (omega (arith, pde)) pte (omega arith)
      ∙ ap some (omega arith)

  high_pages : (v : ℕ) → 2 ^ 22 ≤ v → v < 2 ^ 32 → translate (fill_dir table dir words) dir v ≡ none
  high_pages v high word =
      let w = fill_dir table dir words in
      let pde : w (directory_entry dir v) ≡ 2 =
        final_off (directory_entry dir v) (omega (arith, high))
        ∙ filled_dir (v / 2 ^ 22) (omega (arith, word)) in
      rw pde refl

-- What paging_init leaves.
pub record Identity (p' : Paging) (dir : ℕ) : Type 0 where
  pub cr3 : p'.cr3 ≡ dir
  pub current : p'.current_page_dir ≡ dir
  pub kernel : p'.kernel_page_dir ≡ dir
  pub on : p'.paging_on ≡ true
  pub low : (v : ℕ) → v < 2 ^ 22 → translate p'.words dir v ≡ some v
  pub high : (v : ℕ) → 2 ^ 22 ≤ v → v < 2 ^ 32 → translate p'.words dir v ≡ none

paging_dir_new_lem :
    (p : Paging) (table dir : ℕ) (f1 f2 : Frames)
    → frame_alloc p.frames ≡ alloced table f1
    → frame_alloc_ex f1 3 ≡ alloced dir f2
    → paging_dir_new p ≡ new_dir dir f2 (fill_dir table dir p.words)
unfolding paging_dir_new
paging_dir_new_lem p table dir f1 f2 got got3 = rw (got, paging_dir_new) (rw got3 refl)

-- When the frame allocator gives a table and a directory that do not overlap, paging_init turns
-- paging on with that directory, and the processor translates every address below 4 MB into itself
-- and no other.
pub paging_init-Identity :
    (p : Paging) (q dir : ℕ) (f1 f2 : Frames)
    → frame_alloc p.frames ≡ alloced (q * 4096) f1
    → frame_alloc_ex f1 3 ≡ alloced dir f2
    → q * 4096 + 4096 ≤ 2 ^ 32
    → dir + 4096 ≤ 2 ^ 32
    → (q * 4096 + 4096 ≤ dir) ⊎ (dir + 4096 ≤ q * 4096)
    → (p' : Paging) × (paging_init p ≡ paged p') × Identity p' dir
unfolding paging_init paging_dir_switch
paging_init-Identity p q dir f1 f2 got got3 room dir_room apart = (
  record p {
    frames = f2;
    words = fill_dir (q * 4096) dir p.words;
    current_page_dir = dir;
    kernel_page_dir = dir;
    cr3 = dir;
    paging_on = true;
  },
  rw (paging_dir_new_lem p (q * 4096) dir f1 f2 got got3, paging_init) refl,
  record {
    cr3 = refl;
    current = refl;
    kernel = refl;
    on = refl;
    low = low_pages q dir room dir_room apart p.words;
    high = high_pages q dir room dir_room apart p.words;
  },
)
