-- ===== src/Paging/Absent.antt =====
-- paging_map on an absent table, as paging_dir_new leaves all but the first.
use cookies_os.Base.{
  ℕ, ◌+◌, ◌*◌, ◌/◌, ◌%◌, ◌^◌, ◌<◌, ◌≤◌, ◌≡◌, ◌≢◌, ◌⊎◌, inl, false, arith, ap, sym, subst, ◌∙◌, refl,
  ◌==◌, write, write_at, write_off, bit_or-one, bit_or-two,
}
use cookies_os.Frame.{Frames, alloced, frame_alloc}
use cookies_os.Paging.{
  Paging, paged, entry_at, map_page, paging_map, clear_table, enter_table, pde_present,
  pde_writable, test_attribute, set_frame, set_attribute,
}
use cookies_os.Paging.Entry.{is_present_lem}
use cookies_os.Paging.Fill.{Outside, filled_off, filled_on}
use cookies_os.Paging.Map.{directory_entry, table_entry, IsDirectory, pd_entry_lem, map_page-Mapped}

entries :
    (table : ℕ) → table + 4096 ≤ 2 ^ 32 → (i : ℕ) → i < 1024 → entry_at table i ≡ table + 4 * i
entries table room i lt = omega arith

-- Only the entry for the table and the table itself are written.
record Entered (words words' : ℕ → ℕ) (pde newtab : ℕ) : Type 0 where
  entry : words' pde ≡ words pde / 4 * 4 + 3
  cleared : (i : ℕ) → i < 1024 → words' (newtab + 4 * i) ≡ 0
  others : (a : ℕ) → a ≢ pde → Outside newtab a → words' a ≡ words a

enter_table-Entered :
    (words : ℕ → ℕ) (pde newtab : ℕ)
    → words pde % 2 ≡ 0
    → newtab + 4096 ≤ 2 ^ 32
    → Outside newtab pde
    → Entered words (enter_table pde newtab words) pde newtab
unfolding enter_table
enter_table-Entered words pde newtab even room off =
    let w1 = clear_table newtab words in
    let w2 = write w1 pde (set_attribute (w1 pde) pde_present) in
    let clear_pde : w1 pde ≡ words pde =
      filled_off newtab (entry_at newtab) (λ i. 0) (entries newtab room) words pde off in
    let odd : w2 pde ≡ words pde + 1 =
      write_at w1 pde (set_attribute (w1 pde) pde_present) pde refl
      ∙ bit_or-one (w1 pde)
      ∙ omega (arith, clear_pde, even) in
    let off_pde : (a : ℕ) → a ≢ pde → enter_table pde newtab words a ≡ w1 a = λ a ne.
      write_off w2 pde (set_attribute (w2 pde) pde_writable) a (λ e. ne (sym e))
      ∙ write_off w1 pde (set_attribute (w1 pde) pde_present) a (λ e. ne (sym e)) in
    record {
      entry =
          write_at w2 pde (set_attribute (w2 pde) pde_writable) pde refl
          ∙ bit_or-two (w2 pde)
          ∙ omega (arith, odd, even);
      cleared = λ i lt.
          off_pde (newtab + 4 * i) (ground (arith, off))
          ∙ filled_on newtab (entry_at newtab) (λ i. 0) (entries newtab room) words i lt;
      others = λ a ne out.
          off_pde a ne
          ∙ filled_off newtab (entry_at newtab) (λ i. 0) (entries newtab room) words a out;
    }

-- What paging_map leaves, when `newtab` and `f` are what the frame allocator gives.
pub record Lost (p p' : Paging) (f : Frames) (virt phys newtab : ℕ) : Type 0 where
  pub frames : p'.frames ≡ f
  pub directory :
      p'.words (directory_entry p.current_page_dir virt)
      ≡ p.words (directory_entry p.current_page_dir virt) / 4 * 4 + 3
  pub others :
      (a : ℕ)
      → a ≢ directory_entry p.current_page_dir virt
      → a ≢ 4 * (virt / 4096 % 1024)
      → Outside newtab a
      → p'.words a ≡ p.words a
  pub in_page_zero :
      p'.words (4 * (virt / 4096 % 1024))
      ≡ set_frame (set_attribute (p.words (4 * (virt / 4096 % 1024))) pde_present) phys
  pub empty : (i : ℕ) → i < 1024 → p'.words (newtab + 4 * i) ≡ 0

-- paging_map for a page whose directory entry is not present and holds no address, as paging_dir_new leaves
-- it, where a frame can be had that lies apart from the directory and from address 0: the frame allocator
-- has given that frame for the table, which is cleared but not entered. The directory entry becomes present
-- and writable, the page's entry is written into the memory at address 0, and no other word changes.
pub paging_map-Lost :
    (p : Paging) (virt phys newtab : ℕ) (f : Frames)
    → p.current_page_dir + 4096 ≤ 2 ^ 32
    → virt < 2 ^ 32
    → p.words (directory_entry p.current_page_dir virt) % 2 ≡ 0
    → p.words (directory_entry p.current_page_dir virt) < 4096
    → frame_alloc p.frames ≡ alloced newtab f
    → 4096 ≤ newtab
    → newtab + 4096 ≤ 2 ^ 32
    → 4096 ≤ p.current_page_dir
    → (p.current_page_dir + 4096 ≤ newtab) ⊎ (newtab + 4096 ≤ p.current_page_dir)
    → (p' : Paging) × (paging_map p virt phys ≡ paged p') × Lost p p' f virt phys newtab
unfolding paging_map map_page
paging_map-Lost p virt phys newtab f below virtual even no_table got above room high apart =
    let pde = directory_entry p.current_page_dir virt in
    let d : IsDirectory p virt = record {
      below = below;
      virtual = virtual;
      word = omega (arith, no_table);
    } in
    let absent : test_attribute (p.words pde) pde_present ≡ 0 =
      is_present_lem (p.words pde) ∙ even in
    let not_found : (test_attribute (p.words pde) pde_present == pde_present) ≡ false =
      ground (arith, absent) in
    let not_null : (newtab == 0) ≡ false = ground arith in
    let entered = enter_table-Entered p.words pde newtab even room (ground (arith, apart)) in
    let p1 = record p { frames = f; words = enter_table pde newtab p.words } in
    let d1 : IsDirectory p1 virt = record {
      below = below;
      virtual = virtual;
      word = omega (arith, entered.entry, no_table);
    } in
    let m = map_page-Mapped p1 virt phys d1 in
    let zero_table : table_entry p1.words p.current_page_dir virt ≡ 4 * (virt / 4096 % 1024) =
      omega (arith, entered.entry, no_table) in
    let low = 4 * (virt / 4096 % 1024) in
    (
      map_page p1 virt phys,
      rw (pd_entry_lem p virt d, not_found, got, not_null) (rw (pd_entry_lem p virt d) refl),
      record {
        frames = refl;
        others =
            λ a ne low_ne out. m.others a (λ e. low_ne (e ∙ zero_table)) ∙ entered.others a ne out;
        directory = m.others pde (omega (arith, zero_table)) ∙ entered.entry;
        in_page_zero =
            subst
              (λ (a : ℕ).
                (map_page p1 virt phys).words a
                ≡ set_frame (set_attribute (p1.words a) pde_present) phys)
              zero_table m.entry
            ∙ ap (λ (e : ℕ). set_frame (set_attribute e pde_present) phys)
                (entered.others low (omega (arith, high)) (inl (omega arith)));
        empty =
            λ i lt. m.others (newtab + 4 * i) (omega (arith, zero_table)) ∙ entered.cleared i lt;
      },
    )
