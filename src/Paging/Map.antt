-- ===== src/Paging/Map.antt =====
-- paging_map: what the processor translates afterwards.
use cookies_os.Base.{
  ℕ, ◌+◌, ◌*◌, ◌/◌, ◌%◌, ◌^◌, ◌<◌, ◌≤◌, ◌≡◌, ◌≢◌, true, false, arith, ap, ◌∙◌, refl, Option, none,
  some, ◌==◌, if◌then◌else◌, write, ◌&&◌,
}
use cookies_os.Paging.{
  Paging, paged, entry_at, pd_index, pt_index, map_page, paging_map, paging_page_get,
  page_phys_address, pde_present, test_attribute, set_frame, set_attribute,
}
use cookies_os.Paging.Entry.{
  page_phys_address_lem, pt_index_lem, set_frame_lem, frame_set_in, present_lem, is_present_lem,
}

-- The entries that the processor reads for `virt`: 4-byte entries in the directory at `dir`, whose bits from
-- 12 up are the address of a table or of a page.
abbrev pub directory_entry : ℕ → ℕ → ℕ
directory_entry dir virt = dir + 4 * (virt / 2 ^ 22)

abbrev pub table_entry : (ℕ → ℕ) → ℕ → ℕ → ℕ
table_entry words dir virt =
    words (directory_entry dir virt) / 4096 * 4096 + 4 * (virt / 4096 % 1024)

-- The physical address for `virt`, if both entries are present.
abbrev pub translate : (ℕ → ℕ) → ℕ → ℕ → Option ℕ
translate words dir virt =
    let pte = words (table_entry words dir virt) in
    if (words (directory_entry dir virt) % 2 == 1) && (pte % 2 == 1)
    then some (pte / 4096 * 4096 + virt % 4096)
    else none

-- The directory lies in the address space, and its entry for `virt` is a word.
pub record IsDirectory (p : Paging) (virt : ℕ) : Type 0 where
  pub below : p.current_page_dir + 4096 ≤ 2 ^ 32
  pub virtual : virt < 2 ^ 32
  pub word : p.words (directory_entry p.current_page_dir virt) < 2 ^ 32

pub pd_entry_lem :
    (p : Paging) (virt : ℕ)
    → IsDirectory p virt
    → entry_at p.current_page_dir (pd_index virt) ≡ directory_entry p.current_page_dir virt
pd_entry_lem p virt d = omega (arith, d.below, d.virtual)

page_lem :
    (p : Paging) (virt : ℕ)
    → IsDirectory p virt
    → entry_at
        (page_phys_address (p.words (directory_entry p.current_page_dir virt)))
        (pt_index virt)
      ≡ table_entry p.words p.current_page_dir virt
page_lem p virt d =
    let e = p.words (directory_entry p.current_page_dir virt) in
    omega (arith, page_phys_address_lem e (d.word), pt_index_lem virt, d.word)

-- paging_page_get returns the address of the entry that the processor reads.
pub paging_page_get_lem :
    (p : Paging) (virt : ℕ)
    → IsDirectory p virt
    → paging_page_get p virt ≡ table_entry p.words p.current_page_dir virt
unfolding paging_page_get
paging_page_get_lem p virt d = rw (pd_entry_lem p virt d) (page_lem p virt d)

-- What paging_map makes of the words when the table is there.
pub record Mapped (p p' : Paging) (virt phys : ℕ) : Type 0 where
  pub dir : p'.current_page_dir ≡ p.current_page_dir
  pub entry :
      p'.words (table_entry p.words p.current_page_dir virt)
      ≡ set_frame
          (set_attribute (p.words (table_entry p.words p.current_page_dir virt)) pde_present)
          phys
  pub others : (a : ℕ) → a ≢ table_entry p.words p.current_page_dir virt → p'.words a ≡ p.words a

pub map_page-Mapped :
    (p : Paging) (virt phys : ℕ) → IsDirectory p virt → Mapped p (map_page p virt phys) virt phys
unfolding map_page write
map_page-Mapped p virt phys d =
    let at = table_entry p.words p.current_page_dir virt in
    let self : (at == at) ≡ true = ground arith in
    rw (pd_entry_lem p virt d, page_lem p virt d)
      (record {
        dir = refl;
        entry = simp self;
        others = λ a ne. let off : (at == a) ≡ false = ground arith in simp off;
      })

translate_same :
    (w w' : ℕ → ℕ) (dir v : ℕ)
    → w' (directory_entry dir v) ≡ w (directory_entry dir v)
    → w' (table_entry w dir v) ≡ w (table_entry w dir v)
    → translate w' dir v ≡ translate w dir v
translate_same w w' dir v e f = rw (e, f)

pub translate_present :
    (w : ℕ → ℕ) (dir v pte : ℕ)
    → w (directory_entry dir v) % 2 ≡ 1
    → w (table_entry w dir v) ≡ pte
    → pte % 2 ≡ 1
    → translate w dir v ≡ some (pte / 4096 * 4096 + v % 4096)
translate_present w dir v pte here e odd = rw (e, here, odd)

-- What the processor translates after `virt` was mapped to the frame `q`, over an entry `old`.
pub record Translates (p p' : Paging) (virt q old : ℕ) : Type 0 where
  pub dir : p'.current_page_dir ≡ p.current_page_dir
  pub mapped :
      translate p'.words p.current_page_dir virt ≡ some (frame_set_in old q * 4096 + virt % 4096)
  pub others :
      (v : ℕ)
      → directory_entry p.current_page_dir v ≢ table_entry p.words p.current_page_dir virt
      → table_entry p.words p.current_page_dir v ≢ table_entry p.words p.current_page_dir virt
      → translate p'.words p.current_page_dir v ≡ translate p.words p.current_page_dir v

same_frame : (old q : ℕ) → frame_set_in (old / 2 * 2 + 1) q ≡ frame_set_in old q
same_frame old q = ground arith

Mapped-Translates :
    (p p' : Paging) (virt q : ℕ)
    → Mapped p p' virt (q * 4096)
    → p.words (directory_entry p.current_page_dir virt) % 2 ≡ 1
    → p.words (table_entry p.words p.current_page_dir virt) < 2 ^ 32
    → q < 2 ^ 20
    → directory_entry p.current_page_dir virt ≢ table_entry p.words p.current_page_dir virt
    → Translates p p' virt q (p.words (table_entry p.words p.current_page_dir virt))
Mapped-Translates p p' virt q m here word frame ne =
    let pde = directory_entry p.current_page_dir virt in
    let old = p.words (table_entry p.words p.current_page_dir virt) in
    let pte = frame_set_in old q * 4096 + (old / 2 * 2 + 1) % 4096 in
    let same : p'.words pde ≡ p.words pde = m.others pde ne in
    let new : set_frame (set_attribute old pde_present) (q * 4096) ≡ pte =
      ap (λ e. set_frame e (q * 4096)) (present_lem old)
      ∙ set_frame_lem (old / 2 * 2 + 1) q (omega (arith, word)) frame
      ∙ ap (λ t. t * 4096 + (old / 2 * 2 + 1) % 4096) (same_frame old q) in
    let entry : p'.words (table_entry p'.words p.current_page_dir virt) ≡ pte =
      rw same (m.entry ∙ new) in
    record {
      dir = m.dir;
      mapped =
          translate_present p'.words p.current_page_dir virt pte (rw same here) entry (omega arith)
          ∙ ap some (omega arith);
      others = λ v off_dir off_table.
          translate_same p.words p'.words p.current_page_dir v (m.others _ off_dir)
            (m.others _ off_table);
    }

-- When the table for `virt` is there, all entries are words, and the entry for the page is not the one that
-- points to the table: paging_map returns, and the processor translates `virt` into the frame `q`, with the
-- highest bit of its number set when it was set in the old entry, which the mask of SET_FRAME leaves; every
-- page whose two entries are others translates as before.
pub paging_map-Translates :
    (p : Paging) (virt q : ℕ)
    → IsDirectory p virt
    → p.words (directory_entry p.current_page_dir virt) % 2 ≡ 1
    → p.words (table_entry p.words p.current_page_dir virt) < 2 ^ 32
    → q < 2 ^ 20
    → directory_entry p.current_page_dir virt ≢ table_entry p.words p.current_page_dir virt
    → (p' : Paging) × (paging_map p virt (q * 4096) ≡ paged p')
      × Translates p p' virt q (p.words (table_entry p.words p.current_page_dir virt))
unfolding paging_map map_page
paging_map-Translates p virt q d here word frame ne =
    let e = p.words (directory_entry p.current_page_dir virt) in
    let present : test_attribute e pde_present ≡ 1 = is_present_lem e ∙ here in
    let found : (test_attribute e pde_present == pde_present) ≡ true = ground (arith, present) in
    (
      map_page p virt (q * 4096),
      rw (paging_map, pd_entry_lem p virt d, found),
      Mapped-Translates p (map_page p virt (q * 4096)) virt q (map_page-Mapped p virt (q * 4096) d)
          here word frame ne,
    )
