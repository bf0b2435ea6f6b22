-- ===== src/Fat/Handles/Listing.antt =====
-- The entry that fat_read_dir picks, against the list of the entries in use.
use cookies_os.Base.{
  ℕ, zero, suc, ◌+◌, ◌-◌, ◌*◌, ◌≡◌, inl, inr, refl, arith, Bool-cases, ltb, ◌==◌, if◌then◌else◌,
  List, [], ◌∷◌, get_elem?, Mem,
}
use cookies_os.Fat.Handles.{dirent_loop, starting_cluster, entry_size}

-- The entries with a first cluster, of `left` entries from number `i` on.
abbrev pub in_use : Mem → ℕ → ℕ → ℕ → List ℕ
in_use m buffer zero i = []
in_use m buffer (suc left) i =
    let entry = buffer + i * entry_size in
    let rest = in_use m buffer left (i + 1) in
    if starting_cluster m entry == 0 then rest else entry ∷ rest

dirent_loop-in_use :
    (m : Mem) (buffer index left i count skip : ℕ)
    → count + skip ≡ index
    → dirent_loop m buffer index left i count ≡ get_elem? (in_use m buffer left i) skip
unfolding dirent_loop
dirent_loop-in_use m buffer index zero i count skip e = refl
dirent_loop-in_use m buffer index (suc left) i count skip e =
    elim (Bool-cases (starting_cluster m (buffer + i * entry_size) == 0)) [
      | inl unused ↦ rw unused (dirent_loop-in_use m buffer index left (i + 1) count skip e)
      | inr used ↦ rw used (elim (Bool-cases (ltb count index)) [
        | inl more ↦
            let behind : skip ≡ suc (skip - 1) = ground arith in
            rw (more, behind)
              (dirent_loop-in_use m buffer index left (i + 1) (count + 1) (skip - 1)
                (omega (arith, behind)))
        | inr here ↦ let last : skip ≡ 0 = ground arith in rw (here, last) refl
      ])
    ]

-- Entry `index` of a listing is the entry with that number among the entries of the sector that are in
-- use, and there is none when fewer are.
pub dirent_loop-listing :
    (m : Mem) (buffer index : ℕ)
    → dirent_loop m buffer index 16 0 0 ≡ get_elem? (in_use m buffer 16 0) index
dirent_loop-listing m buffer index = dirent_loop-in_use m buffer index 16 0 0 index (omega arith)
