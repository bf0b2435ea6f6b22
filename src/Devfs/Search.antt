-- ===== src/Devfs/Search.antt =====
-- devfs_find_dir: the device that is found.
use cookies_os.Base.{
  ℕ, zero, suc, ◌+◌, ◌≤◌, ◌<◌, ◌≡◌, ◌⊎◌, inl, inr, refl, subst, ◌∙◌, arith, Bool-cases, false,
  le_or_lt, ◌==◌, some, ℤ, pos,
}
use cookies_os.Libc.{strcmp}
use cookies_os.Libc.Compare.{Agree, strcmp-zero_iff}
use cookies_os.Libc.Strings.{IsText}
use cookies_os.Machine.{Machine}
use cookies_os.Machine.Names.{bind_some}
use cookies_os.Device.{devices_at}
use cookies_os.Device.Table.{copied_node, copy_node_lem}
use cookies_os.Devfs.{device_loop, devfs_find_dir, devfs_make_instance, read_strcmp}

-- Device `i` has the name at `path`, of `len` bytes, terminator included.
abbrev pub IsNamed : Machine → ℕ → ℕ → ℕ → Type 0
IsNamed x path len i = Agree x.mem (devices_at x i) path 0 (len + 1)

-- What the search from device `i` on returns and leaves.
abbrev pub Searched : Machine → (path len target i : ℕ) → ℤ → Machine → Type 0
Searched x path len target i r x' =
    ((r ≡ pos 0)
      × ((k : ℕ) × (i ≤ k)
          × (k < x.m_devices_number)
          × IsNamed x path len k
          × ((j : ℕ) → i ≤ j → j < k → IsNamed x path len j → ⊥)
          × (x' ≡ copied_node x target (devices_at x k))))
    ⊎ ((r ≡ pos 1)
        × ((j : ℕ) → i ≤ j → j < x.m_devices_number → IsNamed x path len j → ⊥)
        × (x' ≡ x))

named_zero : (c : ℕ) → c == 0 ≡ false → c ≡ 0 → ⊥
named_zero c differs z = ground arith

module _ (fuel : ℕ) (x : Machine) (path len target : ℕ) (text : IsText x.mem path len)
    (bytes : (a : ℕ) → x.mem a < 256) (enough : len < fuel) where
  not_from :
      (i k : ℕ)
      → (IsNamed x path len i → ⊥)
      → ((j : ℕ) → i + 1 ≤ j → j < k → IsNamed x path len j → ⊥)
      → (j : ℕ) → i ≤ j
      → j < k
      → IsNamed x path len j
      → ⊥
  not_from i k no_match rest j low high named = elim (le_or_lt j i) [
    | inl le ↦ let same : j ≡ i = omega arith in no_match (subst (IsNamed x path len) same named)
    | inr lt ↦ rest j (omega arith) high named
  ]

  Searched-down :
      (i : ℕ) (r : ℤ) (x' : Machine)
      → (IsNamed x path len i → ⊥)
      → Searched x path len target (i + 1) r x'
      → Searched x path len target i r x'
  Searched-down i r x' no_match (inl (e, (k, low, high, named, before, same))) =
      inl (e, (k, omega arith, high, named, not_from i k no_match before, same))
  Searched-down i r x' no_match (inr (e, none_named, same)) =
      inr (e, not_from i x.m_devices_number no_match none_named, same)

  compared :
      (i r : ℕ)
      → strcmp fuel x.mem (devices_at x i) path ≡ some r
      → read_strcmp fuel (devices_at x i) path x ≡ some (r, x)
  compared i r e = rw (e, read_strcmp) refl

  device_loop-Searched :
      (left i : ℕ)
      → i + left ≡ x.m_devices_number
      → (r : ℤ) × (x' : Machine) × (device_loop fuel path target left i x ≡ some (r, x'))
        × Searched x path len target i r x'
  unfolding device_loop devfs_make_instance
  device_loop-Searched zero i e =
      (pos 1, x, refl, inr (refl, λ j low high. absurd (omega arith), refl))
  device_loop-Searched (suc left) i e =
      let (c, ran, zero_iff) =
        strcmp-zero_iff x.mem (devices_at x i) path len text bytes fuel enough in
      let here = bind_some (read_strcmp fuel (devices_at x i) path) _ x x c (compared i c ran) in
      elim (Bool-cases (c == 0)) [
        | inl same ↦
            let named = zero_iff.0 (ground arith) in
            (
              pos 0,
              copied_node x target (devices_at x i),
              here
                  ∙ rw same (
                      bind_some (devfs_make_instance target (devices_at x i)) _ x
                        (copied_node x target (devices_at x i)) tt
                        (copy_node_lem x target (devices_at x i))),
              inl (
                refl,
                (i, omega arith, omega arith, named, λ j low high. absurd (omega arith), refl),
              ),
            )
        | inr differs ↦
            let (r, x', runs, s) = device_loop-Searched left (i + 1) (omega arith) in
            (
              r,
              x',
              here ∙ rw differs runs,
              Searched-down i r x' (λ named. named_zero c differs (zero_iff.1 named)) s,
            )
      ]

  -- devfs_find_dir returns 0 and makes the target a copy of the first device with that name, or
  -- returns 1 when no device has it and changes nothing.
  pub devfs_find_dir-Searched :
      (r : ℤ) × (x' : Machine) × (devfs_find_dir fuel path target x ≡ some (r, x'))
      × Searched x path len target 0 r x'
  unfolding devfs_find_dir
  devfs_find_dir-Searched = device_loop-Searched x.m_devices_number 0 (omega arith)
