-- ===== src/Files/Found.antt =====
-- fopen of a path whose mount point is a directory of devices.
use cookies_os.Base.{
  ℕ, ◌+◌, ◌-◌, ◌^◌, ◌≤◌, ◌<◌, ◌≡◌, ◌⊎◌, inl, inr, sym, ap, ◌∙◌, arith, le_or_lt, some, none, [],
  List, Mem, ℤ, pos,
}
use cookies_os.Libc.Strings.{IsText}
use cookies_os.Kheap.{Kheap, Yell, malloc, free}
use cookies_os.Vfs.{Vfs}
use cookies_os.Vfs.Mount.{Apart, Nearest}
use cookies_os.Vfs.Search.{find_relative_mount-Nearest}
use cookies_os.Machine.{Machine, node_size}
use cookies_os.Device.{devices_at}
use cookies_os.Device.Table.{copied_node, copied_node_fields}
use cookies_os.Devfs.Search.{Searched, IsNamed, devfs_find_dir-Searched}
use cookies_os.Files.{fopen}
use cookies_os.Files.Open.{
  IsDevfs, behind_mount, fopen_start, root_copied, searched, chosen, chosen_found, chosen_missing,
}

same-IsText :
    (m m' : Mem) (s n : ℕ)
    → IsText m s n
    → ((j : ℕ) → j ≤ n → m' (s + j) ≡ m (s + j))
    → IsText m' s n
same-IsText m m' s n t same = record {
  ends = same n (omega arith) ∙ t.ends;
  inside = λ j lt e. t.inside j lt (sym (same j (omega arith)) ∙ e);
}

suffix-IsText : (m : Mem) (s n k : ℕ) → k ≤ n → IsText m s n → IsText m (s + k) (n - k)
suffix-IsText m s n k le t = record {
  ends = ap m (omega (arith, le)) ∙ t.ends;
  inside = λ j lt e. t.inside (k + j) (omega arith) (ap m (omega arith) ∙ e);
}

module _ (fuel : ℕ) (disk : ℕ → ℕ) (fe slash : ℕ) (eax : ℤ) (x : Machine) (path len : ℕ)
    (size : ℕ → ℕ) where
  -- The node of the directory that is mounted as number `i`.
  abbrev pub master_of : ℕ → ℕ
  master_of i = (x.nodes (x.mounts.mount_points i).device).master

  -- What fopen returns and leaves, for the mount point `i`: `f` is the new block, and `y` the machine
  -- behind the search of the mount point.
  pub data Opening (f i : ℕ) (y : Machine) (h4 : Kheap) : Type 0 where
    root_opened :
        len ≤ size i
        → fopen fuel disk fe slash eax path x ≡ some (f, copied_node y f (master_of i))
        → Opening f i y h4
    device_opened :
        size i < len
        → (k : ℕ) → k < x.m_devices_number
        → IsNamed y (path + size i) (len - size i) k
        → ((j : ℕ) → j < k → IsNamed y (path + size i) (len - size i) j → ⊥)
        → fopen fuel disk fe slash eax path x ≡ some (f, copied_node y f (devices_at x k))
        → Opening f i y h4
    none_opened :
        size i < len
        → ((j : ℕ) → j < x.m_devices_number → IsNamed y (path + size i) (len - size i) j → ⊥)
        → fopen fuel disk fe slash eax path x ≡ some (0, record y { heap = h4 })
        → Opening f i y h4

  module _ (f i : ℕ) (h3 h4 : Kheap) (m' : Mem) (v : IsDevfs (x.nodes (master_of i)))
      (closed : (k : ℕ) → k < x.m_devices_number → (x.nodes (devices_at x k)).open_callback ≡ none)
      (freed : free fuel h3 f ≡ some ([], h4))
      (starts : fopen fuel disk fe slash eax path x
        ≡ behind_mount fuel disk fe slash eax path len f
            (size i)
            (master_of i)
            (record x { heap = h3; mem = m' })) where
    below_mount :
        size i < len
        → (r : ℤ) (x3 : Machine)
        → behind_mount fuel disk fe slash eax path len f
            (size i)
            (master_of i)
            (record x { heap = h3; mem = m' })
          ≡ chosen fuel disk fe slash eax f r x3
        → Searched (record x { heap = h3; mem = m' }) (path + size i) (len - size i) f 0 r x3
        → Opening f i (record x { heap = h3; mem = m' }) h4
    below_mount lt r x3 runs (inl (e, (k, low, high, named, before, same))) =
        device_opened lt k high named (λ j below. before j (omega arith) below)
          (starts
            ∙ runs
            ∙ ap (λ s. chosen fuel disk fe slash eax f s x3) e
            ∙ ap (chosen fuel disk fe slash eax f (pos 0)) same
            ∙ chosen_found fuel disk fe slash eax
                (copied_node (record x { heap = h3; mem = m' }) f (devices_at x k)) f
                (ap (λ (n : Vfs). n.open_callback)
                    (copied_node_fields (record x { heap = h3; mem = m' }) f (devices_at x k))
                  ∙ closed k high))
    below_mount lt r x3 runs (inr (e, unnamed, same)) =
        none_opened lt (λ j high. unnamed j (omega arith) high)
          (starts
            ∙ runs
            ∙ ap (λ s. chosen fuel disk fe slash eax f s x3) e
            ∙ ap (chosen fuel disk fe slash eax f (pos 1)) same
            ∙ chosen_missing fuel disk fe slash eax (record x { heap = h3; mem = m' }) f h4 freed)

  Nearest-index :
      (i : ℕ)
      → 0 < x.mounts.mount_count
      → Nearest x.mem path len x.mounts size len i
      → i < x.mounts.mount_count
  Nearest-index i some_mount (inl (n, l)) = l.index
  Nearest-index i some_mount (inr (e, unmatched)) = omega (arith, e, some_mount)

  apart_same :
      (m' : Mem) (p s n : ℕ)
      → ((a : ℕ) → (a < p) ⊎ (p + len < a) → m' a ≡ x.mem a)
      → Apart x.mem path len x.mounts size p s n
      → IsText m' s n
  apart_same m' p s n outside a =
      same-IsText x.mem m' s n a.text (λ j le. outside (s + j) (omega (arith, a.clear, le)))

  -- An absolute path whose nearest mount point is a directory of devices, whatever else is mounted, where no
  -- device's node has an `open`, and a heap that gives a block for the node and one for the search, apart from
  -- the texts, and takes both back. fopen returns. It gives a block that holds a copy of the directory, when
  -- the path has no more bytes than that mount point's; else a copy of the first device that has the rest
  -- of the path as its name; or it frees the block and returns NULL when no device has.
  pub fopen-Opening :
      (f p : ℕ) (h1 h2 h3 h4 : Kheap) (yells : List Yell)
      → malloc fuel x.heap node_size ≡ some (f, h1)
      → malloc fuel h1 (len + 1) ≡ some (p, h2)
      → free fuel h2 p ≡ some (yells, h3)
      → free fuel h3 f ≡ some ([], h4)
      → Apart x.mem path len x.mounts size p path len
      → ((i : ℕ)
          → i < x.mounts.mount_count
          → Apart x.mem path len x.mounts size p (x.mounts.mount_points i).path (size i))
      → ((i : ℕ) → i < x.mounts.mount_count → size i < fuel)
      → Apart x.mem path len x.mounts size p slash 1
      → x.mem slash ≡ b'/'
      → x.mem path ≡ b'/'
      → 0 < len
      → len < fuel
      → len < 2 ^ 32
      → ((a : ℕ) → x.mem a < 256)
      → 0 < x.mounts.mount_count
      → ((i : ℕ)
          → i < x.mounts.mount_count
          → Nearest x.mem path len x.mounts size len i
          → IsDevfs (x.nodes (master_of i)))
      → ((k : ℕ) → k < x.m_devices_number → (x.nodes (devices_at x k)).open_callback ≡ none)
      → (i : ℕ) × (m' : Mem) × Nearest x.mem path len x.mounts size len i
        × ((a : ℕ) → (a < p) ⊎ (p + len < a) → m' a ≡ x.mem a)
        × Opening f i (record x { heap = h3; mem = m' }) h4
  fopen-Opening f p h1 h2 h3 h4 yells got copied back freed own mounts short root root_byte absolute
        solid fits word bytes some_mount devfs closed =
      let (i, m', found, nearest, outside, bytes') =
        find_relative_mount-Nearest x.mem path len x.mounts size fuel p slash h1 h2 h3 yells own
          mounts short root root_byte absolute solid fits word bytes copied back in
      let below = Nearest-index i some_mount nearest in
      let text = apart_same m' p path len outside own in
      let y = record x { heap = h3; mem = m' } in
      let starts =
        fopen_start fuel disk fe slash eax x path len f i (size i) h1 h3 m' got found text
          (apart_same m' p (x.mounts.mount_points i).path (size i) outside (mounts i below)) fits
          (short i below) in
      (
        i,
        m',
        nearest,
        outside,
        elim (le_or_lt len (size i)) [
          | inl le ↦
              root_opened le
                (starts ∙ root_copied fuel disk fe slash eax y path len f (size i) (master_of i) le)
          | inr lt ↦
              let (r, x3, ran, s) =
                devfs_find_dir-Searched fuel y (path + size i) (len - size i) f
                  (suffix-IsText m' path len (size i) (omega arith) text) bytes' (omega arith) in
              below_mount f i h3 h4 m' (devfs i below nearest) closed freed starts lt r x3
                (searched fuel disk fe slash eax y x3 path len f (size i) (master_of i) r lt
                  (devfs i below nearest) ran)
                s
        ],
      )
