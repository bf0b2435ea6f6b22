-- ===== src/Files/Open.antt =====
-- The steps of fopen.
use cookies_os.Base.{
  ℕ, zero, ◌+◌, ◌≤◌, ◌<◌, ◌≡◌, refl, ◌∙◌, arith, true, false, leb, if◌then◌else◌, none, some, [],
  Mem, ℤ, pos, negsuc,
}
use cookies_os.Libc.Strings.{IsText, strlen_iff}
use cookies_os.Kheap.{Kheap, malloc, free}
use cookies_os.Vfs.{Vfs, Callback, vfs_filesystem, vfind_dir, vopen, find_relative_mount}
use cookies_os.Machine.{Machine, M, ◌>>=◌, ◌>>◌, ret, kmalloc, kfree, copy_node, node_size}
use cookies_os.Machine.Names.{bind_some, kmalloc-some, kfree-some}
use cookies_os.Device.Table.{copied_node, copy_node_lem}
use cookies_os.Devfs.{devfs_find_dir, read_strlen}
use cookies_os.Files.{relative_mount, fopen, find_dir_node, open_node, call_find_dir, call_none}

-- The node of a directory of devices.
pub record IsDevfs (v : Vfs) : Type 0 where
  pub kind : v.flag ≡ vfs_filesystem
  pub listing : v.read_dir ≡ some Callback.devfs_read_dir
  pub search : v.find_dir ≡ some Callback.devfs_find_dir

pub counted :
    (fuel : ℕ) (x : Machine) (p n : ℕ)
    → IsText x.mem p n
    → n < fuel
    → read_strlen fuel p x ≡ some (n, x)
counted fuel x p n text enough = rw ((strlen_iff x.mem p fuel n enough).1 text, read_strlen) refl

module _ (fuel : ℕ) (disk : ℕ → ℕ) (fe slash : ℕ) (eax : ℤ) where
  relative_mount-some :
      (x : Machine) (path i : ℕ) (h : Kheap) (m : Mem)
      → find_relative_mount fuel x.heap x.mem x.mounts slash path
        ≡ some (record { index = i; heap = h; mem = m })
      → relative_mount fuel disk fe slash eax path x ≡ some (i, record x { heap = h; mem = m })
  unfolding relative_mount
  relative_mount-some x path i h m e = rw (e, relative_mount) refl

  find_dir_node-devfs :
      (x : Machine) (node path target : ℕ)
      → IsDevfs (x.nodes node)
      → find_dir_node fuel disk fe slash eax node path target x ≡ devfs_find_dir fuel path target x
  unfolding find_dir_node vfind_dir call_find_dir
  find_dir_node-devfs x node path target v =
      rw (v.listing, v.kind, v.search, find_dir_node, vfind_dir) refl

  open_node-none :
      (x : Machine) (node : ℕ)
      → (x.nodes node).open_callback ≡ none
      → open_node fuel disk fe slash eax node x ≡ some (negsuc 0, x)
  unfolding open_node vopen call_none
  open_node-none x node e = rw (e, open_node, vopen) refl

  -- What fopen does with the status of the search.
  pub chosen : ℕ → ℤ → M ℕ
  chosen f status = elim status [
    | pos zero ↦ (open_node fuel disk fe slash eax f >> ret f)
    | _ ↦ (kfree fuel f >> ret 0)
  ]

  -- fopen behind the search of the mount point, whose path has `size_i` bytes.
  pub behind_mount : (path len f size_i master : ℕ) → M ℕ
  behind_mount path len f size_i master =
      if leb len size_i
      then (copy_node f master >> ret f)
      else (find_dir_node fuel disk fe slash eax master (path + size_i) f >>= chosen f)

  pub fopen_start :
      (x : Machine) (path len f i size_i : ℕ) (h1 h3 : Kheap) (m' : Mem)
      → malloc fuel x.heap node_size ≡ some (f, h1)
      → find_relative_mount fuel h1 x.mem x.mounts slash path
        ≡ some (record { index = i; heap = h3; mem = m' })
      → IsText m' path len
      → IsText m' (x.mounts.mount_points i).path size_i
      → len < fuel
      → size_i < fuel
      → fopen fuel disk fe slash eax path x
        ≡ behind_mount path len f size_i
            (x.nodes (x.mounts.mount_points i).device).master
            (record x { heap = h3; mem = m' })
  unfolding fopen behind_mount chosen
  fopen_start x path len f i size_i h1 h3 m' got found text mount_text enough short =
      let x1 = record x { heap = h1 } in
      let x2 = record x { heap = h3; mem = m' } in
      bind_some (kmalloc fuel node_size) _ x x1 f (kmalloc-some fuel node_size f x h1 got)
      ∙ bind_some (relative_mount fuel disk fe slash eax path) _ x1 x2 i
          (relative_mount-some x1 path i h3 m' found)
      ∙ bind_some (read_strlen fuel path) _ x2 x2 len (counted fuel x2 path len text enough)
      ∙ bind_some (read_strlen fuel (x.mounts.mount_points i).path) _ x2 x2 size_i
          (counted fuel x2 (x.mounts.mount_points i).path size_i mount_text short)

  pub root_copied :
      (x : Machine) (path len f size_i master : ℕ)
      → len ≤ size_i
      → behind_mount path len f size_i master x ≡ some (f, copied_node x f master)
  unfolding behind_mount
  root_copied x path len f size_i master le =
      let root : leb len size_i ≡ true = ground arith in
      rw root (
        bind_some (copy_node f master) (λ u. ret f) x (copied_node x f master) tt
          (copy_node_lem x f master))

  pub searched :
      (x x3 : Machine) (path len f size_i master : ℕ) (r : ℤ)
      → size_i < len
      → IsDevfs (x.nodes master)
      → devfs_find_dir fuel (path + size_i) f x ≡ some (r, x3)
      → behind_mount path len f size_i master x ≡ chosen f r x3
  unfolding behind_mount
  searched x x3 path len f size_i master r lt v ran =
      let deeper : leb len size_i ≡ false = ground arith in
      rw deeper (
        bind_some (find_dir_node fuel disk fe slash eax master (path + size_i) f) (chosen f) x x3 r
          (find_dir_node-devfs x master (path + size_i) f v ∙ ran))

  pub chosen_found :
      (x : Machine) (f : ℕ) → (x.nodes f).open_callback ≡ none → chosen f (pos 0) x ≡ some (f, x)
  unfolding chosen
  chosen_found x f e =
      bind_some (open_node fuel disk fe slash eax f) (λ u. ret f) x x (negsuc 0)
        (open_node-none x f e)

  pub chosen_missing :
      (x : Machine) (f : ℕ) (h : Kheap)
      → free fuel x.heap f ≡ some ([], h)
      → chosen f (pos 1) x ≡ some (0, record x { heap = h })
  unfolding chosen
  chosen_missing x f h e =
      bind_some (kfree fuel f) (λ u. ret 0) x (record x { heap = h }) tt (kfree-some fuel f x h e)
