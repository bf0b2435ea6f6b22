-- ===== src/Devfs.antt =====
-- src/fs/devfs.c: the directory of devices. `node` arguments are addresses of nodes; `dirent` is the
-- address of a directory entry, whose name comes first.
pub mod Search
pub mod Listing
use cookies_os.Base.{
  ℕ, zero, suc, ◌+◌, ◌==◌, ltb, not, if◌then◌else◌, none, some, [], ◌∷◌, ◌++◌, ℤ, pos, codes,
  Option,
}
use cookies_os.Libc.{strlen, strcmp}
use cookies_os.Vfs.{Vfs, vfs_node_new, vfs_filesystem, Callback}
use cookies_os.Vfs
use cookies_os.Machine.{
  Machine, M, ◌>>=◌, ◌>>◌, ret, halt, gets, store, copy, node_at, set_node, copy_node, put_bytes,
  kmalloc, node_size,
}
use cookies_os.Device.{devices_at, devices_number, devices_add, fresh_node, vfs_block_dev}

abbrev pub devfs_check : Vfs → ℤ
devfs_check device = if device.flag == vfs_block_dev then pos 0 else pos 1

-- The fields that are not set keep what stood in the block.
unfoldable pub devfs_mount : ℕ → ℕ → M ℤ
devfs_mount fuel device = do
  d ← node_at device
  let mounted : M ℤ = do
    node ← kmalloc fuel node_size
    put_bytes node (codes "DEVFS")
    was ← node_at node
    set_node node (record was {
      flag = vfs_filesystem;
      read_dir = some Callback.devfs_read_dir;
      find_dir = some Callback.devfs_find_dir;
      master = device;
    })
    now ← node_at device
    set_node device (record now { master = node })
    ret (pos 0)
  if d.flag == vfs_block_dev then mounted else ret (pos 1)

unfoldable pub devfs_make_instance : ℕ → ℕ → M (Unit {0})
devfs_make_instance target dev = copy_node target dev

-- strlen of the text at `p`.
abbrev pub read_strlen : ℕ → ℕ → M ℕ
read_strlen fuel p x = elim (strlen fuel x.mem p) [ none ↦ none | some n ↦ some (n, x) ]

abbrev pub read_strcmp : ℕ → ℕ → ℕ → M ℕ
read_strcmp fuel p q x = elim (strcmp fuel x.mem p q) [ none ↦ none | some r ↦ some (r, x) ]

-- The name is copied without its terminator.
unfoldable pub devfs_read_dir : ℕ → ℕ → ℕ → M ℤ
devfs_read_dir fuel index dirent = do
  n ← gets devices_number
  tar_name ← gets (λ x. devices_at x index)
  let listed : M ℤ = do len ← read_strlen fuel tar_name; copy dirent tar_name len; ret (pos 0)
  if ltb n index then ret (pos 1) else listed

-- `left` devices remain, the next at index `i`.
pub device_loop : ℕ → ℕ → ℕ → ℕ → ℕ → M ℤ
device_loop fuel path target zero i = ret (pos 1)
device_loop fuel path target (suc left) i = do
  dev ← gets (λ x. devices_at x i)
  r ← read_strcmp fuel dev path
  let found : M ℤ = do devfs_make_instance target dev; ret (pos 0)
  let rest = device_loop fuel path target left (i + 1)
  if r == 0 then found else rest

unfoldable pub devfs_find_dir : ℕ → ℕ → ℕ → M ℤ
unfolding device_loop
devfs_find_dir fuel path target = do n ← gets devices_number; device_loop fuel path target n 0
