-- ===== src/Vfs.antt =====
-- src/fs/vfs.c and src/fs/vfs.h: nodes, the calls through them, and the mount points.
pub mod Mount
pub mod Shorten
pub mod Search
use cookies_os.Base.{
  ℕ, zero, suc, ◌+◌, ◌==◌, Bool, ◌&&◌, ◌||◌, if◌then◌else◌, Option, none, some, Mem,
}
use cookies_os.Libc.{strlen, strcmp, strdeltoc, memcpy}
use cookies_os.Kheap.{Kheap, malloc, free}

abbrev pub vfs_invalid : ℕ
vfs_invalid = 0

abbrev pub vfs_file : ℕ
vfs_file = 1

abbrev pub vfs_directory : ℕ
vfs_directory = 2

abbrev pub vfs_filesystem : ℕ
vfs_filesystem = 0x10

-- The functions that the sources store in nodes; `none` is NULL.
pub data Callback : Type 0 where
  ata_read_callback : Callback
  keyboard_read_callback : Callback
  term_write_callback : Callback
  fat_file_read : Callback
  fat_read_dir : Callback
  fat_dir_readdir : Callback
  devfs_read_dir : Callback
  fat_find_dir : Callback
  fat_dir_finddir : Callback
  devfs_find_dir : Callback

-- The fields behind `name`, whose bytes are in memory.
pub record Vfs : Type 0 where
  pub flag : ℕ
  pub read : Option Callback
  pub write : Option Callback
  pub open_callback : Option Callback
  pub close_callback : Option Callback
  pub read_dir : Option Callback
  pub find_dir : Option Callback
  pub master : ℕ

abbrev pub vfs_node_new : Vfs
vfs_node_new = record {
  flag = vfs_invalid;
  read = none;
  write = none;
  open_callback = none;
  close_callback = none;
  read_dir = none;
  find_dir = none;
  master = 0;
}

-- `call` is the call of a stored function with the arguments, `fails` is `return -1`, and `null` is
-- a call of NULL.
module _ {ℓ} {A : Type ℓ} (call : Callback → A) (fails null : A) where
  abbrev through : A → Option Callback → A
  through missing none = missing
  through missing (some c) = call c

  unfoldable pub vread : Vfs → A
  vread node = through fails node.read

  unfoldable pub vwrite : Vfs → A
  vwrite node = through fails node.write

  unfoldable pub vopen : Vfs → A
  vopen node = through fails node.open_callback

  unfoldable pub vclose : Vfs → A
  vclose node = through fails node.close_callback

  abbrev pub is_listed : Vfs → Bool
  is_listed node = (node.flag == vfs_directory) || (node.flag == vfs_filesystem)

  unfoldable pub vread_dir : Vfs → A
  vread_dir node = if is_listed node then through fails node.read_dir else fails

  -- The test is on `read_dir`, the call is of `find_dir`.
  unfoldable pub vfind_dir : Vfs → A
  vfind_dir node = elim node.read_dir [
    | none ↦ fails
    | some c ↦ if is_listed node then through null node.find_dir else fails
  ]

-- Addresses of the path and of the device.
pub record MountInfo : Type 0 where
  pub path : ℕ
  pub device : ℕ

pub record Mounts : Type 0 where
  pub mount_points : ℕ → MountInfo
  pub mount_count : ℕ

-- The inner loop of _find_relative_mount: the index of the mount point found, if any. The outer
-- Option is `none` when a string does not end within the fuel.
pub mount_loop : ℕ → Mem → Mounts → ℕ → ℕ → ℕ → Option (Option ℕ)
mount_loop fuel m v mount_path zero i = some none
mount_loop fuel m v mount_path (suc left) i =
    let rest = mount_loop fuel m v mount_path left (i + 1) in
    elim (strcmp fuel m mount_path (v.mount_points i).path) [
      | none ↦ none
      | some r ↦ if r == 0 then some (some i) else rest
    ]

-- `for(;;)`: the index returned and the memory. `slash` is the address of the literal "/".
pub shorten_loop : ℕ → ℕ → ℕ → Mounts → ℕ → Mem → Option (ℕ × Mem)
shorten_loop zero fuel slash v mount_path m = none
shorten_loop (suc rounds) fuel slash v mount_path m =
    elim (mount_loop fuel m v mount_path v.mount_count 0) [
      | none ↦ none
      | some (some i) ↦ some (i, m)
      | some none ↦ elim (strcmp fuel m mount_path slash) [
        | none ↦ none
        | some r ↦
            let shorter : Option (ℕ × Mem) = elim (strdeltoc fuel m mount_path b'/') [
              | none ↦ none
              | some d ↦ shorten_loop rounds fuel slash v mount_path d.mem
            ] in
            if r == 0 then some (0, m) else shorter
      ]
    ]

pub record Relative : Type 0 where
  pub index : ℕ
  pub heap : Kheap
  pub mem : Mem

unfoldable pub find_relative_mount : ℕ → Kheap → Mem → Mounts → ℕ → ℕ → Option Relative
find_relative_mount fuel h m v slash path = elim (strlen fuel m path) [
  | none ↦ none
  | some len ↦ elim (malloc fuel h (len + 1)) [
    | none ↦ none
    | some (mount_path, h1) ↦
        elim (shorten_loop fuel fuel slash v mount_path (memcpy m mount_path path (len + 1))) [
          | none ↦ none
          | some (i, m') ↦ elim (free fuel h1 mount_path) [
            | none ↦ none
            | some (yells, h2) ↦ some (record { index = i; heap = h2; mem = m' })
          ]
        ]
  ]
]
