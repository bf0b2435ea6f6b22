-- ===== src/Files.antt =====
-- src/fs/vfs.c: fopen, fclose and the mounting of devices. The calls of a node's functions go to the
-- functions of src/fs/fat.c, src/fs/devfs.c and the drivers. Parameters: the fuel, what the disk holds,
-- the address `fe` that src/fs/fat.c keeps an entry at, the address of the literal "/", and `eax`, what
-- a callback returns that ends without a `return`.
pub mod Open
pub mod Found
use cookies_os.Base.{
  ℕ, zero, ◌+◌, ◌==◌, leb, if◌then◌else◌, none, some, List, [], ◌∷◌, write, ℤ, pos, negsuc, codes,
  u32, ◌++◌,
}
use cookies_os.Terminal.{str, term_write}
use cookies_os.Keyboard
use cookies_os.Vfs.{
  Callback, MountInfo, find_relative_mount, vread, vwrite, vopen, vclose, vread_dir, vfind_dir,
}
use cookies_os.Machine.{
  M, ◌>>=◌, ◌>>◌, ret, halt, gets, modify, node_at, copy_node, put_bytes, read_text, print, kmalloc,
  kfree, bytes_at, node_size,
}
use cookies_os.Device.{devices_add, devices_at, fresh_node, vfs_block_dev}
use cookies_os.Devfs.{devfs_check, devfs_mount, devfs_read_dir, devfs_find_dir, read_strlen}
use cookies_os.Fat.{read_sectors}
use cookies_os.Fat.Handles.{
  fat_check, fat_mount, fat_file_read, fat_read_dir, fat_find_dir, fat_dir_readdir, fat_dir_finddir,
}

-- What `read` of the drivers does.
abbrev keyboard_read : ℕ → ℕ → ℕ → M ℤ
keyboard_read offset size ptr x =
    let r = Keyboard.keyboard_read_callback x.keyboard x.mem offset size ptr in
    some (pos r.ret, record x { keyboard = r.keyboard; mem = r.mem })

abbrev pub mounted_message : List ℕ
mounted_message = codes "Mounted %s in path: %s\n"

-- The call of a stored function of another type halts.
module _ (fuel : ℕ) (disk : ℕ → ℕ) (fe slash : ℕ) (eax : ℤ) where
  unfoldable pub call_read : ℕ → ℕ → ℕ → ℕ → Callback → M ℤ
  call_read node offset size ptr Callback.ata_read_callback = do
    modify (λ x. record x { mem = read_sectors disk offset size ptr x.mem })
    ret eax
  call_read node offset size ptr Callback.keyboard_read_callback = keyboard_read offset size ptr
  call_read node offset size ptr Callback.fat_file_read = fat_file_read fuel disk fe node size ptr
  call_read node offset size ptr c = halt

  -- term_write_callback takes no account of the offset.
  unfoldable pub call_write : ℕ → ℕ → ℕ → ℕ → Callback → M ℤ
  call_write node offset size ptr Callback.term_write_callback = do
    modify (λ x. record x { term = term_write x.term (bytes_at x.mem ptr size) })
    ret eax
  call_write node offset size ptr c = halt

  unfoldable pub call_read_dir : ℕ → ℕ → ℕ → Callback → M ℤ
  call_read_dir node index dirent Callback.fat_read_dir = fat_read_dir fuel disk index dirent
  call_read_dir node index dirent Callback.fat_dir_readdir =
      fat_dir_readdir fuel disk fe node index dirent
  call_read_dir node index dirent Callback.devfs_read_dir = devfs_read_dir fuel index dirent
  call_read_dir node index dirent c = halt

  unfoldable pub call_find_dir : ℕ → ℕ → ℕ → Callback → M ℤ
  call_find_dir node path target Callback.fat_find_dir = fat_find_dir fuel disk fe node path target
  call_find_dir node path target Callback.fat_dir_finddir =
      fat_dir_finddir fuel disk fe node path target
  call_find_dir node path target Callback.devfs_find_dir = devfs_find_dir fuel path target
  call_find_dir node path target c = halt

  -- No source stores an `open` or a `close`.
  unfoldable pub call_none : Callback → M ℤ
  call_none c = halt

  -- The functions of the nodes, on the address of a node.
  unfoldable pub read_node : ℕ → ℕ → ℕ → ℕ → M ℤ
  unfolding call_read
  read_node node offset size ptr = do
    v ← node_at node
    vread (call_read node offset size ptr) (ret (negsuc 0)) halt v

  unfoldable pub write_node : ℕ → ℕ → ℕ → ℕ → M ℤ
  unfolding call_write
  write_node node offset size ptr = do
    v ← node_at node
    vwrite (call_write node offset size ptr) (ret (negsuc 0)) halt v

  unfoldable pub open_node : ℕ → M ℤ
  unfolding call_none
  open_node node = do v ← node_at node; vopen call_none (ret (negsuc 0)) halt v

  unfoldable pub close_node : ℕ → M ℤ
  unfolding call_none
  close_node node = do v ← node_at node; vclose call_none (ret (negsuc 0)) halt v

  unfoldable pub read_dir_node : ℕ → ℕ → ℕ → M ℤ
  unfolding call_read_dir
  read_dir_node node index dirent = do
    v ← node_at node
    vread_dir (call_read_dir node index dirent) (ret (negsuc 0)) halt v

  unfoldable pub find_dir_node : ℕ → ℕ → ℕ → M ℤ
  unfolding call_find_dir
  find_dir_node node name target = do
    v ← node_at node
    vfind_dir (call_find_dir node name target) (ret (negsuc 0)) halt v

  -- _find_relative_mount on the machine.
  unfoldable pub relative_mount : ℕ → M ℕ
  relative_mount path x = elim (find_relative_mount fuel x.heap x.mem x.mounts slash path) [
    | none ↦ none
    | some r ↦ some (r.index, record x { heap = r.heap; mem = r.mem })
  ]

  -- 0 is NULL.
  unfoldable pub fopen : ℕ → M ℕ
  fopen path = do
    file ← kmalloc fuel node_size
    mnt_i ← relative_mount path
    info ← gets (λ x. x.mounts.mount_points mnt_i)
    path_len ← read_strlen fuel path
    mount_len ← read_strlen fuel info.path
    device ← node_at info.device
    let root : M ℕ = do copy_node file device.master; ret file
    let opened : M ℕ = do open_node file; ret file
    let missing : M ℕ = do kfree fuel file; ret 0
    let searched : M ℕ = do
      status ← find_dir_node device.master (path + mount_len) file
      elim status [ pos zero ↦ opened | _ ↦ missing ]
    if leb path_len mount_len then root else searched

  unfoldable pub fclose : ℕ → M ℤ
  fclose node = do stat ← close_node node; kfree fuel node; ret stat

  unfoldable pub mount_failed : List ℕ → M ℤ
  mount_failed err_msg = do
    print (codes "Unable to mount device (%s)\n") (str err_msg ∷ [])
    ret (pos 1)

  -- `mount_points[mount_count++] = info` and the message.
  unfoldable pub mount_at : ℕ → ℕ → M ℤ
  mount_at device path = do
    let info : MountInfo = record { path = path; device = device }
    modify (λ x. record x {
      mounts = record {
        mount_points = write x.mounts.mount_points x.mounts.mount_count info;
        mount_count = u32 (x.mounts.mount_count + 1);
      };
    })
    name ← read_text fuel device
    at ← read_text fuel path
    print mounted_message (str name ∷ str at ∷ [])
    ret (pos 0)

  -- The two `if`s of each type, on what the check and the mount return.
  unfoldable pub mount_with : M ℤ → M ℤ → List ℕ → List ℕ → M ℤ → M ℤ
  mount_with check mount refused failed go_on = do
    checked ← check
    let mounts : M ℤ = do
      mounted ← mount
      elim mounted [ pos zero ↦ go_on | _ ↦ mount_failed failed ]
    elim checked [ pos zero ↦ mounts | _ ↦ mount_failed refused ]

  -- Another type mounts an uninitialised `info`: the model halts.
  unfoldable pub vmount_device : ℕ → ℕ → ℕ → M ℤ
  unfolding mount_at mount_with mount_failed
  vmount_device device path type = do
    d ← node_at device
    let fat : M ℤ =
        mount_with (fat_check fuel disk device) (fat_mount fuel device) (codes "Not a Fat16 device")
          (codes "fat_mount(..) returned with error") (mount_at device path)
    let devfs : M ℤ =
        mount_with (ret (devfs_check d)) (devfs_mount fuel device) (codes "Not a devfs device")
          (codes "dev_mount(..) returned with error") (mount_at device path)
    if type == 0 then fat else if type == 1 then devfs else halt

  -- Room for one entry.
  unfoldable pub vfs_init : M (Unit {0})
  vfs_init = do
    p ← kmalloc fuel 8
    modify (λ x. record x { mounts = record x.mounts { mount_count = 0 } })

  -- src/fs/devfs.c: mount_devfs_device, with its node at `handler`.
  unfoldable pub mount_devfs_device : ℕ → ℕ → M ℤ
  mount_devfs_device handler path = do
    fresh_node handler
    put_bytes handler (codes "devman" ++ (0 ∷ []))
    modify (λ x. record x {
      nodes = write x.nodes handler (record (x.nodes handler) { flag = vfs_block_dev });
    })
    dev_id ← devices_add fuel handler
    device ← gets (λ x. devices_at x dev_id)
    vmount_device device path 1
