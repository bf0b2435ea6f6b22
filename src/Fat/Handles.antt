-- ===== src/Fat/Handles.antt =====
-- src/fs/fat.c: mounting, nodes, handles and directories, as steps of the machine. `disk` is what the
-- device's `read` gives, and `fe` the address of the entry that a function keeps on its stack.
pub mod Listing
use cookies_os.Base.{
  ℕ, zero, suc, ◌+◌, ◌*◌, ◌==◌, ltb, not, if◌then◌else◌, Option, none, some, List, [], ◌∷◌, ◌||◌,
  Bool, true, false, ℤ, pos, negsuc, codes, Mem,
}
use cookies_os.Vfs.{Vfs, vfs_node_new, vfs_file, vfs_directory, vfs_filesystem, Callback}
use cookies_os.Machine.{
  Machine, M, ◌>>=◌, ◌>>◌, ret, halt, gets, modify, load, store, copy, node_at, set_node, put_bytes,
  kmalloc, kfree, node_size, vfs_name_max,
}
use cookies_os.Device.{vfs_block_dev}
use cookies_os.Fat.{FatBpb, half_at, read_sectors, parse_bpb, root_lba, fat_get_filehandle_buffer}
use cookies_os.Fat
use cookies_os.Fat.Paths.{strtok}

-- `sizeof(FatEntry_t)`, and the fields that are read.
abbrev pub entry_size : ℕ
entry_size = 32

abbrev pub attributes : Mem → ℕ → ℕ
attributes m entry = m (entry + 11)

abbrev pub starting_cluster : Mem → ℕ → ℕ
starting_cluster m entry = half_at m (entry + 26)

abbrev pub attr_directory : ℕ
attr_directory = 0x10

-- `vread(dev, lba, sectors, buffer)`.
abbrev pub device_read : (ℕ → ℕ) → ℕ → ℕ → ℕ → M (Unit {0})
device_read disk lba sectors buffer =
    modify (λ x. record x { mem = read_sectors disk lba sectors buffer x.mem })

-- The steps of the modules below, on the machine.
unfoldable pub read_bpb : ℕ → (ℕ → ℕ) → M FatBpb
read_bpb fuel disk x = elim (parse_bpb fuel disk x.heap x.mem) [
  | none ↦ none
  | some p ↦ some (p.bpb, record x { heap = p.heap; mem = p.mem })
]

unfoldable pub find_entry : ℕ → ℕ → ℕ → M ℕ
find_entry fuel path b512 x = elim (fat_get_filehandle_buffer fuel x.mem path b512) [
  | none ↦ none
  | some entry ↦ some (entry, x)
]

unfoldable pub next_part : ℕ → ℕ → M ℕ
next_part fuel path x = elim (strtok fuel fuel x.heap x.mem x.strtok_input path b'/') [
  | none ↦ none
  | some p ↦ some (p.result, record x { heap = p.heap; mem = p.mem; strtok_input = p.input })
]

unfoldable pub read_with_handle : ℕ → (ℕ → ℕ) → ℕ → ℕ → ℕ → ℕ → M (Unit {0})
read_with_handle fuel disk file entry size ptr x =
    elim (Fat.fat_file_read_with_handle fuel disk x.heap x.mem (x.nodes file).flag
      (starting_cluster x.mem entry) size ptr) [
        | none ↦ none
        | some r ↦ some (tt, record x { heap = r.heap; mem = r.mem })
      ]

-- `device->flag != VFS_BLOCK_DEV || !device->read`.
abbrev pub not_readable : Vfs → Bool
not_readable device =
    not (device.flag == vfs_block_dev) || elim device.read [ none ↦ true | some c ↦ false ]

-- The comparison with the signature sets a variable that is not read.
unfoldable pub fat_check : ℕ → (ℕ → ℕ) → ℕ → M ℤ
fat_check fuel disk device = do
  d ← node_at device
  let checked : M ℤ = do
    buffer ← kmalloc fuel 512
    device_read disk 0 1 buffer
    kfree fuel buffer
    ret (pos 0)
  if not_readable d then ret (pos 1) else checked

unfoldable pub fat_mount : ℕ → ℕ → M ℤ
fat_mount fuel device = do
  d ← node_at device
  let mounted : M ℤ = do
    node ← kmalloc fuel node_size
    put_bytes node (codes "FAT16")
    was ← node_at node
    set_node node (record was {
      flag = vfs_filesystem;
      read_dir = some Callback.fat_read_dir;
      find_dir = some Callback.fat_find_dir;
      master = device;
    })
    now ← node_at device
    set_node device (record now { master = node })
    ret (pos 0)
  if not_readable d then ret (pos 0) else mounted

unfoldable pub fat_file_create : ℕ → ℕ → ℕ → M (Unit {0})
fat_file_create node path device = do
  copy node path vfs_name_max
  set_node node
      (record vfs_node_new { read = some Callback.fat_file_read; master = device; flag = vfs_file })

-- The `master` stays NULL.
unfoldable pub fat_dir_create : ℕ → ℕ → ℕ → M (Unit {0})
fat_dir_create node path device = do
  copy node path vfs_name_max
  set_node node (record vfs_node_new {
    read_dir = some Callback.fat_dir_readdir;
    find_dir = some Callback.fat_dir_finddir;
    flag = vfs_directory;
  })

unfoldable pub fat_node_create : ℕ → ℕ → ℕ → ℕ → M (Unit {0})
fat_node_create node path device entry = do
  a ← gets (λ x. attributes x.mem entry)
  if a == attr_directory then fat_dir_create node path device else fat_file_create node path device

unfoldable pub fat_get_filehandle_rootdir : ℕ → (ℕ → ℕ) → ℕ → M ℕ
fat_get_filehandle_rootdir fuel disk path = do
  b ← read_bpb fuel disk
  buffer ← kmalloc fuel 512
  device_read disk (root_lba b) 1 buffer
  result_ptr ← find_entry fuel path buffer
  status ← kmalloc fuel entry_size
  copy status result_ptr entry_size
  kfree fuel buffer
  ret status

-- `while(nodename != NULL)`: the entry, or 0 when a part is not found.
pub walk_loop : ℕ → ℕ → (ℕ → ℕ) → ℕ → ℕ → ℕ → ℕ → M ℕ
walk_loop zero fuel disk file buffer nodename entry = halt
walk_loop (suc rounds) fuel disk file buffer nodename entry = do
  let body : M ℕ = do
    kfree fuel nodename
    next ← next_part fuel 0
    found ← find_entry fuel next buffer
    a ← gets (λ x. attributes x.mem found)
    let missing : M ℕ = do kfree fuel next; ret 0
    let file_found : M ℕ = do kfree fuel next; ret found
    let deeper : M ℕ = do
      read_with_handle fuel disk file found 512 buffer
      walk_loop rounds fuel disk file buffer next found
    if found == 0 then missing else if a == attr_directory then deeper else file_found
  if nodename == 0 then ret entry else body

-- From `success_break` on; `entry` is 0 at `fully_break`.
unfoldable pub handle_end : ℕ → ℕ → ℕ → ℕ → ℕ → M ℤ
handle_end fuel retent buffer result entry = do
  let copied : M ℤ = do copy retent entry entry_size; ret (pos 0)
  status ← (if entry == 0 then ret (pos 1) else copied)
  kfree fuel buffer
  kfree fuel result
  ret status

unfoldable pub fat_get_filehandle : ℕ → (ℕ → ℕ) → ℕ → ℕ → M ℤ
unfolding walk_loop
fat_get_filehandle fuel disk file retent = do
  nodename ← next_part fuel file
  buffer ← kmalloc fuel 512
  result ← fat_get_filehandle_rootdir fuel disk nodename
  a ← gets (λ x. attributes x.mem result)
  let in_root : M ℤ = do kfree fuel nodename; handle_end fuel retent buffer result result
  let below : M ℤ = do
    read_with_handle fuel disk file result 512 buffer
    entry ← walk_loop fuel fuel disk file buffer nodename result
    handle_end fuel retent buffer result entry
  if result == 0 then ret (pos 1) else if a == attr_directory then below else in_root

unfoldable pub fat_file_read : ℕ → (ℕ → ℕ) → ℕ → ℕ → ℕ → ℕ → M ℤ
fat_file_read fuel disk fe file size ptr = do
  status ← fat_get_filehandle fuel disk file fe
  let reads : M ℤ = do read_with_handle fuel disk file fe size ptr; ret (pos 0)
  elim status [ pos zero ↦ reads | _ ↦ ret (pos 1) ]

-- The 16 entries of the sector at `buffer`, the next at `i`: the first that is in use behind the
-- `index` ones before it.
pub dirent_loop : Mem → ℕ → ℕ → ℕ → ℕ → ℕ → Option ℕ
dirent_loop m buffer index zero i count = none
dirent_loop m buffer index (suc left) i count =
    let entry = buffer + i * entry_size in
    let unused = dirent_loop m buffer index left (i + 1) count in
    let passed = dirent_loop m buffer index left (i + 1) (count + 1) in
    if starting_cluster m entry == 0 then unused else if ltb count index then passed else some entry

unfoldable pub fat_read_dir : ℕ → (ℕ → ℕ) → ℕ → ℕ → M ℤ
unfolding dirent_loop
fat_read_dir fuel disk index dirent = do
  let refused : M ℤ = do store dirent 0; ret (pos 1)
  let listed : M ℤ = do
    b ← read_bpb fuel disk
    buffer ← kmalloc fuel 512
    device_read disk (root_lba b) 1 buffer
    found ← gets (λ x. dirent_loop x.mem buffer index 16 0 0)
    let over : M ℤ = do kfree fuel buffer; ret (pos 1)
    elim found [ some entry ↦ (do copy dirent entry 8; ret (pos 0)) | none ↦ over ]
  if ltb 16 index then refused else listed

unfoldable pub fat_find_dir : ℕ → (ℕ → ℕ) → ℕ → ℕ → ℕ → ℕ → M ℤ
fat_find_dir fuel disk fe fatfs path target = do
  node ← node_at fatfs
  let found : M ℤ = do
    fat_file_create target path node.master
    status ← fat_get_filehandle fuel disk target fe
    let created : M ℤ = do fat_node_create target path node.master fe; ret (pos 0)
    elim status [ pos zero ↦ created | _ ↦ ret (pos 1) ]
  if node.flag == vfs_filesystem then found else ret (negsuc 1)

-- What a directory reads, it reads through its `master`; without one there is no node to read from.
abbrev pub through_master : Vfs → M ℤ → M ℤ
through_master node reads = if node.master == 0 then halt else reads

unfoldable pub fat_dir_readdir : ℕ → (ℕ → ℕ) → ℕ → ℕ → ℕ → ℕ → M ℤ
fat_dir_readdir fuel disk fe dir index out = do
  node ← node_at dir
  let listed : M ℤ = do
    buffer ← kmalloc fuel 512
    read_with_handle fuel disk dir fe 512 buffer
    copy out (buffer + index * entry_size) 8
    kfree fuel buffer
    ret (pos 0)
  let opened : M ℤ = do
    status ← fat_get_filehandle fuel disk dir fe
    elim status [ pos zero ↦ listed | _ ↦ ret (pos 1) ]
  if node.flag == vfs_directory then through_master node opened else ret (negsuc 1)

-- The test of the handle is the wrong way round.
unfoldable pub fat_dir_finddir : ℕ → (ℕ → ℕ) → ℕ → ℕ → ℕ → ℕ → M ℤ
fat_dir_finddir fuel disk fe dir filename target = do
  node ← node_at dir
  let found : M ℤ = do
    buffer ← kmalloc fuel 512
    read_with_handle fuel disk dir fe 512 buffer
    entry ← find_entry fuel filename buffer
    let missing : M ℤ = do kfree fuel buffer; ret (pos 1)
    let created : M ℤ = do
      fat_node_create target entry node.master entry
      kfree fuel buffer
      ret (pos 0)
    if entry == 0 then missing else created
  let opened : M ℤ = do
    status ← fat_get_filehandle fuel disk dir fe
    elim status [ pos zero ↦ ret (pos 1) | _ ↦ found ]
  if node.flag == vfs_directory then through_master node opened else ret (negsuc 1)
