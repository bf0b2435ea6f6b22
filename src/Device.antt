-- ===== src/Device.antt =====
-- src/kernel/device.c: the table of devices, and the drivers' entries in it (term_init_device of
-- src/kernel/framebuffer.c, kb_init of src/drivers/keyboard.c). `handler` is the address of the node
-- that the driver builds on its stack; a node is passed by value, so the table holds a copy.
pub mod Table
use cookies_os.Base.{ℕ, ◌+◌, ◌*◌, none, some, List, [], ◌∷◌, ◌++◌, u32, codes}
use cookies_os.Terminal.{int, str}
use cookies_os.Vfs.{Vfs, vfs_node_new, Callback}
use cookies_os.Vfs
use cookies_os.Machine.{
  Machine, M, ◌>>=◌, ◌>>◌, ret, gets, modify, store, set_node, copy_node, put_bytes, read_text,
  print, kmalloc, node_size,
}

abbrev pub vfs_char_dev : ℕ
vfs_char_dev = 3

abbrev pub vfs_block_dev : ℕ
vfs_block_dev = 4

unfoldable pub devices_init : ℕ → M (Unit {0})
devices_init fuel = do
  p ← kmalloc fuel (node_size * 64)
  modify (λ x. record x { m_devices = p; m_devices_number = 0 })

-- The address of entry `index`; no bound is tested, and from 64 on it lies behind the block of the table,
-- where the code may write over headers of the heap, which are kept apart here.
abbrev pub devices_at : Machine → ℕ → ℕ
devices_at x index = x.m_devices + node_size * index

abbrev pub devices_number : Machine → ℕ
devices_number x = x.m_devices_number

abbrev pub added_message : List ℕ
added_message = codes "[DEVICES] Added new device %s, on index %x\n"

unfoldable pub devices_add : ℕ → ℕ → M ℕ
devices_add fuel dev = do
  n ← gets devices_number
  entry ← gets (λ x. devices_at x n)
  copy_node entry dev
  name ← read_text fuel dev
  print added_message (str name ∷ int n ∷ [])
  modify (λ x. record x { m_devices_number = u32 (n + 1) })
  ret n

-- `Vfs_t device_handler = vfs_node_new()`.
unfoldable pub fresh_node : ℕ → M (Unit {0})
fresh_node handler = do store handler 0; set_node handler vfs_node_new

-- The five bytes of the name are not terminated.
unfoldable pub term_init_device : ℕ → ℕ → M ℕ
term_init_device fuel handler = do
  fresh_node handler
  put_bytes handler (codes "video")
  set_node handler
      (record vfs_node_new { write = some Callback.term_write_callback; flag = vfs_char_dev })
  devices_add fuel handler

-- Behind the gate and the mask of the interrupt.
unfoldable pub kb_init : ℕ → ℕ → M ℕ
kb_init fuel handler = do
  fresh_node handler
  put_bytes handler (codes "kb" ++ (0 ∷ []))
  set_node handler
      (record vfs_node_new { read = some Callback.keyboard_read_callback; flag = vfs_char_dev })
  devices_add fuel handler

-- The end of ata_init, when the drive has identified itself.
unfoldable pub ata_register : ℕ → ℕ → M ℕ
ata_register fuel handler = do
  fresh_node handler
  put_bytes handler (codes "ata" ++ (0 ∷ []))
  set_node handler
      (record vfs_node_new { read = some Callback.ata_read_callback; flag = vfs_block_dev })
  devices_add fuel handler
