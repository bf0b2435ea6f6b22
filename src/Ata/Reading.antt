-- ===== src/Ata/Reading.antt =====
-- src/drivers/ata.c: reading sectors. `answer` is what the status port answers, as in Ata/Identify, and
-- `received outs i` the half-word that the i-th read of the data port returns after the writes `outs`.
use cookies_os.Base.{ℕ, zero, suc, ◌+◌, ◌==◌, if◌then◌else◌, Mem, u32, some, List, ◌++◌}
use cookies_os.Pic.{Out}
use cookies_os.Ata.{ata_sector_size, read_command, word_loop}
use cookies_os.Ata.Identify.{Io, ◌>>=◌, ◌>>◌, ret, ata_wait_bsy, ata_wait_drq}

abbrev pub send_all : List Out → Io (Unit {0})
send_all outs b = some (tt, record b { outs = b.outs ++ outs })

module _ (answer : ℕ → ℕ → ℕ) (received : List Out → ℕ → ℕ) (fuel is_master_exist : ℕ) where
  -- The 256 reads of the data port.
  abbrev pub data_words : Io (ℕ → ℕ)
  data_words b = some (received b.outs, record b { reads = b.reads + 256 })

  -- The status and the memory; `return -1` is 255 as a `uint8_t`.
  unfoldable pub ata_read_sector : ℕ → ℕ → Mem → Io (ℕ × Mem)
  ata_read_sector lba target m =
      let found : Io (ℕ × Mem) = do
        ata_wait_bsy answer fuel
        send_all (read_command lba)
        ata_wait_bsy answer fuel
        ata_wait_drq answer fuel
        words ← data_words
        ret (0, word_loop words target 256 0 0 m)
      in if is_master_exist == 0 then ret (255, m) else found

  -- The loop of ata_read_callback, `left` sectors from `lba` on.
  unfoldable pub ata_read_callback : ℕ → ℕ → ℕ → Mem → Io Mem
  ata_read_callback lba zero ptr m = ret m
  ata_read_callback lba (suc left) ptr m = do
    r ← ata_read_sector (u32 lba) ptr m
    ata_read_callback (lba + 1) left (ptr + ata_sector_size) (r.1)
