-- ===== src/Ata.antt =====
-- src/drivers/ata.c and src/drivers/ata.h: the bytes that are sent and received for a sector.
pub mod Sector
pub mod Identify
pub mod Reading
pub mod Command
pub mod Disk
use cookies_os.Base.{ℕ, zero, suc, ◌+◌, ◌/◌, ◌%◌, ◌^◌, bit_or, Mem, write, List, [], ◌∷◌}
use cookies_os.Pic.{Out, outb}

abbrev pub ata_primary_io : ℕ
ata_primary_io = 0x1F0

abbrev pub ata_com_read : ℕ
ata_com_read = 0x20

abbrev pub ata_sector_size : ℕ
ata_sector_size = 512

pub word_loop : (ℕ → ℕ) → ℕ → ℕ → ℕ → ℕ → Mem → Mem
word_loop words target zero i index m = m
word_loop words target (suc left) i index m =
    let out = words i in
    let m1 = write m (target + index) (out % 256) in
    let m2 = write m1 (target + (index + 1)) (out / 256 % 256) in
    word_loop words target left (i + 1) (index + 2) m2

abbrev pub read_command : ℕ → List Out
read_command lba =
    outb (ata_primary_io + 6) (bit_or 0xE0 (lba / 2 ^ 24 % 16))
    ∷ outb (ata_primary_io + 2) 1
    ∷ outb (ata_primary_io + 3) lba
    ∷ outb (ata_primary_io + 4) (lba / 2 ^ 8)
    ∷ outb (ata_primary_io + 5) (lba / 2 ^ 16)
    ∷ outb (ata_primary_io + 7) ata_com_read
    ∷ []
