-- ===== src/Ata/Command.antt =====
-- What an ATA drive reads from the bytes of a command: each port of the drive is a register that keeps the
-- last byte written to it.
use cookies_os.Base.{
  ℕ, ◌+◌, ◌*◌, ◌/◌, ◌%◌, ◌^◌, ◌<◌, ◌≡◌, refl, ap, ◌∙◌, arith, ◌==◌, if◌then◌else◌, List, [], ◌∷◌,
  ◌++◌, bit_or, bit_or-shifted,
}
use cookies_os.Pic.{Out}
use cookies_os.Ata.{ata_primary_io, ata_com_read, read_command}

-- The register at `port` after the writes, from the value `v` on.
unfoldable pub latch : ℕ → ℕ → List Out → ℕ
latch port v [] = v
latch port v (o ∷ outs) = latch port (if o.port == port then o.value else v) outs

latch_append :
    (port v : ℕ) (first second : List Out)
    → latch port v (first ++ second) ≡ latch port (latch port v first) second
unfolding latch
latch_append port v [] second = refl
latch_append port v (o ∷ first) second =
    latch_append port (if o.port == port then o.value else v) first second

abbrev pub register : ℕ → List Out → ℕ
register n outs = latch (ata_primary_io + n) 0 outs

-- The 28-bit number of a sector.
abbrev pub addressed : List Out → ℕ
addressed outs =
    register 3 outs
    + 2 ^ 8 * register 4 outs
    + 2 ^ 16 * register 5 outs
    + 2 ^ 24 * (register 6 outs % 16)

-- The last command is to read one sector from the master by its number.
pub record Asked (outs : List Out) (lba : ℕ) : Type 0 where
  pub command : register 7 outs ≡ ata_com_read
  pub count : register 2 outs ≡ 1
  pub master : register 6 outs / 16 ≡ 14
  pub number : addressed outs ≡ lba

device_byte : (lba : ℕ) → bit_or 0xE0 (lba / 2 ^ 24 % 16) ≡ 224 + lba / 2 ^ 24 % 16
device_byte lba = bit_or-shifted 4 14 (lba / 2 ^ 24 % 16) (omega arith)

-- The bytes that ata_read_sector sends ask for its sector, whatever was sent before, when the number has 28
-- bits.
pub read_command-Asked :
    (outs : List Out) (lba : ℕ) → lba < 2 ^ 28 → Asked (outs ++ read_command lba) lba
unfolding latch
read_command-Asked outs lba small =
    let at : (n : ℕ)
        → register n (outs ++ read_command lba)
          ≡ latch (ata_primary_io + n) (register n outs) (read_command lba) =
      λ n. latch_append (ata_primary_io + n) 0 outs (read_command lba) in
    let device : register 6 (outs ++ read_command lba) ≡ (224 + lba / 2 ^ 24 % 16) % 256 =
      at 6 ∙ ap (λ (t : ℕ). t % 256) (device_byte lba) in
    let low : register 3 (outs ++ read_command lba) ≡ lba % 256 = at 3 in
    let mid : register 4 (outs ++ read_command lba) ≡ lba / 2 ^ 8 % 256 = at 4 in
    let high : register 5 (outs ++ read_command lba) ≡ lba / 2 ^ 16 % 256 = at 5 in
    record {
      command = at 7;
      count = at 2;
      master = omega (arith, device);
      number = omega (arith, device, low, mid, high, small);
    }
