-- ===== src/Ata/Identify.antt =====
-- src/drivers/ata.c: finding the drive. `answer port n` is what the n-th read of a port returns, counted
-- over all ports; `eax` is what _ata_wait_drq leaves in its register, since it ends without a `return`.
pub mod Waits
pub mod Quiet
pub mod Verdict
use cookies_os.Base.{
  ℕ, zero, suc, ◌+◌, bit_and, ◌==◌, ◌||◌, not, if◌then◌else◌, Option, none, some, List, [], ◌∷◌,
  ◌++◌, codes,
}
use cookies_os.Pic.{Out, outb, pic_send_eoi}
use cookies_os.Terminal.{Term, yell}
use cookies_os.Panic.{panic}
use cookies_os.Ata.{ata_primary_io}

abbrev pub ata_status_bsy : ℕ
ata_status_bsy = 0x80

abbrev pub ata_status_rdy : ℕ
ata_status_rdy = 0x40

abbrev pub ata_status_err : ℕ
ata_status_err = 0x01

abbrev pub ata_com_identify : ℕ
ata_com_identify = 0xEC

abbrev pub ata_master_hd : ℕ
ata_master_hd = 0xA0

abbrev pub ata_primary_devctl : ℕ
ata_primary_devctl = 0x3F6

abbrev pub ata_reg_status : ℕ
ata_reg_status = 0x07

-- -1 and -2 as a `uint8_t`.
abbrev pub ata_err_bus_fetch : ℕ
ata_err_bus_fetch = 255

abbrev pub ata_err_drive_fetch : ℕ
ata_err_drive_fetch = 254

-- The reads so far, what was written to the ports, and the screen.
pub record Bus : Type 0 where
  pub reads : ℕ
  pub outs : List Out
  pub term : Term

-- `none`: the fuel ran out, or a message was not printed.
abbrev pub Io : Type 0 → Type 0
Io A = Bus → Option (A × Bus)

infixl 5 ◌>>=◌ ◌>>◌
abbrev pub ◌>>=◌ : {A B : Type 0} → Io A → (A → Io B) → Io B
◌>>=◌ m f b = elim (m b) [ none ↦ none | some (a, b') ↦ f a b' ]

abbrev pub ◌>>◌ : {A B : Type 0} → Io A → Io B → Io B
m >> k = m >>= λ _. k

abbrev pub ret : {A : Type 0} → A → Io A
ret a b = some (a, b)

abbrev pub send : ℕ → ℕ → Io (Unit {0})
send port value b = some (tt, record b { outs = b.outs ++ (outb port value ∷ []) })

abbrev pub ata_interrupt_primary_bus : List Out
ata_interrupt_primary_bus = pic_send_eoi 14

abbrev pub ata_interrupt_secondary_bus : List Out
ata_interrupt_secondary_bus = pic_send_eoi 15

module _ (answer : ℕ → ℕ → ℕ) where
  -- A read of a byte or a half-word.
  abbrev pub input : ℕ → Io ℕ
  input port b = some (answer port b.reads, record b { reads = b.reads + 1 })

  unfoldable pub ata_delay400ns : Io (Unit {0})
  ata_delay400ns = do input 0x1FC; input 0x1FC; input 0x1FC; input 0x1FC; ret tt

  unfoldable pub ata_reset : Io (Unit {0})
  ata_reset = do send ata_primary_devctl 0x04; ata_delay400ns; send ata_primary_devctl 0x00

  unfoldable pub ata_wait_bsy : ℕ → Io (Unit {0})
  ata_wait_bsy zero = λ b. none
  ata_wait_bsy (suc fuel) = do
    status ← input (ata_primary_io + ata_reg_status)
    let rest = ata_wait_bsy fuel
    if bit_and status ata_status_bsy == 0 then ret tt else rest

  unfoldable pub ata_wait_drq : ℕ → Io (Unit {0})
  ata_wait_drq zero = λ b. none
  ata_wait_drq (suc fuel) = do
    status ← input (ata_primary_io + ata_reg_status)
    let rest = ata_wait_drq fuel
    if bit_and status ata_status_rdy == 0 then rest else ret tt

  unfoldable pub complain : List ℕ → Io (Unit {0})
  complain msg b = elim (yell b.term msg []) [
    | none ↦ none
    | some t ↦ some (tt, record b { term = t })
  ]

  unfoldable pub ata_poll : ℕ → ℕ → Io ℕ
  ata_poll fuel eax = do
    ata_delay400ns
    ata_wait_bsy fuel
    ata_wait_drq fuel
    let failed : Io ℕ = do complain (codes "ata device faliure"); ret 1
    if bit_and eax ata_status_err == 0 then ret 0 else failed

  -- `while (status & ATA_STATUS_BSY)`: the last status.
  unfoldable pub status_loop : ℕ → ℕ → Io ℕ
  status_loop zero status = λ b. none
  status_loop (suc fuel) status = do
    let again : Io ℕ = do
      ata_delay400ns
      next ← input (ata_primary_io + ata_reg_status)
      status_loop fuel next
    if bit_and status ata_status_bsy == 0 then ret status else again

  -- The bytes of the identification are not used.
  unfoldable pub data_loop : ℕ → Io (Unit {0})
  data_loop zero = ret tt
  data_loop (suc left) = do input ata_primary_io; data_loop left

  unfoldable pub identify_command : Io (Unit {0})
  identify_command = do
    send (ata_primary_io + 6) ata_master_hd
    send (ata_primary_io + 2) 0x0
    send (ata_primary_io + 3) 0x0
    send (ata_primary_io + 4) 0x0
    send (ata_primary_io + 5) 0x0
    send (ata_primary_io + 7) ata_com_identify

  -- From the read of the two address registers on.
  unfoldable pub identify_drive : ℕ → ℕ → Io ℕ
  identify_drive fuel eax = do
    mid ← input (ata_primary_io + 4)
    hi ← input (ata_primary_io + 5)
    let polled : Io ℕ = do
      failed ← ata_poll fuel eax
      let found : Io ℕ = do ata_wait_bsy fuel; data_loop 256; ret 0
      if failed == 0 then found else ret ata_err_drive_fetch
    if not (mid == 0) || not (hi == 0) then ret ata_err_drive_fetch else polled

  unfoldable pub ide_identify : ℕ → ℕ → Io ℕ
  ide_identify fuel eax = do
    identify_command
    first ← input (ata_primary_io + ata_reg_status)
    ata_delay400ns
    status ← status_loop fuel first
    ata_wait_bsy fuel
    let present : Io ℕ = do ata_wait_bsy fuel; identify_drive fuel eax
    if status == 0 then ret ata_err_bus_fetch else present

  -- ata_init, from the reset to `is_master_exist = 1`: that variable, or 0 when the machine stops.
  unfoldable pub ata_find : ℕ → ℕ → Io ℕ
  ata_find fuel eax = do
    ata_reset
    status ← ide_identify fuel eax
    let stopped : Io ℕ = λ b. elim (panic b.term (codes "Can't fetch ata bus") []) [
      | none ↦ none
      | some t ↦ some (0, record b { term = t })
    ]
    if status == 0 then ret 1 else stopped
