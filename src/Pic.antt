-- ===== src/Pic.antt =====
-- src/arch/x86/pic.c and src/arch/x86/pic.h: the interrupt controller. A function gives the bytes that
-- it writes to ports, in order; `inb` is what a read of a port returns.
pub mod Mask
use cookies_os.Base.{
  ℕ, ◌+◌, ◌-◌, ◌^◌, bit_and, bit_or, complement, ltb, leb, if◌then◌else◌, u8, List, [], ◌∷◌, ◌++◌,
}

abbrev pub pic1_cmd : ℕ
pic1_cmd = 0x20

abbrev pub pic1_data : ℕ
pic1_data = 0x21

abbrev pub pic2_cmd : ℕ
pic2_cmd = 0xA0

abbrev pub pic2_data : ℕ
pic2_data = 0xA1

abbrev pub pic_eoi : ℕ
pic_eoi = 0x20

-- `x86_outb(port, value)`.
pub record Out : Type 0 where
  pub port : ℕ
  pub value : ℕ

abbrev pub outb : ℕ → ℕ → Out
outb port value = record { port = port; value = u8 value }

abbrev pub pic_disable : List Out
pic_disable = outb pic1_data 0xFF ∷ outb pic2_data 0xFF ∷ []

abbrev pub pic_send_eoi : ℕ → List Out
pic_send_eoi irq_line =
    if leb 8 irq_line
    then outb pic2_cmd pic_eoi ∷ outb pic1_cmd pic_eoi ∷ []
    else outb pic1_cmd pic_eoi ∷ []

abbrev pub pic_remap : ℕ → ℕ → List Out
pic_remap new_master_loc new_slave_loc =
    pic_disable
    ++ (outb pic1_cmd 0x11
        ∷ outb pic2_cmd 0x11
        ∷ outb pic1_data new_master_loc
        ∷ outb pic2_data new_slave_loc
        ∷ outb pic1_data 4
        ∷ outb pic2_data 2
        ∷ outb pic1_data 1
        ∷ outb pic2_data 1
        ∷ [])
    ++ pic_disable

abbrev pub pic_irq_offset : ℕ
pic_irq_offset = 0x20

abbrev pub pic_init : List Out
pic_init = pic_remap pic_irq_offset (pic_irq_offset + 0x8)

-- The port and the line that is left.
abbrev pub pic_irq_fix_line_and_port : ℕ → ℕ × ℕ
pic_irq_fix_line_and_port line = if ltb line 8 then (pic1_data, line) else (pic2_data, line - 8)

unfoldable pub pic_irq_set_mask : (ℕ → ℕ) → ℕ → List Out
pic_irq_set_mask inb irq_line =
    let (port, line) = pic_irq_fix_line_and_port irq_line in
    outb port (bit_or (inb port) (2 ^ line)) ∷ []

unfoldable pub pic_irq_remove_mask : (ℕ → ℕ) → ℕ → List Out
pic_irq_remove_mask inb irq_line =
    let (port, line) = pic_irq_fix_line_and_port irq_line in
    outb port (bit_and (inb port) (complement 32 (2 ^ line))) ∷ []
