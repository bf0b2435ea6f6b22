-- ===== src/Idt.antt =====
-- src/arch/x86/idt.c and src/arch/x86/idt.h: the interrupt descriptor table.
pub mod Gates
use cookies_os.Base.{ℕ, zero, suc, ◌+◌, ◌*◌, ◌/◌, ◌^◌, bit_and, write, u8, u16}

abbrev pub trap_gate_flags : ℕ
trap_gate_flags = 0x8F

abbrev pub int_gate_flags : ℕ
int_gate_flags = 0x8E

abbrev pub int_gate_user_flags : ℕ
int_gate_user_flags = 0xEE

pub record IdtEntry : Type 0 where
  pub isr_low : ℕ
  pub kernel_cs : ℕ
  pub reserved : ℕ
  pub attributes : ℕ
  pub isr_high : ℕ

-- `sizeof(IdtEntry_t)`.
abbrev pub entry_size : ℕ
entry_size = 8

-- `the_idt`, and what load_idt gave the processor: the fields of `idtr`.
pub record Idt : Type 0 where
  pub entries : ℕ → IdtEntry
  pub base : ℕ
  pub limit : ℕ

unfoldable pub set_idt_gate : Idt → ℕ → ℕ → ℕ → Idt
set_idt_gate t index isr flags = record t {
  entries = write t.entries index (record {
    isr_low = u16 (bit_and isr 0xFFFF);
    kernel_cs = 0x08;
    reserved = 0;
    attributes = u8 flags;
    isr_high = u16 (bit_and (isr / 2 ^ 16) 0xFFFF);
  });
}

-- `for(i=0; i<32; ++i) set_idt_gate(i, isr_stub_table[i], TRAP_GATE_FLAGS)`.
pub trap_loop : (isr_stub_table : ℕ → ℕ) → ℕ → ℕ → Idt → Idt
trap_loop isr_stub_table zero i t = t
trap_loop isr_stub_table (suc left) i t =
    trap_loop isr_stub_table left (i + 1) (set_idt_gate t i (isr_stub_table i) trap_gate_flags)

-- `the_idt` is the address of the table.
unfoldable pub idt_init : (isr_stub_table : ℕ → ℕ) (the_idt : ℕ) → Idt → Idt
idt_init isr_stub_table the_idt t =
    let filled = trap_loop isr_stub_table 32 0 t in
    record filled { base = the_idt; limit = u16 (entry_size * 256) }
