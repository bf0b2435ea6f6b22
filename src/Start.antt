-- ===== src/Start.antt =====
-- src/kernel/kernel.c: kernel_main, which starts the parts in order. The addresses of the handlers, of the
-- literals and of the nodes on the stack are parameters, and so is what the hardware answers.
pub mod Handlers
pub mod Run
use cookies_os.Base.{
  ℕ, ◌+◌, ◌*◌, ◌^◌, ◌/◌, ◌==◌, bit_and, ltb, if◌then◌else◌, Option, none, some, List, [], ◌∷◌, ◌++◌,
  ℤ, pos, u32, codes,
}
use cookies_os.Terminal.{Arg, int, term_init, term_setcolor, vga_color_light_grey}
use cookies_os.Frame.{frame_init}
use cookies_os.Paging.{paging_init}
use cookies_os.Paging
use cookies_os.Pic.{Out, pic_disable, pic_init, pic_irq_remove_mask}
use cookies_os.Idt.{
  Idt, set_idt_gate, idt_init, trap_gate_flags, int_gate_flags, int_gate_user_flags,
}
use cookies_os.Machine.{
  Machine, M, ◌>>=◌, ◌>>◌, ret, halt, gets, modify, print, complain, kmalloc, kfree,
}
use cookies_os.Device.{devices_init, devices_at, ata_register, term_init_device, kb_init}
use cookies_os.Files.{vfs_init, vmount_device, mount_devfs_device}
use cookies_os.Programs.{say}
use cookies_os.Ata.Identify.{Bus, ata_find}

abbrev pub vga_color_cyan : ℕ
vga_color_cyan = 3

abbrev pub vga_color_light_green : ℕ
vga_color_light_green = 10

abbrev pub vga_color_light_cyan : ℕ
vga_color_light_cyan = 11

-- What the boot loader passes: the fields that are read, with the first entry of the memory map.
pub record BootInfo : Type 0 where
  pub flags : ℕ
  pub mem_upper : ℕ
  pub addr : ℕ
  pub len : ℕ

-- The bounds of the frames, or `none` for the panic. `addr` and `len` have 64 bits.
unfoldable pub frame_region : BootInfo → Option (ℕ × ℕ)
frame_region mbi =
    let frame_start_addr = if ltb mbi.addr 0x400 then 0x400 else u32 mbi.addr in
    let frame_end_addr = u32 (mbi.addr + mbi.len) in
    if ltb frame_end_addr frame_start_addr then none else some (frame_start_addr, frame_end_addr)

abbrev pub color : ℕ → M (Unit {0})
color c = modify (λ x. record x { term = term_setcolor x.term c })

-- Up to "MEM SIZE".
unfoldable pub start_screen : BootInfo → M (ℕ × ℕ)
start_screen mbi = do
  modify (λ x. record x { term = term_init x.term })
  say (codes "Starting this junk up!\n")
  color vga_color_cyan
  say (codes "[Init] Cheaking for memory map\n")
  color vga_color_light_cyan
  (if bit_and (mbi.flags / 2 ^ 6) 0x1 == 0
      then complain (codes "invalid memory map given by GRUB'en") []
      else ret tt)
  let checked : M (ℕ × ℕ) = elim (frame_region mbi) [ none ↦ halt | some r ↦ ret r ]
  region ← checked
  print (codes "MEM SIZE: %x \n") (int mbi.mem_upper ∷ [])
  color vga_color_cyan
  ret region

-- The addresses of the handlers.
pub record HandlerTable : Type 0 where
  pub isr_stub_table : ℕ → ℕ
  pub syscall_dispatch : ℕ
  pub div_by_zero : ℕ
  pub general_protection_fault : ℕ
  pub page_fault : ℕ
  pub pit_timer : ℕ
  pub ata_primary_bus : ℕ
  pub kb_interrupt : ℕ

abbrev pub pic_loc : ℕ
pic_loc = 0x20

-- The gates of kernel_main itself.
unfoldable pub start_gates : HandlerTable → ℕ → Idt → Idt
start_gates h the_idt t =
    let filled = idt_init h.isr_stub_table the_idt t in
    let calls = set_idt_gate filled 0x80 h.syscall_dispatch int_gate_user_flags in
    let division = set_idt_gate calls 0 h.div_by_zero trap_gate_flags in
    let protection = set_idt_gate division 0xD h.general_protection_fault trap_gate_flags in
    let faults = set_idt_gate protection 14 h.page_fault trap_gate_flags in
    set_idt_gate faults pic_loc h.pit_timer int_gate_flags

-- Those that ata_init and kb_init set later; both gates of the drive get the handler of the primary bus.
unfoldable pub driver_gates : HandlerTable → Idt → Idt
driver_gates h t =
    let primary = set_idt_gate t (pic_loc + 14) h.ata_primary_bus trap_gate_flags in
    let secondary = set_idt_gate primary (pic_loc + 15) h.ata_primary_bus trap_gate_flags in
    set_idt_gate secondary (pic_loc + 1) h.kb_interrupt int_gate_flags

-- `inb` answers with the masks.
unfoldable pub start_pic : (ℕ → ℕ) → List Out
start_pic inb = pic_disable ++ pic_init ++ pic_irq_remove_mask inb 0 ++ pic_irq_remove_mask inb 2

-- `ram` is the word at each address before the start.
unfoldable pub start_memory : ℕ → (ℕ → ℕ) → ℕ × ℕ → M (Unit {0})
start_memory fuel ram region = do
  modify (λ x. record x {
    paging = record x.paging {
      frames = frame_init x.paging.frames (λ i. ram (region.0 + 4 * i)) (region.1);
    };
  })
  let started : M (Unit {0}) = λ x. elim (paging_init x.paging) [
    | Paging.halted ↦ none
    | Paging.paged p ↦ some (tt, record x { paging = p })
  ]
  started
  ptr ← kmalloc fuel 0x800
  kfree fuel ptr

-- What kernel_main works on besides the machine: the descriptor table, the reads and writes of ports.
pub record World : Type 0 where
  pub machine : Machine
  pub idt : Idt
  pub reads : ℕ
  pub outs : List Out

-- A step of the machine in the world.
abbrev pub on_machine : {A : Type 0} → M A → World → Option (A × World)
on_machine m w = elim (m w.machine) [
  | none ↦ none
  | some (a, x) ↦ some (a, record w { machine = x })
]

-- The messages between the screen and the devices, with what is started between them.
unfoldable pub start_parts : ℕ → (ℕ → ℕ) → ℕ × ℕ → M (Unit {0})
start_parts fuel ram region = do
  say (codes "[Init] Loading GDT\n")
  say (codes "[Init] Loading IDT\n")
  say (codes "[Init] Setting up interrupts\n")
  say (codes "[Init] Enable paging\n")
  start_memory fuel ram region
  say (codes "[Init] Setting devices subsystem\n")

-- ata_init up to the registration; a panic ends the run. `answer` is the drive's.
unfoldable pub start_drive : ℕ → (answer : ℕ → ℕ → ℕ) (eax : ℕ) (inb : ℕ → ℕ) → World → Option World
start_drive fuel answer eax inb w =
    let masks = pic_irq_remove_mask inb 14 ++ pic_irq_remove_mask inb 15 in
    let bus : Bus = record { reads = w.reads; outs = w.outs ++ masks; term = w.machine.term } in
    elim (ata_find answer fuel eax bus) [
      | none ↦ none
      | some (found, b) ↦
          if found == 0
          then none
          else some (record w {
            machine = record w.machine { term = b.term };
            reads = b.reads;
            outs = b.outs;
          })
    ]

-- The addresses of the four nodes and of "/DEV/".
pub record Places : Type 0 where
  pub ata_node : ℕ
  pub video_node : ℕ
  pub devman_node : ℕ
  pub kb_node : ℕ
  pub dev_path : ℕ

module _ (fuel : ℕ) (disk : ℕ → ℕ) (fe slash : ℕ) (eax : ℤ) (h : HandlerTable) (the_idt : ℕ)
    (inb : ℕ → ℕ) (places : Places) where
  unfoldable pub start_tables : M (Unit {0})
  start_tables = do vfs_init fuel disk fe slash eax; devices_init fuel

  -- Behind the drive's identification: its registration, the screen's, the mount points, the keyboard's.
  unfoldable pub start_devices : M (Unit {0})
  start_devices = do
    dev_id ← ata_register fuel places.ata_node
    term_init_device fuel places.video_node
    device ← gets (λ x. devices_at x dev_id)
    vmount_device fuel disk fe slash eax device slash 0
    mount_devfs_device fuel disk fe slash eax places.devman_node places.dev_path
    kb_init fuel places.kb_node
    color vga_color_light_green
    say (codes "\nWelcome to CookiesOS (ver. 2.6.5)!\n\n")
    color vga_color_light_grey

  -- Up to the shell, which has no end. Interrupts are off until then.
  unfoldable pub kernel_main :
      (ram : ℕ → ℕ) (mbi : BootInfo) (answer : ℕ → ℕ → ℕ) (drq : ℕ) → World → Option World
  kernel_main ram mbi answer drq w = elim (on_machine (start_screen mbi) w) [
    | none ↦ none
    | some (region, w1) ↦
        let w2 = record w1 {
          idt = start_gates h the_idt w1.idt;
          outs = w1.outs ++ start_pic inb;
        } in
        elim (on_machine (start_parts fuel ram region >> start_tables) w2) [
          | none ↦ none
          | some (u, w3) ↦ elim (start_drive fuel answer drq inb w3) [
            | none ↦ none
            | some w4 ↦ elim (on_machine start_devices w4) [
              | none ↦ none
              | some (v, w5) ↦ some (record w5 {
                idt = driver_gates h w5.idt;
                outs = w5.outs ++ pic_irq_remove_mask inb 1;
              })
            ]
          ]
        ]
  ]
