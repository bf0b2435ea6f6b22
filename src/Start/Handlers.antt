-- ===== src/Start/Handlers.antt =====
-- The gates after the start.
use cookies_os.Base.{ℕ, ◌^◌, ◌<◌, ◌≢◌, sym, subst, arith}
use cookies_os.Idt.{
  Idt, set_idt_gate, idt_init, trap_gate_flags, int_gate_flags, int_gate_user_flags,
}
use cookies_os.Idt.Gates.{Gate, set_idt_gate-Gate, idt_init-gates}
use cookies_os.Start.{HandlerTable, start_gates, driver_gates}

-- Each handler has a 32-bit address.
pub record Words (h : HandlerTable) : Type 0 where
  pub stubs : (n : ℕ) → h.isr_stub_table n < 2 ^ 32
  pub syscall : h.syscall_dispatch < 2 ^ 32
  pub division : h.div_by_zero < 2 ^ 32
  pub protection : h.general_protection_fault < 2 ^ 32
  pub fault : h.page_fault < 2 ^ 32
  pub timer : h.pit_timer < 2 ^ 32
  pub drive : h.ata_primary_bus < 2 ^ 32
  pub keyboard : h.kb_interrupt < 2 ^ 32

made :
    (t : Idt) (i isr flags : ℕ)
    → isr < 2 ^ 32
    → flags < 256
    → Gate ((set_idt_gate t i isr flags).entries i) isr flags
made t i isr flags word byte = (set_idt_gate-Gate t i isr flags word byte).0

kept :
    (t : Idt) (index isr flags i a f : ℕ)
    → isr < 2 ^ 32
    → flags < 256
    → index ≢ i
    → Gate (t.entries i) a f
    → Gate ((set_idt_gate t index isr flags).entries i) a f
kept t index isr flags i a f word byte ne g =
    subst (λ e. Gate e a f) (sym ((set_idt_gate-Gate t index isr flags word byte).1 i ne)) g

-- The processor's handler for each number that the kernel uses.
pub record Handlers (h : HandlerTable) (t : Idt) : Type 0 where
  pub syscall : Gate (t.entries 0x80) h.syscall_dispatch int_gate_user_flags
  pub division : Gate (t.entries 0) h.div_by_zero trap_gate_flags
  pub protection : Gate (t.entries 0xD) h.general_protection_fault trap_gate_flags
  pub fault : Gate (t.entries 14) h.page_fault trap_gate_flags
  pub timer : Gate (t.entries 0x20) h.pit_timer int_gate_flags
  pub keyboard : Gate (t.entries 0x21) h.kb_interrupt int_gate_flags
  pub drive : Gate (t.entries 0x2E) h.ata_primary_bus trap_gate_flags
  pub second_drive : Gate (t.entries 0x2F) h.ata_primary_bus trap_gate_flags
  pub others :
      (i : ℕ)
      → i < 32
      → 0 ≢ i
      → 13 ≢ i
      → 14 ≢ i
      → Gate (t.entries i) (h.isr_stub_table i) trap_gate_flags

module _ (h : HandlerTable) (words : Words h) where
  -- A gate below the drivers' survives them.
  behind_drivers :
      (t : Idt) (i a f : ℕ)
      → 0x2E ≢ i
      → 0x2F ≢ i
      → 0x21 ≢ i
      → Gate (t.entries i) a f
      → Gate ((driver_gates h t).entries i) a f
  unfolding driver_gates
  behind_drivers t i a f n1 n2 n3 g =
      let t1 = set_idt_gate t 0x2E h.ata_primary_bus trap_gate_flags in
      let t2 = set_idt_gate t1 0x2F h.ata_primary_bus trap_gate_flags in
      kept t2 0x21 h.kb_interrupt int_gate_flags i a f words.keyboard (omega arith) n3 (
        kept t1 0x2F h.ata_primary_bus trap_gate_flags i a f words.drive (omega arith) n2
          (kept t 0x2E h.ata_primary_bus trap_gate_flags i a f words.drive (omega arith) n1 g))

  -- The rest of the gates of kernel_main, from each one on.
  timer_on : Idt → Idt
  timer_on t = set_idt_gate t 0x20 h.pit_timer int_gate_flags

  faults_on : Idt → Idt
  faults_on t = timer_on (set_idt_gate t 14 h.page_fault trap_gate_flags)

  protection_on : Idt → Idt
  protection_on t = faults_on (set_idt_gate t 13 h.general_protection_fault trap_gate_flags)

  division_on : Idt → Idt
  division_on t = protection_on (set_idt_gate t 0 h.div_by_zero trap_gate_flags)

  behind_timer :
      (t : Idt) (i a f : ℕ) → 0x20 ≢ i → Gate (t.entries i) a f → Gate ((timer_on t).entries i) a f
  unfolding timer_on
  behind_timer t i a f ne g =
      kept t 0x20 h.pit_timer int_gate_flags i a f words.timer (omega arith) ne g

  behind_faults :
      (t : Idt) (i a f : ℕ)
      → 14 ≢ i
      → 0x20 ≢ i
      → Gate (t.entries i) a f
      → Gate ((faults_on t).entries i) a f
  unfolding faults_on
  behind_faults t i a f ne n2 g =
      behind_timer (set_idt_gate t 14 h.page_fault trap_gate_flags) i a f n2
        (kept t 14 h.page_fault trap_gate_flags i a f words.fault (omega arith) ne g)

  behind_protection :
      (t : Idt) (i a f : ℕ)
      → 13 ≢ i
      → 14 ≢ i
      → 0x20 ≢ i
      → Gate (t.entries i) a f
      → Gate ((protection_on t).entries i) a f
  unfolding protection_on
  behind_protection t i a f ne n2 n3 g =
      behind_faults (set_idt_gate t 13 h.general_protection_fault trap_gate_flags) i a f n2 n3 (
        kept t 13 h.general_protection_fault trap_gate_flags i a f words.protection (omega arith) ne
          g)

  behind_division :
      (t : Idt) (i a f : ℕ)
      → 0 ≢ i
      → 13 ≢ i
      → 14 ≢ i
      → 0x20 ≢ i
      → Gate (t.entries i) a f
      → Gate ((division_on t).entries i) a f
  unfolding division_on
  behind_division t i a f ne n2 n3 n4 g =
      behind_protection (set_idt_gate t 0 h.div_by_zero trap_gate_flags) i a f n2 n3 n4
        (kept t 0 h.div_by_zero trap_gate_flags i a f words.division (omega arith) ne g)

  -- The gates of kernel_main, and those of the drivers behind them.
  abbrev pub all_gates : ℕ → Idt → Idt
  all_gates the_idt t = driver_gates h (start_gates h the_idt t)

  -- Each number has the handler that its driver or kernel_main enters, the numbers below 32 without one
  -- have their stub, and both numbers of the drive have the handler of its primary bus.
  pub all_gates-Handlers : (the_idt : ℕ) (t : Idt) → Handlers h (all_gates the_idt t)
  unfolding start_gates driver_gates timer_on faults_on protection_on division_on
  all_gates-Handlers the_idt t =
      let filled = idt_init h.isr_stub_table the_idt t in
      let calls = set_idt_gate filled 0x80 h.syscall_dispatch int_gate_user_flags in
      let division = set_idt_gate calls 0 h.div_by_zero trap_gate_flags in
      let protection = set_idt_gate division 13 h.general_protection_fault trap_gate_flags in
      let faults = set_idt_gate protection 14 h.page_fault trap_gate_flags in
      let last = start_gates h the_idt t in
      let primary = set_idt_gate last 0x2E h.ata_primary_bus trap_gate_flags in
      let secondary = set_idt_gate primary 0x2F h.ata_primary_bus trap_gate_flags in
      record {
        syscall =
            behind_drivers last 0x80 h.syscall_dispatch int_gate_user_flags (omega arith)
              (omega arith) (omega arith)
              (behind_division calls 0x80 h.syscall_dispatch int_gate_user_flags (omega arith)
                (omega arith) (omega arith) (omega arith)
                (made filled 0x80 h.syscall_dispatch int_gate_user_flags words.syscall
                  (omega arith)));
        division =
            behind_drivers last 0 h.div_by_zero trap_gate_flags (omega arith) (omega arith)
              (omega arith)
              (behind_protection division 0 h.div_by_zero trap_gate_flags (omega arith)
                (omega arith) (omega arith)
                (made calls 0 h.div_by_zero trap_gate_flags words.division (omega arith)));
        protection =
            behind_drivers last 13 h.general_protection_fault trap_gate_flags (omega arith)
              (omega arith) (omega arith)
              (behind_faults protection 13 h.general_protection_fault trap_gate_flags (omega arith)
                (omega arith)
                (made division 13 h.general_protection_fault trap_gate_flags words.protection
                  (omega arith)));
        fault =
            behind_drivers last 14 h.page_fault trap_gate_flags (omega arith) (omega arith)
              (omega arith)
              (behind_timer faults 14 h.page_fault trap_gate_flags (omega arith)
                (made protection 14 h.page_fault trap_gate_flags words.fault (omega arith)));
        timer =
            behind_drivers last 0x20 h.pit_timer int_gate_flags (omega arith) (omega arith)
              (omega arith) (made faults 0x20 h.pit_timer int_gate_flags words.timer (omega arith));
        keyboard = made secondary 0x21 h.kb_interrupt int_gate_flags words.keyboard (omega arith);
        drive =
            kept secondary 0x21 h.kb_interrupt int_gate_flags 0x2E h.ata_primary_bus trap_gate_flags
              words.keyboard (omega arith) (omega arith)
              (kept primary 0x2F h.ata_primary_bus trap_gate_flags 0x2E h.ata_primary_bus
                trap_gate_flags words.drive (omega arith) (omega arith)
                (made last 0x2E h.ata_primary_bus trap_gate_flags words.drive (omega arith)));
        second_drive =
            kept secondary 0x21 h.kb_interrupt int_gate_flags 0x2F h.ata_primary_bus trap_gate_flags
              words.keyboard (omega arith) (omega arith)
              (made primary 0x2F h.ata_primary_bus trap_gate_flags words.drive (omega arith));
        others = λ i lt n0 n13 n14.
            behind_drivers last i (h.isr_stub_table i) trap_gate_flags (omega (arith, lt))
              (omega (arith, lt)) (omega (arith, lt))
              (behind_division calls i (h.isr_stub_table i) trap_gate_flags n0 n13 n14
                (omega (arith, lt))
                (kept filled 0x80 h.syscall_dispatch int_gate_user_flags i (h.isr_stub_table i)
                  trap_gate_flags words.syscall (omega arith) (omega (arith, lt))
                  ((idt_init-gates h.isr_stub_table the_idt t i words.stubs).0 lt)));
      }
