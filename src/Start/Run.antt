-- ===== src/Start/Run.antt =====
-- kernel_main as a whole: the descriptor table that it ends with.
use cookies_os.Base.{
  ℕ, ◌≡◌, refl, sym, ap, subst, Bool, true, false, ◌==◌, if◌then◌else◌, Option, none, some, ◌++◌, ℤ,
}
use cookies_os.Idt.{Idt}
use cookies_os.Pic.{pic_irq_remove_mask}
use cookies_os.Machine.{Machine, M, ◌>>◌}
use cookies_os.Ata.Identify.{Bus, ata_find}
use cookies_os.Start.{
  World, Places, BootInfo, HandlerTable, on_machine, start_screen, start_parts, start_tables,
  start_drive, start_devices, start_gates, start_pic, driver_gates, kernel_main,
}
use cookies_os.Start.Handlers.{Words, Handlers, all_gates, all_gates-Handlers}

-- The table in a result, if there is one.
abbrev Ends : Idt → Option World → Type 0
Ends t none = Unit {0}
Ends t (some w) = w.idt ≡ t

abbrev Keeps : {A : Type 0} → Idt → Option (A × World) → Type 0
Keeps t none = Unit {0}
Keeps t (some (a, w)) = w.idt ≡ t

on_machine-Keeps : {A : Type 0} (m : M A) (w : World) → Keeps w.idt (on_machine m w)
on_machine-Keeps {A} m w = go (m w.machine)
  where
    go :
        (r : Option (A × Machine))
        → Keeps {A = A} w.idt
            (elim r [ none ↦ none | some (a, x) ↦ some (a, record w { machine = x }) ])
    go none = tt
    go (some (a, x)) = refl

Ends-if :
    (t : Idt) (b : Bool) (p q : Option World) → Ends t p → Ends t q → Ends t (if b then p else q)
Ends-if t true p q hp hq = hp
Ends-if t false p q hp hq = hq

start_drive-Ends :
    (fuel : ℕ) (answer : ℕ → ℕ → ℕ) (eax : ℕ) (inb : ℕ → ℕ) (w : World)
    → Ends w.idt (start_drive fuel answer eax inb w)
unfolding start_drive
start_drive-Ends fuel answer eax inb w = go (
    ata_find answer fuel eax (record {
      reads = w.reads;
      outs = w.outs ++ (pic_irq_remove_mask inb 14 ++ pic_irq_remove_mask inb 15);
      term = w.machine.term;
    }))
  where
    go :
        (r : Option (ℕ × Bus))
        → Ends w.idt (elim r [
          | none ↦ none
          | some (found, b) ↦
              if found == 0
              then none
              else some (record w {
                machine = record w.machine { term = b.term };
                reads = b.reads;
                outs = b.outs;
              })
        ])
    go none = tt
    go (some (found, b)) = Ends-if w.idt (found == 0) none _ tt refl

module _ (fuel : ℕ) (disk : ℕ → ℕ) (fe slash : ℕ) (eax : ℤ) (h : HandlerTable) (the_idt : ℕ)
    (inb : ℕ → ℕ) (places : Places) where
  last_part :
      (t : Idt) (r : Option ((Unit {0}) × World))
      → Keeps t r
      → Ends (driver_gates h t) (elim r [
        | none ↦ none
        | some (v, w5) ↦
            some (record w5 {
              idt = driver_gates h w5.idt;
              outs = w5.outs ++ pic_irq_remove_mask inb 1;
            })
      ])
  last_part t none k = tt
  last_part t (some (v, w)) k = ap (driver_gates h) k

  drive_part :
      (t : Idt) (r : Option World)
      → Ends t r
      → Ends (driver_gates h t) (elim r [
        | none ↦ none
        | some w4 ↦
            elim (on_machine (start_devices fuel disk fe slash eax h the_idt inb places) w4) [
              | none ↦ none
              | some (v, w5) ↦ some (record w5 {
                idt = driver_gates h w5.idt;
                outs = w5.outs ++ pic_irq_remove_mask inb 1;
              })
            ]
      ])
  drive_part t none k = tt
  drive_part t (some w) k =
      last_part t (on_machine (start_devices fuel disk fe slash eax h the_idt inb places) w) (
        subst
          (λ u. Keeps u (on_machine (start_devices fuel disk fe slash eax h the_idt inb places) w))
          k (on_machine-Keeps (start_devices fuel disk fe slash eax h the_idt inb places) w))

  tables_part :
      (answer : ℕ → ℕ → ℕ) (drq : ℕ) (t : Idt) (r : Option ((Unit {0}) × World))
      → Keeps t r
      → Ends (driver_gates h t) (elim r [
        | none ↦ none
        | some (u, w3) ↦ elim (start_drive fuel answer drq inb w3) [
          | none ↦ none
          | some w4 ↦
              elim (on_machine (start_devices fuel disk fe slash eax h the_idt inb places) w4) [
                | none ↦ none
                | some (v, w5) ↦ some (record w5 {
                  idt = driver_gates h w5.idt;
                  outs = w5.outs ++ pic_irq_remove_mask inb 1;
                })
              ]
        ]
      ])
  tables_part answer drq t none k = tt
  tables_part answer drq t (some (u, w)) k = drive_part t (start_drive fuel answer drq inb w) (
      subst (λ v. Ends v (start_drive fuel answer drq inb w)) k
        (start_drive-Ends fuel answer drq inb w))

  screen_part :
      (ram : ℕ → ℕ) (answer : ℕ → ℕ → ℕ) (drq : ℕ) (t : Idt) (r : Option ((ℕ × ℕ) × World))
      → Keeps t r
      → Ends (driver_gates h (start_gates h the_idt t)) (elim r [
        | none ↦ none
        | some (region, w1) ↦
            let w2 = record w1 {
              idt = start_gates h the_idt w1.idt;
              outs = w1.outs ++ start_pic inb;
            } in
            elim (on_machine
              (start_parts fuel ram region
                >> start_tables fuel disk fe slash eax h the_idt inb places)
              w2) [
                | none ↦ none
                | some (u, w3) ↦ elim (start_drive fuel answer drq inb w3) [
                  | none ↦ none
                  | some w4 ↦
                      elim (on_machine
                        (start_devices fuel disk fe slash eax h the_idt inb places)
                        w4) [
                          | none ↦ none
                          | some (v, w5) ↦ some (record w5 {
                            idt = driver_gates h w5.idt;
                            outs = w5.outs ++ pic_irq_remove_mask inb 1;
                          })
                        ]
                ]
              ]
      ])
  screen_part ram answer drq t none k = tt
  screen_part ram answer drq t (some (region, w)) k =
      let m =
        start_parts fuel ram region >> start_tables fuel disk fe slash eax h the_idt inb places in
      let w2 = record w { idt = start_gates h the_idt w.idt; outs = w.outs ++ start_pic inb } in
      tables_part answer drq (start_gates h the_idt t) (on_machine m w2) (
        subst (λ v. Keeps v (on_machine m w2)) (ap (start_gates h the_idt) k)
          (on_machine-Keeps m w2))

  -- Whenever kernel_main reaches the shell, each interrupt number has its handler.
  pub kernel_main-Handlers :
      (words : Words h) (ram : ℕ → ℕ) (mbi : BootInfo) (answer : ℕ → ℕ → ℕ) (drq : ℕ) (w w' : World)
      → kernel_main fuel disk fe slash eax h the_idt inb places ram mbi answer drq w ≡ some w'
      → Handlers h w'.idt
  unfolding kernel_main
  kernel_main-Handlers words ram mbi answer drq w w' e =
      let ends =
        screen_part ram answer drq w.idt (on_machine (start_screen mbi) w)
          (on_machine-Keeps (start_screen mbi) w) in
      let same : w'.idt ≡ all_gates h words the_idt w.idt =
        subst (Ends (driver_gates h (start_gates h the_idt w.idt))) e ends in
      subst (Handlers h) (sym same) (all_gates-Handlers h words the_idt w.idt)
