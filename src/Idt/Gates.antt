-- ===== src/Idt/Gates.antt =====
-- The gates that the processor finds.
use cookies_os.Base.{
  ℕ, zero, suc, ◌+◌, ◌*◌, ◌/◌, ◌^◌, ◌<◌, ◌≤◌, ◌≡◌, ◌≢◌, ◌⊎◌, inl, inr, refl, arith, sym, ◌∙◌,
  write_at, write_off, bit_and_low_bits, le_or_lt, subst,
}
use cookies_os.Idt.{Idt, IdtEntry, set_idt_gate, trap_loop, idt_init, trap_gate_flags}

-- The address that an entry stands for.
abbrev pub handler : IdtEntry → ℕ
handler e = e.isr_high * 2 ^ 16 + e.isr_low

-- An entry for the kernel's handler at `isr`.
pub record Gate (e : IdtEntry) (isr flags : ℕ) : Type 0 where
  pub address : handler e ≡ isr
  pub segment : e.kernel_cs ≡ 0x08
  pub reserved : e.reserved ≡ 0
  pub kind : e.attributes ≡ flags

-- set_idt_gate makes the one entry a gate to the handler, and leaves every other.
pub set_idt_gate-Gate :
    (t : Idt) (index isr flags : ℕ)
    → isr < 2 ^ 32
    → flags < 256
    → Gate ((set_idt_gate t index isr flags).entries index) isr flags
      × ((i : ℕ) → index ≢ i → (set_idt_gate t index isr flags).entries i ≡ t.entries i)
unfolding set_idt_gate
set_idt_gate-Gate t index isr flags h k = (
  subst (λ e. Gate e isr flags) (sym (write_at t.entries index _ index refl))
      (record {
        address = omega (arith, bit_and_low_bits 16 isr, bit_and_low_bits 16 (isr / 2 ^ 16));
        segment = refl;
        reserved = refl;
        kind = omega arith;
      }),
  λ i ne. write_off t.entries index _ i ne,
)

trap_loop-gates :
    (table : ℕ → ℕ) (left i : ℕ) (t : Idt) (j : ℕ)
    → ((n : ℕ) → table n < 2 ^ 32)
    → (((i ≤ j) × (j < i + left))
        → Gate ((trap_loop table left i t).entries j) (table j) trap_gate_flags)
      × (((j < i) ⊎ (i + left ≤ j)) → (trap_loop table left i t).entries j ≡ t.entries j)
unfolding trap_loop
trap_loop-gates table zero i t j words = (λ b. absurd (omega (arith, b)), λ out. refl)
trap_loop-gates table (suc left) i t j words =
    let step = set_idt_gate-Gate t i (table i) trap_gate_flags (words i) (omega arith) in
    let rest =
      trap_loop-gates table left (i + 1) (set_idt_gate t i (table i) trap_gate_flags) j words in
    (
      λ b. elim (le_or_lt j i) [
        | inl le ↦
            let same : i ≡ j = omega (arith, b) in
            subst (λ e. Gate e (table j) trap_gate_flags) (sym (rest.1 (inl (omega arith))))
              (subst
                (λ (n : ℕ).
                  Gate ((set_idt_gate t i (table i) trap_gate_flags).entries n) (table n)
                    trap_gate_flags)
                same step.0)
        | inr lt ↦ rest.0 (omega arith, omega (arith, b))
      ],
      λ out. rest.1 (omega (arith, out)) ∙ step.1 j (omega (arith, out)),
    )

-- After idt_init the first 32 entries are trap gates to the stubs, and the others are as they were.
pub idt_init-gates :
    (table : ℕ → ℕ) (the_idt : ℕ) (t : Idt) (j : ℕ)
    → ((n : ℕ) → table n < 2 ^ 32)
    → (j < 32 → Gate ((idt_init table the_idt t).entries j) (table j) trap_gate_flags)
      × (32 ≤ j → (idt_init table the_idt t).entries j ≡ t.entries j)
unfolding idt_init
idt_init-gates table the_idt t j words =
    let (inside, outside) = trap_loop-gates table 32 0 t j words in
    (λ lt. inside (omega arith, lt), λ le. outside (inr (omega (arith, le))))
