-- ===== src/Pic/Mask.antt =====
-- Masking one interrupt line.
use cookies_os.Base.{
  ℕ, ◌-◌, ◌^◌, ◌%◌, ◌<◌, ◌≡◌, inl, inr, refl, arith, List, [], ◌∷◌, bit, bit-mod, bit_of_set,
  bit_of_clear, complement, ltb, ◌==◌, if◌then◌else◌, Bool-cases, bit_or, bit_and,
}
use cookies_os.Pic.{Out, outb, pic_irq_set_mask, pic_irq_remove_mask, pic1_data, pic2_data}

-- One byte is written to the data port of the line's controller: the old one with the line's bit
-- made `b`.
pub record Writes (inb : ℕ → ℕ) (irq_line b : ℕ) (outs : List Out) : Type 0 where
  pub out : Out
  pub only : outs ≡ out ∷ []
  pub port : out.port ≡ (if ltb irq_line 8 then pic1_data else pic2_data)
  pub bits :
      (j : ℕ) → j < 8 → bit j out.value ≡ (if j == irq_line % 8 then b else bit j (inb out.port))

module _ (inb : ℕ → ℕ) (irq_line port line : ℕ) (rest : line ≡ irq_line % 8) (small : line < 8)
    (at : port ≡ (if ltb irq_line 8 then pic1_data else pic2_data)) where
  Writes-set : Writes inb irq_line 1 (outb port (bit_or (inb port) (2 ^ line)) ∷ [])
  Writes-set = record {
    out = outb port (bit_or (inb port) (2 ^ line));
    only = refl;
    port = at;
    bits = λ j lt.
        ground (
          arith,
          rest,
          bit-mod 8 j (bit_or (inb port) (2 ^ line)) lt,
          bit_of_set (inb port) line j,
        );
  }

  Writes-clear :
      Writes inb irq_line 0 (outb port (bit_and (inb port) (complement 32 (2 ^ line))) ∷ [])
  Writes-clear =
      let kept = bit_and (inb port) (complement 32 (2 ^ line)) in
      record {
        out = outb port kept;
        only = refl;
        port = at;
        bits = λ j lt. ground (
          arith,
          rest,
          bit-mod 8 j kept lt,
          bit_of_clear (inb port) line j (omega arith) (omega arith),
        );
      }

-- Setting the mask of one of the 16 lines makes its bit 1, removing it makes it 0; the other bits
-- are written back as they were read, and no other port is written.
pub pic_irq_mask-Writes :
    (inb : ℕ → ℕ) (irq_line : ℕ)
    → irq_line < 16
    → Writes inb irq_line 1 (pic_irq_set_mask inb irq_line)
      × Writes inb irq_line 0 (pic_irq_remove_mask inb irq_line)
unfolding pic_irq_set_mask pic_irq_remove_mask
pic_irq_mask-Writes inb irq_line h = elim (Bool-cases (ltb irq_line 8)) [
  | inl master ↦
      let rest : irq_line ≡ irq_line % 8 = ground arith in
      let at : pic1_data ≡ (if ltb irq_line 8 then pic1_data else pic2_data) = rw master refl in
      (
        rw master (Writes-set inb irq_line pic1_data irq_line rest (ground arith) at),
        rw master (Writes-clear inb irq_line pic1_data irq_line rest (ground arith) at),
      )
  | inr slave ↦
      let rest : irq_line - 8 ≡ irq_line % 8 = ground arith in
      let at : pic2_data ≡ (if ltb irq_line 8 then pic1_data else pic2_data) = rw slave refl in
      (
        rw slave (Writes-set inb irq_line pic2_data (irq_line - 8) rest (ground arith) at),
        rw slave (Writes-clear inb irq_line pic2_data (irq_line - 8) rest (ground arith) at),
      )
]
