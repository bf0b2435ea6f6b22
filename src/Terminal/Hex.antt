-- ===== src/Terminal/Hex.antt =====
-- term_puthex: the digits it prints.
use cookies_os.Base.{
  ℕ, zero, suc, ◌+◌, ◌-◌, ◌*◌, ◌/◌, ◌%◌, ◌^◌, ◌<◌, ◌≡◌, ap, refl, sym, ◌∙◌, arith, leb,
  if◌then◌else◌, List, [], ◌∷◌, length, bit_and-shifted, bit_and_fifteen,
}
use cookies_os.Terminal.{hex_digit, nibble, hex_text}
use native.Mathlib.Nat.{pow-suc, div-div-eq-div-mul}

-- The value of a lower-case hexadecimal digit.
abbrev pub digit_value : ℕ → ℕ
digit_value c = if leb c b'9' then c - b'0' else c - b'a' + 10

-- The number that a text of hexadecimal digits writes, most significant digit first.
pub hex_value : ℕ → List ℕ → ℕ
hex_value seen [] = seen
hex_value seen (c ∷ cs) = hex_value (seen * 16 + digit_value c) cs

nibble_lem : (hex i : ℕ) → nibble hex i ≡ hex / 2 ^ (i * 4) % 16
nibble_lem hex i = bit_and-shifted (i * 4) hex 15 ∙ bit_and_fifteen (hex / 2 ^ (i * 4))

digit_value-hex_digit : (n : ℕ) → n < 16 → digit_value (hex_digit n) ≡ n
unfolding hex_digit
digit_value-hex_digit n h = ground (arith, h)

pow_step : (i : ℕ) → 2 ^ (suc i * 4) ≡ 2 ^ (i * 4) * 16
pow_step i =
    let k = i * 4 in
    let four : suc i * 4 ≡ suc (suc (suc (suc k))) = omega arith in
    rw four (
      omega (
        arith,
        pow-suc 2 k,
        pow-suc 2 (suc k),
        pow-suc 2 (suc (suc k)),
        pow-suc 2 (suc (suc (suc k))),
      ))

-- The next digit extends the number that the digits before it write.
hex_step : (hex i : ℕ) → hex / 2 ^ (suc i * 4) * 16 + nibble hex i ≡ hex / 2 ^ (i * 4)
hex_step hex i =
    let above : hex / 2 ^ (suc i * 4) ≡ hex / 2 ^ (i * 4) / 16 =
      ap (λ (p : ℕ). hex / p) (pow_step i) ∙ sym (div-div-eq-div-mul hex (2 ^ (i * 4)) 16) in
    omega (arith, above, nibble_lem hex i)

hex_value-hex_text_from : (hex n : ℕ) → hex_value (hex / 2 ^ (n * 4)) (hex_text hex n) ≡ hex
unfolding hex_value hex_text
hex_value-hex_text_from hex zero = omega arith
hex_value-hex_text_from hex (suc i) =
    let small : nibble hex i < 16 = omega (arith, nibble_lem hex i) in
    let read : hex / 2 ^ (suc i * 4) * 16 + digit_value (hex_digit (nibble hex i))
        ≡ hex / 2 ^ (i * 4) =
      omega (arith, digit_value-hex_digit (nibble hex i) small, hex_step hex i) in
    ap (λ (v : ℕ). hex_value v (hex_text hex i)) read ∙ hex_value-hex_text_from hex i

length-hex_text : (hex n : ℕ) → length (hex_text hex n) ≡ n
unfolding hex_text
length-hex_text hex zero = refl
length-hex_text hex (suc i) = ap suc (length-hex_text hex i)

-- The digits of a number below 2 ^ 32 are eight, and read back as the number.
pub hex_value-hex_text :
    (hex : ℕ) → hex < 2 ^ 32 → (hex_value 0 (hex_text hex 8) ≡ hex) × (length (hex_text hex 8) ≡ 8)
hex_value-hex_text hex h =
    let none_left : hex / 2 ^ 32 ≡ 0 = omega (arith, h) in
    (
      ap (λ (v : ℕ). hex_value v (hex_text hex 8)) (sym none_left) ∙ hex_value-hex_text_from hex 8,
      length-hex_text hex 8,
    )
