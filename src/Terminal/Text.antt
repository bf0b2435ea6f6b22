-- ===== src/Terminal/Text.antt =====
-- term_write: the cursor, the port and the cells after a whole text.
use cookies_os.Base.{
  ℕ, zero, suc, ◌+◌, ◌*◌, ◌≤◌, ◌<◌, ◌≡◌, ◌⊎◌, inl, inr, refl, ap, ◌∙◌, arith, Bool, false, ◌||◌,
  ◌==◌, List, [], ◌∷◌, ◌++◌, length, get_elem?, some, sym,
}
use mathlib.Core.Option.{some-injective, some-ne-none}
use mathlib.Core.List.{append-nil, append_assoc}
use cookies_os.Terminal.{Term, vga_width, vga_height, vga_entry, term_putchar, term_write}
use cookies_os.Terminal.Screen.{IsOnScreen, term_putchar-Put, shown}

-- What printing a text leaves.
pub record Written (t : Term) (s : List ℕ) (t' : Term) : Type 0 where
  pub on : IsOnScreen t'
  pub color : t'.color ≡ t.color
  pub port : t'.port ≡ t.port ++ s
  pub outside : (a : ℕ) → vga_width * vga_height ≤ a → t'.buffer a ≡ t.buffer a

pub put-Written : (t : Term) (c : ℕ) → IsOnScreen t → Written t (c ∷ []) (term_putchar t c)
put-Written t c on =
    let p = term_putchar-Put t c on in
    record {
      on = record {
        row = ground (arith, on.row, on.column, p.row);
        column = ground (arith, on.row, on.column, p.column);
      };
      color = p.color;
      port = p.port;
      outside = λ a far. ground (arith, on.row, on.column, p.cells a, far);
    }

-- term_write keeps the cursor on the screen and the colour, sends every byte to the port in order,
-- and writes no memory behind the screen's last cell.
pub term_write-Written : (t : Term) (s : List ℕ) → IsOnScreen t → Written t s (term_write t s)
unfolding term_write
term_write-Written t [] on = record {
  on = on;
  color = refl;
  port = sym (append-nil t.port);
  outside = λ a far. refl;
}
term_write-Written t (c ∷ cs) on =
    let first = put-Written t c on in
    let rest = term_write-Written (term_putchar t c) cs first.on in
    record {
      on = rest.on;
      color = rest.color ∙ first.color;
      port = rest.port ∙ ap (λ (l : List ℕ). l ++ cs) first.port ∙ append_assoc t.port (c ∷ []) cs;
      outside = λ a far. rest.outside a far ∙ first.outside a far;
    }

pub term_write-append :
    (t : Term) (s r : List ℕ) → term_write t (s ++ r) ≡ term_write (term_write t s) r
unfolding term_write
term_write-append t [] r = refl
term_write-append t (c ∷ cs) r = term_write-append (term_putchar t c) cs r

-- A text of one line.
abbrev pub has_newline : List ℕ → Bool
has_newline [] = false
has_newline (c ∷ cs) = (c == b'\n') || has_newline cs

-- What printing a text of one line leaves, from the cell `at` of the cursor on.
pub record Line (t : Term) (s : List ℕ) (t' : Term) : Type 0 where
  pub row : t'.row ≡ t.row
  pub column : t'.column ≡ t.column + length s
  pub text :
      (i c : ℕ)
      → get_elem? s i ≡ some c
      → t'.buffer (t.row * vga_width + t.column + i) ≡ vga_entry c t.color
  pub others :
      (a : ℕ)
      → (a < t.row * vga_width + t.column) ⊎ (t.row * vga_width + t.column + length s ≤ a)
      → t'.buffer a ≡ t.buffer a

line_text :
    (base i c d color : ℕ) (cs : List ℕ) (cells : ℕ → ℕ)
    → cells base ≡ vga_entry c color
    → ((j e : ℕ) → get_elem? cs j ≡ some e → cells (base + 1 + j) ≡ vga_entry e color)
    → get_elem? (c ∷ cs) i ≡ some d
    → cells (base + i) ≡ vga_entry d color
line_text base zero c d color cs cells first next e =
    let same : c ≡ d = some-injective c d e in
    let here : base + 0 ≡ base = omega arith in rw (sym same, here) first
line_text base (suc i) c d color cs cells first next e =
    let there : base + suc i ≡ base + 1 + i = omega arith in rw there (next i d e)

-- The text without a newline that ends before the last column stands at the cursor in the current
-- colour, in reading order; the cursor is behind it, and no other cell changes.
pub term_write-Line :
    (t : Term) (s : List ℕ)
    → has_newline s ≡ false
    → t.column + length s < vga_width
    → t.row < vga_height
    → Line t s (term_write t s)
unfolding term_write
term_write-Line t [] plain fits on = record {
  row = refl;
  column = omega arith;
  text = λ i c e. absurd (some-ne-none c (sym e));
  others = λ a off. refl;
}
term_write-Line t (c ∷ cs) plain fits on =
    let on_screen : IsOnScreen t = record { row = on; column = omega arith } in
    let p = term_putchar-Put t c on_screen in
    let not_feed : c == b'\n' ≡ false = ground (arith, plain) in
    let row : (term_putchar t c).row ≡ t.row = p.row ∙ ground (arith, not_feed) in
    let column : (term_putchar t c).column ≡ t.column + 1 = p.column ∙ ground (arith, not_feed) in
    let color : (term_putchar t c).color ≡ t.color = p.color in
    let rest =
      term_write-Line (term_putchar t c) cs (ground (arith, plain)) (omega (arith, column))
        (omega (arith, row)) in
    let cell : (a : ℕ) → (term_putchar t c).buffer a ≡ shown t c a =
      λ a. p.cells a ∙ ground (arith, not_feed) in
    let base = t.row * 80 + t.column in
    let next_base : (term_putchar t c).row * 80 + (term_putchar t c).column ≡ base + 1 =
      omega (arith, row, column) in
    let after = term_write (term_putchar t c) cs in
    let first : after.buffer base ≡ vga_entry c t.color =
      rest.others base (inl (omega (arith, next_base))) ∙ cell base ∙ ground (arith, not_feed) in
    let next : (j e : ℕ)
        → get_elem? cs j ≡ some e
        → after.buffer (base + 1 + j) ≡ vga_entry e t.color =
      λ j e h.
        ap (λ p. after.buffer (p + j)) (sym next_base) ∙ rest.text j e h ∙ ap (vga_entry e) color in
    let off_rest : (a : ℕ)
        → (a < base) ⊎ (base + length (c ∷ cs) ≤ a)
        → after.buffer a ≡ t.buffer a =
      λ a off. elim off [
        | inl lt ↦
            rest.others a (inl (omega (arith, next_base))) ∙ cell a ∙ ground (arith, not_feed)
        | inr ge ↦
            rest.others a (inr (omega (arith, next_base))) ∙ cell a ∙ ground (arith, not_feed)
      ] in
    record {
      row = rest.row ∙ row;
      column = omega (arith, rest.column, column);
      text = λ i d. line_text base i c d t.color cs after.buffer first next;
      others = off_rest;
    }
