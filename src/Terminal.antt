-- ===== src/Terminal.antt =====
-- src/kernel/framebuffer.c and src/kernel/framebuffer.h: the text screen of 80 by 25 cells. `buffer` is the
-- memory at `term_buffer`, a 16-bit cell at each index; `port` is what went to port 0xE9, in order.
-- A text argument is the list of its bytes, without the terminator.
pub mod Cells
pub mod Screen
pub mod Text
pub mod Hex
pub mod Printf
pub mod Yell
use cookies_os.Base.{
  ℕ, zero, suc, ◌+◌, ◌-◌, ◌*◌, ◌/◌, ◌^◌, bit_and, bit_or, Option, none, some, List, [], ◌∷◌, ◌++◌,
  leb, ◌==◌, if◌then◌else◌, write, u8, u16,
}
use cookies_os.Libc.{memcpy}

abbrev pub vga_width : ℕ
vga_width = 80

abbrev pub vga_height : ℕ
vga_height = 25

abbrev pub vga_color_black : ℕ
vga_color_black = 0

abbrev pub vga_color_red : ℕ
vga_color_red = 4

abbrev pub vga_color_light_grey : ℕ
vga_color_light_grey = 7

abbrev pub vga_color_white : ℕ
vga_color_white = 15

unfoldable pub vga_entry_color : ℕ → ℕ → ℕ
vga_entry_color fg bg = u8 (bit_or fg (bg * 2 ^ 4))

unfoldable pub vga_entry : ℕ → ℕ → ℕ
vga_entry uc color = u16 (bit_or uc (color * 2 ^ 8))

pub record Term : Type 0 where
  pub row : ℕ
  pub column : ℕ
  pub color : ℕ
  pub buffer : ℕ → ℕ
  pub port : List ℕ

unfoldable pub put_char_at : Term → (c color x y : ℕ) → Term
unfolding write
put_char_at t c color x y = record t {
  buffer = write t.buffer (y * vga_width + x) (vga_entry c color);
}

-- `for(x=0; x<VGA_WIDTH; x++) term_put_char_at(' ', term_color, x, y)`.
pub blank_loop : ℕ → ℕ → ℕ → Term → Term
blank_loop y zero x t = t
blank_loop y (suc left) x t = blank_loop y left (x + 1) (put_char_at t b' ' t.color x y)

pub clean_loop : ℕ → ℕ → Term → Term
clean_loop zero y t = t
clean_loop (suc left) y t = clean_loop left (y + 1) (blank_loop y vga_width 0 t)

unfoldable pub term_clean : Term → Term
term_clean t = clean_loop vga_height 0 t

unfoldable pub term_setcolor : Term → ℕ → Term
term_setcolor t color = record t { color = color }

unfoldable pub term_init : Term → Term
term_init t = term_clean (term_setcolor t (vga_entry_color vga_color_white vga_color_black))

-- The bytes copied are those of that many cells.
unfoldable pub term_newline : Term → Term
term_newline t =
    let moved = record t { buffer = memcpy t.buffer 0 vga_width (vga_width * (vga_height - 1)) } in
    blank_loop (vga_height - 1) vga_width 0 moved

-- From `newline_callback` on.
pub newline_callback : Term → Term
newline_callback t =
    if leb vga_height (t.row + 1)
    then term_newline (record t { row = vga_height - 1 })
    else record t { row = t.row + 1 }

unfoldable pub term_putchar : Term → ℕ → Term
term_putchar t c =
    let sent = record t { port = t.port ++ (c ∷ []) } in
    if c == b'\n'
    then newline_callback (record sent { column = 0 })
    else let shown = put_char_at sent c sent.color sent.column sent.row in
      if leb vga_width (shown.column + 1)
      then newline_callback (record shown { column = 0 })
      else record shown { column = shown.column + 1 }

-- `term_writestring(data)` is this on the bytes before the terminator.
unfoldable pub term_write : Term → List ℕ → Term
term_write t [] = t
term_write t (c ∷ cs) = term_write (term_putchar t c) cs

unfoldable pub term_reset_cursor : Term → Term
term_reset_cursor t = record t { row = 0; color = 0 }

-- `hex_digits`.
unfoldable pub hex_digit : ℕ → ℕ
hex_digit n = if leb n 9 then b'0' + n else b'a' + (n - 10)

abbrev pub nibble : ℕ → ℕ → ℕ
nibble hex i = bit_and hex (15 * 2 ^ (i * 4)) / 2 ^ (i * 4)

-- The contents of `buffer` after the loop from `i = n - 1` down to 0.
unfoldable pub hex_text : ℕ → ℕ → List ℕ
hex_text hex zero = []
hex_text hex (suc i) = hex_digit (nibble hex i) ∷ hex_text hex i

unfoldable pub term_puthex : Term → ℕ → Term
term_puthex t hex = term_write t (hex_text hex 8)

-- The variable arguments of `term_vprintf`.
pub data Arg : Type 0 where
  int : ℕ → Arg
  str : List ℕ → Arg

-- `va_arg(arg, int)`, `va_arg(arg, uint32_t)` and `va_arg(arg, char*)`. `none` is a missing argument
-- or one of the other type, which C leaves undefined; so is a format that ends in `%`, behind
-- whose terminator the loop reads on.
abbrev pub take_int : List Arg → Option (ℕ × List Arg)
take_int [] = none
take_int (int n ∷ args) = some (n, args)
take_int (str s ∷ args) = none

abbrev pub take_str : List Arg → Option (List ℕ × List Arg)
take_str [] = none
take_str (int n ∷ args) = none
take_str (str s ∷ args) = some (s, args)

-- The `switch` on the byte behind `%`.
pub directive : Term → ℕ → List Arg → Option (Term × List Arg)
directive t d args =
    if d == b'c'
    then elim (take_int args) [ none ↦ none | some (n, rest) ↦ some (term_putchar t (u8 n), rest) ]
    else if d == b's'
    then elim (take_str args) [ none ↦ none | some (s, rest) ↦ some (term_write t s, rest) ]
    else if d == b'x'
    then elim (take_int args) [ none ↦ none | some (n, rest) ↦ some (term_puthex t n, rest) ]
    else some (t, args)

unfoldable pub term_vprintf : Term → List ℕ → List Arg → Option Term
term_vprintf t [] args = some t
term_vprintf t (f ∷ []) args = if f == b'%' then none else some (term_putchar t f)
term_vprintf t (f ∷ (d ∷ fs)) args =
    let plain = term_vprintf (term_putchar t f) (d ∷ fs) args in
    let formatted : Option Term = elim (directive t d args) [
      | none ↦ none
      | some (t', rest) ↦ term_vprintf t' fs rest
    ] in
    if f == b'%' then formatted else plain

-- "\n[INTERNAL ERROR]: \n\n".
abbrev pub yell_head : List ℕ
yell_head =
    b'\n' ∷ b'[' ∷ b'I' ∷ b'N' ∷ b'T' ∷ b'E' ∷ b'R' ∷ b'N' ∷ b'A' ∷ b'L' ∷ b' ' ∷ b'E' ∷ b'R' ∷ b'R'
    ∷ b'O' ∷ b'R' ∷ b']' ∷ b':' ∷ b' ' ∷ b'\n' ∷ b'\n' ∷ []

-- src/kernel/panic.c: what `yell` prints. The second colour is a foreground alone.
unfoldable pub yell : Term → List ℕ → List Arg → Option Term
yell t msg args =
    let reset = term_reset_cursor t in
    let red = term_setcolor reset (vga_entry_color vga_color_white vga_color_red) in
    let headed = term_write red yell_head in
    elim (term_vprintf headed msg args) [
      | none ↦ none
      | some t' ↦ some (term_setcolor (term_putchar t' b'\n') vga_color_light_grey)
    ]
