-- ===== src/Terminal/Screen.antt =====
-- term_putchar: the cursor and the cells.
use cookies_os.Base.{
  ℕ, ◌+◌, ◌-◌, ◌*◌, ◌<◌, ◌≡◌, inl, inr, refl, ◌∙◌, arith, Bool, leb, ltb, ◌&&◌, ◌||◌, not, ◌==◌,
  if◌then◌else◌, Bool-cases, [], ◌∷◌, ◌++◌, write,
}
use cookies_os.Terminal.{
  Term, vga_width, vga_height, vga_entry, put_char_at, newline_callback, term_putchar,
}
use cookies_os.Terminal.Cells.{blank, term_newline-SameBut, term_newline-cells}

-- The cursor is on the screen.
pub record IsOnScreen (t : Term) : Type 0 where
  pub row : t.row < vga_height
  pub column : t.column < vga_width

-- The cell at `a` after a line feed that may scroll.
abbrev fed : Bool → (ℕ → ℕ) → ℕ → ℕ → ℕ
fed scrolls cells paint a =
    if scrolls
    then if ltb a 1920 then cells (a + 80) else if ltb a 2000 then paint else cells a
    else cells a

record Fed (t t' : Term) : Type 0 where
  row : t'.row ≡ (if ltb t.row 24 then t.row + 1 else 24)
  column : t'.column ≡ t.column
  color : t'.color ≡ t.color
  port : t'.port ≡ t.port
  cells : (a : ℕ) → t'.buffer a ≡ fed (leb 25 (t.row + 1)) t.buffer (blank t) a

newline_callback-Fed : (t : Term) → t.row < 25 → Fed t (newline_callback t)
unfolding newline_callback
newline_callback-Fed t h = elim (Bool-cases (leb 25 (t.row + 1))) [
  | inl last ↦
      let below = record t { row = 24 } in
      let same = term_newline-SameBut below in
      rw last (record {
        row = same.row ∙ ground arith;
        column = same.column;
        color = same.color;
        port = same.port;
        cells = λ a. rw last (term_newline-cells below a);
      })
  | inr more ↦ rw more (record {
    row = ground arith;
    column = refl;
    color = refl;
    port = refl;
    cells = λ a. rw more;
  })
]

-- The cells once the character stands at the cursor; a newline is not shown.
abbrev pub shown : Term → ℕ → ℕ → ℕ
shown t c a =
    if not (c == b'\n') && (t.row * vga_width + t.column == a)
    then vga_entry c t.color
    else t.buffer a

-- The line ends: at a newline, and behind the last column.
abbrev pub ends_line : Term → ℕ → Bool
ends_line t c = (c == b'\n') || (t.column == vga_width - 1)

-- The cells above move up when the line ends on the last row.
abbrev pub scrolled : Term → ℕ → ℕ → ℕ
scrolled t c a =
    if ends_line t c && (t.row == vga_height - 1)
    then if ltb a (vga_width * (vga_height - 1))
      then shown t c (a + vga_width)
      else if ltb a (vga_width * vga_height)
      then blank t
      else shown t c a
    else shown t c a

pub record Put (t : Term) (c : ℕ) (t' : Term) : Type 0 where
  pub row : t'.row ≡ (if ends_line t c && ltb t.row (vga_height - 1) then t.row + 1 else t.row)
  pub column : t'.column ≡ (if ends_line t c then 0 else t.column + 1)
  pub color : t'.color ≡ t.color
  pub port : t'.port ≡ t.port ++ (c ∷ [])
  pub cells : (a : ℕ) → t'.buffer a ≡ scrolled t c a

-- term_putchar sends the byte to the port, shows it at the cursor unless it is a newline, and moves
-- the cursor; when the line ends on the last row the screen moves up by one line.
pub term_putchar-Put : (t : Term) (c : ℕ) → IsOnScreen t → Put t c (term_putchar t c)
unfolding term_putchar put_char_at write
term_putchar-Put t c on = elim (Bool-cases (c == b'\n')) [
  | inl feed ↦
      let from = record t { port = t.port ++ (c ∷ []); column = 0 } in
      let f = newline_callback-Fed from on.row in
      rw feed (record {
        row = f.row ∙ ground (arith, on.row);
        column = f.column ∙ rw feed;
        color = f.color;
        port = f.port;
        cells = λ a. f.cells a ∙ ground (arith, on.row);
      })
  | inr plain ↦ rw plain (elim (Bool-cases (leb 80 (t.column + 1))) [
    | inl wraps ↦
        let sent = record t { port = t.port ++ (c ∷ []) } in
        let from = record (put_char_at sent c t.color t.column t.row) { column = 0 } in
        let f = newline_callback-Fed from on.row in
        rw wraps (record {
          row = f.row ∙ ground (arith, on.row, on.column);
          column = f.column ∙ ground (arith, on.column);
          color = f.color;
          port = f.port;
          cells = λ a. f.cells a ∙ ground (arith, on.row, on.column);
        })
    | inr stays ↦ rw stays (record {
      row = ground (arith, on.column);
      column = ground (arith, on.column);
      color = refl;
      port = refl;
      cells = λ a. ground (arith, on.row, on.column);
    })
  ])
]
