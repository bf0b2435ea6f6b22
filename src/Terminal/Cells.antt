-- ===== src/Terminal/Cells.antt =====
-- Cells, and the loops that write them.
use cookies_os.Base.{
  ℕ, zero, suc, ◌+◌, ◌-◌, ◌*◌, ◌/◌, ◌%◌, ◌^◌, ◌<◌, ◌≡◌, inl, refl, ap, ◌∙◌, arith, leb, ltb, ◌&&◌,
  if◌then◌else◌, write_at, write_off, bit_or-shifted, bit_or_comm,
}
use cookies_os.Terminal.{
  Term, vga_width, vga_height, vga_entry, vga_entry_color, put_char_at, blank_loop, clean_loop,
  term_clean, term_newline,
}
use cookies_os.Libc.Copy.{memcpy_loop-moved}
use cookies_os.Libc.{memcpy}

-- A cell holds the character in its low byte and the colour above it.
pub vga_entry-fields :
    (uc color : ℕ)
    → uc < 256
    → color < 256
    → (vga_entry uc color % 256 ≡ uc) × (vga_entry uc color / 256 ≡ color)
unfolding vga_entry
vga_entry-fields uc color h k =
    omega (arith, bit_or_comm uc (color * 2 ^ 8), bit_or-shifted 8 color uc h)

abbrev pub blank : Term → ℕ
blank t = vga_entry b' ' t.color

-- Only the buffer may differ.
pub record SameBut (t t' : Term) : Type 0 where
  pub row : t'.row ≡ t.row
  pub column : t'.column ≡ t.column
  pub color : t'.color ≡ t.color
  pub port : t'.port ≡ t.port

-- vga_entry_color puts the foreground in the low four bits and the background above.
pub vga_entry_color-fields :
    (fg bg : ℕ)
    → fg < 16
    → bg < 16
    → (vga_entry_color fg bg % 16 ≡ fg) × (vga_entry_color fg bg / 16 ≡ bg)
unfolding vga_entry_color
vga_entry_color-fields fg bg h k =
    omega (arith, bit_or_comm fg (bg * 2 ^ 4), bit_or-shifted 4 bg fg h)

blank_loop-SameBut : (y left x : ℕ) (t : Term) → SameBut t (blank_loop y left x t)
unfolding blank_loop put_char_at
blank_loop-SameBut y zero x t = record { row = refl; column = refl; color = refl; port = refl }
blank_loop-SameBut y (suc left) x t =
    let rest = blank_loop-SameBut y left (x + 1) (put_char_at t b' ' t.color x y) in
    record { row = rest.row; column = rest.column; color = rest.color; port = rest.port }

-- The loop over a line writes blanks in the cells that are left of it, and in no other.
pub blank_loop-cells :
    (y n left x : ℕ) (t : Term) (a : ℕ)
    → x + left ≡ n
    → (blank_loop y left x t).buffer a
      ≡ (if leb (y * 80 + x) a && ltb a (y * 80 + n) then blank t else t.buffer a)
unfolding blank_loop put_char_at
blank_loop-cells y n zero x t a e = ground arith
blank_loop-cells y n (suc left) x t a e = ground (
  arith,
  blank_loop-cells y n left (x + 1) (put_char_at t b' ' t.color x y) a (omega arith),
  write_at t.buffer (y * 80 + x) (vga_entry b' ' t.color) a,
  write_off t.buffer (y * 80 + x) (vga_entry b' ' t.color) a,
)

clean_loop-SameBut : (left y : ℕ) (t : Term) → SameBut t (clean_loop left y t)
unfolding clean_loop
clean_loop-SameBut zero y t = record { row = refl; column = refl; color = refl; port = refl }
clean_loop-SameBut (suc left) y t =
    let line = blank_loop-SameBut y 80 0 t in
    let rest = clean_loop-SameBut left (y + 1) (blank_loop y 80 0 t) in
    record {
      row = rest.row ∙ line.row;
      column = rest.column ∙ line.column;
      color = rest.color ∙ line.color;
      port = rest.port ∙ line.port;
    }

clean_loop-cells :
    (n left y : ℕ) (t : Term) (a : ℕ)
    → y + left ≡ n
    → (clean_loop left y t).buffer a
      ≡ (if leb (y * 80) a && ltb a (n * 80) then blank t else t.buffer a)
unfolding clean_loop
clean_loop-cells n zero y t a e = ground arith
clean_loop-cells n (suc left) y t a e =
    let t1 = blank_loop y 80 0 t in
    let line = blank_loop-cells y 80 80 0 t a (omega arith) in
    let color : blank t1 ≡ blank t =
      ap (λ (c : ℕ). vga_entry b' ' c) (blank_loop-SameBut y 80 0 t).color in
    ground (arith, clean_loop-cells n left (y + 1) t1 a (omega arith), line, color)

-- term_clean blanks every cell of the screen in the current colour, and writes no other memory.
pub term_clean-cells :
    (t : Term) (a : ℕ)
    → (term_clean t).buffer a ≡ (if ltb a (vga_width * vga_height) then blank t else t.buffer a)
unfolding term_clean
term_clean-cells t a = ground (arith, clean_loop-cells 25 25 0 t a (omega arith))

pub term_newline-SameBut : (t : Term) → SameBut t (term_newline t)
unfolding term_newline
term_newline-SameBut t =
    let moved = record t { buffer = memcpy t.buffer 0 80 1920 } in
    let line = blank_loop-SameBut 24 80 0 moved in
    record { row = line.row; column = line.column; color = line.color; port = line.port }

-- term_newline moves each line one up and blanks the last in the current colour; other memory stays.
pub term_newline-cells :
    (t : Term) (a : ℕ)
    → (term_newline t).buffer a ≡ (
        if ltb a (vga_width * (vga_height - 1))
        then t.buffer (a + vga_width)
        else if ltb a (vga_width * vga_height)
        then blank t
        else t.buffer a)
unfolding term_newline memcpy
term_newline-cells t a =
    let moved = record t { buffer = memcpy t.buffer 0 80 1920 } in
    let up = memcpy_loop-moved 0 80 1920 1920 0 t.buffer a (inl (omega arith)) (omega arith) in
    ground (arith, blank_loop-cells 24 80 80 0 moved a (omega arith), up)
