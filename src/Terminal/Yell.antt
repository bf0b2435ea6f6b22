-- ===== src/Terminal/Yell.antt =====
-- src/kernel/panic.c: what yell leaves on the screen and on the port.
use cookies_os.Base.{ℕ, ◌≡◌, ap, refl, ◌∙◌, arith, some, List, [], ◌∷◌, ◌++◌}
use cookies_os.Terminal.{
  Term, term_write, term_putchar, term_setcolor, term_reset_cursor, vga_color_light_grey, yell,
  yell_head, Arg, vga_entry_color, vga_color_white, vga_color_red, term_vprintf,
}
use cookies_os.Terminal.Screen.{IsOnScreen}
use cookies_os.Terminal.Text.{term_write-Written, put-Written}
use cookies_os.Terminal.Printf.{formatted, term_vprintf-some}
use mathlib.Core.List.{append_assoc}

pub record Yelled (t : Term) (s : List ℕ) (t' : Term) : Type 0 where
  pub on : IsOnScreen t'
  pub color : t'.color ≡ vga_color_light_grey
  pub port : t'.port ≡ t.port ++ (yell_head ++ (s ++ (b'\n' ∷ [])))

-- yell prints the heading, the formatted message and a newline, and leaves the cursor on the screen
-- and the colour light grey.
pub yell-Yelled :
    (t : Term) (msg : List ℕ) (args : List Arg) (s : List ℕ)
    → IsOnScreen t
    → formatted msg args ≡ some s
    → (t' : Term) × (yell t msg args ≡ some t') × Yelled t s t'
unfolding yell term_reset_cursor term_setcolor
yell-Yelled t msg args s on e =
    let red = term_setcolor (term_reset_cursor t) (vga_entry_color vga_color_white vga_color_red) in
    let red_on : IsOnScreen red = record { row = omega arith; column = on.column } in
    let head = term_write-Written red yell_head red_on in
    let headed = term_write red yell_head in
    let body = term_write-Written headed s head.on in
    let end = put-Written (term_write headed s) b'\n' body.on in
    let printed : term_vprintf headed msg args ≡ some (term_write headed s) =
      term_vprintf-some headed msg args s e in
    (
      term_setcolor (term_putchar (term_write headed s) b'\n') vga_color_light_grey,
      rw (printed, yell) refl,
      record {
        on = record { row = end.on.row; column = end.on.column };
        color = refl;
        port =
            end.port
            ∙ ap (λ l. l ++ (b'\n' ∷ [])) (body.port ∙ ap (λ l. l ++ s) head.port)
            ∙ append_assoc (t.port ++ yell_head) s (b'\n' ∷ [])
            ∙ append_assoc t.port yell_head (s ++ (b'\n' ∷ []));
      },
    )
