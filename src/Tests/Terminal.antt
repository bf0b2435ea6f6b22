-- ===== src/Tests/Terminal.antt =====
-- src/kernel/framebuffer.c, src/kernel/framebuffer.h and src/kernel/panic.c.
use cookies_os.Base.{◌≡◌, refl, arith, false, [], ◌∷◌, length, some}
use cookies_os.Terminal.{Term, term_write, term_vprintf, hex_text, str}
use cookies_os.Terminal.Screen.{IsOnScreen}
use cookies_os.Terminal.Text.{Written, Line, term_write-Written, term_write-Line, has_newline}
use cookies_os.Terminal.Hex.{hex_value, hex_value-hex_text}
use cookies_os.Terminal.Printf.{formatted, term_vprintf-formatted, written}

-- The cursor is behind the last column but one of the last row.
abbrev corner : Term
corner = record { row = 24; column = 79; color = 7; buffer = λ i. i; port = [] }

corner-IsOnScreen : IsOnScreen corner
corner-IsOnScreen = record { row = omega arith; column = omega arith }

abbrev pub top : Term
top = record { row = 0; column = 0; color = 15; buffer = λ i. 0; port = [] }

pub top-IsOnScreen : IsOnScreen top
top-IsOnScreen = record { row = omega arith; column = omega arith }

write_example : Written corner (b'A' ∷ b'\n' ∷ []) (term_write corner (b'A' ∷ b'\n' ∷ []))
write_example = term_write-Written corner (b'A' ∷ b'\n' ∷ []) corner-IsOnScreen

no_newline : has_newline (b'h' ∷ b'i' ∷ []) ≡ false
no_newline = refl

term_write_example : Line top (b'h' ∷ b'i' ∷ []) (term_write top (b'h' ∷ b'i' ∷ []))
term_write_example = term_write-Line top (b'h' ∷ b'i' ∷ []) no_newline (omega arith) (omega arith)

puthex_example : (hex_value 0 (hex_text 0xB8000 8) ≡ 0xB8000) × (length (hex_text 0xB8000 8) ≡ 8)
puthex_example = hex_value-hex_text 0xB8000 (omega arith)

vprintf_example :
    term_vprintf top (b'%' ∷ b's' ∷ b'!' ∷ []) (str (b'o' ∷ b'k' ∷ []) ∷ [])
    ≡ written top (formatted (b'%' ∷ b's' ∷ b'!' ∷ []) (str (b'o' ∷ b'k' ∷ []) ∷ []))
vprintf_example = term_vprintf-formatted top (b'%' ∷ b's' ∷ b'!' ∷ []) (str (b'o' ∷ b'k' ∷ []) ∷ [])

formatted_ok :
    formatted (b'%' ∷ b's' ∷ b'!' ∷ []) (str (b'o' ∷ b'k' ∷ []) ∷ [])
    ≡ some (b'o' ∷ b'k' ∷ b'!' ∷ [])
formatted_ok = refl
