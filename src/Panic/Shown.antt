-- ===== src/Panic/Shown.antt =====
-- What a panic and each exception leave on the screen.
use cookies_os.Base.{
  ℕ, bit, bit_and-pow, ◌-◌, ◌*◌, ◌≡◌, ap, refl, sym, ◌∙◌, arith, bit_and, ◌==◌, if◌then◌else◌,
  Option, some, List, [], ◌∷◌, ◌++◌, codes,
}
use cookies_os.Terminal.{
  Term, Arg, int, term_write, term_setcolor, term_reset_cursor, term_clean, yell, vga_entry_color,
  vga_color_white, vga_color_red, hex_text,
}
use cookies_os.Terminal.Screen.{IsOnScreen}
use cookies_os.Terminal.Text.{term_write-append}
use cookies_os.Terminal.Printf.{formatted, term_vprintf-some}
use cookies_os.Terminal.Yell.{Yelled, yell-Yelled}
use cookies_os.Panic.{
  panic, panic_head, panic_tail, Handled, panicked, returned, panics, returns,
  general_exception_handler_err, general_exception_handler, exception_div_by_zero,
  exception_page_fault, exception_general_protection_fault, page_fault_message,
}

-- The screen that is cleared in white on red.
unfoldable pub red_screen : Term → Term
red_screen t =
    term_clean (term_setcolor (term_reset_cursor t) (vga_entry_color vga_color_white vga_color_red))

abbrev pub panic_text : List ℕ → List ℕ
panic_text s = (panic_head ++ s) ++ panic_tail

-- panic clears the screen in white on red and prints its heading, the formatted message and its last
-- line as one text.
pub panic-text :
    (t : Term) (msg : List ℕ) (args : List Arg) (s : List ℕ)
    → formatted msg args ≡ some s
    → panic t msg args ≡ some (term_write (red_screen t) (panic_text s))
unfolding panic red_screen
panic-text t msg args s e =
    let headed = term_write (red_screen t) panic_head in
    rw (term_vprintf-some headed msg args s e, panic)
      (ap some (
        sym (
          term_write-append (red_screen t) (panic_head ++ s) panic_tail
          ∙ ap (λ (u : Term). term_write u panic_tail)
              (term_write-append (red_screen t) panic_head s))))

-- The message of a page fault.
unfoldable pub fault_text : (cr2 err_code present rw_bit us reserved : ℕ) → List ℕ
fault_text cr2 err_code present rw_bit us reserved =
    codes "PAGE_FAULT\nCaused addres: "
    ++ (hex_text cr2 8
        ++ (codes "\nRaw error code: "
            ++ (hex_text err_code 8
                ++ (codes "\n\nDetails:\nPresent: "
                    ++ (hex_text present 8
                        ++ (codes "\nRW: "
                            ++ (hex_text rw_bit 8
                                ++ (codes "\nUser-mode: "
                                    ++ (hex_text us 8
                                        ++ (codes "\nReserved: "
                                            ++ (hex_text reserved 8 ++ (b'\n' ∷ []))))))))))))

-- By the bits of the error code. `Present` is the opposite of bit 0.
abbrev pub page_fault_text : ℕ → ℕ → List ℕ
page_fault_text cr2 err_code =
    fault_text cr2 err_code (1 - bit 0 err_code) (bit 1 err_code * 2) (bit 2 err_code * 4)
      (bit 3 err_code * 8)

formatted_fault :
    (cr2 err_code present rw_bit us reserved : ℕ)
    → formatted page_fault_message
        (int cr2 ∷ int err_code ∷ int present ∷ int rw_bit ∷ int us ∷ int reserved ∷ [])
      ≡ some (fault_text cr2 err_code present rw_bit us reserved)
unfolding fault_text
formatted_fault cr2 err_code present rw_bit us reserved = refl

absent_bit : (e : ℕ) → (if bit_and e 1 == 0 then 1 else 0) ≡ 1 - bit 0 e
absent_bit e = ground (arith, bit_and-pow 0 e)

fault_bits :
    (cr2 e : ℕ)
    → fault_text cr2 e (if bit_and e 1 == 0 then 1 else 0) (bit_and e 2) (bit_and e 4) (bit_and e 8)
      ≡ page_fault_text cr2 e
fault_bits cr2 e =
    ap (λ p. fault_text cr2 e p (bit_and e 2) (bit_and e 4) (bit_and e 8)) (absent_bit e)
    ∙ ap (λ r. fault_text cr2 e (1 - bit 0 e) r (bit_and e 4) (bit_and e 8)) (bit_and-pow 1 e)
    ∙ ap (λ u. fault_text cr2 e (1 - bit 0 e) (bit 1 e * 2) u (bit_and e 8)) (bit_and-pow 2 e)
    ∙ ap (λ v. fault_text cr2 e (1 - bit 0 e) (bit 1 e * 2) (bit 2 e * 4) v) (bit_and-pow 3 e)

-- What each exception leaves.
pub record Exceptions (cr2 err_code : ℕ) (t : Term) : Type 0 where
  pub page_fault :
      exception_page_fault cr2 err_code t
      ≡ panicked (term_write (red_screen t) (panic_text (page_fault_text cr2 err_code)))
  pub protection :
      exception_general_protection_fault t
      ≡ panicked
          (term_write (red_screen t) (panic_text (codes "GENERAL_PROTECTION_FAULT exception")))
  pub faulty :
      general_exception_handler_err t
      ≡ panicked (term_write (red_screen t) (panic_text (codes "A faulty exception was trigged!")))
  pub division :
      (t' : Term) × (exception_div_by_zero t ≡ returned t') × Yelled t (codes "DIVISION_BY_ZERO") t'
  pub unexpected :
      (t' : Term) × (general_exception_handler t ≡ returned t')
      × Yelled t (codes "A unexpected exception was trigged!") t'

yelled :
    (t : Term) (msg : List ℕ) (f : Option Term → Handled)
    → IsOnScreen t
    → formatted msg [] ≡ some msg
    → ((t' : Term) → f (some t') ≡ returned t')
    → (t' : Term) × (f (yell t msg []) ≡ returned t') × Yelled t msg t'
yelled t msg f on e back =
    let (t', runs, y) = yell-Yelled t msg [] msg on e in (t', ap f runs ∙ back t', y)

-- With the cursor on the screen, a page fault, a protection fault and the other faults with an error
-- code stop the machine and leave a panic's text on a cleared screen; that of a page fault shows the
-- address, the error code and its bits. A division by zero and any other exception print a message and
-- return.
pub Exceptions-Shown : (cr2 err_code : ℕ) (t : Term) → IsOnScreen t → Exceptions cr2 err_code t
unfolding exception_page_fault exception_general_protection_fault general_exception_handler_err
    exception_div_by_zero general_exception_handler
Exceptions-Shown cr2 err_code t on = record {
  page_fault =
      ap panics (
        panic-text t page_fault_message
          (int cr2
            ∷ int err_code
            ∷ int (if bit_and err_code 1 == 0 then 1 else 0)
            ∷ int (bit_and err_code 2)
            ∷ int (bit_and err_code 4)
            ∷ int (bit_and err_code 8)
            ∷ [])
          _ (formatted_fault cr2 err_code _ _ _ _))
      ∙ ap (λ s. panicked (term_write (red_screen t) (panic_text s))) (fault_bits cr2 err_code);
  protection = ap panics (panic-text t (codes "GENERAL_PROTECTION_FAULT exception") [] _ refl);
  faulty = ap panics (panic-text t (codes "A faulty exception was trigged!") [] _ refl);
  division = yelled t (codes "DIVISION_BY_ZERO") returns on refl (λ t'. refl);
  unexpected = yelled t (codes "A unexpected exception was trigged!") returns on refl (λ t'. refl);
}
