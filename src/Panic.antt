-- ===== src/Panic.antt =====
-- src/kernel/panic.c: panic, and src/kernel/trap.c: the handlers of exceptions and of the timer. yell is
-- in Terminal. The machine halts behind panic; its result is the screen that stays.
pub mod Shown
use cookies_os.Base.{ℕ, bit_and, ◌==◌, not, if◌then◌else◌, Option, none, some, List, [], ◌∷◌, codes}
use cookies_os.Terminal.{
  Term, Arg, int, term_reset_cursor, term_setcolor, term_clean, term_write, term_vprintf, yell,
  vga_entry_color, vga_color_white, vga_color_red,
}
use cookies_os.Pic.{Out, pic_send_eoi}

abbrev pub panic_head : List ℕ
panic_head = codes "\n[!KERNEL PANIC!]: \n\n"

abbrev pub panic_tail : List ℕ
panic_tail = codes "\n\n...FUCK YOU!\n"

unfoldable pub panic : Term → List ℕ → List Arg → Option Term
panic t msg args =
    let red = term_setcolor (term_reset_cursor t) (vga_entry_color vga_color_white vga_color_red) in
    let headed = term_write (term_clean red) panic_head in
    elim (term_vprintf headed msg args) [ none ↦ none | some t' ↦ some (term_write t' panic_tail) ]

-- What a handler does: the screen that a panic leaves for good, or the one it returns with.
pub data Handled : Type 0 where
  panicked : Term → Handled
  returned : Term → Handled
  undefined : Handled

abbrev pub panics : Option Term → Handled
panics none = undefined
panics (some t) = panicked t

abbrev pub returns : Option Term → Handled
returns none = undefined
returns (some t) = returned t

unfoldable pub general_exception_handler_err : Term → Handled
general_exception_handler_err t = panics (panic t (codes "A faulty exception was trigged!") [])

unfoldable pub general_exception_handler : Term → Handled
general_exception_handler t = returns (yell t (codes "A unexpected exception was trigged!") [])

unfoldable pub exception_div_by_zero : Term → Handled
exception_div_by_zero t = returns (yell t (codes "DIVISION_BY_ZERO") [])

abbrev pub page_fault_message : List ℕ
page_fault_message =
    codes
      "PAGE_FAULT\nCaused addres: %x\nRaw error code: %x\n\nDetails:\nPresent: %x\nRW: %x\nUser-mode: %x\nReserved: %x\n"

-- `cr2` is what read_cr2 returns.
unfoldable pub exception_page_fault : ℕ → ℕ → Term → Handled
exception_page_fault cr2 err_code t =
    let present = if bit_and err_code 0x1 == 0 then 1 else 0 in
    let rw_bit = bit_and err_code 0x2 in
    let us = bit_and err_code 0x4 in
    let reserved = bit_and err_code 0x8 in
    panics (
      panic t page_fault_message
        (int cr2 ∷ int err_code ∷ int present ∷ int rw_bit ∷ int us ∷ int reserved ∷ []))

abbrev pub interrupt_pit_timer : List Out
interrupt_pit_timer = pic_send_eoi 0

unfoldable pub exception_general_protection_fault : Term → Handled
exception_general_protection_fault t =
    panics (panic t (codes "GENERAL_PROTECTION_FAULT exception") [])
