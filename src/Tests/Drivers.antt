-- ===== src/Tests/Drivers.antt =====
-- The keyboard, the interrupt controller, the descriptor table and the drive.
use cookies_os.Base.{ℕ, ◌≡◌, refl, arith, [], ◌∷◌, some, none}
use cookies_os.Keyboard.{Keyboard, kbdus, kb_wait_get, kb_get}
use cookies_os.Keyboard.Buffer.{
  press_all, read_all, backwards, read_all-press_all, kb_wait_get-loses,
}
use cookies_os.Idt.{Idt}

abbrev pub idle : Keyboard
idle = record { current_ch = 0; buffer = λ i. 0; handled_index = 0; signal = 0 }

kbdus_a : kbdus 30 ≡ b'a'
unfolding kbdus
kbdus_a = refl

kbdus_minus : kbdus 74 ≡ b'-'
unfolding kbdus
kbdus_minus = refl

kbdus_last : kbdus 88 ≡ 0
unfolding kbdus
kbdus_last = refl

read_all_example : read_all 3 (press_all (30 ∷ 31 ∷ 32 ∷ []) idle) ≡ backwards (30 ∷ 31 ∷ 32 ∷ [])
read_all_example =
    read_all-press_all idle (30 ∷ 31 ∷ 32 ∷ []) (omega arith, (omega arith, (omega arith, tt)))
      (omega arith)

loses_example :
    (k' : Keyboard) × (kb_wait_get (press_all (30 ∷ 31 ∷ []) idle) ≡ some (kbdus 31, k'))
    × (kb_wait_get k' ≡ none)
    × ((kb_get k').0 ≡ kbdus 30)
loses_example = kb_wait_get-loses idle 30 31 (omega arith) (omega arith) (omega arith)

abbrev all_masked : ℕ → ℕ
all_masked port = 0xFF

abbrev pub blank : Idt
blank = record {
  entries = λ i. record { isr_low = 0; kernel_cs = 0; reserved = 0; attributes = 0; isr_high = 0 };
  base = 0;
  limit = 0;
}
