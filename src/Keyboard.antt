-- ===== src/Keyboard.antt =====
-- src/drivers/keyboard.c: the scancode table, the buffer, the interrupt handler and the readers.
-- `int` counters are far from their bounds. The registration (kb_init) is in Device.
pub mod Buffer
use cookies_os.Base.{
  ℕ, zero, suc, ◌+◌, ◌-◌, ◌*◌, ◌^◌, bit_and, leb, ltb, ◌==◌, not, if◌then◌else◌, write, Option,
  none, some, List, [], ◌∷◌, get_elem?, Mem,
}
use cookies_os.Pic.{Out, pic_send_eoi}

abbrev pub kb_signal_out : ℕ
kb_signal_out = 0x40

-- `kbdus`: the bytes that are written out; the rest of the 128 are 0.
abbrev pub kbdus_list : List ℕ
kbdus_list =
    0 ∷ 27 ∷ b'1' ∷ b'2' ∷ b'3' ∷ b'4' ∷ b'5' ∷ b'6' ∷ b'7' ∷ b'8' ∷ b'9' ∷ b'0' ∷ b'-' ∷ b'=' ∷ 8
    ∷ 9 ∷ b'q' ∷ b'w' ∷ b'e' ∷ b'r' ∷ b't' ∷ b'y' ∷ b'u' ∷ b'i' ∷ b'o' ∷ b'p' ∷ b'[' ∷ b']' ∷ 10 ∷ 0
    ∷ b'a' ∷ b's' ∷ b'd' ∷ b'f' ∷ b'g' ∷ b'h' ∷ b'j' ∷ b'k' ∷ b'l' ∷ b';' ∷ 39 ∷ b'`' ∷ 0 ∷ 92
    ∷ b'z' ∷ b'x' ∷ b'c' ∷ b'v' ∷ b'b' ∷ b'n' ∷ b'm' ∷ b',' ∷ b'.' ∷ b'/' ∷ 0 ∷ b'*' ∷ 0 ∷ b' ' ∷ 0
    ∷ 0 ∷ 0 ∷ 0 ∷ 0 ∷ 0 ∷ 0 ∷ 0 ∷ 0 ∷ 0 ∷ 0 ∷ 0 ∷ 0 ∷ 0 ∷ 0 ∷ 0 ∷ b'-' ∷ 0 ∷ 0 ∷ 0 ∷ b'+' ∷ []

unfoldable pub kbdus : ℕ → ℕ
kbdus code = elim (get_elem? kbdus_list code) [ none ↦ 0 | some ch ↦ ch ]

-- `buffer` is the memory from the array on; the array has 255 bytes.
pub record Keyboard : Type 0 where
  pub current_ch : ℕ
  pub buffer : ℕ → ℕ
  pub handled_index : ℕ
  pub signal : ℕ

-- The byte read from port 0x60 is `code`. The state, and the writes to the interrupt controller.
unfoldable pub kb_interrupt_handler : Keyboard → ℕ → Keyboard × List Out
kb_interrupt_handler k code =
    let ch = kbdus code in
    let pressed = record k {
      current_ch = ch;
      buffer = write k.buffer k.handled_index ch;
      handled_index = k.handled_index + 1;
      signal = 1;
    } in
    if not (bit_and code 0x80 == 0) then (k, pic_send_eoi 1) else (pressed, pic_send_eoi 1)

abbrev pub kb_get_curr : Keyboard → ℕ
kb_get_curr k = k.current_ch

-- The byte, and the state after it.
unfoldable pub kb_get : Keyboard → ℕ × Keyboard
kb_get k =
    if k.handled_index == 0
    then (kb_get_curr k, k)
    else (k.buffer (k.handled_index - 1), record k { handled_index = k.handled_index - 1 })

-- `none` while it waits for a signal.
unfoldable pub kb_wait_get : Keyboard → Option (ℕ × Keyboard)
kb_wait_get k = if k.signal == 0 then none else some (kb_get (record k { signal = 0 }))

-- The bytes from `offset` up to `offset + size` of the reader's buffer at `ptr` are written.
pub read_loop : ℕ → ℕ → ℕ → ℕ → Keyboard → Mem → Keyboard × Mem
read_loop offset ptr zero i k m = (k, m)
read_loop offset ptr (suc left) i k m =
    let skipped = read_loop offset ptr left (i + 1) k m in
    let (ch, k') = kb_get k in
    let stored = read_loop offset ptr left (i + 1) k' (write m (ptr + i) ch) in
    if ltb i offset then skipped else stored

pub record KeyboardRead : Type 0 where
  pub ret : ℕ
  pub keyboard : Keyboard
  pub mem : Mem

unfoldable pub keyboard_read_callback : Keyboard → Mem → (offset size ptr : ℕ) → KeyboardRead
keyboard_read_callback k m offset size ptr =
    let (k', m') = read_loop offset ptr (offset + size) 0 k m in
    record {
      ret = if k.signal == 0 then 0 else kb_signal_out;
      keyboard = record k' { signal = 0 };
      mem = m';
    }
