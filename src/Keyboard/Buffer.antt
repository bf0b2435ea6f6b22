-- ===== src/Keyboard/Buffer.antt =====
-- What is typed and what is read.
use cookies_os.Base.{
  ℕ, zero, suc, ◌+◌, ◌-◌, ◌/◌, ◌<◌, ◌≤◌, ◌≡◌, refl, arith, ap, sym, ◌∙◌, none, some, List, [], ◌∷◌,
  ◌++◌, length, write, write_at, write_off, bit_and, ◌==◌, false, bit_and_parts, bit_and-zero,
  bit_and_low_bits,
}
use cookies_os.Keyboard.{Keyboard, kbdus, kb_interrupt_handler, kb_get, kb_wait_get}

-- The keys `codes` go down one after the other.
abbrev pub press_all : List ℕ → Keyboard → Keyboard
press_all [] k = k
press_all (c ∷ cs) k = press_all cs (kb_interrupt_handler k c).0

-- The next `n` bytes read.
abbrev pub read_all : ℕ → Keyboard → List ℕ
read_all zero k = []
read_all (suc n) k = let (ch, k') = kb_get k in ch ∷ read_all n k'

-- The characters of the codes, the last one first.
abbrev pub backwards : List ℕ → List ℕ
backwards [] = []
backwards (c ∷ cs) = backwards cs ++ (kbdus c ∷ [])

-- Codes of keys that go down; a key that goes up has bit 7 set.
abbrev pub Presses : List ℕ → Type 0
Presses [] = Unit {0}
Presses (c ∷ cs) = (c < 0x80) × Presses cs

press_lem :
    (k : Keyboard) (c : ℕ)
    → c < 0x80
    → (kb_interrupt_handler k c).0 ≡ record {
      current_ch = kbdus c;
      buffer = write k.buffer k.handled_index (kbdus c);
      handled_index = k.handled_index + 1;
      signal = 1;
    }
unfolding kb_interrupt_handler
press_lem k c h =
    let clear : bit_and c 0x80 ≡ 0 =
      omega (
        arith,
        bit_and_parts 7 c 1 0 (omega arith),
        bit_and_low_bits 1 (c / 128),
        bit_and-zero c,
      ) in
    rw clear refl

-- The `n` bytes below index `h`, from the top down.
abbrev top : ℕ → ℕ → (ℕ → ℕ) → List ℕ
top zero h buffer = []
top (suc n) h buffer = buffer (h - 1) ∷ top n (h - 1) buffer

read_all_lem :
    (n : ℕ) (k : Keyboard) → n ≤ k.handled_index → read_all n k ≡ top n k.handled_index k.buffer
unfolding kb_get
read_all_lem zero k h = refl
read_all_lem (suc n) k h =
    let some_left : (k.handled_index == 0) ≡ false = ground arith in
    rw some_left (
      ap (λ (l : List ℕ). k.buffer (k.handled_index - 1) ∷ l)
        (read_all_lem n (record k { handled_index = k.handled_index - 1 }) (omega arith)))

top_last :
    (n h : ℕ) (buffer : ℕ → ℕ)
    → top (suc n) (h + 1 + n) buffer ≡ top n (h + 1 + n) buffer ++ (buffer h ∷ [])
top_last zero h buffer = ap (λ (i : ℕ). buffer i ∷ []) (omega arith)
top_last (suc n) h buffer =
    let e : h + 1 + suc n - 1 ≡ h + 1 + n = omega arith in
    rw e (ap (λ (l : List ℕ). buffer (h + 1 + n) ∷ l) (top_last n h buffer))

-- What the keys leave in the buffer.
record Typed (k : Keyboard) (cs : List ℕ) (k' : Keyboard) : Type 0 where
  index : k'.handled_index ≡ k.handled_index + length cs
  below : (i : ℕ) → i < k.handled_index → k'.buffer i ≡ k.buffer i
  stack : top (length cs) k'.handled_index k'.buffer ≡ backwards cs

press_all-Typed : (cs : List ℕ) (k : Keyboard) → Presses cs → Typed k cs (press_all cs k)
press_all-Typed [] k h = record { index = omega arith; below = λ i lt. refl; stack = refl }
press_all-Typed (c ∷ cs) k (down, rest) =
    let k1 = (kb_interrupt_handler k c).0 in
    let e = press_lem k c down in
    let t = press_all-Typed cs k1 rest in
    let end = (press_all cs k1).buffer in
    let index : k1.handled_index ≡ k.handled_index + 1 = ap (λ (x : Keyboard). x.handled_index) e in
    let at : (press_all cs k1).handled_index ≡ k.handled_index + 1 + length cs =
      omega (arith, t.index, index) in
    let cell : (i : ℕ) → k1.buffer i ≡ write k.buffer k.handled_index (kbdus c) i =
      λ i. ap (λ (x : Keyboard). x.buffer i) e in
    let here : end k.handled_index ≡ kbdus c =
      t.below k.handled_index (omega (arith, index))
      ∙ cell k.handled_index
      ∙ write_at k.buffer k.handled_index (kbdus c) k.handled_index refl in
    record {
      index = omega (arith, at);
      below = λ i lt.
          t.below i (omega (arith, index))
          ∙ cell i
          ∙ write_off k.buffer k.handled_index (kbdus c) i (omega arith);
      stack =
          ap (λ (n : ℕ). top (suc (length cs)) n end) at
          ∙ top_last (length cs) k.handled_index end
          ∙ ap (λ (n : ℕ). top (length cs) n end ++ (end k.handled_index ∷ [])) (sym at)
          ∙ ap (λ (l : List ℕ). l ++ (end k.handled_index ∷ [])) t.stack
          ∙ ap (λ (ch : ℕ). backwards cs ++ (ch ∷ [])) here;
    }

-- While the buffer has room, the keys typed are read last first.
pub read_all-press_all :
    (k : Keyboard) (cs : List ℕ)
    → Presses cs
    → k.handled_index + length cs ≤ 255
    → read_all (length cs) (press_all cs k) ≡ backwards cs
read_all-press_all k cs h room =
    let t = press_all-Typed cs k h in
    read_all_lem (length cs) (press_all cs k) (omega (arith, t.index)) ∙ t.stack

-- Of two keys typed before the first wait ends, kb_wait_get returns the second, and then waits for
-- another key although the first is still in the buffer.
pub kb_wait_get-loses :
    (k : Keyboard) (a b : ℕ)
    → a < 0x80
    → b < 0x80
    → k.handled_index + 2 ≤ 255
    → (k' : Keyboard) × (kb_wait_get (press_all (a ∷ b ∷ []) k) ≡ some (kbdus b, k'))
      × (kb_wait_get k' ≡ none)
      × ((kb_get k').0 ≡ kbdus a)
unfolding kb_wait_get kb_get
kb_wait_get-loses k a b ha hb room =
    let h = k.handled_index in
    let w1 = write k.buffer h (kbdus a) in
    let w2 = write w1 (h + 1) (kbdus b) in
    let first : Keyboard = record {
      current_ch = kbdus a;
      buffer = w1;
      handled_index = h + 1;
      signal = 1;
    } in
    let second : Keyboard = record {
      current_ch = kbdus b;
      buffer = w2;
      handled_index = h + 1 + 1;
      signal = 1;
    } in
    let left : Keyboard = record {
      current_ch = kbdus b;
      buffer = w2;
      handled_index = h + 1 + 1 - 1;
      signal = 0;
    } in
    let both : press_all (a ∷ b ∷ []) k ≡ second =
      ap (λ (x : Keyboard). (kb_interrupt_handler x b).0) (press_lem k a ha)
      ∙ press_lem first b hb in
    let two_left : (h + 1 + 1 == 0) ≡ false = ground arith in
    let one_left : (h + 1 + 1 - 1 == 0) ≡ false = ground arith in
    let last : w2 (h + 1 + 1 - 1) ≡ kbdus b =
      write_at w1 (h + 1) (kbdus b) (h + 1 + 1 - 1) (omega arith) in
    let other : w2 (h + 1 + 1 - 1 - 1) ≡ kbdus a =
      write_off w1 (h + 1) (kbdus b) (h + 1 + 1 - 1 - 1) (omega arith)
      ∙ write_at k.buffer h (kbdus a) (h + 1 + 1 - 1 - 1) (omega arith) in
    let got : kb_wait_get second ≡ some (kbdus b, left) =
      rw two_left (ap (λ (ch : ℕ). some (ch, left)) last) in
    (left, ap kb_wait_get both ∙ got, refl, rw one_left other)
