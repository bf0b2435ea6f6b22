-- ===== src/Shell/Line.antt =====
-- The line editor against the line that the keys stand for.
use cookies_os.Base.{
  ℕ, zero, suc, ◌+◌, ◌-◌, ◌≤◌, ◌<◌, ◌≡◌, ◌≢◌, ◌⊎◌, inl, inr, refl, sym, ap, ◌∙◌, arith, subst,
  Bool-cases, true, false, ◌==◌, if◌then◌else◌, List, [], ◌∷◌, ◌++◌, length, Mem, write,
}
use mathlib.Core.Path.{ap₂}
use mathlib.Core.List.{reverse, reverse-append}
use cookies_os.Terminal.{Term, term_putchar, term_write}
use cookies_os.Terminal.Text.{term_write-append}
use cookies_os.Shell.{
  Shell, Programs, Callback, backspace_key, mini_shell_prefix, echo_loop, backspace, type_char,
  shell_step, shell_loop,
}

-- A line is kept with its last byte first.
abbrev pub without_last : List ℕ → List ℕ
without_last [] = []
without_last (c ∷ line) = line

abbrev pub edited : List ℕ → ℕ → List ℕ
edited line ch = if ch == backspace_key then without_last line else ch ∷ line

abbrev pub edited_all : List ℕ → List ℕ → List ℕ
edited_all line [] = line
edited_all line (ch ∷ chs) = edited_all (edited line ch) chs

-- What the editor prints: a byte, or on a new row the prompt and what is left of the line.
abbrev redrawn : List ℕ → List ℕ
redrawn [] = []
redrawn (c ∷ line) = b'\n' ∷ (mini_shell_prefix ++ reverse line)

abbrev pub echoed : List ℕ → ℕ → List ℕ
echoed line ch = if ch == backspace_key then redrawn line else ch ∷ []

abbrev pub echoed_all : List ℕ → List ℕ → List ℕ
echoed_all line [] = []
echoed_all line (ch ∷ chs) = echoed line ch ++ echoed_all (edited line ch) chs

-- No key is a newline, and the line never has more than 255 bytes.
abbrev pub Fits : List ℕ → List ℕ → Type 0
Fits line [] = Unit
Fits line (ch ∷ chs) = (ch ≢ b'\n') × (length (edited line ch) < 256) × Fits (edited line ch) chs

abbrev pub Holds : Mem → ℕ → List ℕ → Type 0
Holds m b [] = Unit
Holds m b (c ∷ line) = (m (b + length line) ≡ c) × Holds m b line

pub record IsLine (b : ℕ) (line : List ℕ) (s : Shell) : Type 0 where
  pub index : s.input_index ≡ length line
  pub short : length line < 256
  pub bytes : Holds s.mem b line

pub record Edited (b : ℕ) (line text : List ℕ) (s s' : Shell) : Type 0 where
  pub is_line : IsLine b line s'
  pub printed : s'.term ≡ term_write s.term text
  pub outside : (a : ℕ) → (a < b) ⊎ (b + 255 ≤ a) → s'.mem a ≡ s.mem a

echo_loop-last :
    (m : Mem) (b n i : ℕ) (t : Term)
    → echo_loop m b (suc n) i t ≡ term_putchar (echo_loop m b n i t) (m (b + (i + n)))
unfolding echo_loop
echo_loop-last m b zero i t = ap (λ k. term_putchar t (m (b + k))) (omega arith)
echo_loop-last m b (suc n) i t =
    echo_loop-last m b n (i + 1) (term_putchar t (m (b + i)))
    ∙ ap (λ k. term_putchar (echo_loop m b n (i + 1) (term_putchar t (m (b + i)))) (m (b + k)))
        (omega arith)

echo_loop_lem :
    (m : Mem) (b : ℕ) (line : List ℕ) (t : Term)
    → Holds m b line
    → echo_loop m b (length line) 0 t ≡ term_write t (reverse line)
unfolding echo_loop term_write
echo_loop_lem m b [] t h = refl
echo_loop_lem m b (c ∷ line) t h =
    echo_loop-last m b (length line) 0 t
    ∙ ap₂ term_putchar (echo_loop_lem m b line t h.1) (ap m (omega arith) ∙ h.0)
    ∙ sym (term_write-append t (reverse line) (c ∷ []))
    ∙ ap (term_write t) (sym (reverse-append (c ∷ []) line))

Holds-write :
    (m : Mem) (b k v : ℕ) (line : List ℕ)
    → length line ≤ k
    → Holds m b line
    → Holds (write m (b + k) v) b line
unfolding write
Holds-write m b k v [] le h = tt
Holds-write m b k v (c ∷ line) le h =
    (ground (arith, h.0), Holds-write m b k v line (omega arith) h.1)

module _ (callback : Callback) (ps : Programs) (b : ℕ) where
  backspace-Edited :
      (line : List ℕ) (s : Shell)
      → IsLine b line s
      → Edited b (without_last line) (redrawn line) s (backspace b s)
  unfolding backspace term_write
  backspace-Edited [] s l =
      let empty : s.input_index == 0 ≡ true = ground (arith, l.index) in
      rw empty (record { is_line = l; printed = refl; outside = λ a far. refl })
  backspace-Edited (c ∷ line) s l =
      let some_bytes : s.input_index == 0 ≡ false = ground (arith, l.index) in
      let less : s.input_index - 1 ≡ length line = omega (arith, l.index) in
      let prompt = term_write (term_putchar s.term b'\n') mini_shell_prefix in
      rw some_bytes (record {
        is_line = record { index = less; short = omega (arith, l.short); bytes = l.bytes.1 };
        printed = rw less (echo_loop_lem s.mem b line prompt l.bytes.1);
        outside = λ a far. refl;
      })

  type_char-Edited :
      (line : List ℕ) (s : Shell) (ch : ℕ)
      → IsLine b line s
      → length (ch ∷ line) < 256
      → Edited b (ch ∷ line) (ch ∷ []) s (type_char b s ch)
  unfolding type_char term_write
  type_char-Edited line s ch l short = record {
    is_line = record {
      index = omega (arith, l.index);
      short = short;
      bytes = (
        ground (arith, l.index),
        subst (λ k. Holds (write s.mem (b + k) ch) b line) (sym l.index)
            (Holds-write s.mem b (length line) ch line (omega arith) l.bytes),
      );
    };
    printed = refl;
    outside = λ a far. ground (arith, l.index);
  }

  shell_step-Edited :
      (line : List ℕ) (s : Shell) (ch : ℕ)
      → IsLine b line s
      → ch ≢ b'\n'
      → length (edited line ch) < 256
      → Edited b (edited line ch) (echoed line ch) s (shell_step callback ps b s ch)
  unfolding shell_step
  shell_step-Edited line s ch l plain short = elim (Bool-cases (ch == backspace_key)) [
    | inl e ↦ rw e (backspace-Edited line s l)
    | inr ne ↦
        let feed : ch == b'\n' ≡ false = ground arith in
        rw (ne, feed) (type_char-Edited line s ch l (rw ne at short))
  ]

  -- For keys without a newline, on a line that never has more than 255 bytes, the editor holds the line
  -- that is left when each backspace takes back the last byte before it; it has printed each byte,
  -- and for each backspace on a line that is not empty a new row with the prompt and what is left.
  -- No memory outside the 255 bytes of the array changes.
  pub shell_loop-Edited :
      (line : List ℕ) (s : Shell) (chs : List ℕ)
      → IsLine b line s
      → Fits line chs
      → Edited b (edited_all line chs) (echoed_all line chs) s (shell_loop callback ps b s chs)
  unfolding shell_loop term_write
  shell_loop-Edited line s [] l fits = record {
    is_line = l;
    printed = refl;
    outside = λ a far. refl;
  }
  shell_loop-Edited line s (ch ∷ chs) l fits =
      let first = shell_step-Edited line s ch l fits.0 fits.1 in
      let rest =
        shell_loop-Edited (edited line ch) (shell_step callback ps b s ch) chs first.is_line
          fits.2 in
      record {
        is_line = rest.is_line;
        printed =
            rest.printed
            ∙ ap (λ t. term_write t (echoed_all (edited line ch) chs)) first.printed
            ∙ sym (term_write-append s.term (echoed line ch) (echoed_all (edited line ch) chs));
        outside = λ a far. rest.outside a far ∙ first.outside a far;
      }
