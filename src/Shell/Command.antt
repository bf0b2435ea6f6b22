-- ===== src/Shell/Command.antt =====
-- The newline key: the command that is looked up, and what is left for the next line.
use cookies_os.Base.{
  ℕ, zero, suc, ◌+◌, ◌≤◌, ◌<◌, ◌≡◌, ◌≢◌, ◌↔◌, inl, inr, refl, subst, ap, ◌∙◌, arith, le_or_lt,
  Option, none, some, List, [], ◌∷◌, ◌++◌, length, Mem, ℤ, pos, negsuc, codes,
}
use mathlib.Core.List.{append_assoc}
use cookies_os.Libc.{memcmp}
use cookies_os.Libc.Compare.{Agree, memcmp-zero_iff}
use cookies_os.Libc.Strings.{IsText}
use cookies_os.Terminal.{term_putchar, term_write, term_setcolor, vga_color_light_grey}
use cookies_os.Terminal.Screen.{IsOnScreen}
use cookies_os.Terminal.Text.{put-Written, term_write-Written}
use cookies_os.Shell.{
  Shell, Programs, Callback, vga_color_light_red, mini_shell_prefix, command_loop, parse_found,
  parse_input, parse_quit, shell_step,
}
use cookies_os.Shell.Line.{IsLine}

-- The `n` bytes of the line begin the name of entry `i`, of `len i` bytes.
abbrev pub Begins : Mem → Programs → (ℕ → ℕ) → ℕ → ℕ → ℕ → Type 0
Begins m ps len b n i = (n ≤ len i) × Agree m b (ps.shell_prog_names i) 0 n

-- The first entry from `lo` whose name begins with the line.
abbrev pub Chosen : Mem → Programs → (ℕ → ℕ) → ℕ → ℕ → ℕ → Option ℕ → Type 0
Chosen m ps len b n lo none = (j : ℕ) → lo ≤ j → j < ps.shell_prog_size → Begins m ps len b n j → ⊥
Chosen m ps len b n lo (some i) =
    (lo ≤ i)
    × (i < ps.shell_prog_size)
    × Begins m ps len b n i
    × ((j : ℕ) → lo ≤ j → j < i → Begins m ps len b n j → ⊥)

module _ (m : Mem) (ps : Programs) (len : ℕ → ℕ) (b n : ℕ)
    (texts : (i : ℕ) → i < ps.shell_prog_size → IsText m (ps.shell_prog_names i) (len i))
    (solid : (j : ℕ) → j < n → m (b + j) ≢ 0) where
  -- The terminator of a shorter name differs from the line.
  Begins-Agree :
      (i : ℕ)
      → i < ps.shell_prog_size
      → Agree m b (ps.shell_prog_names i) 0 n
      → Begins m ps len b n i
  Begins-Agree i within same = elim (le_or_lt n (len i)) [
    | inl le ↦ (le, same)
    | inr lt ↦ absurd (solid (len i) lt (same (len i) (omega arith) lt ∙ (texts i within).ends))
  ]

  Chosen-down :
      (i : ℕ) (r : Option ℕ)
      → (Begins m ps len b n i → ⊥)
      → Chosen m ps len b n (i + 1) r
      → Chosen m ps len b n i r
  Chosen-down i none no_match h = λ j low high begins. elim (le_or_lt j i) [
    | inl le ↦ let same : j ≡ i = omega arith in no_match (subst (Begins m ps len b n) same begins)
    | inr lt ↦ h j (omega arith) high begins
  ]
  Chosen-down i (some k) no_match (low, high, found, before) = (
    omega arith,
    high,
    found,
    λ j from below begins. elim (le_or_lt j i) [
      | inl le ↦
          let same : j ≡ i = omega arith in no_match (subst (Begins m ps len b n) same begins)
      | inr lt ↦ before j (omega arith) below begins
    ],
  )

  step-Chosen :
      (i : ℕ) (c : ℤ) (rest : Option ℕ)
      → i < ps.shell_prog_size
      → ((c ≡ pos 0) ↔ Agree m b (ps.shell_prog_names i) 0 n)
      → Chosen m ps len b n (i + 1) rest
      → Chosen m ps len b n i (elim c as (λ x. Option ℕ) [ pos zero ↦ some i | _ ↦ rest ])
  step-Chosen i (pos zero) rest within zero_iff h = (
    omega arith,
    within,
    Begins-Agree i within (zero_iff.0 refl),
    λ j low high. absurd (omega arith),
  )
  step-Chosen i (pos (suc k)) rest within zero_iff h =
      Chosen-down i rest (λ begins. cc (zero_iff.1 begins.1)) h
  step-Chosen i (negsuc k) rest within zero_iff h =
      Chosen-down i rest (λ begins. cc (zero_iff.1 begins.1)) h

  command_loop-Chosen :
      (left i : ℕ)
      → i + left ≡ ps.shell_prog_size
      → Chosen m ps len b n i (command_loop m ps b n left i)
  unfolding command_loop
  command_loop-Chosen zero i e = λ j low high begins. omega arith
  command_loop-Chosen (suc left) i e =
      step-Chosen i (memcmp m b (ps.shell_prog_names i) n) (command_loop m ps b n left (i + 1))
        (omega arith) (memcmp-zero_iff m b (ps.shell_prog_names i) n)
        (command_loop-Chosen left (i + 1) (omega arith))

-- What the newline leaves: the program's effect, or the error message, and the prompt on a new row.
abbrev pub Answered : Callback → Programs → Shell → Option ℕ → Shell → Type 0
Answered callback ps s none s' =
    (s'.mem ≡ s.mem)
    × (s'.term.port ≡ s.term.port ++ codes "\nInput error!\n>> ")
    × (s'.term.color ≡ vga_color_light_grey)
Answered callback ps s (some i) s' =
    let ran = callback (ps.shell_prog_ptr i) (term_putchar s.term b'\n', s.mem) in
    (s'.mem ≡ ran.1) × (s'.term ≡ term_write ran.0 (codes "\n>> "))

answer :
    (callback : Callback) (ps : Programs) (s : Shell) (r : Option ℕ)
    → IsOnScreen s.term
    → Answered callback ps s r
        (parse_quit (parse_found callback ps (record s { term = term_putchar s.term b'\n' }) r))
unfolding parse_found parse_quit term_setcolor term_write
answer callback ps s (some i) on = (refl, refl)
answer callback ps s none on =
    let message : List ℕ = codes "Input error!" in
    let fed = put-Written s.term b'\n' on in
    let red = term_setcolor (term_putchar s.term b'\n') vga_color_light_red in
    let said =
      term_write-Written red message (record { row = fed.on.row; column = fed.on.column }) in
    let grey = term_setcolor (term_write red message) vga_color_light_grey in
    let next = put-Written grey b'\n' (record { row = said.on.row; column = said.on.column }) in
    let prompt = term_write-Written (term_putchar grey b'\n') mini_shell_prefix next.on in
    (
      refl,
      prompt.port
          ∙ ap (λ l. l ++ mini_shell_prefix)
              (next.port
                ∙ ap (λ l. l ++ (b'\n' ∷ [])) (said.port ∙ ap (λ l. l ++ message) fed.port))
          ∙ simp append_assoc,
      prompt.color ∙ next.color,
    )

fresh :
    (callback : Callback) (ps : Programs) (b : ℕ) (s : Shell) (r : Option ℕ)
    → IsLine b [] (parse_quit (parse_found callback ps s r))
unfolding parse_quit
fresh callback ps b s r = record { index = refl; short = omega arith; bytes = tt }

-- On a line without zero bytes the newline runs the first program whose name begins with the line,
-- and no other; where there is none it prints the error and ends in light grey with the memory as it
-- was. The next line starts empty behind a new prompt.
pub shell_step-Answered :
    (callback : Callback) (ps : Programs) (len : ℕ → ℕ) (b : ℕ) (line : List ℕ) (s : Shell)
    → ((i : ℕ) → i < ps.shell_prog_size → IsText s.mem (ps.shell_prog_names i) (len i))
    → ((j : ℕ) → j < length line → s.mem (b + j) ≢ 0)
    → IsOnScreen s.term
    → IsLine b line s
    → (r : Option ℕ) × Chosen s.mem ps len b (length line) 0 r
      × Answered callback ps s r (shell_step callback ps b s b'\n')
      × IsLine b [] (shell_step callback ps b s b'\n')
unfolding shell_step parse_input
shell_step-Answered callback ps len b line s texts solid on l =
    let n = length line in
    let r = command_loop s.mem ps b n ps.shell_prog_size 0 in
    let fed = record s { term = term_putchar s.term b'\n' } in
    let same : shell_step callback ps b s b'\n' ≡ parse_quit (parse_found callback ps fed r) =
      ap
        (λ k.
          parse_quit (parse_found callback ps fed (command_loop s.mem ps b k ps.shell_prog_size 0)))
        l.index in
    (
      r,
      command_loop-Chosen s.mem ps len b n texts solid ps.shell_prog_size 0 (omega arith),
      rw same (answer callback ps s r on),
      rw same (fresh callback ps b fed r),
    )
