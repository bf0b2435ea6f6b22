-- ===== src/Tests/Shell.antt =====
-- src/kernel/kernel.c: the shell.
use cookies_os.Base.{
  ℕ, zero, suc, ◌<◌, ◌≡◌, refl, arith, ◌==◌, if◌then◌else◌, Option, some, List, [], ◌∷◌, Mem,
}
use cookies_os.Libc.{memcmp}
use cookies_os.Libc.Strings.{IsText}
use cookies_os.Terminal.{Term, term_clean}
use cookies_os.Shell.{
  Shell, Programs, Callback, help_prog, cls_prog, no_programs, mini_shell_add_entry, shell_step,
  shell_loop, command_loop,
}
use cookies_os.Shell.Line.{IsLine, Edited, edited_all, echoed_all, shell_loop-Edited}
use cookies_os.Shell.Command.{Chosen, Answered, shell_step-Answered}

-- "help" stands at 100, "cls" at 110, the line at 500.
abbrev pub names : Mem
names a =
    if a == 100
    then b'h'
    else if a == 101
    then b'e'
    else if a == 102
    then b'l'
    else if a == 103
    then b'p'
    else if a == 110
    then b'c'
    else if a == 111
    then b'l'
    else if a == 112
    then b's'
    else if a == 500
    then b'c'
    else if a == 501
    then b'l'
    else 0

abbrev pub size : ℕ → ℕ
size i = if i == 0 then 4 else 3

abbrev pub two : Programs
two = mini_shell_add_entry (mini_shell_add_entry no_programs help_prog 100) cls_prog 110

abbrev cleared : Callback
cleared p (t, m) = (term_clean t, m)

abbrev screen : Term
screen = record { row = 3; column = 3; color = 7; buffer = λ i. 0; port = [] }

abbrev waiting : Shell
waiting = record { term = screen; mem = names; input_index = 0 }

abbrev typed : Shell
typed = record { term = screen; mem = names; input_index = 2 }

empty-IsLine : IsLine 500 [] waiting
empty-IsLine = record { index = refl; short = omega arith; bytes = tt }

abbrev keys : List ℕ
keys = b'h' ∷ b'x' ∷ 8 ∷ b'e' ∷ []

edited_runs : edited_all [] keys ≡ b'e' ∷ b'h' ∷ []
edited_runs = refl

shell_loop-Edited_example :
    Edited 500
      (edited_all [] keys)
      (echoed_all [] keys)
      waiting
      (shell_loop cleared two 500 waiting keys)
shell_loop-Edited_example = shell_loop-Edited cleared two 500 [] waiting keys empty-IsLine (
  ground arith,
  omega arith,
  (ground arith, omega arith, (ground arith, omega arith, (ground arith, omega arith, tt))),
)

found_runs : command_loop names two 500 2 2 0 ≡ some 1
unfolding command_loop mini_shell_add_entry memcmp
found_runs = refl

pub two_texts : (i : ℕ) → i < two.shell_prog_size → IsText names (two.shell_prog_names i) (size i)
unfolding mini_shell_add_entry
two_texts zero lt = record { ends = refl; inside = λ j below. ground arith }
two_texts (suc zero) lt = record { ends = refl; inside = λ j below. ground arith }
two_texts (suc (suc i)) lt = absurd (omega arith)

shell_step-Answered_example :
    (r : Option ℕ) × Chosen names two size 500 2 0 r
    × Answered cleared two typed r (shell_step cleared two 500 typed b'\n')
    × IsLine 500 [] (shell_step cleared two 500 typed b'\n')
unfolding mini_shell_add_entry
shell_step-Answered_example =
    shell_step-Answered cleared two size 500 (b'l' ∷ b'c' ∷ []) typed two_texts
      (λ j lt. ground arith) (record { row = omega arith; column = omega arith })
      (record { index = refl; short = omega arith; bytes = (refl, (refl, tt)) })
