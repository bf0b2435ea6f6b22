-- ===== src/Programs/Help.antt =====
-- help_prog: what it prints of the table of programs.
use cookies_os.Base.{
  ℕ, zero, suc, ◌+◌, ◌<◌, ◌≡◌, refl, sym, ap, ◌∙◌, arith, some, List, [], ◌∷◌, ◌++◌, Mem, codes,
}
use cookies_os.Libc.Strings.{IsText}
use cookies_os.Terminal.{str, term_write}
use cookies_os.Terminal.Text.{term_write-append}
use cookies_os.Shell.{Programs}
use cookies_os.Machine.{Machine, bytes_at, read_text, print}
use cookies_os.Machine.Names.{bind_some, read_text-some, print-some}
use cookies_os.Programs.{help_loop, help_prog}

-- The names of `left` programs from number `i` on, one to a line; `len` gives their lengths.
unfoldable pub names_text : Mem → Programs → (ℕ → ℕ) → ℕ → ℕ → List ℕ
names_text m ps len zero i = []
names_text m ps len (suc left) i =
    (bytes_at m (ps.shell_prog_names i) (len i) ++ (b'\n' ∷ [])) ++ names_text m ps len left (i + 1)

module _ (fuel : ℕ) (ps : Programs) (len : ℕ → ℕ) where
  help_loop-names :
      (left i : ℕ) (x : Machine)
      → ((k : ℕ) → k < i + left → IsText x.mem (ps.shell_prog_names k) (len k))
      → ((k : ℕ) → k < i + left → len k < fuel)
      → help_loop fuel ps left i x
        ≡ some (tt, record x { term = term_write x.term (names_text x.mem ps len left i) })
  unfolding help_loop names_text term_write
  help_loop-names zero i x texts enough = refl
  help_loop-names (suc left) i x texts enough =
      let name = bytes_at x.mem (ps.shell_prog_names i) (len i) in
      let x1 = record x { term = term_write x.term (name ++ (b'\n' ∷ [])) } in
      bind_some (read_text fuel (ps.shell_prog_names i)) _ x x name (
        read_text-some fuel x (ps.shell_prog_names i) (len i) (texts i (omega arith))
          (enough i (omega arith)))
      ∙ bind_some (print (codes "%s\n") (str name ∷ [])) _ x x1 tt
          (print-some x (codes "%s\n") (str name ∷ []) (name ++ (b'\n' ∷ [])) refl)
      ∙ help_loop-names left (i + 1) x1 (λ k lt. texts k (omega arith))
          (λ k lt. enough k (omega arith))
      ∙ ap (λ t. some (tt, record x { term = t }))
          (sym (
            term_write-append x.term (name ++ (b'\n' ∷ [])) (names_text x.mem ps len left (i + 1))))

  -- With a text at each entry of the table, help_prog returns, prints the names of all programs in order,
  -- one to a line, and changes nothing but the screen.
  pub help_prog-names :
      (x : Machine)
      → ((k : ℕ) → k < ps.shell_prog_size → IsText x.mem (ps.shell_prog_names k) (len k))
      → ((k : ℕ) → k < ps.shell_prog_size → len k < fuel)
      → help_prog fuel ps x
        ≡ some (
          tt,
          record x { term = term_write x.term (names_text x.mem ps len ps.shell_prog_size 0) },
        )
  unfolding help_prog
  help_prog-names x texts enough =
      help_loop-names ps.shell_prog_size 0 x (λ k lt. texts k (omega (arith, lt)))
        (λ k lt. enough k (omega (arith, lt)))
