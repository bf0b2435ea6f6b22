-- ===== src/Terminal/Printf.antt =====
-- term_vprintf: what it prints is one text, written by term_write.
use cookies_os.Base.{
  ℕ, ◌≡◌, ap, refl, sym, ◌∙◌, Bool-cases, inl, inr, ◌==◌, if◌then◌else◌, Option, none, some, List,
  [], ◌∷◌, ◌++◌, u8,
}
use cookies_os.Terminal.{
  Term, term_putchar, term_write, term_puthex, hex_text, Arg, take_int, take_str, directive,
  term_vprintf,
}
use cookies_os.Terminal.Text.{term_write-append}

-- A format is a list of plain bytes and of directives.
pub data Piece : Type 0 where
  plain : ℕ → Piece
  hole : ℕ → Piece

abbrev cons : Piece → Option (List Piece) → Option (List Piece)
cons p none = none
cons p (some ps) = some (p ∷ ps)

-- `none` for a format that ends in `%`.
abbrev pub pieces : List ℕ → Option (List Piece)
pieces [] = some []
pieces (f ∷ []) = if f == b'%' then none else some (plain f ∷ [])
pieces (f ∷ (d ∷ fs)) =
    let next = cons (plain f) (pieces (d ∷ fs)) in
    let behind = cons (hole d) (pieces fs) in if f == b'%' then behind else next

abbrev with_text : (ℕ → List ℕ) → Option (ℕ × List Arg) → Option (List ℕ × List Arg)
with_text text none = none
with_text text (some (n, rest)) = some (text n, rest)

-- What a directive stands for, and the arguments it leaves.
abbrev pub filled : ℕ → List Arg → Option (List ℕ × List Arg)
filled d args =
    if d == b'c'
    then with_text (λ n. u8 n ∷ []) (take_int args)
    else if d == b's'
    then take_str args
    else if d == b'x'
    then with_text (λ n. hex_text n 8) (take_int args)
    else some ([], args)

abbrev prefixed : List ℕ → Option (List ℕ) → Option (List ℕ)
prefixed s none = none
prefixed s (some r) = some (s ++ r)

-- The text of a format.
abbrev pub rendered : List Piece → List Arg → Option (List ℕ)
rendered [] args = some []
rendered (plain c ∷ ps) args = prefixed (c ∷ []) (rendered ps args)
rendered (hole d ∷ ps) args = elim (filled d args) [
  | none ↦ none
  | some (s, rest) ↦ prefixed s (rendered ps rest)
]

abbrev text_of : Option (List Piece) → List Arg → Option (List ℕ)
text_of none args = none
text_of (some ps) args = rendered ps args

abbrev pub formatted : List ℕ → List Arg → Option (List ℕ)
formatted fmt args = text_of (pieces fmt) args

pub written : Term → Option (List ℕ) → Option Term
written t none = none
written t (some s) = some (term_write t s)

written-prefixed :
    (t : Term) (s : List ℕ) (r : Option (List ℕ))
    → written t (prefixed s r) ≡ written (term_write t s) r
unfolding written
written-prefixed t s none = refl
written-prefixed t s (some r) = ap some (term_write-append t s r)

directed : Term → Option (List ℕ × List Arg) → Option (Term × List Arg)
directed t none = none
directed t (some (s, rest)) = some (term_write t s, rest)

directed-int :
    (t : Term) (print : ℕ → Term) (text : ℕ → List ℕ) (o : Option (ℕ × List Arg))
    → ((n : ℕ) → print n ≡ term_write t (text n))
    → elim o as (λ x. Option (Term × List Arg)) [
      | none ↦ none
      | some (n, rest) ↦ some (print n, rest)
    ]
      ≡ directed t (with_text text o)
unfolding directed
directed-int t print text none e = refl
directed-int t print text (some (n, rest)) e = ap (λ (t' : Term). some (t', rest)) (e n)

directed-str :
    (t : Term) (o : Option (List ℕ × List Arg))
    → elim o as (λ x. Option (Term × List Arg)) [
      | none ↦ none
      | some (s, rest) ↦ some (term_write t s, rest)
    ]
      ≡ directed t o
unfolding directed
directed-str t none = refl
directed-str t (some (s, rest)) = refl

directive_lem :
    (t : Term) (d : ℕ) (args : List Arg) → directive t d args ≡ directed t (filled d args)
unfolding directive term_write term_puthex directed
directive_lem t d args = elim (Bool-cases (d == b'c')) [
  | inl c ↦
      rw c
        (directed-int t (λ n. term_putchar t (u8 n)) (λ n. u8 n ∷ []) (take_int args) (λ n. refl))
  | inr c ↦ elim (Bool-cases (d == b's')) [
    | inl s ↦ rw (c, s) (directed-str t (take_str args))
    | inr s ↦ elim (Bool-cases (d == b'x')) [
      | inl x ↦
          rw (c, s, x)
            (directed-int t (term_puthex t) (λ n. hex_text n 8) (take_int args) (λ n. refl))
      | inr x ↦ rw (c, s, x) refl
    ]
  ]
]

-- The two sides of term_vprintf-formatted once the format is in pieces.
pieced : Term → Option (List Piece) → List Arg → Option Term
pieced t none args = none
pieced t (some ps) args = written t (rendered ps args)

pieced-text_of :
    (t : Term) (o : Option (List Piece)) (args : List Arg)
    → pieced t o args ≡ written t (text_of o args)
unfolding pieced written
pieced-text_of t none args = refl
pieced-text_of t (some ps) args = refl

pieced-plain :
    (t : Term) (c : ℕ) (o : Option (List Piece)) (args : List Arg)
    → pieced t (cons (plain c) o) args ≡ pieced (term_putchar t c) o args
unfolding pieced term_write
pieced-plain t c none args = refl
pieced-plain t c (some ps) args = written-prefixed t (c ∷ []) (rendered ps args)

hole-none :
    (t : Term) (k : Option (List ℕ × List Arg))
    → none ≡ elim (directed t k) as (λ x. Option Term) [ none ↦ none | some (t', rest) ↦ none ]
unfolding directed
hole-none t none = refl
hole-none t (some (s, rest)) = refl

hole-some :
    (t : Term) (ps : List Piece) (k : Option (List ℕ × List Arg))
    → written t (elim k as (λ x. Option (List ℕ)) [
      | none ↦ none
      | some (s, rest) ↦ prefixed s (rendered ps rest)
    ])
      ≡ elim (directed t k) as (λ x. Option Term) [
        | none ↦ none
        | some (t', rest) ↦ written t' (rendered ps rest)
      ]
unfolding directed written
hole-some t ps none = refl
hole-some t ps (some (s, rest)) = written-prefixed t s (rendered ps rest)

pieced-hole :
    (t : Term) (d : ℕ) (o : Option (List Piece)) (args : List Arg)
    → pieced t (cons (hole d) o) args ≡ elim (directed t (filled d args)) as (λ x. Option Term) [
      | none ↦ none
      | some (t', rest) ↦ pieced t' o rest
    ]
unfolding pieced
pieced-hole t d none args = hole-none t (filled d args)
pieced-hole t d (some ps) args = hole-some t ps (filled d args)

each :
    (t : Term) (fs : List ℕ)
    → ((t' : Term) (rest : List Arg) → term_vprintf t' fs rest ≡ pieced t' (pieces fs) rest)
    → (k : Option (Term × List Arg))
    → elim k as (λ x. Option Term) [ none ↦ none | some (t', rest) ↦ term_vprintf t' fs rest ]
      ≡ elim k as (λ x. Option Term) [ none ↦ none | some (t', rest) ↦ pieced t' (pieces fs) rest ]
each t fs h none = refl
each t fs h (some (t', rest)) = h t' rest

in_pieces :
    (t : Term) (fmt : List ℕ) (args : List Arg)
    → term_vprintf t fmt args ≡ pieced t (pieces fmt) args
unfolding term_vprintf pieced written term_write
in_pieces t [] args = refl
in_pieces t (f ∷ []) args = elim (Bool-cases (f == b'%')) [ inl e ↦ rw e refl | inr e ↦ rw e refl ]
in_pieces t (f ∷ (d ∷ fs)) args = elim (Bool-cases (f == b'%')) [
  | inl e ↦ rw e (
      each t fs (λ t' rest. in_pieces t' fs rest) (directive t d args)
      ∙ ap
          (λ (k : Option (Term × List Arg)). elim k as (λ x. Option Term) [
            | none ↦ none
            | some (t', rest) ↦ pieced t' (pieces fs) rest
          ])
          (directive_lem t d args)
      ∙ sym (pieced-hole t d (pieces fs) args))
  | inr e ↦
      rw e
        (in_pieces (term_putchar t f) (d ∷ fs) args ∙ sym (pieced-plain t f (pieces (d ∷ fs)) args))
]

-- term_vprintf prints what its format stands for: as if by one term_write of the text in which
-- each `%c`, `%s` and `%x` is replaced by the next argument's text and any other `%` pair by nothing.
pub term_vprintf-formatted :
    (t : Term) (fmt : List ℕ) (args : List Arg)
    → term_vprintf t fmt args ≡ written t (formatted fmt args)
term_vprintf-formatted t fmt args = in_pieces t fmt args ∙ pieced-text_of t (pieces fmt) args

pub term_vprintf-some :
    (t : Term) (fmt : List ℕ) (args : List Arg) (s : List ℕ)
    → formatted fmt args ≡ some s
    → term_vprintf t fmt args ≡ some (term_write t s)
unfolding written
term_vprintf-some t fmt args s e = term_vprintf-formatted t fmt args ∙ ap (written t) e
