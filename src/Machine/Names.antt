-- ===== src/Machine/Names.antt =====
-- Steps that succeed: texts in memory read whole, and what is printed.
use cookies_os.Base.{
  ℕ, none, zero, suc, ◌+◌, ◌<◌, ◌≡◌, refl, ap, ◌∙◌, arith, ◌==◌, some, List, [], Mem, false, true,
}
use cookies_os.Libc.Strings.{IsText}
use cookies_os.Terminal.{Arg, term_write}
use cookies_os.Terminal.Printf.{formatted, term_vprintf-some}
use cookies_os.Kheap.{Kheap, malloc, free}
use cookies_os.Machine.{
  Machine, M, ◌>>=◌, text_at, bytes_at, read_text, print, kmalloc, kfree, complaints,
}

IsText-tail : (m : Mem) (p n : ℕ) → IsText m p (suc n) → IsText m (p + 1) n
IsText-tail m p n t = record {
  ends = ap m (omega arith) ∙ t.ends;
  inside = λ j lt e. t.inside (j + 1) (omega arith) (ap m (omega arith) ∙ e);
}

pub text_at-some :
    (fuel : ℕ) (m : Mem) (p n : ℕ)
    → IsText m p n
    → n < fuel
    → text_at fuel m p ≡ some (bytes_at m p n)
unfolding text_at
text_at-some zero m p n t h = absurd (omega arith)
text_at-some (suc fuel) m p zero t h =
    let nul : m p == 0 ≡ true = ground (arith, t.ends) in rw nul refl
text_at-some (suc fuel) m p (suc n) t h =
    let solid : m p == 0 ≡ false = ground (arith, t.inside 0 (omega arith)) in
    rw (solid, text_at-some fuel m (p + 1) n (IsText-tail m p n t) (omega arith)) refl

-- A step that is known to succeed, at the head of a chain.
pub bind_some :
    {A B : Type 0} (m : M A) (f : A → M B) (x x' : Machine) (a : A)
    → m x ≡ some (a, x')
    → (m >>= f) x ≡ f a x'
bind_some m f x x' a e = rw (e, ◌>>=◌) refl

pub bind_none :
    {A B : Type 0} (m : M A) (f : A → M B) (x : Machine) → m x ≡ none → (m >>= f) x ≡ none
bind_none m f x e = rw (e, ◌>>=◌) refl

pub read_text-some :
    (fuel : ℕ) (x : Machine) (p n : ℕ)
    → IsText x.mem p n
    → n < fuel
    → read_text fuel p x ≡ some (bytes_at x.mem p n, x)
unfolding read_text
read_text-some fuel x p n t h = rw (text_at-some fuel x.mem p n t h, read_text) refl

pub print-some :
    (x : Machine) (fmt : List ℕ) (args : List Arg) (s : List ℕ)
    → formatted fmt args ≡ some s
    → print fmt args x ≡ some (tt, record x { term = term_write x.term s })
unfolding print
print-some x fmt args s e = rw (term_vprintf-some x.term fmt args s e, print) refl

pub kmalloc-some :
    (fuel size p : ℕ) (x : Machine) (h : Kheap)
    → malloc fuel x.heap size ≡ some (p, h)
    → kmalloc fuel size x ≡ some (p, record x { heap = h })
unfolding kmalloc
kmalloc-some fuel size p x h e = rw (e, kmalloc) refl

-- A free without a complaint.
pub kfree-some :
    (fuel p : ℕ) (x : Machine) (h : Kheap)
    → free fuel x.heap p ≡ some ([], h)
    → kfree fuel p x ≡ some (tt, record x { heap = h })
unfolding kfree complaints
kfree-some fuel p x h e = rw (e, kfree) refl
