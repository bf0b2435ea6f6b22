-- ===== src/Elf/Probe.antt =====
-- What elf_stat accepts, and what it does with the rest.
use cookies_os.Base.{
  ℕ, ◌+◌, ◌≤◌, ◌<◌, ◌≡◌, ◌≢◌, ◌∙◌, ◌⊎◌, inl, inr, refl, arith, Bool-cases, true, false, ◌==◌, ltb,
  ◌||◌, not, none, some, List, [], ◌∷◌, Mem, ℤ, pos, codes, ◌↔◌,
}
use cookies_os.Terminal.{term_write}
use cookies_os.Terminal.Printf.{formatted}
use cookies_os.Machine.{Machine, M, ◌>>◌, ret, print}
use cookies_os.Machine.Names.{bind_some, print-some}
use cookies_os.Frame.{frame_alloc_ex, frame_free_ex}
use cookies_os.Frame
use cookies_os.Elf.{
  elf_header_at, elf_probe, probe_loop, target_sig, elf_load, elf_stat, frames_for_program,
}
use cookies_os.Elf.Load.{Ran, with_frames, elf_load-Ran, elf_load_stops}

-- The four bytes of the signature.
abbrev pub Signed : Mem → ℕ → Type 0
Signed m p = (m p ≡ 0x7f) × (m (p + 1) ≡ 0x45) × (m (p + 1 + 1) ≡ 0x4c) × (m (p + 1 + 1 + 1) ≡ 0x46)

pub elf_probe-Signed : (m : Mem) (p : ℕ) → elf_probe m p ≡ 1 ↔ Signed m p
unfolding elf_probe probe_loop
elf_probe-Signed m p = (λ e. ground arith, λ s. ground arith)

probe_loop_bit : (m : Mem) (p : ℕ) (cs : List ℕ) → probe_loop m p cs ≤ 1
unfolding probe_loop
probe_loop_bit m p [] = omega arith
probe_loop_bit m p (c ∷ cs) = ground (arith, probe_loop_bit m (p + 1) cs)

elf_probe_bit : (m : Mem) (p : ℕ) → elf_probe m p ≤ 1
unfolding elf_probe
elf_probe_bit m p = probe_loop_bit m p target_sig

refusal :
    (x : Machine) (s : List ℕ)
    → formatted s [] ≡ some s
    → (do print s []; ret (pos 0)) x ≡ some (pos 0, record x { term = term_write x.term s })
refusal x s e =
    bind_some (print s []) _ x (record x { term = term_write x.term s }) tt (print-some x s [] s e)

-- What is run: the signature, four bytes at least, and the type of an executable.
pub record Accepted (m : Mem) (buffer size : ℕ) : Type 0 where
  pub signed : Signed m buffer
  pub long : 4 ≤ size
  pub executable : (elf_header_at m buffer).e_type ≡ 2

-- What elf_stat does with each kind of input.
pub record Stated (rounds : ℕ) (run_code : ℕ → M ℤ) (buffer size : ℕ) (x : Machine) : Type 0 where
  pub no_elf :
      (Signed x.mem buffer → ⊥) ⊎ (size < 4)
      → elf_stat rounds run_code buffer size x
        ≡ some (pos 0, record x { term = term_write x.term (codes "Not a elf format") })
  pub no_executable :
      Signed x.mem buffer
      → 4 ≤ size
      → (elf_header_at x.mem buffer).e_type ≢ 2
      → elf_stat rounds run_code buffer size x
        ≡ some (pos 0, record x { term = term_write x.term (codes "Not a executable!\n") })
  pub stopped :
      Accepted x.mem buffer size
      → frame_alloc_ex x.paging.frames frames_for_program ≡ Frame.panicked
      → elf_stat rounds run_code buffer size x ≡ none
  pub ran :
      Accepted x.mem buffer size
      → (n at : ℕ) (r : ℤ) (z : Machine) → n < rounds
      → Ran run_code buffer n x at r z
      → elf_stat rounds run_code buffer size x
        ≡ some (r, with_frames z (frame_free_ex z.paging.frames at frames_for_program))

refused_elf :
    (m : Mem) (buffer size : ℕ)
    → (Signed m buffer → ⊥) ⊎ (size < 4)
    → ((elf_probe m buffer == 0) || ltb size 4) ≡ true
refused_elf m buffer size (inl unsigned) = elim (Bool-cases (elf_probe m buffer == 0)) [
  | inl unprobed ↦ rw unprobed refl
  | inr probed ↦
      absurd (unsigned ((elf_probe-Signed m buffer).0 (ground (arith, elf_probe_bit m buffer))))
]
refused_elf m buffer size (inr short) = ground arith

passed_elf :
    (m : Mem) (buffer size : ℕ)
    → Signed m buffer
    → 4 ≤ size
    → ((elf_probe m buffer == 0) || ltb size 4) ≡ false
passed_elf m buffer size signed long = ground (arith, (elf_probe-Signed m buffer).1 signed)

Accepted-elf_load :
    (rounds : ℕ) (run_code : ℕ → M ℤ) (buffer size : ℕ) (x : Machine)
    → Accepted x.mem buffer size
    → elf_stat rounds run_code buffer size x ≡ elf_load rounds run_code buffer x
unfolding elf_stat
Accepted-elf_load rounds run_code buffer size x a =
    let two : not ((elf_header_at x.mem buffer).e_type == 2) ≡ false =
      ground (arith, a.executable) in
    rw (passed_elf x.mem buffer size a.signed a.long) (rw two refl)

pub elf_stat-Stated :
    (rounds : ℕ) (run_code : ℕ → M ℤ) (buffer size : ℕ) (x : Machine)
    → Stated rounds run_code buffer size x
unfolding elf_stat
elf_stat-Stated rounds run_code buffer size x = record {
  no_elf =
      λ bad. rw (refused_elf x.mem buffer size bad) (refusal x (codes "Not a elf format") refl);
  no_executable = λ signed long type.
      let other : not ((elf_header_at x.mem buffer).e_type == 2) ≡ true = ground arith in
      rw (passed_elf x.mem buffer size signed long)
        (rw other (refusal x (codes "Not a executable!\n") refl));
  stopped = λ a full.
      Accepted-elf_load rounds run_code buffer size x a
      ∙ elf_load_stops rounds run_code buffer x full;
  ran = λ a n at r z lt run.
      Accepted-elf_load rounds run_code buffer size x a
      ∙ elf_load-Ran rounds run_code buffer n x at r z lt run;
}
