-- ===== src/Fat/Tokens.antt =====
-- strtok: the part of the text that it copies.
use cookies_os.Base.{
  ℕ, zero, suc, ◌+◌, ◌-◌, ◌^◌, ◌≤◌, ◌<◌, ◌≡◌, ◌≢◌, ◌⊎◌, inl, inr, refl, sym, ◌∙◌, arith, Bool-cases,
  le_or_lt, Bool, true, false, ltb, leb, ◌&&◌, ◌==◌, if◌then◌else◌, Mem, write, u32, some,
}
use cookies_os.Libc.{strlen}
use cookies_os.Libc.Strings.{IsText, strlen_iff}
use cookies_os.Kheap.{Kheap, malloc}
use cookies_os.Fat.Paths.{copy_part, Part, strtok}

-- From index `i` on: `k` is the first index of the separator, or the length, and the bytes before
-- it stand at `result` behind those copied earlier, terminated.
pub record Copied (m : Mem) (ch input result n i k : ℕ) (met : Bool) (m' : Mem) : Type 0 where
  pub from : i ≤ k
  pub within : k ≤ n
  pub before : (j : ℕ) → i ≤ j → j < k → m (input + j) ≢ ch
  pub separator : met ≡ true → (k < n) × (m (input + k) ≡ ch)
  pub end : met ≡ false → k ≡ n
  pub cells :
      (a : ℕ)
      → m' a ≡ (
          if a == result + k
          then 0
          else if leb (result + i) a && ltb a (result + k)
          then m (input + (a - result))
          else m a)

module _ (ch input result n : ℕ) (apart : (result + n < input) ⊎ (input + n < result)) where
  copy_part-Copied :
      (fuel i : ℕ) (m : Mem)
      → IsText m input n
      → i ≤ n
      → n < i + fuel
      → (met : Bool) × (k : ℕ) × (m' : Mem) × (copy_part fuel m ch input result i
          ≡ some (met, k, m'))
        × Copied m ch input result n i k met m'
  unfolding copy_part write
  copy_part-Copied zero i m text le enough = absurd (omega arith)
  copy_part-Copied (suc fuel) i m text le enough = elim (le_or_lt n i) [
    | inl end ↦
        let last : i ≡ n = omega arith in
        let nul : m (input + i) == 0 ≡ true = ground (arith, text.ends) in
        rw nul (
          false,
          i,
          write m (result + i) 0,
          refl,
          record {
            from = omega arith;
            within = le;
            before = λ j low high. absurd (omega arith);
            separator = λ no_met. cc;
            end = λ e. last;
            cells = λ a. ground arith;
          },
        )
    | inr inside ↦ elim (Bool-cases (m (input + i) == ch)) [
      | inl here ↦
          let solid : m (input + i) == 0 ≡ false = ground (arith, text.inside i inside) in
          rw (solid, here)
            (
              true,
              i,
              write m (result + i) 0,
              refl,
              record {
                from = omega arith;
                within = le;
                before = λ j low high. absurd (omega arith);
                separator = λ met. (inside, ground arith);
                end = λ e. cc;
                cells = λ a. ground arith;
              },
            )
      | inr other ↦
          let solid : m (input + i) == 0 ≡ false = ground (arith, text.inside i inside) in
          let m1 = write m (result + i) (m (input + i)) in
          let same : (j : ℕ) → j ≤ n → m1 (input + j) ≡ m (input + j) =
            λ j below. ground (arith, apart) in
          let text1 : IsText m1 input n = record {
            ends = same n (omega arith) ∙ text.ends;
            inside = λ j below. rw (same j (omega arith)) (text.inside j below);
          } in
          let (met, k, m', runs, c) =
            copy_part-Copied fuel (i + 1) m1 text1 (omega arith) (omega arith) in
          rw (solid, other)
            (
              met,
              k,
              m',
              runs,
              record {
                from = omega (arith, c.from);
                within = c.within;
                before = λ j low high. elim (le_or_lt j i) [
                  | inl first ↦ let first_byte : j ≡ i = omega arith in rw first_byte (ground arith)
                  | inr later ↦
                      rw (sym (same j (omega (arith, c.within)))) (c.before j (omega arith) high)
                ];
                separator =
                    λ e. let (below, at) = c.separator e in (below, sym (same k c.within) ∙ at);
                end = c.end;
                cells = λ a. ground (arith, c.cells a, c.from, c.within, same (a - result));
              },
            )
    ]
  ]

-- The cases of strtok on what the loop returns.
part_of : ℕ → ℕ → ℕ → Kheap → Bool → ℕ → Mem → Part
part_of p path ch h1 met k m' = record {
  result = p;
  input = if met then path + k + 1 else 0;
  heap = h1;
  mem = m';
}

strtok_step :
    (fuel steps : ℕ) (h h1 : Kheap) (m m' : Mem) (static path ch len p k : ℕ) (met : Bool)
    → path ≢ 0
    → strlen steps m path ≡ some len
    → malloc steps h (u32 (len + 1)) ≡ some (p, h1)
    → copy_part steps m ch path p 0 ≡ some (met, k, m')
    → (met ≡ true → k ≢ 0)
    → strtok (suc fuel) steps h m static path ch ≡ some (part_of p path ch h1 met k m')
unfolding strtok part_of
strtok_step fuel steps h h1 m m' static path ch len p k false solid counted got copied behind =
    let given : path == 0 ≡ false = ground arith in
    rw (given, strtok) (rw given (rw given (rw counted (rw got (rw given (rw copied refl))))))
strtok_step fuel steps h h1 m m' static path ch len p zero true solid counted got copied behind =
    absurd (behind refl refl)
strtok_step fuel steps h h1 m m' static path ch len p (suc k) true solid counted got copied behind =
    let given : path == 0 ≡ false = ground arith in
    rw (given, strtok)
      (rw given (rw given (rw counted (rw got (rw given (rw copied (rw given refl)))))))

-- With a path that does not begin with the separator, fuel for its `n` bytes, and a block apart from it,
-- strtok returns the block with the bytes before the first separator, or all of them, as a text; the
-- next call goes on behind the separator, or finds nothing when there is none. Only the block changes.
pub strtok-Part :
    (fuel steps : ℕ) (h h1 : Kheap) (m : Mem) (static path ch n p : ℕ)
    → IsText m path n
    → n < steps
    → n + 1 < 2 ^ 32
    → path ≢ 0
    → m path ≢ ch
    → malloc steps h (n + 1) ≡ some (p, h1)
    → (p + n < path) ⊎ (path + n < p)
    → (met : Bool) × (k : ℕ) × (m' : Mem) × (strtok (suc fuel) steps h m static path ch
        ≡ some
            (record { result = p; input = if met then path + k + 1 else 0; heap = h1; mem = m' }))
      × Copied m ch path p n 0 k met m'
unfolding part_of
strtok-Part fuel steps h h1 m static path ch n p text enough word solid plain got apart =
    let (met, k, m', runs, c) =
      copy_part-Copied ch path p n apart steps 0 m text (omega arith) (omega arith) in
    let counted : strlen steps m path ≡ some n = (strlen_iff m path steps n enough).1 text in
    let size : u32 (n + 1) ≡ n + 1 = omega arith in
    let behind : met ≡ true → k ≢ 0 = λ e z. ground (arith, c.separator e) in
    (
      met,
      k,
      m',
      strtok_step fuel steps h h1 m m' static path ch n p k met solid counted (rw size got) runs
          behind,
      c,
    )
