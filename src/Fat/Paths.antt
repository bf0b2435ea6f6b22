-- ===== src/Fat/Paths.antt =====
-- src/fs/fat.c: the parts of a path. A NULL pointer is 0; `input`, the static variable of strtok, is
-- passed in and out.
use cookies_os.Base.{
  ℕ, zero, suc, ◌+◌, ◌-◌, ◌≤◌, ◌<◌, ◌^◌, ◌≡◌, ◌≢◌, ◌⊎◌, inl, inr, refl, sym, subst, arith,
  Bool-cases, le_or_lt, Bool, true, false, ◌==◌, if◌then◌else◌, Mem, write, u32, Option, none, some,
}
use cookies_os.Libc.{strlen}
use cookies_os.Libc.Strings.{IsText, strlen_iff}
use cookies_os.Kheap.{Kheap, malloc}

abbrev slash : ℕ
slash = 47

-- `while(i)`.
unfoldable pub basename_loop : Mem → ℕ → ℕ → ℕ
basename_loop m path zero = 0
basename_loop m path (suc i) =
    let rest = basename_loop m path i in if m (path + i) == slash then i + 1 else rest

-- The offset; `*target` is `path` and the offset.
unfoldable pub fat_basename : ℕ → Mem → ℕ → Option ℕ
fat_basename fuel m path = elim (strlen fuel m path) [
  | none ↦ none
  | some len ↦ some (basename_loop m path (u32 (len + 2 ^ 32 - 1)))
]

-- The loop of strtok: whether `ch` was met, `i`, and the memory.
unfoldable pub copy_part : ℕ → Mem → ℕ → ℕ → ℕ → ℕ → Option (Bool × ℕ × Mem)
copy_part zero m ch input result i = none
copy_part (suc fuel) m ch input result i =
    let c = m (input + i) in
    let rest = copy_part fuel (write m (result + i) c) ch input result (i + 1) in
    if c == 0
    then some (false, i, write m (result + i) 0)
    else (if c == ch then some (true, i, write m (result + i) 0) else rest)

pub record Part : Type 0 where
  pub result : ℕ
  pub input : ℕ
  pub heap : Kheap
  pub mem : Mem

-- `fuel` is for the calls, `steps` for the loops.
unfoldable pub strtok : ℕ → ℕ → Kheap → Mem → ℕ → ℕ → ℕ → Option Part
strtok zero steps h m static path ch = none
strtok (suc fuel) steps h m static path ch =
    let input = if path == 0 then static else path in
    elim (input == 0) [
      | true ↦ some (record { result = 0; input = 0; heap = h; mem = m })
      | false ↦ elim (strlen steps m input) [
        | none ↦ none
        | some len ↦ elim (malloc steps h (u32 (len + 1))) [
          | none ↦ none
          | some (result, h1) ↦ elim (copy_part steps m ch input result 0) [
            | none ↦ none
            | some (false, i, m1) ↦
                some (record { result = result; input = 0; heap = h1; mem = m1 })
            | some (true, zero, m1) ↦ strtok fuel steps h1 m1 (input + 1) 0 ch
            | some (true, suc i, m1) ↦
                some (record { result = result; input = input + suc i + 1; heap = h1; mem = m1 })
          ]
        ]
      ]
    ]

-- Where the last part of a path of `n` bytes starts; a slash at the end is not a separator.
pub record IsBase (m : Mem) (path n i : ℕ) : Type 0 where
  pub inside : i ≤ n - 1
  pub starts : (i ≡ 0) ⊎ (m (path + (i - 1)) ≡ slash)
  pub whole : (j : ℕ) → i ≤ j → j < n - 1 → m (path + j) ≢ slash

basename_loop-IsBase : (m : Mem) (path i : ℕ) → IsBase m path (i + 1) (basename_loop m path i)
unfolding basename_loop
basename_loop-IsBase m path zero = record {
  inside = omega arith;
  starts = inl refl;
  whole = λ j low high. omega arith;
}
basename_loop-IsBase m path (suc i) =
    let rest = basename_loop-IsBase m path i in
    elim (Bool-cases (m (path + i) == slash)) [
      | inl e ↦
          let here : m (path + i) ≡ slash = ground arith in
          rw e (record {
            inside = omega arith;
            starts = inr (ground (arith, here));
            whole = λ j low high. omega arith;
          })
      | inr e ↦
          let here : m (path + i) ≢ slash = ground arith in
          rw e (record {
            inside = omega (arith, rest.inside);
            starts = rest.starts;
            whole = λ j low high. elim (le_or_lt i j) [
              | inl le ↦ let last : j ≡ i = omega arith in rw last here
              | inr lt ↦ rest.whole j low (omega arith)
            ];
          })
    ]

-- The base name of a text of at least one byte is found, and is its last part.
pub fat_basename-IsBase :
    (fuel : ℕ) (m : Mem) (path n : ℕ)
    → IsText m path n
    → n < fuel
    → 1 ≤ n
    → n ≤ 2 ^ 32
    → (i : ℕ) × (fat_basename fuel m path ≡ some i) × IsBase m path n i
unfolding fat_basename
fat_basename-IsBase fuel m path n text enough some_byte fits =
    let found : strlen fuel m path ≡ some n = (strlen_iff m path fuel n enough).1 text in
    let start : u32 (n + 2 ^ 32 - 1) ≡ n - 1 = omega arith in
    let back : n ≡ n - 1 + 1 = omega arith in
    let runs : fat_basename fuel m path ≡ some (basename_loop m path (n - 1)) =
      rw (found, start, fat_basename) refl in
    (
      basename_loop m path (n - 1),
      runs,
      subst (λ k. IsBase m path k (basename_loop m path (n - 1))) (sym back)
          (basename_loop-IsBase m path (n - 1)),
    )
