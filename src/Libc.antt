-- ===== src/Libc.antt =====
-- src/libs/libc/string.c: the memory and string functions, over byte memory. Pointers are addresses;
-- an object lies in the address space, so an index into it does not wrap. The copying functions
-- return the new memory (the C functions also return their first argument, which no caller reads).
pub mod Copy
pub mod Compare
pub mod Strings
pub mod Trim
use cookies_os.Base.{
  ℕ, zero, suc, ◌+◌, ◌-◌, ◌^◌, Bool, true, false, Option, none, some, ltb, ◌==◌, if◌then◌else◌, Mem,
  write, u8, u32, ℤ, pos, negsuc, not, ◌&&◌,
}

-- `left` rounds remain, the next at index `i`.
memcmp_loop : Mem → ℕ → ℕ → ℕ → ℕ → ℤ
memcmp_loop m a b zero i = pos 0
memcmp_loop m a b (suc left) i =
    let rest = memcmp_loop m a b left (i + 1) in
    if ltb (m (a + i)) (m (b + i))
    then negsuc 0
    else if ltb (m (b + i)) (m (a + i))
    then pos 1
    else rest

unfoldable pub memcmp : Mem → ℕ → ℕ → ℕ → ℤ
unfolding memcmp_loop
memcmp m aptr bptr size = memcmp_loop m aptr bptr size 0

-- Over any cells, since the terminal copies 16-bit ones.
module _ {ℓ} {A : Type ℓ} where
  pub memcpy_loop : ℕ → ℕ → ℕ → ℕ → (ℕ → A) → ℕ → A
  memcpy_loop dst src zero i m = m
  memcpy_loop dst src (suc left) i m =
      memcpy_loop dst src left (i + 1) (write m (dst + i) (m (src + i)))

  unfoldable pub memcpy : (ℕ → A) → ℕ → ℕ → ℕ → ℕ → A
  memcpy m dst src size = memcpy_loop dst src size 0 m

memmove_back : ℕ → ℕ → ℕ → Mem → Mem
memmove_back dst src zero m = m
memmove_back dst src (suc i) m = memmove_back dst src i (write m (dst + i) (m (src + i)))

unfoldable pub memmove : Mem → ℕ → ℕ → ℕ → Mem
unfolding memmove_back memcpy_loop write
memmove m dst src size =
    if ltb dst src then memcpy_loop dst src size 0 m else memmove_back dst src size m

memset_loop : ℕ → ℕ → ℕ → ℕ → Mem → Mem
memset_loop buf value zero i m = m
memset_loop buf value (suc left) i m =
    memset_loop buf value left (i + 1) (write m (buf + i) (u8 value))

unfoldable pub memset : Mem → ℕ → ℕ → ℕ → Mem
unfolding memset_loop write
memset m buf value size = memset_loop buf value size 0 m

-- `none` when the fuel runs out before a NUL is met.
strlen_loop : ℕ → Mem → ℕ → ℕ → Option ℕ
strlen_loop zero m str len = none
strlen_loop (suc fuel) m str len =
    let rest = strlen_loop fuel m str (len + 1) in if m (str + len) == 0 then some len else rest

unfoldable pub strlen : ℕ → Mem → ℕ → Option ℕ
unfolding strlen_loop
strlen fuel m str = strlen_loop fuel m str 0

-- The difference of two bytes as a 32-bit `size_t`.
abbrev pub byte_diff : ℕ → ℕ → ℕ
byte_diff x y = u32 (x + 2 ^ 32 - y)

-- `str1[i]` and `str2[i]` are the bytes that the two moving pointers show.
strcmp_loop : ℕ → Mem → ℕ → ℕ → ℕ → Option ℕ
strcmp_loop zero m str1 str2 i = none
strcmp_loop (suc fuel) m str1 str2 i =
    let rest = strcmp_loop fuel m str1 str2 (i + 1) in
    let res = byte_diff (m (str1 + i)) (m (str2 + i)) in
    if (res == 0) && not (m (str2 + i) == 0) then rest else some res

unfoldable pub strcmp : ℕ → Mem → ℕ → ℕ → Option ℕ
unfolding strcmp_loop
strcmp fuel m str1 str2 = strcmp_loop fuel m str1 str2 0

pub record Deltoc : Type 0 where
  pub stat : ℕ
  pub mem : Mem

-- `while (i) { i--; ... }`: the memory and the returned count.
strdeltoc_loop : ℕ → ℕ → ℕ → ℕ → Mem → Deltoc
strdeltoc_loop path char zero cnt m = record { stat = 0; mem = m }
strdeltoc_loop path char (suc i) cnt m =
    let rest = strdeltoc_loop path char i (cnt + 1) m in
    if m (path + i) == char then record { stat = cnt; mem = write m (path + i + 1) 0 } else rest

-- On an empty string `i--` wraps to the largest `size_t`.
unfoldable pub strdeltoc : ℕ → Mem → ℕ → ℕ → Option Deltoc
unfolding strdeltoc_loop
strdeltoc fuel m path char = elim (strlen fuel m path) [
  | none ↦ none
  | some len ↦ some (strdeltoc_loop path char (u32 (len + 2 ^ 32 - 1)) 0 m)
]
