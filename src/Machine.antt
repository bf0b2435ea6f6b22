-- ===== src/Machine.antt =====
-- The state that the parts above the heap share, and the steps that they are written in: the byte
-- memory, the heap, the nodes of src/fs/vfs.h by their addresses, the tables of src/kernel/device.c
-- and src/fs/vfs.c, the screen, the pages, the keyboard, and the static variable of strtok in
-- src/fs/fat.c.
pub mod Names
use cookies_os.Base.{
  ℕ, zero, suc, ◌+◌, ◌*◌, ◌==◌, if◌then◌else◌, Option, none, some, List, [], ◌∷◌, Mem, write, codes,
  ◌/◌, ◌^◌, u8,
}
use cookies_os.Libc.{memcpy}
use cookies_os.Kheap.{Kheap, Yell, magic_mismatch, double_free, malloc, free, magic_kheap}
use cookies_os.Terminal.{Term, Arg, int, term_vprintf, yell}
use cookies_os.Vfs.{Vfs, Mounts}
use cookies_os.Paging.{Paging}
use cookies_os.Keyboard.{Keyboard}

-- `VFS_NAME_MAX`: the bytes of the array `name` at the start of a node.
abbrev pub vfs_name_max : ℕ
vfs_name_max = 55

-- `sizeof(Vfs_t)`: the name, one byte of padding, the flag and seven pointers.
abbrev pub node_size : ℕ
node_size = 88

pub record Machine : Type 0 where
  pub mem : Mem
  pub heap : Kheap
  pub nodes : ℕ → Vfs
  pub m_devices : ℕ
  pub m_devices_number : ℕ
  pub mounts : Mounts
  pub term : Term
  pub paging : Paging
  pub keyboard : Keyboard
  pub strtok_input : ℕ

-- `none`: the machine has halted, called NULL or read through it, or fuel ran out.
abbrev pub M : Type 0 → Type 0
M A = Machine → Option (A × Machine)

infixl 5 ◌>>=◌ ◌>>◌
abbrev pub ◌>>=◌ : {A B : Type 0} → M A → (A → M B) → M B
◌>>=◌ m f x = elim (m x) [ none ↦ none | some (a, x') ↦ f a x' ]

abbrev pub ◌>>◌ : {A B : Type 0} → M A → M B → M B
m >> k = m >>= λ _. k

abbrev pub ret : {A : Type 0} → A → M A
ret a x = some (a, x)

abbrev pub halt : {A : Type 0} → M A
halt x = none

abbrev pub gets : {A : Type 0} → (Machine → A) → M A
gets f x = some (f x, x)

abbrev pub modify : (Machine → Machine) → M (Unit {0})
modify f x = some (tt, f x)

-- `*p` and `*p = v` on bytes.
abbrev pub load : ℕ → M ℕ
load p = gets (λ x. x.mem p)

abbrev pub store : ℕ → ℕ → M (Unit {0})
store p v = modify (λ x. record x { mem = write x.mem p v })

abbrev pub copy : ℕ → ℕ → ℕ → M (Unit {0})
copy dst src size = modify (λ x. record x { mem = memcpy x.mem dst src size })

abbrev pub node_at : ℕ → M Vfs
node_at a = gets (λ x. x.nodes a)

abbrev pub set_node : ℕ → Vfs → M (Unit {0})
set_node a v = modify (λ x. record x { nodes = write x.nodes a v })

-- `*dst = *src` on nodes: the bytes of the name and the fields behind it.
unfoldable pub copy_node : ℕ → ℕ → M (Unit {0})
copy_node dst src = do copy dst src vfs_name_max; node ← node_at src; set_node dst node

-- A literal of the source at `p`, terminator excluded or included by `bytes`.
abbrev pub put_bytes : ℕ → List ℕ → M (Unit {0})
put_bytes p [] = ret tt
put_bytes p (c ∷ cs) = do store p c; put_bytes (p + 1) cs

-- `*(uint32_t*)p = v`, the lowest byte first.
abbrev pub store_word : ℕ → ℕ → M (Unit {0})
store_word p v = put_bytes p (u8 v ∷ (u8 (v / 2 ^ 8) ∷ (u8 (v / 2 ^ 16) ∷ (u8 (v / 2 ^ 24) ∷ []))))

-- The `n` bytes from `p` on.
abbrev pub bytes_at : Mem → ℕ → ℕ → List ℕ
bytes_at m p zero = []
bytes_at m p (suc n) = m p ∷ bytes_at m (p + 1) n

-- The text at `p`.
unfoldable pub text_at : ℕ → Mem → ℕ → Option (List ℕ)
text_at zero m p = none
text_at (suc fuel) m p =
    let rest : Option (List ℕ) = elim (text_at fuel m (p + 1)) [
      | none ↦ none
      | some s ↦ some (m p ∷ s)
    ] in
    if m p == 0 then some [] else rest

unfoldable pub read_text : ℕ → ℕ → M (List ℕ)
read_text fuel p x = elim (text_at fuel x.mem p) [ none ↦ none | some s ↦ some (s, x) ]

-- term_printf and yell.
unfoldable pub print : List ℕ → List Arg → M (Unit {0})
print fmt args x = elim (term_vprintf x.term fmt args) [
  | none ↦ none
  | some t ↦ some (tt, record x { term = t })
]

unfoldable pub complain : List ℕ → List Arg → M (Unit {0})
complain msg args x = elim (yell x.term msg args) [
  | none ↦ none
  | some t ↦ some (tt, record x { term = t })
]

-- malloc and free on the heap of the machine.
unfoldable pub kmalloc : ℕ → ℕ → M ℕ
kmalloc fuel size x = elim (malloc fuel x.heap size) [
  | none ↦ none
  | some (p, h) ↦ some (p, record x { heap = h })
]

-- The messages of `free`.
pub complaints : List Yell → M (Unit {0})
complaints [] = ret tt
complaints (magic_mismatch found ∷ ys) = do
  complain (codes "free(...): magic number mismatch (%x != %x)") (int found ∷ int magic_kheap ∷ [])
  complaints ys
complaints (double_free ∷ ys) = do
  complain (codes "free(...): double free detected!") []
  complaints ys

unfoldable pub kfree : ℕ → ℕ → M (Unit {0})
kfree fuel p x = elim (free fuel x.heap p) [
  | none ↦ none
  | some (yells, h) ↦ complaints yells (record x { heap = h })
]
