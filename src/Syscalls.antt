-- ===== src/Syscalls.antt =====
-- src/kernel/systemcalls.h: the handlers of the system calls, and their table. The registers are those
-- that src/kernel/systemcalls.asm pushes; a pointer argument is an address. `retval` is the status of the
-- last call, which that assembly stores behind the call; `behind` is what stands behind the table.
pub mod Heap
pub mod Dispatch
use cookies_os.Base.{
  ℕ, ◌-◌, ◌^◌, u32, ltb, ◌==◌, if◌then◌else◌, Option, none, some, List, [], ◌∷◌, get_elem?, ℤ, pos,
  negsuc,
}
use cookies_os.Kheap.{realloc}
use cookies_os.Terminal.{term_write}
use cookies_os.Machine.{
  Machine, M, ◌>>=◌, ◌>>◌, ret, halt, modify, copy, store_word, read_text, kmalloc, kfree,
  complaints, node_size,
}
use cookies_os.Files.{fopen, fclose, read_node, write_node, open_node, read_dir_node, find_dir_node}

abbrev pub syscalls_count : ℕ
syscalls_count = 11

-- The registers that a handler reads.
pub record SyscallRegs : Type 0 where
  pub ebx : ℕ
  pub ecx : ℕ
  pub edx : ℕ
  pub esi : ℕ

-- What a call leaves in `eax` and in `retval`.
pub record Called : Type 0 where
  pub eax : ℕ
  pub retval : ℕ

-- An `int` in a register.
abbrev pub word_of : ℤ → ℕ
word_of (pos n) = u32 n
word_of (negsuc n) = u32 (2 ^ 32 - 1 - u32 n)

unfoldable pub krealloc : ℕ → ℕ → ℕ → M ℕ
krealloc fuel p size x = elim (realloc fuel x.heap x.mem p size) [
  | none ↦ none
  | some r ↦ (do complaints r.yells; ret r.new_addr) (record x { heap = r.heap; mem = r.mem })
]

module _ (fuel : ℕ) (disk : ℕ → ℕ) (fe slash : ℕ) (eax : ℤ) (dirent retval : ℕ) where
  -- A handler without a result leaves `eax`.
  unfoldable pub sc_print : SyscallRegs → M ℤ
  sc_print regs = do
    s ← read_text fuel regs.ebx
    modify (λ x. record x { term = term_write x.term s })
    ret eax

  unfoldable pub sc_open : SyscallRegs → M ℤ
  sc_open regs = do
    node ← fopen fuel disk fe slash eax regs.ebx
    store_word regs.ecx node
    ret (if node == 0 then pos 0 else pos 1)

  unfoldable pub sc_close : SyscallRegs → M ℤ
  sc_close regs = fclose fuel disk fe slash eax regs.ebx

  unfoldable pub sc_read : SyscallRegs → M ℤ
  sc_read regs = read_node fuel disk fe slash eax regs.ebx 0 regs.ecx regs.edx

  unfoldable pub sc_write : SyscallRegs → M ℤ
  sc_write regs = write_node fuel disk fe slash eax regs.ebx 0 regs.ecx regs.edx

  -- `outsize` bytes of the name are copied, whatever it is.
  unfoldable pub sc_readdir : SyscallRegs → M ℤ
  sc_readdir regs = do
    status ← read_dir_node fuel disk fe slash eax regs.ebx regs.ecx dirent
    copy regs.edx dirent regs.esi
    ret status

  -- The status of the search is not looked at.
  unfoldable pub sc_finddir : SyscallRegs → M ℤ
  sc_finddir regs = do
    target ← kmalloc fuel node_size
    store_word regs.edx target
    find_dir_node fuel disk fe slash eax regs.ebx regs.ecx target
    open_node fuel disk fe slash eax target
    ret (pos 0)

  unfoldable pub sc_kmalloc : SyscallRegs → M ℤ
  sc_kmalloc regs = do p ← kmalloc fuel regs.ebx; store_word regs.ecx p; ret (pos 0)

  unfoldable pub sc_kfree : SyscallRegs → M ℤ
  sc_kfree regs = do kfree fuel regs.ebx; ret (pos 0)

  unfoldable pub sc_realloc : SyscallRegs → M ℤ
  unfolding krealloc
  sc_realloc regs = do p ← krealloc fuel regs.ecx regs.ebx; store_word regs.edx p; ret (pos 0)

  unfoldable pub sc_sysc_status : SyscallRegs → M ℤ
  sc_sysc_status regs = do store_word regs.ebx retval; ret (pos 0)

  -- The table, by the number in `eax` on entry.
  abbrev pub syscalls : List (SyscallRegs → M ℤ)
  syscalls =
      sc_print ∷ sc_open ∷ sc_close ∷ sc_read ∷ sc_write ∷ sc_readdir ∷ sc_finddir ∷ sc_kmalloc
      ∷ sc_kfree ∷ sc_realloc ∷ sc_sysc_status ∷ []

  -- src/kernel/systemcalls.asm: the number is compared with the address `syscall_cnt` of the count, and a
  -- number behind the table calls what stands there.
  unfoldable pub syscall_dispatch : (ℕ → SyscallRegs → M ℤ) → ℕ → ℕ → SyscallRegs → M Called
  syscall_dispatch behind syscall_cnt number regs =
      let handler : M ℤ = elim (get_elem? syscalls number) [
        | none ↦ behind number regs
        | some sc ↦ sc regs
      ] in
      if ltb (syscall_cnt - 1) number
      then ret (record { eax = number; retval = retval })
      else (do status ← handler; ret (record { eax = word_of status; retval = word_of status }))
