-- ===== src/Syscalls/Dispatch.antt =====
-- The number of a system call: which handler runs, and what the next call learns of its status.
use cookies_os.Base.{
  ℕ, zero, suc, ◌-◌, ◌<◌, ◌≤◌, ◌≡◌, refl, sym, ap, ◌∙◌, arith, true, false, ltb, none, some, List,
  [], ◌∷◌, get_elem?, length, ℤ,
}
use cookies_os.Machine.{Machine, M, ◌>>=◌, ◌>>◌, ret, store_word}
use cookies_os.Syscalls.{
  SyscallRegs, Called, word_of, syscalls, syscall_dispatch, sc_print, sc_open, sc_close, sc_read,
  sc_write, sc_readdir, sc_finddir, sc_kmalloc, sc_kfree, sc_realloc, sc_sysc_status,
}

behind_list : {A : Type 0} (l : List A) (n : ℕ) → length l ≤ n → get_elem? l n ≡ none
behind_list [] n le = refl
behind_list (a ∷ l) zero le = absurd (omega arith)
behind_list (a ∷ l) (suc n) le = behind_list l n (omega arith)

-- The calls by their names, and their numbers.
pub data Call : Type 0 where
  printing opening closing reading writing listing finding allocating freeing reallocating asking :
      Call

abbrev pub number_of : Call → ℕ
number_of printing = 0
number_of opening = 1
number_of closing = 2
number_of reading = 3
number_of writing = 4
number_of listing = 5
number_of finding = 6
number_of allocating = 7
number_of freeing = 8
number_of reallocating = 9
number_of asking = 10

module _ (fuel : ℕ) (disk : ℕ → ℕ) (fe slash : ℕ) (eax : ℤ) (dirent retval : ℕ) where
  abbrev pub handler_of : Call → SyscallRegs → M ℤ
  handler_of printing = sc_print fuel disk fe slash eax dirent retval
  handler_of opening = sc_open fuel disk fe slash eax dirent retval
  handler_of closing = sc_close fuel disk fe slash eax dirent retval
  handler_of reading = sc_read fuel disk fe slash eax dirent retval
  handler_of writing = sc_write fuel disk fe slash eax dirent retval
  handler_of listing = sc_readdir fuel disk fe slash eax dirent retval
  handler_of finding = sc_finddir fuel disk fe slash eax dirent retval
  handler_of allocating = sc_kmalloc fuel disk fe slash eax dirent retval
  handler_of freeing = sc_kfree fuel disk fe slash eax dirent retval
  handler_of reallocating = sc_realloc fuel disk fe slash eax dirent retval
  handler_of asking = sc_sysc_status fuel disk fe slash eax dirent retval

  entered :
      (c : Call)
      → get_elem? (syscalls fuel disk fe slash eax dirent retval) (number_of c)
        ≡ some (handler_of c)
  entered printing = refl
  entered opening = refl
  entered closing = refl
  entered reading = refl
  entered writing = refl
  entered listing = refl
  entered finding = refl
  entered allocating = refl
  entered freeing = refl
  entered reallocating = refl
  entered asking = refl

  -- The status of a run, in both places.
  abbrev pub reported : M ℤ → M Called
  reported m = m >>= λ status. ret (record { eax = word_of status; retval = word_of status })

  module _ (behind : ℕ → SyscallRegs → M ℤ) (syscall_cnt : ℕ) where
    served :
        (c : Call) (number : ℕ) (regs : SyscallRegs) (x : Machine)
        → number_of c ≡ number
        → 0 < syscall_cnt
        → number < syscall_cnt
        → syscall_dispatch fuel disk fe slash eax dirent retval behind syscall_cnt number regs x
          ≡ reported (handler_of c regs) x
    unfolding syscall_dispatch
    served c number regs x e address lt =
        let under : ltb (syscall_cnt - 1) number ≡ false = ground arith in
        let table = syscalls fuel disk fe slash eax dirent retval in
        let at : get_elem? table number ≡ some (handler_of c) =
          ap (get_elem? table) (sym e) ∙ entered c in
        rw (under, at) refl

-- What the dispatch of `number` does on `x`, and what a call that asks for the status finds after it.
module _ (fuel : ℕ) (disk : ℕ → ℕ) (fe slash : ℕ) (eax : ℤ) (dirent retval : ℕ)
    (behind : ℕ → SyscallRegs → M ℤ) (syscall_cnt : ℕ) where
  pub record Dispatched (number : ℕ) (regs : SyscallRegs) (x : Machine) : Type 0 where
    pub refused :
        syscall_cnt ≤ number
        → syscall_dispatch fuel disk fe slash eax dirent retval behind syscall_cnt number regs x
          ≡ some (record { eax = number; retval = retval }, x)
    pub handled :
        (c : Call)
        → number_of c ≡ number
        → number < syscall_cnt
        → syscall_dispatch fuel disk fe slash eax dirent retval behind syscall_cnt number regs x
          ≡ reported fuel disk fe slash eax dirent retval
              (handler_of fuel disk fe slash eax dirent retval c regs)
              x
    pub passed :
        number < syscall_cnt
        → 11 ≤ number
        → syscall_dispatch fuel disk fe slash eax dirent retval behind syscall_cnt number regs x
          ≡ reported fuel disk fe slash eax dirent retval (behind number regs) x
    pub remembered :
        10 < syscall_cnt
        → (r : Called) (x' : Machine)
        → syscall_dispatch fuel disk fe slash eax dirent retval behind syscall_cnt number regs x
          ≡ some (r, x')
        → (next : SyscallRegs)
        → syscall_dispatch fuel disk fe slash eax dirent r.retval behind syscall_cnt 10 next x'
          ≡ (store_word next.ebx r.retval >> ret (record { eax = 0; retval = 0 })) x'

  -- With the address of the count for the limit, not 0. A number from that address on is refused: the
  -- machine, the last status and `eax` stay. Each of the eleven numbers below it runs the call of that name, a
  -- number from 11 on what stands behind the table, and either leaves its status in `eax` and `retval`.
  -- When a call has returned, call 10 stores the status that it left.
  pub syscall_dispatch-Dispatched :
      (number : ℕ) (regs : SyscallRegs) (x : Machine) → 0 < syscall_cnt → Dispatched number regs x
  unfolding syscall_dispatch sc_sysc_status
  syscall_dispatch-Dispatched number regs x address = record {
    refused = λ le. let over : ltb (syscall_cnt - 1) number ≡ true = ground arith in rw over refl;
    handled = λ c e lt.
        served fuel disk fe slash eax dirent retval behind syscall_cnt c number regs x e address lt;
    passed = λ lt big.
        let under : ltb (syscall_cnt - 1) number ≡ false = ground arith in
        rw (under, behind_list (syscalls fuel disk fe slash eax dirent retval) number big) refl;
    remembered = λ room r x' ran next.
        served fuel disk fe slash eax dirent r.retval behind syscall_cnt asking 10 next x' refl
          address room;
  }
