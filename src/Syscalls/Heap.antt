-- ===== src/Syscalls/Heap.antt =====
-- Allocating and freeing by system calls.
use cookies_os.Base.{
  ℕ, ◌+◌, ◌*◌, ◌/◌, ◌^◌, ◌≤◌, ◌<◌, ◌≡◌, ◌⊎◌, arith, some, List, [], Mem, write, u8, ℤ, pos,
}
use cookies_os.Kheap.{Kheap, header_size, malloc, free}
use cookies_os.Kheap.Blocks.{Block, IsHeap, In-bounds}
use cookies_os.Kheap.Safe.{Given, malloc-Given}
use cookies_os.Kheap.Borrow.{Borrowed, give_back}
use cookies_os.Machine.{Machine, kmalloc, kfree}
use cookies_os.Machine.Names.{bind_some, kmalloc-some, kfree-some}
use cookies_os.Elf.{word_at}
use cookies_os.Syscalls.{SyscallRegs, sc_kmalloc, sc_kfree}

-- The memory behind `store_word`.
abbrev worded : Mem → ℕ → ℕ → Mem
worded m p v =
    write (write (write (write m p (u8 v)) (p + 1) (u8 (v / 2 ^ 8))) (p + 1 + 1) (u8 (v / 2 ^ 16)))
      (p + 1 + 1 + 1) (u8 (v / 2 ^ 24))

worded_lem : (m : Mem) (p v : ℕ) → v < 2 ^ 32 → word_at (worded m p v) p ≡ v
unfolding write
worded_lem m p v lt = ground arith

worded_others : (m : Mem) (p v a : ℕ) → (a < p) ⊎ (p + 4 ≤ a) → worded m p v a ≡ m a
unfolding write
worded_others m p v a out = ground (arith, out)

module _ (fuel : ℕ) (disk : ℕ → ℕ) (fe slash : ℕ) (eax : ℤ) (dirent retval : ℕ) where
  sc_kmalloc_runs :
      (p : ℕ) (x : Machine) (regs : SyscallRegs) (h : Kheap)
      → malloc fuel x.heap regs.ebx ≡ some (p, h)
      → sc_kmalloc fuel disk fe slash eax dirent retval regs x
        ≡ some (pos 0, record x { heap = h; mem = worded x.mem regs.ecx p })
  unfolding sc_kmalloc
  sc_kmalloc_runs p x regs h e =
      bind_some (kmalloc fuel regs.ebx) _ x (record x { heap = h }) p
        (kmalloc-some fuel regs.ebx p x h e)

  sc_kfree_runs :
      (x : Machine) (regs : SyscallRegs) (h : Kheap)
      → free fuel x.heap regs.ebx ≡ some ([], h)
      → sc_kfree fuel disk fe slash eax dirent retval regs x ≡ some (pos 0, record x { heap = h })
  unfolding sc_kfree
  sc_kfree_runs x regs h e =
      bind_some (kfree fuel regs.ebx) _ x (record x { heap = h }) tt
        (kfree-some fuel regs.ebx x h e)

  -- What the two calls do, for a process that frees what it was given.
  pub record Served (x : Machine) (bs : List Block) (regs : SyscallRegs) (x1 x2 : Machine)
      : Type 0 where
    pub address : ℕ
    pub mid : List Block
    pub allocated : sc_kmalloc fuel disk fe slash eax dirent retval regs x ≡ some (pos 0, x1)
    pub stored : word_at x1.mem regs.ecx ≡ address + header_size
    pub given : Given regs.ebx 1 address bs mid
    pub freed :
        sc_kfree fuel disk fe slash eax dirent retval
          (record regs { ebx = word_at x1.mem regs.ecx })
          x1
        ≡ some (pos 0, x2)
    pub same : Borrowed bs x2.heap
    pub others : (a : ℕ) → (a < regs.ecx) ⊎ (regs.ecx + 4 ≤ a) → x2.mem a ≡ x.mem a

  -- On a well-formed heap with room the call that allocates answers 0 and stores, in the four bytes at
  -- `ecx`, the address of a block of its own; the call that frees what stands there answers 0, and then the
  -- heap is well formed, exactly the same blocks are in use, and no other byte has changed.
  pub sc_kfree-Served :
      (x : Machine) (bs : List Block) (regs : SyscallRegs)
      → IsHeap x.heap bs
      → x.heap.curr_addr + 4 * (regs.ebx + header_size) ≤ 2 ^ 31
      → 2 ^ 31 ≤ fuel
      → (x1 : Machine) × (x2 : Machine) × Served x bs regs x1 x2
  sc_kfree-Served x bs regs heap room f =
      let (at, h1, mid, got, well1, given) =
        malloc-Given fuel regs.ebx x.heap bs heap room (omega (arith, heap.room)) in
      let (h2, freed, back) = give_back fuel regs.ebx at h1 bs mid well1 given f in
      let p = at + header_size in
      let x1 = record x { heap = h1; mem = worded x.mem regs.ecx p } in
      let there : word_at x1.mem regs.ecx ≡ p = worded_lem x.mem regs.ecx p (
        omega (
          arith,
          In-bounds given.block 1 mid h1.curr_addr well1.ordered given.present,
          given.address,
          well1.room,
        )) in
      (
        x1,
        record x1 { heap = h2 },
        record {
          address = at;
          mid = mid;
          allocated = sc_kmalloc_runs p x regs h1 got;
          stored = there;
          given = given;
          freed = rw there (sc_kfree_runs x1 (record regs { ebx = p }) h2 freed);
          same = back;
          others = λ a out. worded_others x.mem regs.ecx p a out;
        },
      )
