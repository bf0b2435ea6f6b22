-- ===== src/Kheap/Realloc.antt =====
-- realloc: allocate, copy, free.
use cookies_os.Base.{
  ℕ, ◌+◌, ◌*◌, ◌^◌, ◌≤◌, ◌<◌, ◌≡◌, inl, inr, refl, ap, ◌∙◌, arith, some, List, [], Mem, ◌==◌,
}
use mathlib.Core.Bool.{Bool}
use cookies_os.Libc.{memcpy}
use cookies_os.Libc.Copy.{Forward, memcpy_prefix}
use cookies_os.Kheap.{Kheap, header_size, malloc, free, Realloced, realloc, Yell}
use cookies_os.Kheap.Blocks.{Block, IsHeap, Apart}
use cookies_os.Kheap.Safe.{Given, malloc-Given}
use cookies_os.Kheap.Free.{yells_for}
use cookies_os.Kheap.Merged.{Uses, Freed, free-Freed}

-- The new block and the heap that realloc leaves. `mid` is the list between its two steps.
pub record Moved (h : Kheap) (m : Mem) (bs : List Block) (old : Block) (size : ℕ) (r : Realloced)
    : Type 0 where
  pub at : ℕ
  pub mid : List Block
  pub final : List Block
  pub address : r.new_addr ≡ at + header_size
  pub given : Given size 1 at bs mid
  pub freed : Freed old.at mid final
  pub well : IsHeap r.heap final
  pub quiet : r.yells ≡ []
  pub copied :
      (t : ℕ) → t < size → t < old.size → r.mem (r.new_addr + t) ≡ m (old.at + header_size + t)

Forward-of_Apart :
    (a n : Block) → Apart a n → Forward (n.at + header_size) (a.at + header_size) a.size
Forward-of_Apart a n (inl le) = inr (omega arith)
Forward-of_Apart a n (inr le) = inl (omega arith)

realloc_step :
    (fuel : ℕ) (h h1 h2 : Kheap) (m : Mem) (addr size new : ℕ) (yells : List Yell)
    → malloc fuel h size ≡ some (new, h1)
    → free fuel h1 addr ≡ some (yells, h2)
    → realloc fuel h m addr size
      ≡ some (record { new_addr = new; heap = h2; mem = memcpy m new addr size; yells = yells })
unfolding realloc
realloc_step fuel h h1 h2 m addr size new yells got got2 = rw (got, realloc) (rw got2)

-- realloc of a block in use, on a well-formed heap with room, returns without a complaint: the new
-- block is as malloc gives it, the old one is freed, and the bytes that both blocks have room for
-- are copied.
pub realloc-Moved :
    (fuel : ℕ) (h : Kheap) (m : Mem) (bs : List Block) (old : Block) (size : ℕ)
    → IsHeap h bs
    → Uses bs old
    → h.curr_addr + 4 * (size + header_size) ≤ 2 ^ 31
    → 2 ^ 31 ≤ fuel
    → (r : Realloced) × (realloc fuel h m (old.at + header_size) size ≡ some r)
      × Moved h m bs old size r
realloc-Moved fuel h m bs old size heap (i, u) room f =
    let (at, h1, mid, got, well1, given) =
      malloc-Given fuel size h bs heap room (omega (arith, heap.room)) in
    let (stays, apart) = given.kept old i u in
    let (h2, final, got2, well2, freed) =
      free-Freed fuel h1 old mid well1 stays (omega (arith, well1.room)) in
    let quiet : (old.freed == 0) ≡ Bool.true = ground arith in
    let silent : yells_for old ≡ [] = rw quiet in
    (
      record {
        new_addr = at + header_size;
        heap = h2;
        mem = memcpy m (at + header_size) (old.at + header_size) size;
        yells = [];
      },
      realloc_step fuel h h1 h2 m (old.at + header_size) size (at + header_size) [] got
          (got2 ∙ ap (λ (l : List Yell). some (l, h2)) silent),
      record {
        at = at;
        mid = mid;
        final = final;
        address = refl;
        given = given;
        freed = freed;
        well = well2;
        quiet = refl;
        copied = λ t lt short.
            memcpy_prefix m (at + header_size) (old.at + header_size) size old.size t
              (rw given.address at (Forward-of_Apart old given.block apart)) lt short;
      },
    )
