-- ===== src/Frame.antt =====
-- src/kernel/frame.c and src/kernel/frame.h: the bitmap of physical frames. `words` is the memory that
-- `frames` points to, a 32-bit word at each index. Indices into it are below 2 ^ 20, as the
-- bitmap covers at most 4 GB in frames of 4096 bytes, so the index arithmetic does not wrap.
pub mod Bitmap
pub mod Search
pub mod Alloc
pub mod Count
use cookies_os.Base.{
  ℕ, zero, suc, ◌+◌, ◌-◌, ◌*◌, ◌/◌, ◌%◌, ◌^◌, bit_and, bit_or, leb, ◌==◌, if◌then◌else◌, write, u32,
  complement,
}

abbrev pub frame_block_size : ℕ
frame_block_size = 4096

abbrev pub frame_blocks_per_byte : ℕ
frame_blocks_per_byte = 8

pub record Frames : Type 0 where
  pub words : ℕ → ℕ
  pub frames_max : ℕ
  pub alloced_frames : ℕ

unfoldable pub frame_count : Frames → ℕ
frame_count f = f.alloced_frames

unfoldable pub frame_max : Frames → ℕ
frame_max f = f.frames_max

unfoldable pub frame_set : Frames → ℕ → Frames
unfolding write
frame_set f i = record f {
  words = write f.words (i / 32) (bit_or (f.words (i / 32)) (2 ^ (i % 32)));
}

unfoldable pub frame_clear : Frames → ℕ → Frames
unfolding write
frame_clear f i = record f {
  words = write f.words (i / 32) (bit_and (f.words (i / 32)) (complement 32 (2 ^ (i % 32))));
}

unfoldable pub frame_test : Frames → ℕ → ℕ
frame_test f i = bit_and (f.words (i / 32)) (2 ^ (i % 32))

-- `return -1` as a `uint32_t`.
abbrev pub no_frame : ℕ
no_frame = 2 ^ 32 - 1

-- The inner loop over the bits of one word returns, or leaves `cnt`, `bi` and `bj` behind.
pub data Scan : Type 0 where
  found : ℕ → Scan
  more : (cnt bi bj : ℕ) → Scan

-- `left` rounds remain, the next at bit `j` of word `i`. Only `bi` stands under `if(!cnt)`: the
-- assignment `bj=j` that follows on the line is made for every free bit.
pub scan_word : ℕ → (ℕ → ℕ) → ℕ → ℕ → ℕ → ℕ → ℕ → ℕ → Scan
scan_word blocks_num words i zero j cnt bi bj = more cnt bi bj
scan_word blocks_num words i (suc left) j cnt bi bj =
    let bi' = if cnt == 0 then i else bi in
    let extended = scan_word blocks_num words i left (j + 1) (cnt + 1) bi' j in
    let reset = scan_word blocks_num words i left (j + 1) 0 bi bj in
    if bit_and (words i) (2 ^ j) == 0
    then if leb blocks_num (cnt + 1) then found (bi' * 32 + j) else extended
    else reset

pub scan_words : ℕ → (ℕ → ℕ) → ℕ → ℕ → ℕ → ℕ → ℕ → ℕ
scan_words blocks_num words zero i cnt bi bj = no_frame
scan_words blocks_num words (suc left) i cnt bi bj =
    elim (scan_word blocks_num words i 32 0 cnt bi bj) [
      | found r ↦ r
      | more cnt' bi' bj' ↦ scan_words blocks_num words left (i + 1) cnt' bi' bj'
    ]

unfoldable pub frame_frist_free : Frames → ℕ → ℕ
unfolding scan_word scan_words
frame_frist_free f blocks_num = scan_words blocks_num f.words (f.frames_max / 32) 0 0 0 0

-- `panic` halts the machine: nothing is returned from it.
pub data Alloced : Type 0 where
  panicked : Alloced
  alloced : (phys_addr : ℕ) → Frames → Alloced

-- `for(i=0; i<blocks_num; i++) frame_set(idx+i)`.
pub set_loop : ℕ → ℕ → ℕ → Frames → Frames
set_loop idx zero i f = f
set_loop idx (suc left) i f = set_loop idx left (i + 1) (frame_set f (idx + i))

unfoldable pub frame_alloc_ex : Frames → ℕ → Alloced
unfolding set_loop
frame_alloc_ex f blocks_num =
    let idx = frame_frist_free f blocks_num in
    if idx == no_frame
    then panicked
    else let f' = set_loop idx blocks_num 0 f in
      alloced (u32 (idx * frame_block_size))
        (record f' { alloced_frames = u32 (f'.alloced_frames + blocks_num) })

-- The loop clears the same `index` in each round.
pub clear_loop : ℕ → ℕ → Frames → Frames
clear_loop index zero f = f
clear_loop index (suc left) f = clear_loop index left (frame_clear f index)

unfoldable pub frame_free_ex : Frames → ℕ → ℕ → Frames
unfolding clear_loop
frame_free_ex f addr blocks_num =
    let f' = clear_loop (addr / frame_block_size) blocks_num f in
    record f' { alloced_frames = u32 (f'.alloced_frames + 2 ^ 32 - blocks_num) }

abbrev pub frame_alloc : Frames → Alloced
frame_alloc f = frame_alloc_ex f 1

abbrev pub frame_free : Frames → ℕ → Frames
frame_free f addr = frame_free_ex f addr 1

-- A word after memset has put zeros in the first `bytes` bytes of the array, lowest byte first.
pub clear_bytes : ℕ → ℕ → ℕ → ℕ
clear_bytes bytes i w =
    if leb (4 * (i + 1)) bytes then 0 else let low = 2 ^ (8 * (bytes - 4 * i)) in w / low * low

-- The two pointers in `frame_init` are those of the static variables; `mem` is what stands from
-- `start_addr` on. `alloced_frames` is not set.
unfoldable pub frame_init : Frames → (mem : ℕ → ℕ) (end_addr : ℕ) → Frames
unfolding clear_bytes
frame_init f mem end_addr =
    let frames_max = end_addr / frame_block_size in
    record {
      words = λ i. clear_bytes (frames_max / frame_blocks_per_byte) i (mem i);
      frames_max = frames_max;
      alloced_frames = f.alloced_frames;
    }
