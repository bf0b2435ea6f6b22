-- ===== src/Tests/Libc.antt =====
-- src/libs/libc/string.c.
use cookies_os.Base.{ℕ, ◌<◌, ◌≡◌, ◌↔◌, refl, arith, some, Mem, pos, ◌==◌, if◌then◌else◌}
use cookies_os.Libc.{memcmp, memmove, strlen, strdeltoc, Deltoc}
use cookies_os.Libc.Copy.{moved, memmove_lem}
use cookies_os.Libc.Compare.{Agree, memcmp-zero_iff}
use cookies_os.Libc.Strings.{IsText}

-- "/DEV/kb" at 100, "/DEV/" at 200.
abbrev pub paths : Mem
paths a =
    if a == 100
    then b'/'
    else if a == 101
    then b'D'
    else if a == 102
    then b'E'
    else if a == 103
    then b'V'
    else if a == 104
    then b'/'
    else if a == 105
    then b'k'
    else if a == 106
    then b'b'
    else if a == 200
    then b'/'
    else if a == 201
    then b'D'
    else if a == 202
    then b'E'
    else if a == 203
    then b'V'
    else if a == 204
    then b'/'
    else 0

-- The memory that holds its own addresses.
abbrev ramp : Mem
ramp a = a

overlap_up : memmove ramp 12 10 4 15 ≡ 13
unfolding memmove
overlap_up = refl

strlen_runs : strlen 9 paths 100 ≡ some 7
unfolding strlen
strlen_runs = refl

compare_runs : memcmp paths 100 200 5 ≡ pos 0
unfolding memcmp
compare_runs = refl

trim_stat : (d : Deltoc) → strdeltoc 9 paths 100 b'/' ≡ some d → d.stat ≡ 1
unfolding strdeltoc strlen
trim_stat d e = ground arith

memmove_lem_example : memmove ramp 12 10 4 15 ≡ moved ramp 12 10 4 15
memmove_lem_example = memmove_lem ramp 12 10 4 15

memcmp-zero_iff_example : (memcmp paths 100 200 5 ≡ pos 0) ↔ Agree paths 100 200 0 5
memcmp-zero_iff_example = memcmp-zero_iff paths 100 200 5

pub dev-IsText : IsText paths 200 5
dev-IsText = record { ends = refl; inside = λ j lt. ground arith }

pub kb-IsText : IsText paths 100 7
kb-IsText = record { ends = refl; inside = λ j lt. ground arith }

pub paths_bytes : (p : ℕ) → paths p < 256
paths_bytes p = ground arith
