-- ===== src/Ata/Sector.antt =====
-- The bytes of a sector, low byte first.
use cookies_os.Base.{
  ℕ, zero, suc, ◌+◌, ◌-◌, ◌*◌, ◌/◌, ◌%◌, ◌≡◌, arith, ◌&&◌, ◌==◌, leb, ltb, if◌then◌else◌, Mem,
  write,
}
use cookies_os.Ata.{word_loop}

abbrev pub byte_of : (ℕ → ℕ) → ℕ → ℕ
byte_of words t = if t % 2 == 0 then words (t / 2) % 256 else words (t / 2) / 256 % 256

word_loop_lem :
    (words : ℕ → ℕ) (target left i : ℕ) (m : Mem) (a : ℕ)
    → word_loop words target left i (2 * i) m a ≡ (
        if leb (target + 2 * i) a && ltb a (target + 2 * (i + left))
        then byte_of words (a - target)
        else m a)
unfolding word_loop write
word_loop_lem words target zero i m a = ground arith
word_loop_lem words target (suc left) i m a =
    let twice : 2 * i + 2 ≡ 2 * (i + 1) = omega arith in
    let low = write m (target + 2 * i) (words i % 256) in
    let high = write low (target + (2 * i + 1)) (words i / 256 % 256) in
    rw twice (ground (arith, word_loop_lem words target left (i + 1) high a))

-- A sector fills the 512 bytes from `target` on, two to each half-word that the data port returns, the low
-- byte first, and changes nothing else.
pub word_loop-sector :
    (words : ℕ → ℕ) (target : ℕ) (m : Mem) (a : ℕ)
    → word_loop words target 256 0 0 m a
      ≡ (if leb target a && ltb a (target + 512) then byte_of words (a - target) else m a)
word_loop-sector words target m a = ground (arith, word_loop_lem words target 256 0 m a)
