-- ===== src/Ata/Disk.antt =====
-- The callback that reads sectors, against the disk as one array of bytes.
use cookies_os.Base.{
  ℕ, zero, suc, ◌+◌, ◌-◌, ◌*◌, ◌/◌, ◌%◌, ◌^◌, ◌≤◌, ◌<◌, ◌≡◌, ◌≢◌, refl, sym, ap, ◌∙◌, arith, inl,
  inr, le_or_lt, true, false, bit_and, ◌==◌, ◌&&◌, leb, ltb, if◌then◌else◌, some, List, ◌++◌, Mem,
  u32,
}
use cookies_os.Pic.{Out}
use cookies_os.Ata.{read_command, word_loop}
use cookies_os.Ata.Identify.{
  Bus, Io, ◌>>=◌, ata_status_bsy, ata_status_rdy, ata_wait_bsy, ata_wait_drq,
}
use cookies_os.Ata.Identify.Waits.{
  FirstClear, status_at, ata_wait_bsy-FirstClear, ata_wait_drq-ready,
}
use cookies_os.Ata.Reading.{ata_read_sector, ata_read_callback}
use cookies_os.Ata.Command.{Asked, read_command-Asked}
use cookies_os.Ata.Sector.{byte_of, word_loop-sector}
use cookies_os.Fat.{read_sectors}
use cookies_os.Fat.Cluster.{read_sectors_lem}

-- Byte `a` of the disk: byte `a % 512` of its sector.
abbrev pub disk_of : (ℕ → ℕ → ℕ) → ℕ → ℕ
disk_of device a = byte_of (device (a / 512)) (a % 512)

in_sector :
    (device : ℕ → ℕ → ℕ) (lba t : ℕ)
    → t < 512
    → disk_of device (lba * 512 + t) ≡ byte_of (device lba) t
in_sector device lba t h =
    let sector : (lba * 512 + t) / 512 ≡ lba = omega arith in
    let inside : (lba * 512 + t) % 512 ≡ t = omega arith in rw (sector, inside) refl

same_byte :
    (words words' : ℕ → ℕ) (t : ℕ)
    → ((i : ℕ) → words i ≡ words' i)
    → byte_of words t ≡ byte_of words' t
same_byte words words' t same = rw (same (t / 2)) refl

-- One sector as a part of the disk.
one_sector :
    (words : ℕ → ℕ) (device : ℕ → ℕ → ℕ) (lba target : ℕ) (m : Mem) (a r : ℕ)
    → r ≡ (if leb target a && ltb a (target + 512) then byte_of words (a - target) else m a)
    → ((i : ℕ) → words i ≡ device lba i)
    → r ≡ (
        if leb target a && ltb a (target + 1 * 512)
        then disk_of device (lba * 512 + (a - target))
        else m a)
one_sector words device lba target m a r e served = elim (le_or_lt 512 (a - target)) [
  | inr lt ↦
      let here = in_sector device lba (a - target) lt in
      let same = same_byte words (device lba) (a - target) served in ground (arith, here, same, e)
  | inl le ↦ ground (arith, e)
]

-- One sector and the sectors behind it.
joined :
    (f : ℕ → ℕ) (ptr n base next a r s w : ℕ)
    → next ≡ base + 512
    → r ≡ (
        if leb (ptr + 512) a && ltb a (ptr + 512 + n * 512)
        then f (next + (a - (ptr + 512)))
        else s)
    → s ≡ (if leb ptr a && ltb a (ptr + 1 * 512) then f (base + (a - ptr)) else w)
    → r ≡ (if leb ptr a && ltb a (ptr + suc n * 512) then f (base + (a - ptr)) else w)
joined f ptr n base next a r s w e behind here =
    let at : leb (ptr + 512) a ≡ true → next + (a - (ptr + 512)) ≡ base + (a - ptr) =
      λ h. ground arith in
    elim (le_or_lt (ptr + 512) a) [
      | inl le ↦ let same = ap f (at (ground arith)) in ground (arith, same, behind, here)
      | inr lt ↦ ground (arith, behind, here)
    ]

-- The drive: from each read on, the busy bit is clear within `fuel` reads of the status, and the next status is
-- ready; and when a sector is asked for, the data port returns that sector's half-words.
pub record IsDrive (answer : ℕ → ℕ → ℕ) (received : List Out → ℕ → ℕ) (fuel : ℕ)
    (device : ℕ → ℕ → ℕ) : Type 0 where
  pub settles :
      (r : ℕ)
      → (e : ℕ) × FirstClear (status_at answer) ata_status_bsy r e
        × (e < r + suc fuel)
        × (bit_and (status_at answer (e + 1)) ata_status_rdy ≢ 0)
  pub serves :
      (outs : List Out) (lba : ℕ) → Asked outs lba → (i : ℕ) → received outs i ≡ device lba i

io_some :
    {A B : Type 0} (m : Io A) (f : A → Io B) (b b' : Bus) (a : A)
    → m b ≡ some (a, b')
    → (m >>= f) b ≡ f a b'
io_some m f b b' a e = rw (e, ◌>>=◌) refl

module _ (answer : ℕ → ℕ → ℕ) (received : List Out → ℕ → ℕ) (fuel drive : ℕ) (device : ℕ → ℕ → ℕ)
    (on : drive ≢ 0) (is_drive : IsDrive answer received fuel device) where
  -- A sector in memory, or `left` sectors.
  abbrev Read : ℕ → ℕ → ℕ → Mem → Mem → Type 0
  Read lba left ptr m m' =
      (a : ℕ)
      → m' a ≡ (
          if leb ptr a && ltb a (ptr + left * 512)
          then disk_of device (lba * 512 + (a - ptr))
          else m a)

  sector-Read :
      (lba target : ℕ) (m : Mem) (b : Bus)
      → lba < 2 ^ 28
      → (b' : Bus) × (m' : Mem) × (ata_read_sector answer received (suc fuel) drive lba target m b
          ≡ some ((0, m'), b'))
        × Read lba 1 target m m'
  unfolding ata_read_sector
  sector-Read lba target m b small =
      let (e1, first1, soon1, ready1) = is_drive.settles b.reads in
      let b1 = record b { reads = e1 + 1 } in
      let b2 = record b1 { outs = b1.outs ++ read_command lba } in
      let (e2, first2, soon2, ready2) = is_drive.settles (e1 + 1) in
      let b3 = record b2 { reads = e2 + 1 } in
      let b4 = record b3 { reads = e2 + 1 + 1 } in
      let words = received b4.outs in
      let there : (drive == 0) ≡ false = ground (arith, on) in
      (
        record b4 { reads = e2 + 1 + 1 + 256 },
        word_loop words target 256 0 0 m,
        rw there (
            io_some (ata_wait_bsy answer (suc fuel)) _ b b1 tt
              (ata_wait_bsy-FirstClear answer (suc fuel) e1 b first1 soon1)
            ∙ io_some (ata_wait_bsy answer (suc fuel)) _ b2 b3 tt
                (ata_wait_bsy-FirstClear answer (suc fuel) e2 b2 first2 soon2)
            ∙ io_some (ata_wait_drq answer (suc fuel)) _ b3 b4 tt
                (ata_wait_drq-ready answer fuel b3 ready2)),
        λ a.
            let served : (i : ℕ) → words i ≡ device lba i =
              is_drive.serves (b.outs ++ read_command lba) lba
                (read_command-Asked b.outs lba small) in
            one_sector words device lba target m a _ (word_loop-sector words target m a) served,
      )

  sectors-Read :
      (left lba ptr : ℕ) (m : Mem) (b : Bus)
      → lba + left ≤ 2 ^ 28
      → (b' : Bus) × (m' : Mem) × (ata_read_callback answer received
            (suc fuel)
            drive
            lba
            left
            ptr
            m
            b
          ≡ some (m', b'))
        × Read lba left ptr m m'
  unfolding ata_read_callback
  sectors-Read zero lba ptr m b fits = (b, m, refl, λ a. ground arith)
  sectors-Read (suc left) lba ptr m b fits =
      let word : u32 lba ≡ lba = omega arith in
      let (b1, m1, ran, read) = sector-Read lba ptr m b (omega arith) in
      let (b2, m2, rest, behind) = sectors-Read left (lba + 1) (ptr + 512) m1 b1 (omega arith) in
      (
        b2,
        m2,
        io_some (ata_read_sector answer received (suc fuel) drive (u32 lba) ptr m) _ b b1 (0, m1)
              (ap (λ (k : ℕ). ata_read_sector answer received (suc fuel) drive k ptr m b) word
                ∙ ran)
            ∙ rest,
        λ a.
            joined (disk_of device) ptr left (lba * 512) ((lba + 1) * 512) a _ (m1 a) (m a)
              (omega arith) (behind a) (read a),
      )

  -- With a drive that settles within the fuel and answers the bytes of the command it was sent, where the
  -- sector numbers have 28 bits: the callback returns, and leaves the memory that reading the same sectors of
  -- the disk as one array of bytes leaves.
  pub ata_read_callback-read_sectors :
      (offset size ptr : ℕ) (m : Mem) (b : Bus)
      → offset + size ≤ 2 ^ 28
      → (b' : Bus) × (m' : Mem) × (ata_read_callback answer received
            (suc fuel)
            drive
            offset
            size
            ptr
            m
            b
          ≡ some (m', b'))
        × ((a : ℕ) → m' a ≡ read_sectors (disk_of device) offset size ptr m a)
  ata_read_callback-read_sectors offset size ptr m b fits =
      let (b', m', ran, read) = sectors-Read size offset ptr m b fits in
      (b', m', ran, λ a. read a ∙ sym (read_sectors_lem (disk_of device) offset size ptr m a))
