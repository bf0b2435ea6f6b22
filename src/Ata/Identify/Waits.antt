-- ===== src/Ata/Identify/Waits.antt =====
-- The loops that wait for the drive end with the first answer they wait for.
use cookies_os.Base.{
  ℕ, zero, suc, ◌+◌, ◌<◌, ◌≤◌, ◌≡◌, ◌≢◌, inl, inr, le_or_lt, Bool-cases, sym, refl, ap, ◌∙◌, arith,
  true, false, bit_and, ◌==◌, some,
}
use cookies_os.Ata.{ata_primary_io}
use cookies_os.Ata.Identify.{
  Bus, ata_status_bsy, ata_status_rdy, ata_reg_status, ata_wait_bsy, ata_wait_drq,
}

not_zero : (n : ℕ) → n == 0 ≡ false → n ≢ 0
not_zero n differs z = ground arith

-- The status that the read with number `n` returns.
abbrev pub status_at : (ℕ → ℕ → ℕ) → ℕ → ℕ
status_at answer n = answer (ata_primary_io + ata_reg_status) n

-- Read number `e` is the first from number `r` on whose answer has no bit of `mask`.
pub record FirstClear (status : ℕ → ℕ) (mask r e : ℕ) : Type 0 where
  pub from : r ≤ e
  pub before : (k : ℕ) → r ≤ k → k < e → bit_and (status k) mask ≢ 0
  pub clear : bit_and (status e) mask ≡ 0

FirstClear-here :
    (status : ℕ → ℕ) (mask r e : ℕ)
    → FirstClear status mask r e
    → bit_and (status r) mask == 0 ≡ true
    → e ≡ r
FirstClear-here status mask r e first clear = elim (le_or_lt e r) [
  | inl le ↦ omega (arith, first.from)
  | inr lt ↦ absurd (first.before r (omega arith) lt (ground (arith, clear)))
]

FirstClear-next :
    (status : ℕ → ℕ) (mask r e : ℕ)
    → FirstClear status mask r e
    → bit_and (status r) mask == 0 ≡ false
    → FirstClear status mask (r + 1) e
FirstClear-next status mask r e first busy = record {
  from = elim (le_or_lt e r) [
    | inl le ↦
        let same : e ≡ r = omega (arith, first.from) in
        absurd (
          not_zero (bit_and (status r) mask) busy
            (ap (λ k. bit_and (status k) mask) (sym same) ∙ first.clear))
    | inr lt ↦ omega arith
  ];
  before = λ k low high. first.before k (omega arith) high;
  clear = first.clear;
}

module _ (answer : ℕ → ℕ → ℕ) where
  -- When one of the next `fuel` reads of the status is the first without the busy bit, _ata_wait_bsy ends
  -- behind it, and nothing else has changed.
  pub ata_wait_bsy-FirstClear :
      (fuel e : ℕ) (b : Bus)
      → FirstClear (status_at answer) ata_status_bsy b.reads e
      → e < b.reads + fuel
      → ata_wait_bsy answer fuel b ≡ some (tt, record b { reads = e + 1 })
  unfolding ata_wait_bsy
  ata_wait_bsy-FirstClear zero e b first enough = absurd (omega (arith, first.from))
  ata_wait_bsy-FirstClear (suc fuel) e b first enough =
      elim (Bool-cases (bit_and (status_at answer b.reads) ata_status_bsy == 0)) [
        | inl idle ↦ rw idle (
            ap (λ k. some (tt, record b { reads = k + 1 }))
              (sym (FirstClear-here (status_at answer) ata_status_bsy b.reads e first idle)))
        | inr busy ↦ rw busy (
            ata_wait_bsy-FirstClear fuel e (record b { reads = b.reads + 1 })
              (FirstClear-next (status_at answer) ata_status_bsy b.reads e first busy)
              (omega arith))
      ]

  pub ata_wait_drq-ready :
      (fuel : ℕ) (b : Bus)
      → bit_and (status_at answer b.reads) ata_status_rdy ≢ 0
      → ata_wait_drq answer (suc fuel) b ≡ some (tt, record b { reads = b.reads + 1 })
  unfolding ata_wait_drq
  ata_wait_drq-ready fuel b ready =
      let on : bit_and (status_at answer b.reads) ata_status_rdy == 0 ≡ false =
        ground (arith, ready) in
      rw on refl
