-- ===== src/Paging/Entry.antt =====
-- The macros of src/kernel/paging.h on the value of an entry.
use cookies_os.Base.{
  ℕ, ◌+◌, ◌-◌, ◌*◌, ◌/◌, ◌%◌, ◌^◌, ◌<◌, ◌≡◌, bit_and, bit_or, arith, ap, ◌∙◌, complement,
  bit_and_parts, bit_and-zero, bit_or-one, bit_or_comm, bit_or_parts, bit_or-zero, bit_and_low_bits,
  ltb, if◌then◌else◌, inl, inr, le_or_lt,
}
use cookies_os.Paging.{
  page_phys_address, set_frame, frame_mask, pt_index, test_attribute, set_attribute, pte_present,
}

-- The address in an entry.
pub page_phys_address_lem :
    (entry : ℕ) → entry < 2 ^ 32 → page_phys_address entry ≡ entry / 4096 * 4096
page_phys_address_lem entry h = omega (
  arith,
  bit_and_parts 12 entry (2 ^ 20 - 1) 0 (omega arith),
  bit_and_low_bits 20 (entry / 4096),
  bit_and-zero entry,
)

pub pt_index_lem : (virt : ℕ) → pt_index virt ≡ virt / 4096 % 1024
pt_index_lem virt = bit_and_low_bits 10 (virt / 4096)

-- What SET_FRAME keeps: the flags, and bit 31, which the mask does not cover.
kept_bits :
    (entry : ℕ)
    → entry < 2 ^ 32
    → bit_and entry (complement 32 frame_mask) ≡ entry / 2 ^ 31 * 2 ^ 31 + entry % 4096
kept_bits entry h = omega (
  arith,
  bit_and_parts 12 entry (2 ^ 19) (2 ^ 12 - 1) (omega arith),
  bit_and_low_bits 12 entry,
  bit_and_parts 19 (entry / 4096) 1 0 (omega arith),
  bit_and_low_bits 1 (entry / 4096 / 2 ^ 19),
  bit_and-zero (entry / 4096),
)

-- The frame that an entry has when frame `q` is set in it: the highest bit is not cleared.
abbrev pub frame_set_in : ℕ → ℕ → ℕ
frame_set_in entry q = if ltb entry (2 ^ 31) then q else 2 ^ 19 + q % 2 ^ 19

high_bit :
    (entry q : ℕ)
    → entry < 2 ^ 32
    → q < 2 ^ 20
    → bit_or (entry / 2 ^ 31 * 2 ^ 19) q ≡ frame_set_in entry q
high_bit entry q h frame =
    let parts = bit_or_comm (entry / 2 ^ 31 * 2 ^ 19) q ∙ bit_or_parts 19 q (entry / 2 ^ 31) in
    elim (le_or_lt (2 ^ 31) entry) [
      | inl set ↦
          let one : entry / 2 ^ 31 ≡ 1 = omega (arith, h) in
          let c = ap (λ (t : ℕ). bit_or (q / 2 ^ 19) t) one ∙ bit_or-one (q / 2 ^ 19) in
          ground (arith, parts, c)
      | inr clear ↦
          let zero_bit : entry / 2 ^ 31 ≡ 0 = omega arith in
          let c = ap (λ (t : ℕ). bit_or (q / 2 ^ 19) t) zero_bit ∙ bit_or-zero (q / 2 ^ 19) in
          ground (arith, parts, c)
    ]

pub set_frame_lem :
    (entry q : ℕ)
    → entry < 2 ^ 32
    → q < 2 ^ 20
    → set_frame entry (q * 4096) ≡ frame_set_in entry q * 4096 + entry % 4096
set_frame_lem entry q h frame =
    let kept = entry / 2 ^ 31 * 2 ^ 31 + entry % 4096 in
    let above : kept / 4096 ≡ entry / 2 ^ 31 * 2 ^ 19 = omega arith in
    let below : kept % 4096 ≡ entry % 4096 = omega arith in
    ap (λ (t : ℕ). bit_or t (q * 4096)) (kept_bits entry h)
    ∙ bit_or_parts 12 kept q
    ∙ omega (arith, below, ap (λ (t : ℕ). bit_or t q) above, high_bit entry q h frame)

-- Marking as present.
pub present_lem : (entry : ℕ) → set_attribute entry pte_present ≡ entry / 2 * 2 + 1
present_lem entry = bit_or-one entry

pub is_present_lem : (entry : ℕ) → test_attribute entry pte_present ≡ entry % 2
is_present_lem entry = bit_and_low_bits 1 entry
