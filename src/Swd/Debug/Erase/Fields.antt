-- ===== src/Swd/Debug/Erase/Fields.antt =====
-- The control register that `erase_sector` writes picks the page that it was asked for.
use airfrog.Prelude.{
  ℕ, ◌+◌, ◌*◌, ◌/◌, ◌%◌, ◌^◌, ◌<◌, ◌≤◌, ◌≡◌, ◌↔◌, arith, Bool, true, false, Bool-cases, inl, inr,
  leb, if◌then◌else◌, bit_and, bit_or,
}
use airfrog.Prelude.Bits.{
  bit_and_fields, bit_or_fields, bit_and-zero, bit_or-zero, bit_and_ones, bit_and_low_mask,
  bit_or_digit, bit_or_high_low,
}
use airfrog.Core.Fields.{u32_not}
use airfrog.Core.Stm.Flash.{pnb_mask, g0_bker, g0_per}
use airfrog.Swd.Debug.Erase.{g0_page_cr, page_size, bank_size}

-- Clearing the page number and the bank.
clear_pnb :
    (v : ℕ) → v < 2 ^ 32 → bit_and v (u32_not (pnb_mask * 2 ^ 3)) ≡ v / 2 ^ 10 * 2 ^ 10 + v % 8
clear_pnb v h = ground (
  arith,
  bit_and_fields 10 (v / 2 ^ 10) (v % 2 ^ 10) 0x3f_ffff 7 (omega arith) (omega arith),
  bit_and_ones 22 (v / 2 ^ 10) (omega arith),
  bit_and_low_mask 3 (v % 2 ^ 10),
)

clear_bker : (v : ℕ) → v < 2 ^ 32 → bit_and v (u32_not g0_bker) ≡ v / 2 ^ 14 * 2 ^ 14 + v % 2 ^ 13
clear_bker v h = ground (
  arith,
  bit_and_fields 13 (v / 2 ^ 13) (v % 2 ^ 13) 0x7_fffe 0x1fff (omega arith) (omega arith),
  bit_and_low_mask 13 (v % 2 ^ 13),
  bit_and_fields 1 (v / 2 ^ 14) (v / 2 ^ 13 % 2) 0x3_ffff 0 (omega arith) (omega arith),
  bit_and_ones 18 (v / 2 ^ 14) (omega arith),
  bit_and-zero (v / 2 ^ 13 % 2),
)

set_per : (v : ℕ) → bit_or v g0_per ≡ v / 4 * 4 + 2 + v % 2
set_per v = ground (
  arith,
  bit_or_fields 1 (v / 2) (v % 2) 1 0 (omega arith) (omega arith),
  bit_or-zero (v % 2),
  bit_or_digit (v / 2) 1,
  bit_or-zero (v / 4),
)

set_bker : (v : ℕ) → bit_or v g0_bker ≡ v / 2 ^ 14 * 2 ^ 14 + 2 ^ 13 + v % 2 ^ 13
set_bker v = ground (
  arith,
  bit_or_fields 13 (v / 2 ^ 13) (v % 2 ^ 13) 1 0 (omega arith) (omega arith),
  bit_or-zero (v % 2 ^ 13),
  bit_or_digit (v / 2 ^ 13) 1,
  bit_or-zero (v / 2 ^ 14),
)

-- The page number goes into cleared bits.
set_pnb : (v p : ℕ) → p < 2 ^ 7 → v / 8 % 2 ^ 7 ≡ 0 → bit_or v (p * 2 ^ 3) ≡ v + p * 8
set_pnb v p h k = ground (
  arith,
  bit_or_fields 3 (v / 8) (v % 8) p 0 (omega arith) (omega arith),
  bit_or-zero (v % 8),
  bit_or_high_low 7 (v / 8 / 2 ^ 7) p h,
)

page_in_bank : (sector : ℕ) → bit_and (sector * page_size / 2 ^ 11) pnb_mask ≡ sector % 128
page_in_bank sector = ground (arith, bit_and_low_mask 7 sector)

-- The register before the page number is put in: the other bits as they were, PER set.
with_bank : ℕ → Bool → ℕ
with_bank v bank =
    let page_erase =
      bit_or (bit_and (bit_and v (u32_not (pnb_mask * 2 ^ 3))) (u32_not g0_bker)) g0_per in
    if bank then bit_or page_erase g0_bker else page_erase

page_erase_lem :
    (v : ℕ)
    → v < 2 ^ 32
    → bit_or (bit_and (bit_and v (u32_not (pnb_mask * 2 ^ 3))) (u32_not g0_bker)) g0_per
      ≡ v / 2 ^ 14 * 2 ^ 14 + v / 2 ^ 10 % 8 * 2 ^ 10 + v / 4 % 2 * 4 + 2 + v % 2
page_erase_lem v h =
    let once = v / 2 ^ 10 * 2 ^ 10 + v % 8 in
    let twice = once / 2 ^ 14 * 2 ^ 14 + once % 2 ^ 13 in
    rw (clear_pnb v h, clear_bker once (omega arith), set_per twice) (omega arith)

with_bank_lem :
    (v : ℕ) (bank : Bool)
    → v < 2 ^ 32
    → with_bank v bank
      ≡ v / 2 ^ 14 * 2 ^ 14
        + (if bank then 2 ^ 13 else 0)
        + v / 2 ^ 10 % 8 * 2 ^ 10
        + v / 4 % 2 * 4
        + 2
        + v % 2
unfolding with_bank
with_bank_lem v false h = omega (arith, page_erase_lem v h)
with_bank_lem v true h =
    let rest = v / 2 ^ 14 * 2 ^ 14 + v / 2 ^ 10 % 8 * 2 ^ 10 + v / 4 % 2 * 4 + 2 + v % 2 in
    rw (page_erase_lem v h, set_bker rest) (omega arith)

with_bank-room : (v : ℕ) (bank : Bool) → v < 2 ^ 32 → with_bank v bank / 8 % 2 ^ 7 ≡ 0
with_bank-room v true h = omega (arith, with_bank_lem v true h)
with_bank-room v false h = omega (arith, with_bank_lem v false h)

g0_page_cr_lem :
    (cr sector : ℕ)
    → cr < 2 ^ 32
    → g0_page_cr cr sector ≡ with_bank cr (leb bank_size (sector * page_size)) + sector % 128 * 8
unfolding g0_page_cr with_bank
g0_page_cr_lem cr sector h =
    let bank = leb bank_size (sector * page_size) in
    rw (page_in_bank sector)
      (set_pnb (with_bank cr bank) (sector % 128) (omega arith) (with_bank-room cr bank h))

-- The control register for the erasure of a page, from a 32-bit register: its page number and its
-- bank are the page's, at 128 pages in a bank, PER is set, and every other bit is as it was.
pub g0_page_cr-fields :
    (cr sector : ℕ)
    → cr < 2 ^ 32
    → (g0_page_cr cr sector / 2 ^ 3 % 128 ≡ sector % 128)
      × ((g0_page_cr cr sector / 2 ^ 13 % 2 ≡ 1) ↔ (128 ≤ sector))
      × (g0_page_cr cr sector / 2 % 2 ≡ 1)
      × (g0_page_cr cr sector % 2 ≡ cr % 2)
      × (g0_page_cr cr sector / 2 ^ 2 % 2 ≡ cr / 2 ^ 2 % 2)
      × (g0_page_cr cr sector / 2 ^ 10 % 8 ≡ cr / 2 ^ 10 % 8)
      × (g0_page_cr cr sector / 2 ^ 14 ≡ cr / 2 ^ 14)
g0_page_cr-fields cr sector h = elim (Bool-cases (leb bank_size (sector * page_size))) [
  | inl b ↦
      let far : 128 ≤ sector = ground arith in
      let value : g0_page_cr cr sector ≡ with_bank cr true + sector % 128 * 8 =
        rw b at (g0_page_cr_lem cr sector h) in
      ground (arith, with_bank_lem cr true h)
  | inr b ↦
      let near : sector < 128 = ground arith in
      let value : g0_page_cr cr sector ≡ with_bank cr false + sector % 128 * 8 =
        rw b at (g0_page_cr_lem cr sector h) in
      ground (arith, with_bank_lem cr false h)
]
