-- ===== src/Swd/Debug/Erase.antt =====
-- Flash erasure of `DebugInterface` in airfrog-swd/src/debug.rs. Each polling loop is given `n` rounds.
pub mod Fields
use airfrog.Prelude.{
  ℕ, zero, suc, Bool, true, false, not, ltb, leb, if◌then◌else◌, ◌+◌, ◌*◌, ◌/◌, ◌^◌, ◌==◌, bit_and,
  bit_or, Option, some, none,
}
use airfrog.Bin.Error.{Result, ok, err}
use airfrog.Core.Fields.{u32_not}
use airfrog.Core.Stm.{StmDetails, flash_size_bytes}
use airfrog.Core.Stm.Flash.{
  f4_cr, f4_sr, f4_mer, f4_ser, snb_mask, psize_x64, strt, f4_busy, f4_errors, g0_cr, g0_sr, g0_per,
  g0_bker, pnb_mask, g0_busy, g0_errors,
}
use airfrog.Swd.Error.{SwdError}
use airfrog.Swd.Debug.{
  TargetMemory, DebugError, Run, pure, fail, continue, ◌>>=◌, ◌>>◌, read, write, poll, finished,
  set_bits, clear_bits, stm32g0_wait_not_busy, stm32g0_clear_status, on_flash,
}

abbrev pub page_size : ℕ
page_size = 0x800

abbrev pub bank_size : ℕ
bank_size = 0x40000

-- The control register of an STM32F4 for the erasure of a sector. `SNB` is not cleared first.
unfoldable pub f4_sector_cr : ℕ → ℕ → ℕ
f4_sector_cr cr sector =
    bit_or (bit_or (bit_or cr f4_ser) (bit_and sector snb_mask * 2 ^ 3)) (psize_x64 * 2 ^ 8)

-- The control register of an STM32G0 for the erasure of a page.
unfoldable pub g0_page_cr : ℕ → ℕ → ℕ
g0_page_cr cr sector =
    let flash_offset = sector * page_size in
    let page_in_bank = bit_and (flash_offset / 2 ^ 11) pnb_mask in
    let cleared = bit_and (bit_and cr (u32_not (pnb_mask * 2 ^ 3))) (u32_not g0_bker) in
    let page_erase = bit_or cleared g0_per in
    let banked = if leb bank_size flash_offset then bit_or page_erase g0_bker else page_erase in
    bit_or banked (page_in_bank * 2 ^ 3)

module _ (m : TargetMemory) (n : ℕ) where
  unfoldable pub execute_stm32f4_erase : ℕ → Run m.State (Unit {0})
  execute_stm32f4_erase flash_cr = do
    write m f4_cr (bit_or flash_cr strt)
    done ← poll m f4_errors f4_busy f4_sr n
    finished m done

  unfoldable pub execute_stm32g0_erase_page : ℕ → Run m.State (Unit {0})
  execute_stm32g0_erase_page flash_cr = do
    stm32g0_wait_not_busy m n
    stm32g0_clear_status m
    write m g0_cr (bit_or flash_cr strt)
    done ← poll m g0_errors g0_busy g0_sr n
    finished m done

  unfoldable pub erase_sector_f4 : ℕ → Run m.State (Unit {0})
  erase_sector_f4 sector = do
    cr ← read m f4_cr
    write m f4_cr (f4_sector_cr cr sector)
    execute_stm32f4_erase (f4_sector_cr cr sector)

  unfoldable pub erase_page_g0 : ℕ → Run m.State (Unit {0})
  erase_page_g0 sector = do
    cr ← read m g0_cr
    write m g0_cr (g0_page_cr cr sector)
    execute_stm32g0_erase_page (g0_page_cr cr sector)
    clear_bits m g0_cr g0_per

  -- `stm.flash_size_bytes().ok_or(SwdError::Unsupported)?` and the check of the page.
  abbrev pub erase_page_within : ℕ → Option ℕ → Run m.State (Unit {0})
  erase_page_within sector (some flash_size) =
      if leb (flash_size / page_size) sector then fail SwdError.api else erase_page_g0 sector
  erase_page_within sector none = fail SwdError.unsupported

  unfoldable pub erase_sector : ℕ → Run m.State (Unit {0})
  erase_sector sector =
      on_flash m (λ _. erase_sector_f4 sector)
        (λ stm. erase_page_within sector (flash_size_bytes stm))

  unfoldable pub erase_all_f4 : Run m.State (Unit {0})
  erase_all_f4 = do
    cr ← read m f4_cr
    write m f4_cr (bit_or cr f4_mer)
    execute_stm32f4_erase (bit_or cr f4_mer)

  -- The pages that are left, from `page` on.
  unfoldable pub erase_pages : ℕ → ℕ → Run m.State (Unit {0})
  erase_pages zero page = pure tt
  erase_pages (suc left) page = do erase_sector page; erase_pages left (page + 1)

  abbrev pub erase_all_within : Option ℕ → Run m.State (Unit {0})
  erase_all_within (some flash_size) = erase_pages (flash_size / page_size) 0
  erase_all_within none = fail SwdError.unsupported

  unfoldable pub erase_all : Run m.State (Unit {0})
  erase_all = on_flash m (λ _. erase_all_f4) (λ stm. erase_all_within (flash_size_bytes stm))
