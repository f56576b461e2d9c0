-- ===== src/Core/Stm/Flash.antt =====
-- The flash registers of airfrog-core/src/stm.rs: their addresses, bits and status tests.
use airfrog.Prelude.{ℕ, ◌+◌, ◌/◌, ◌^◌, Bool, not, ◌==◌, bit_and}
use airfrog.Core.Fields.{get_flag}

-- STM32F4: FLASH_CR, FLASH_SR and FLASH_KEYR.
abbrev pub f4_cr : ℕ
f4_cr = 0x40023c10

abbrev pub f4_sr : ℕ
f4_sr = 0x40023c0c

abbrev pub f4_keyr : ℕ
f4_keyr = 0x40023c04

-- STM32G0: FLASH_CR, FLASH_SR and FLASH_KEYR.
abbrev pub g0_cr : ℕ
g0_cr = 0x40022014

abbrev pub g0_sr : ℕ
g0_sr = 0x40022010

abbrev pub g0_keyr : ℕ
g0_keyr = 0x40022008

-- The two keys of either family.
abbrev pub key1 : ℕ
key1 = 0x45670123

abbrev pub key2 : ℕ
key2 = 0xcdef89ab

-- `1 << LOCK_BIT`, and so on: the first four are the same for both families.
abbrev pub lock : ℕ
lock = 2 ^ 31

abbrev pub strt : ℕ
strt = 2 ^ 16

abbrev pub pg : ℕ
pg = 2 ^ 0

abbrev pub eop : ℕ
eop = 2 ^ 0

abbrev pub f4_mer : ℕ
f4_mer = 2 ^ 2

abbrev pub f4_ser : ℕ
f4_ser = 2 ^ 1

abbrev pub snb_mask : ℕ
snb_mask = 0xf

abbrev pub psize_mask : ℕ
psize_mask = 0x3

abbrev pub psize_x8 : ℕ
psize_x8 = 0

abbrev pub psize_x16 : ℕ
psize_x16 = 1

abbrev pub psize_x32 : ℕ
psize_x32 = 2

abbrev pub psize_x64 : ℕ
psize_x64 = 3

abbrev pub g0_bker : ℕ
g0_bker = 2 ^ 13

abbrev pub g0_per : ℕ
g0_per = 2 ^ 1

abbrev pub pnb_mask : ℕ
pnb_mask = 0x7f

unfoldable pub f4_busy : ℕ → Bool
f4_busy sr = not (bit_and (sr / 2 ^ 16) 1 == 0)

-- The mask of bits 1 and 4 to 8.
unfoldable pub f4_errors : ℕ → Bool
f4_errors sr = get_flag (2 ^ 1 + 2 ^ 4 + 2 ^ 5 + 2 ^ 6 + 2 ^ 7 + 2 ^ 8) sr

unfoldable pub g0_busy : ℕ → Bool
g0_busy sr = get_flag (2 ^ 16 + 2 ^ 17 + 2 ^ 18) sr

abbrev pub g0_error_clear_mask : ℕ
g0_error_clear_mask = 2 ^ 6 + 2 ^ 5 + 2 ^ 4 + 2 ^ 3

unfoldable pub g0_errors : ℕ → Bool
g0_errors sr = get_flag g0_error_clear_mask sr

unfoldable pub g0_eop_set : ℕ → Bool
g0_eop_set sr = not (bit_and (sr / 2 ^ 0) 1 == 0)
