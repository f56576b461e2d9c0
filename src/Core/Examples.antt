-- ===== src/Core/Examples.antt =====
-- The theorems on the register types and the chips at concrete values.
use airfrog.Prelude.{◌≡◌, ◌↔◌, ◌+◌, ◌*◌, arith, refl, some, none, [], ◌∷◌}
use airfrog.Core.Csw.{default}
use airfrog.Core.Stm.{StmDetails, is_stm32f4, family, family_of, device_id, flash_size_bytes}
use airfrog.Core.Stm.Sectors.{
  sector_sizes, sectors_from, sectors_within, get_sectors_from_word_range,
}
use airfrog.Core.Stm.Sectors.Ranges.{Has, Touches, get_sectors_from_word_range-Touches}

default_value : default ≡ 0x22000042
unfolding default
default_value = refl

-- An STM32F411 with 512 KB of flash.
abbrev f411 : StmDetails
f411 = record { mcu = 0x10006431; idcode = 0x2ba01477; uid = none; flash_size = some 512 }

first_64_kb : get_sectors_from_word_range f411 0 0x3fff ≡ some (0 ∷ 1 ∷ 2 ∷ 3 ∷ [])
unfolding get_sectors_from_word_range sectors_within sectors_from is_stm32f4 family family_of
    device_id flash_size_bytes
first_64_kb = refl

get_sectors_from_word_range-Touches_example :
    Has 3 (0 ∷ 1 ∷ 2 ∷ 3 ∷ []) ↔ Touches (0 * 4) (0x3fff * 4 + 3) 0 0 sector_sizes 3
get_sectors_from_word_range-Touches_example =
    get_sectors_from_word_range-Touches f411 0 0x3fff (0 ∷ 1 ∷ 2 ∷ 3 ∷ []) 3 (omega arith)
      (omega arith) first_64_kb
