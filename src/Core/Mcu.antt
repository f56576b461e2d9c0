-- ===== src/Core/Mcu.antt =====
-- `Mcu` of airfrog-core/src/lib.rs.
use airfrog.Prelude.{ℕ, ◌*◌, ◌/◌, Bool, true, false, Option, none, some, List}
use airfrog.Core.Stm
use airfrog.Core.Stm.{StmDetails}
use airfrog.Core.Stm.Sectors
use airfrog.Core.Rp
use airfrog.Core.Rp.{RpDetails}

pub data Mcu : Type 0 where
  stm32 : StmDetails → Mcu
  rp : RpDetails → Mcu
  unknown : ℕ → Mcu

-- `.map(|size| …)` on an optional size.
abbrev pub each : (ℕ → ℕ) → Option ℕ → Option ℕ
each f (some size) = some (f size)
each f none = none

unfoldable pub flash_base : Mcu → Option ℕ
flash_base (Mcu.stm32 d) = Stm.flash_base d
flash_base (Mcu.rp d) = Rp.flash_base d
flash_base (Mcu.unknown _) = none

unfoldable pub ram_base : Mcu → Option ℕ
ram_base (Mcu.stm32 d) = Stm.ram_base d
ram_base (Mcu.rp d) = Rp.ram_base d
ram_base (Mcu.unknown _) = none

unfoldable pub flash_size_kb : Mcu → Option ℕ
flash_size_kb (Mcu.stm32 d) = d.flash_size
flash_size_kb (Mcu.rp _) = none
flash_size_kb (Mcu.unknown _) = none

unfoldable pub flash_size_bytes : Mcu → Option ℕ
flash_size_bytes m = each (λ size. size * 1024) (flash_size_kb m)

unfoldable pub ram_size_kb : Mcu → Option ℕ
ram_size_kb (Mcu.stm32 d) = Stm.ram_size_kb (Stm.line d.mcu)
ram_size_kb (Mcu.rp d) = Rp.ram_size_kb d
ram_size_kb (Mcu.unknown _) = none

unfoldable pub ram_size_bytes : Mcu → Option ℕ
ram_size_bytes m = each (λ size. size * 1024) (ram_size_kb m)

unfoldable pub is_stm32 : Mcu → Bool
is_stm32 (Mcu.stm32 _) = true
is_stm32 _ = false

unfoldable pub is_rp : Mcu → Bool
is_rp (Mcu.rp _) = true
is_rp _ = false

unfoldable pub is_stm32f4 : Mcu → Bool
is_stm32f4 (Mcu.stm32 d) = Stm.is_stm32f4 d
is_stm32f4 (Mcu.rp _) = false
is_stm32f4 (Mcu.unknown _) = false

unfoldable pub get_sector_size_bytes : Mcu → ℕ → Option ℕ
get_sector_size_bytes (Mcu.stm32 d) sector = Sectors.get_sector_size_bytes d sector
get_sector_size_bytes (Mcu.rp _) sector = none
get_sector_size_bytes (Mcu.unknown _) sector = none

unfoldable pub get_sector_size_words : Mcu → ℕ → Option ℕ
get_sector_size_words m sector = each (λ size. size / 4) (get_sector_size_bytes m sector)

unfoldable pub get_sector_size_kb : Mcu → ℕ → Option ℕ
get_sector_size_kb m sector = each (λ size. size / 1024) (get_sector_size_bytes m sector)

unfoldable pub get_sectors_from_word_range : Mcu → ℕ → ℕ → Option (List ℕ)
get_sectors_from_word_range (Mcu.stm32 d) first last =
    Sectors.get_sectors_from_word_range d first last
get_sectors_from_word_range (Mcu.rp _) first last = none
get_sectors_from_word_range (Mcu.unknown _) first last = none

unfoldable pub expected_idr : Mcu → Option ℕ
expected_idr (Mcu.stm32 d) = Stm.expected_idr d
expected_idr (Mcu.rp d) = Rp.expected_idr d
expected_idr (Mcu.unknown _) = none
