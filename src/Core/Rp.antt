-- ===== src/Core/Rp.antt =====
-- airfrog-core/src/rp.rs: the Raspberry Pi chips.
use airfrog.Prelude.{ℕ, ◌||◌, ◌==◌, if◌then◌else◌, Option, none, some}
use airfrog.Core.Cortex.{idcode_m0, idcode_m0_plus, idcode_m33, idr_cortex_m0, idr_cortex_m33}

pub data RpLine : Type 0 where
  rp2040 rp2350 unknown : RpLine

abbrev pub rp2040_chip_id : ℕ
rp2040_chip_id = 0x10002927

abbrev pub rp2040_chip_id_address : ℕ
rp2040_chip_id_address = 0x40000000

abbrev pub rp2040_cpu_id : ℕ
rp2040_cpu_id = 0x410cc601

abbrev pub rp2040_cpu_id_address : ℕ
rp2040_cpu_id_address = 0xe000ed00

unfoldable pub ram_size_kb : RpLine → Option ℕ
ram_size_kb RpLine.rp2040 = some 264
ram_size_kb RpLine.rp2350 = some 512
ram_size_kb RpLine.unknown = none

unfoldable pub expected_idr : RpLine → Option ℕ
expected_idr RpLine.rp2040 = some idr_cortex_m0
expected_idr RpLine.rp2350 = some idr_cortex_m33
expected_idr RpLine.unknown = none

-- `RpDetails`, which holds its line only.
abbrev pub RpDetails : Type 0
RpDetails = RpLine

unfoldable pub from_idcode : ℕ → Option RpDetails
from_idcode idcode =
    if idcode == idcode_m0 || idcode == idcode_m0_plus
    then some RpLine.rp2040
    else if idcode == idcode_m33
    then some RpLine.rp2350
    else none

unfoldable pub flash_base : RpDetails → Option ℕ
flash_base RpLine.rp2040 = some 0x10000000
flash_base RpLine.rp2350 = some 0x10000000
flash_base RpLine.unknown = none

unfoldable pub ram_base : RpDetails → Option ℕ
ram_base RpLine.rp2040 = some 0x20000000
ram_base RpLine.rp2350 = some 0x20000000
ram_base RpLine.unknown = none
