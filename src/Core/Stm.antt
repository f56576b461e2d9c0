-- ===== src/Core/Stm.antt =====
-- airfrog-core/src/stm.rs: the identification of STM32 devices. A device ID is a number below
-- 2 ^ 32, and a flash size is the device's 16-bit number of kilobytes.
pub mod Sectors
pub mod Flash
use airfrog.Prelude.{
  ℕ, ◌+◌, ◌*◌, ◌/◌, ◌^◌, ◌||◌, Bool, true, false, ◌==◌, if◌then◌else◌, Option, none, some, List, [],
  ◌∷◌, bit_and, not,
}
use airfrog.Prelude.Bytes.{u32_to_le_bytes}
use mathlib.Core.Option
use airfrog.Core.Cortex
use airfrog.Core.Cortex.{Cortex, idr_cortex_m0, idr_cortex_m3, idr_cortex_m4}

pub data StmFamily : Type 0 where
  f4 f1 g0 unknown : StmFamily

pub data StmLine : Type 0 where
  f401bc f401de f411 f427_f437 f413_f423 f4x5 f446 f103 g070_g071 unknown : StmLine

abbrev pub known : StmFamily → Bool
known StmFamily.unknown = false
known _ = true

unfoldable pub ram_size_kb : StmLine → Option ℕ
ram_size_kb StmLine.f401bc = some 96
ram_size_kb StmLine.f401de = some 96
ram_size_kb StmLine.f411 = some 128
ram_size_kb StmLine.f427_f437 = some 192
ram_size_kb StmLine.f413_f423 = some 256
ram_size_kb StmLine.f4x5 = some 128
ram_size_kb StmLine.f446 = some 128
ram_size_kb StmLine.f103 = some 20
ram_size_kb StmLine.g070_g071 = none
ram_size_kb StmLine.unknown = none

unfoldable pub ccm_ram_size_kb : StmLine → Option ℕ
ccm_ram_size_kb StmLine.f4x5 = some 64
ccm_ram_size_kb _ = none

abbrev pub StmDeviceId : Type 0
StmDeviceId = ℕ

-- `StmDeviceId::ADDRESS`
abbrev pub device_id_address : ℕ
device_id_address = 0xe0042000

unfoldable pub revision : StmDeviceId → ℕ
revision raw = bit_and (raw / 2 ^ 16) 0xffff

unfoldable pub device_id : StmDeviceId → ℕ
device_id raw = bit_and raw 0xfff

-- The `match` of `family`, on `device_id()`.
unfoldable pub family_of : ℕ → StmFamily
family_of id =
    if id == 0x423
      || id == 0x433
      || id == 0x431
      || id == 0x413
      || id == 0x419
      || id == 0x463
      || id == 0x421
    then StmFamily.f4
    else if id == 0x412 || id == 0x410 || id == 0x414 || id == 0x430 || id == 0x418
    then StmFamily.f1
    else if id == 0x460
    then StmFamily.g0
    else StmFamily.unknown

unfoldable pub family : StmDeviceId → StmFamily
family raw = family_of (device_id raw)

-- The `match` of `line`, on `device_id()`.
unfoldable pub line_of : ℕ → StmLine
line_of id =
    if id == 0x423
    then StmLine.f401bc
    else if id == 0x433
    then StmLine.f401de
    else if id == 0x431
    then StmLine.f411
    else if id == 0x413
    then StmLine.f4x5
    else if id == 0x419
    then StmLine.f427_f437
    else if id == 0x463
    then StmLine.f413_f423
    else if id == 0x421
    then StmLine.f446
    else if id == 0x410
    then StmLine.f103
    else if id == 0x460
    then StmLine.g070_g071
    else StmLine.unknown

unfoldable pub line : StmDeviceId → StmLine
line raw = line_of (device_id raw)

-- The three words of the unique ID, UID31:0 first.
pub record StmUniqueId : Type 0 where
  pub uid_0 : ℕ
  pub uid_1 : ℕ
  pub uid_2 : ℕ

-- `StmUniqueId::addr_from_family`
unfoldable pub uid_address : StmFamily → Option ℕ
uid_address StmFamily.f4 = some 0x1fff7a10
uid_address StmFamily.f1 = some 0x1ffff7e8
uid_address StmFamily.g0 = some 0x1fff7590
uid_address StmFamily.unknown = none

unfoldable pub uid_x : StmUniqueId → ℕ
uid_x uid = bit_and uid.uid_0 0xffff

unfoldable pub uid_y : StmUniqueId → ℕ
uid_y uid = bit_and (uid.uid_0 / 2 ^ 16) 0xffff

unfoldable pub uid_wafer : StmUniqueId → ℕ
uid_wafer uid = bit_and uid.uid_1 0xff

-- `StmFlashSize::addr_from_family`
unfoldable pub flash_size_address : StmFamily → Option ℕ
flash_size_address StmFamily.f4 = some 0x1fff7a20
flash_size_address StmFamily.f1 = some 0x1ffff7e0
flash_size_address StmFamily.g0 = some 0x1fff75e0
flash_size_address StmFamily.unknown = none

pub record StmDetails : Type 0 where
  pub mcu : StmDeviceId
  pub idcode : ℕ
  pub uid : Option StmUniqueId
  pub flash_size : Option ℕ

unfoldable pub get_cortex : StmDetails → Option Cortex
get_cortex d = Cortex.from_idcode d.idcode

-- `self.flash_size.map(|size| size.size_bytes())`
abbrev pub size_bytes : Option ℕ → Option ℕ
size_bytes (some raw) = some (raw * 1024)
size_bytes none = none

unfoldable pub flash_size_bytes : StmDetails → Option ℕ
flash_size_bytes d = size_bytes d.flash_size

-- The `match`es of `flash_base` and `ram_base`.
abbrev pub flash_base_of : StmFamily → Option ℕ
flash_base_of StmFamily.f4 = some 0x08000000
flash_base_of StmFamily.f1 = some 0x08000000
flash_base_of StmFamily.g0 = some 0x08000000
flash_base_of StmFamily.unknown = none

abbrev pub ram_base_of : StmFamily → Option ℕ
ram_base_of StmFamily.f4 = some 0x20000000
ram_base_of StmFamily.f1 = some 0x20000000
ram_base_of StmFamily.g0 = some 0x20000000
ram_base_of StmFamily.unknown = none

unfoldable pub flash_base : StmDetails → Option ℕ
flash_base d = flash_base_of (family d.mcu)

unfoldable pub ram_base : StmDetails → Option ℕ
ram_base d = ram_base_of (family d.mcu)

abbrev pub is_f4 : StmFamily → Bool
is_f4 StmFamily.f4 = true
is_f4 _ = false

unfoldable pub is_stm32f4 : StmDetails → Bool
is_stm32f4 d = is_f4 (family d.mcu)

-- The chain of tests of `expected_idr`.
abbrev pub idr_of : StmFamily → Option ℕ
idr_of StmFamily.f4 = some idr_cortex_m4
idr_of StmFamily.f1 = some idr_cortex_m3
idr_of StmFamily.g0 = some idr_cortex_m0
idr_of StmFamily.unknown = none

unfoldable pub expected_idr : StmDetails → Option ℕ
expected_idr d = idr_of (family d.mcu)
