-- ===== src/Swd/Interface/Identify.antt =====
-- `get_mcu` of airfrog-swd/src/interface.rs: what the target is, from its IDCODE and its memory.
use airfrog.Prelude.{
  ℕ, ◌+◌, ◌*◌, ◌/◌, ◌^◌, ◌%◌, ◌==◌, ◌&&◌, ◌||◌, not, if◌then◌else◌, Option, some, none, bit_and,
}
use airfrog.Bin.Error.{Result, ok, err}
use airfrog.Core.Cortex.{idcode_m0, idcode_m0_plus, idcode_m3, idcode_m4, idcode_m33}
use airfrog.Core.Stm.{
  StmDeviceId, StmUniqueId, device_id_address, family, known, uid_address, flash_size_address,
}
use airfrog.Core.Rp.{
  RpLine, rp2040_chip_id, rp2040_chip_id_address, rp2040_cpu_id, rp2040_cpu_id_address,
}
use airfrog.Core.Mcu.{Mcu}
use airfrog.Swd.Error.{SwdError}
use airfrog.Swd.Interface.State.{Transport, Interface, Act, pure, ◌>>=◌}
use airfrog.Swd.Interface.Memory.{read_mem}

abbrev pub stm32g0_idcode_address : ℕ
stm32g0_idcode_address = 0x40015800

-- The half of the word that holds the flash size.
unfoldable pub flash_size_half : ℕ → ℕ
flash_size_half raw =
    let upper = raw / 2 ^ 16 % 2 ^ 16 in
    let lower = bit_and raw 0xffff in
    if not (upper == 0) && not (upper == 0xffff) then upper else lower

module _ (t : Transport) where
  unfoldable pub read_uid : Option ℕ → Act t.Wire SwdError (Option StmUniqueId)
  read_uid (some addr) = do
    uid_0 ← read_mem t (addr + 0 * 4)
    uid_1 ← read_mem t (addr + 1 * 4)
    uid_2 ← read_mem t (addr + 2 * 4)
    pure (some (record { uid_0 = uid_0; uid_1 = uid_1; uid_2 = uid_2 }))
  read_uid none = pure none

  unfoldable pub read_flash_size : Option ℕ → Act t.Wire SwdError (Option ℕ)
  read_flash_size (some addr) = do raw ← read_mem t addr; pure (some (flash_size_half raw))
  read_flash_size none = pure none

  -- The rest of the identification of an STM32, once its device ID has been read.
  unfoldable pub stm_details : ℕ → StmDeviceId → Act t.Wire SwdError Mcu
  stm_details idcode device_id = do
    uid ← read_uid (uid_address (family device_id))
    flash_size ← read_flash_size (flash_size_address (family device_id))
    pure (
        Mcu.stm32 (record { mcu = device_id; idcode = idcode; uid = uid; flash_size = flash_size }))

  unfoldable pub get_stm32 : ℕ → Act t.Wire SwdError Mcu
  get_stm32 idcode = do device_id ← read_mem t device_id_address; stm_details idcode device_id

  -- `if let Ok(data) = self.read_mem(…) { … if known { … return } }`, and what follows otherwise.
  abbrev pub known_or :
      ℕ
      → Act t.Wire SwdError Mcu
      → Result SwdError ℕ × Interface t.Wire
      → Result SwdError Mcu × Interface t.Wire
  known_or idcode otherwise (ok device_id, s) =
      if known (family device_id) then stm_details idcode device_id s else otherwise s
  known_or idcode otherwise (err _, s) = otherwise s

  unfoldable pub get_stm32g0_or : ℕ → Act t.Wire SwdError Mcu → Act t.Wire SwdError Mcu
  get_stm32g0_or idcode otherwise s =
      known_or idcode otherwise (read_mem t stm32g0_idcode_address s)

  unfoldable pub get_rp2040 : ℕ → Act t.Wire SwdError Mcu
  get_rp2040 idcode = do
    chip_id ← read_mem t rp2040_chip_id_address
    cpu_id ← read_mem t rp2040_cpu_id_address
    pure (
        if chip_id == rp2040_chip_id && cpu_id == rp2040_cpu_id
        then Mcu.rp RpLine.rp2040
        else Mcu.unknown idcode)

  unfoldable pub get_mcu : ℕ → Act t.Wire SwdError Mcu
  get_mcu idcode =
      if idcode == idcode_m3 || idcode == idcode_m4
      then get_stm32 idcode
      else if idcode == idcode_m0 || idcode == idcode_m0_plus
      then get_stm32g0_or idcode (get_rp2040 idcode)
      else if idcode == idcode_m33
      then pure (Mcu.unknown idcode)
      else get_stm32g0_or idcode (pure (Mcu.unknown idcode))
