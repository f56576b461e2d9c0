-- ===== src/Swd/Debug.antt =====
-- `DebugInterface` of airfrog-swd/src/debug.rs: the flash operations, over the calls that they make of
-- `SwdInterface`. Logging is left out.
pub mod Splice
pub mod Program
pub mod Erase
pub mod Polling
pub mod Connect
pub mod Connected
mod Examples
use airfrog.Prelude.{
  ℕ, zero, suc, Bool, true, false, not, if◌then◌else◌, Option, some, none, ◌/◌, ◌^◌, ◌==◌, bit_and,
  bit_or,
}
use airfrog.Bin.Error.{Result, ok, err}
use airfrog.Core.Fields.{u32_not}
use airfrog.Core.Stm.{StmFamily, StmDetails, family}
use airfrog.Core.Stm.Flash.{
  f4_cr, f4_sr, f4_keyr, g0_cr, g0_sr, g0_keyr, key1, key2, lock, eop, g0_busy, g0_eop_set,
  g0_error_clear_mask,
}
use airfrog.Core.Mcu.{Mcu}
use airfrog.Swd.Error.{SwdError}
use airfrog.Swd.Interface.State.{Transport, Interface}
use airfrog.Swd.Interface.Access.{pause_1_ms}
use airfrog.Swd.Interface.Memory

-- What the flash operations use of `SwdInterface`, which `swd_memory` fills.
pub record TargetMemory : Type 1 where
  pub State : Type 0
  pub mcu : State → Option Mcu
  pub read_mem : ℕ → State → Result SwdError ℕ × State
  pub write_mem : ℕ → ℕ → State → Result SwdError (Unit {0}) × State
  pub set_addr_inc : Bool → State → Result SwdError (Unit {0}) × State
  pub pause_1_ms : State → State

abbrev pub swd_memory : Transport → TargetMemory
swd_memory t = record {
  State = Interface t.Wire;
  mcu = λ s. s.mcu;
  read_mem = Memory.read_mem t;
  write_mem = Memory.write_mem t;
  set_addr_inc = Memory.set_addr_inc t;
  pause_1_ms = λ s. (pause_1_ms t s).1;
}

-- A loop that polls the flash is given a number of rounds; `endless` is said when they are used up.
pub data DebugError : Type 0 where
  failed : SwdError → DebugError
  endless : DebugError

abbrev pub Run : Type 0 → Type 0 → Type 0
Run S A = S → Result DebugError A × S

abbrev pub pure : {S A : Type 0} → A → Run S A
pure a s = (ok a, s)

abbrev pub fail : {S A : Type 0} → SwdError → Run S A
fail e s = (err (DebugError.failed e), s)

abbrev pub continue :
    {S A B : Type 0} → Result DebugError A × S → (A → Run S B) → Result DebugError B × S
continue (ok a, s) f = f a s
continue (err e, s) f = (err e, s)

infixl 5 ◌>>=◌
abbrev pub ◌>>=◌ : {S A B : Type 0} → Run S A → (A → Run S B) → Run S B
◌>>=◌ m f s = continue (m s) f

infixl 5 ◌>>◌
abbrev pub ◌>>◌ : {S B : Type 0} → Run S (Unit {0}) → Run S B → Run S B
◌>>◌ m n s = continue (m s) (λ _. n)

abbrev pub lifted : {S A : Type 0} → Result SwdError A × S → Result DebugError A × S
lifted (ok a, s) = (ok a, s)
lifted (err e, s) = (err (DebugError.failed e), s)

-- `.await.ok()`
abbrev pub ignoring : {S A : Type 0} → Result DebugError A × S → Result DebugError (Unit {0}) × S
ignoring (ok _, s) = (ok tt, s)
ignoring (err _, s) = (ok tt, s)

module _ (m : TargetMemory) where
  unfoldable pub read : ℕ → Run m.State ℕ
  read addr s = lifted (m.read_mem addr s)

  unfoldable pub write : ℕ → ℕ → Run m.State (Unit {0})
  write addr word s = lifted (m.write_mem addr word s)

  unfoldable pub set_addr_inc : Bool → Run m.State (Unit {0})
  set_addr_inc addr_inc s = lifted (m.set_addr_inc addr_inc s)

  -- `self.swd.mcu().ok_or(SwdError::NotReady)?` and the `match`es on the MCU and its family.
  abbrev pub of_family :
      {A : Type 0} → (f4 g0 : StmDetails → Run m.State A) → StmDetails → StmFamily → Run m.State A
  of_family f4 g0 stm StmFamily.f4 = f4 stm
  of_family f4 g0 stm StmFamily.g0 = g0 stm
  of_family f4 g0 stm StmFamily.f1 = fail SwdError.unsupported
  of_family f4 g0 stm StmFamily.unknown = fail SwdError.unsupported

  abbrev pub of_mcu :
      {A : Type 0} → (f4 g0 : StmDetails → Run m.State A) → Option Mcu → Run m.State A
  of_mcu f4 g0 none = fail SwdError.not_ready
  of_mcu f4 g0 (some (Mcu.stm32 stm)) = of_family f4 g0 stm (family stm.mcu)
  of_mcu f4 g0 (some (Mcu.rp _)) = fail SwdError.unsupported
  of_mcu f4 g0 (some (Mcu.unknown _)) = fail SwdError.unsupported

  unfoldable pub on_flash : {A : Type 0} → (f4 g0 : StmDetails → Run m.State A) → Run m.State A
  on_flash f4 g0 s = of_mcu f4 g0 (m.mcu s) s

  -- The loops that poll a status register until it shows errors (`false`) or is no longer busy.
  unfoldable pub poll : (failing busy : ℕ → Bool) → ℕ → ℕ → Run m.State Bool
  poll failing busy sr_addr zero s = (err DebugError.endless, s)
  poll failing busy sr_addr (suc n) s = continue (read sr_addr s) (λ sr s₁.
      let more = poll failing busy sr_addr n (m.pause_1_ms s₁) in
      if failing sr then (ok false, s₁) else if not (busy sr) then (ok true, s₁) else more)

  -- What follows a loop whose errors end the operation.
  abbrev pub finished : Bool → Run m.State (Unit {0})
  finished true = pure tt
  finished false = fail SwdError.operation_failed

  -- `x |= bits`, `x &= !bits` on a register.
  unfoldable pub set_bits : ℕ → ℕ → Run m.State (Unit {0})
  set_bits addr bits = do value ← read addr; write addr (bit_or value bits)

  unfoldable pub clear_bits : ℕ → ℕ → Run m.State (Unit {0})
  clear_bits addr bits = do value ← read addr; write addr (bit_and value (u32_not bits))

  unfoldable pub unlock_f4 : Run m.State (Unit {0})
  unlock_f4 = do write f4_keyr key1; write f4_keyr key2

  unfoldable pub unlock_g0 : Run m.State (Unit {0})
  unlock_g0 = do
    cr ← read g0_cr
    if not (bit_and (cr / 2 ^ 31) 1 == 0)
        then (do write g0_keyr key1; write g0_keyr key2)
        else pure tt

  unfoldable pub unlock_flash : Run m.State (Unit {0})
  unlock_flash = on_flash (λ _. unlock_f4) (λ _. unlock_g0)

  unfoldable pub lock_flash : Run m.State (Unit {0})
  lock_flash = on_flash (λ _. set_bits f4_cr lock) (λ _. set_bits g0_cr lock)

  unfoldable pub stm32g0_wait_not_busy : ℕ → Run m.State (Unit {0})
  stm32g0_wait_not_busy n = do _ ← poll (λ _. false) g0_busy g0_sr n; pure tt

  -- `clear` is never 0.
  unfoldable pub stm32g0_clear_status : Run m.State (Unit {0})
  stm32g0_clear_status = do
    sr ← read g0_sr
    write g0_sr (if g0_eop_set sr then bit_or g0_error_clear_mask eop else g0_error_clear_mask)
