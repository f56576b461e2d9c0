-- ===== src/Swd/Debug/Connect.antt =====
-- The connection and the bulk transfers of `DebugInterface` in airfrog-swd/src/debug.rs.
use airfrog.Prelude.{ℕ, ◌==◌, not, Bool, true, false, bit_and, if◌then◌else◌, List, [], ◌∷◌, length}
use airfrog.Bin.Error.{Result, ok, err}
use airfrog.Swd.Error.{SwdError}
use airfrog.Swd.Interface.State.{Transport, Interface, Version, Act, continue}
use airfrog.Swd.Interface.Access.{read_ap_register}
use airfrog.Swd.Interface.Bulk.{BulkError, BulkRead, Stored, step, stopping}
use airfrog.Swd.Interface.Memory.{idr_address, set_addr_inc, read_mem_bulk, write_mem_bulk}
use airfrog.Swd.Interface.Reset.{
  MultiDropTarget, reset_target, reset_detect_multidrop, reset_multidrop_target,
}

-- `TARGET_SEL_RP2040_RESCUE_DP` and `TARGET_SEL_RP2040_ALL`.
abbrev pub target_sel_rp2040_rescue_dp : ℕ
target_sel_rp2040_rescue_dp = 0xf1002927

abbrev pub target_sel_rp2040_all : List ℕ
target_sel_rp2040_all = 0x01002927 ∷ 0x11002927 ∷ target_sel_rp2040_rescue_dp ∷ []

-- `Idr::AP_TYPE_AMBA_AHB5`
abbrev pub ap_type_amba_ahb5 : ℕ
ap_type_amba_ahb5 = 0x5

module _ (t : Transport) where
  unfoldable pub initialize_swd_target : Version → Act t.Wire SwdError (Unit {0})
  initialize_swd_target version = reset_target t version

  -- After `reset_multidrop_target`: version 2 is tried if it has failed.
  abbrev pub or_version_2 :
      Result SwdError (Unit {0}) × Interface t.Wire → Result SwdError (Unit {0}) × Interface t.Wire
  or_version_2 (ok _, s) = (ok tt, s)
  or_version_2 (err _, s) = reset_target t Version.v2 s

  -- After `reset_detect_multidrop`. It never returns an empty list, for which the code would panic.
  abbrev pub of_targets :
      Result SwdError (List MultiDropTarget) × Interface t.Wire
      → Result SwdError (Unit {0}) × Interface t.Wire
  of_targets (ok (target ∷ _), s) =
      if target.target == target_sel_rp2040_rescue_dp
      then (err SwdError.not_ready, s)
      else or_version_2 (reset_multidrop_target t target s)
  of_targets (ok [], s) = reset_target t Version.v2 s
  of_targets (err _, s) = reset_target t Version.v2 s

  -- After `reset_target` with version 1.
  abbrev pub or_multidrop :
      Result SwdError (Unit {0}) × Interface t.Wire → Result SwdError (Unit {0}) × Interface t.Wire
  or_multidrop (ok _, s) = (ok tt, s)
  or_multidrop (err _, s) = of_targets (reset_detect_multidrop t target_sel_rp2040_all s)

  unfoldable pub reset_swd_target : Act t.Wire SwdError (Unit {0})
  reset_swd_target s = or_multidrop (reset_target t Version.v1 s)

  unfoldable pub check_mem_ap : Act t.Wire SwdError (Unit {0})
  check_mem_ap s = continue (read_ap_register t idr_address s) (λ idr s₁.
      if not (bit_and idr 0xf == ap_type_amba_ahb5)
      then (err SwdError.operation_failed, s₁)
      else (ok tt, s₁))

  -- `set_addr_inc(false)` after a bulk read; its error is the result only if the read has succeeded.
  abbrev pub after_read : ℕ → Stored t.Wire → Stored t.Wire
  after_read count ((ok _, words), s) =
      let (result, s₁) = stopping count (set_addr_inc t false s) in ((result, words), s₁)
  after_read count ((err e, words), s) = ((err e, words), (set_addr_inc t false s).1)

  unfoldable pub read_bulk : ℕ → ℕ → Bool → BulkRead t.Wire
  read_bulk addr count fast s =
      step [] (set_addr_inc t true s)
        (λ _ s₁. after_read count (read_mem_bulk t addr count fast s₁))

  abbrev pub after_write :
      ℕ
      → Result BulkError (Unit {0}) × Interface t.Wire
      → Result BulkError (Unit {0}) × Interface t.Wire
  after_write count (ok _, s) = stopping count (set_addr_inc t false s)
  after_write count (err e, s) = (err e, (set_addr_inc t false s).1)

  unfoldable pub write_bulk : ℕ → List ℕ → Bool → Act t.Wire BulkError (Unit {0})
  write_bulk addr buf fast s =
      continue (stopping 0 (set_addr_inc t true s))
        (λ _ s₁. after_write (length buf) (write_mem_bulk t addr buf fast s₁))
