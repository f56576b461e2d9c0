-- ===== src/Swd/Interface/Reset.antt =====
-- The resets of `SwdInterface` in airfrog-swd/src/interface.rs, and the connection to the target.
pub mod Steady
pub mod Enabled
pub mod Leads
pub mod Recalls
mod Examples
pub mod Connected
pub mod Multidrop
use airfrog.Prelude.{ℕ, Bool, true, false, Option, some, none, List, [], ◌∷◌, ◌++◌, if◌then◌else◌}
use airfrog.Bin.Error.{Result, ok, err}
use airfrog.Core.Mcu.{Mcu}
use airfrog.Swd.Error.{SwdError}
use airfrog.Swd.Interface.State.{
  Transport, Interface, Version, Act, continue, ◌>>=◌, ◌>>◌, reset_internal_state,
}
use airfrog.Swd.Interface.Access.{read_idcode, clear_errors}
use airfrog.Swd.Interface.Bulk.{read_rd_buff_fast}
use airfrog.Swd.Interface.Memory.{power_up_debug_domain, configure_mem_ap}
use airfrog.Swd.Interface.Identify.{get_mcu}

pub record MultiDropTarget : Type 0 where
  pub target : ℕ
  pub idcode : ℕ

-- `TargetSel::new(0xFFFFFFFF)`
abbrev pub deselect_all : ℕ
deselect_all = 0xffff_ffff

-- `self.reset_version = …`
abbrev pub with_version : {W : Type 0} → Option Version → Interface W → Interface W
with_version v s = record s { reset_version = v }

-- `.inspect_err(|_| self.reset_version = None)`
abbrev pub forgetting :
    {W A : Type 0} → Result SwdError A × Interface W → Result SwdError A × Interface W
forgetting (ok a, s) = (ok a, s)
forgetting (err e, s) = (err e, with_version none s)

-- `.unwrap()`; `reset_sequence_v2` always has an IDCODE when it is asked for one.
abbrev pub unwrap : Option ℕ → ℕ
unwrap (some idcode) = idcode
unwrap none = 0

module _ (t : Transport) where
  -- A step on the lines.
  abbrev pub on_wire : (t.Wire → t.Wire) → Interface t.Wire → Interface t.Wire
  on_wire step s = record s { protocol = step s.protocol }

  -- The common start of the two reset sequences.
  unfoldable pub start : Version → Interface t.Wire → Interface t.Wire
  start version s = on_wire (t.enter version) (reset_internal_state s)

  -- `self.read_idcode().await?` and the version that follows.
  unfoldable pub identify : Version → Act t.Wire SwdError ℕ
  identify version s =
      continue (read_idcode t s) (λ idcode s₁. (ok idcode, with_version (some version) s₁))

  unfoldable pub reset_sequence_v1 : Act t.Wire SwdError ℕ
  reset_sequence_v1 s =
      identify Version.v1 (on_wire (t.target_sel deselect_all) (start Version.v1 s))

  unfoldable pub reset_sequence_v2 : Bool → Bool → Act t.Wire SwdError (Option ℕ)
  reset_sequence_v2 disable_md_targets get_idcode s =
      let started = start Version.v2 s in
      let deselected =
        if disable_md_targets then on_wire (t.target_sel deselect_all) started else started in
      if get_idcode
      then continue (identify Version.v2 deselected) (λ idcode s₁. (ok (some idcode), s₁))
      else (ok none, deselected)

  unfoldable pub enable_target : ℕ → Act t.Wire SwdError (Option Mcu)
  enable_target idcode = do
    clear_errors t
    _ ← read_rd_buff_fast t false
    power_up_debug_domain t
    configure_mem_ap t
    mcu ← get_mcu t idcode
    λ s. (ok (some mcu), s)

  -- `self.mcu = mcu; self.idcode = Some(idcode);`
  abbrev pub store_details : ℕ → Option Mcu → Act t.Wire SwdError (Unit {0})
  store_details idcode mcu s = (ok tt, record s { mcu = mcu; idcode = some idcode })

  -- The connection after a reset.
  unfoldable pub connect : ℕ → Act t.Wire SwdError (Unit {0})
  connect idcode s = continue (forgetting (enable_target idcode s)) (store_details idcode)

  unfoldable pub reset_target : Version → Act t.Wire SwdError (Unit {0})
  reset_target Version.v1 s = continue (reset_sequence_v1 s) connect
  reset_target Version.v2 s =
      continue (reset_sequence_v2 false true s) (λ idcode. connect (unwrap idcode))

  -- `self.idcode.ok_or(SwdError::NotReady)?`
  abbrev refresh_with : Option ℕ → Act t.Wire SwdError (Option Mcu)
  refresh_with (some idcode) s =
      continue (enable_target idcode s) (λ mcu s₁. (ok mcu, record s₁ { mcu = mcu }))
  refresh_with none s = (err SwdError.not_ready, s)

  unfoldable pub refresh_mcu : Act t.Wire SwdError (Option Mcu)
  refresh_mcu s = refresh_with s.idcode s

  -- `if let Ok(idcode) = self.read_idcode().await { … }` in the loop over the targets.
  abbrev pub found :
      ℕ
      → List MultiDropTarget
      → Result SwdError ℕ × Interface t.Wire
      → List MultiDropTarget × Interface t.Wire
  found target md_targets (ok idcode, s) =
      (md_targets ++ record { target = target; idcode = idcode } ∷ [], s)
  found target md_targets (err _, s) = (md_targets, s)

  unfoldable pub detect :
      List ℕ → List MultiDropTarget → Interface t.Wire → List MultiDropTarget × Interface t.Wire
  detect [] md_targets s = (md_targets, s)
  detect (target ∷ rest) md_targets s =
      let selected = on_wire (t.target_sel target) (on_wire t.line_reset s) in
      let (more, s₁) = found target md_targets (read_idcode t selected) in detect rest more s₁

  abbrev pub some_found :
      List MultiDropTarget × Interface t.Wire
      → Result SwdError (List MultiDropTarget) × Interface t.Wire
  some_found ([], s) = (err SwdError.operation_failed, s)
  some_found (target ∷ rest, s) = (ok (target ∷ rest), s)

  -- The reset asks for no IDCODE, so it cannot fail.
  unfoldable pub reset_detect_multidrop : List ℕ → Act t.Wire SwdError (List MultiDropTarget)
  reset_detect_multidrop targets s =
      some_found (detect targets [] (reset_sequence_v2 true false s).1)

  unfoldable pub reset_multidrop_target : MultiDropTarget → Act t.Wire SwdError (Unit {0})
  reset_multidrop_target target s = continue (reset_sequence_v2 true false s) (λ _ s₁.
      let selected = on_wire (t.target_sel target.target) (on_wire t.line_reset s₁) in
      continue (read_idcode t selected)
        (λ idcode s₂. connect idcode (with_version (some Version.v2) s₂)))
