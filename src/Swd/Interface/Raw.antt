-- ===== src/Swd/Interface/Raw.antt =====
-- Raw register access of `SwdInterface` in airfrog-swd/src/interface.rs, by address and AP index.
pub mod Power
use airfrog.Prelude.{ℕ, ◌==◌, Bool, true, false, List, [], if◌then◌else◌}
use airfrog.Bin.Error.{Result, ok, err}
use airfrog.Core.Select
use airfrog.Core.Select.{Select}
use airfrog.Swd.Error.{SwdError}
use airfrog.Swd.Command.{SwdOp}
use airfrog.Swd.Interface.State.{Transport, Interface, Act, continue, ◌>>=◌, ◌>>◌}
use airfrog.Swd.Interface.Access.{
  select_address, rd_buff_address, write_wire, read_wire, update_dp_select,
}
use airfrog.Swd.Interface.Bulk.{
  Stored, BulkRead, step, read_drw_bulk, BulkError, stopping, write_drw_bulk,
}

-- `self.check_power = …`
abbrev pub with_check_power : {W : Type 0} → Bool → Interface W → Interface W
with_check_power b s = record s { check_power = b }

-- `.inspect_err(|_| self.check_power = true)`
abbrev pub restoring : {W E A : Type 0} → Result E A × Interface W → Result E A × Interface W
restoring (ok a, s) = (ok a, s)
restoring (err e, s) = (err e, with_check_power true s)

abbrev pub restoring_bulk : {W : Type 0} → Stored W → Stored W
restoring_bulk ((ok a, words), s) = ((ok a, words), s)
restoring_bulk ((err e, words), s) = ((err e, words), with_check_power true s)

-- The SELECT value of a raw AP access.
unfoldable pub raw_select : ℕ → ℕ → Select → Select
raw_select ap_index register select =
    Select.set_apbanksel_from_addr (Select.set_apsel select ap_index) register

module _ (t : Transport) where
  unfoldable pub read_dp_register_raw : ℕ → Act t.Wire SwdError ℕ
  read_dp_register_raw register s =
      let (result, s') = read_wire t (SwdOp.dp_read register) true (with_check_power false s) in
      (result, with_check_power true s')

  -- After a write of SELECT the cached value is the one written.
  abbrev pub stored_select : ℕ → ℕ → Act t.Wire SwdError (Unit {0})
  stored_select register value s =
      if register == select_address
      then (ok tt, record s { dp_select = value; check_power = true })
      else (ok tt, with_check_power true s)

  unfoldable pub write_dp_register_raw : ℕ → ℕ → Act t.Wire SwdError (Unit {0})
  write_dp_register_raw register value s =
      continue
        (restoring (write_wire t (SwdOp.dp_write register) value true (with_check_power false s)))
        (λ _. stored_select register value)

  -- `if select != self.dp_select { self.update_dp_select(select).await.inspect_err(…)?; }`
  unfoldable pub update_raw_select : ℕ → ℕ → Act t.Wire SwdError (Unit {0})
  update_raw_select ap_index register s =
      let select = raw_select ap_index register s.dp_select in
      if select == s.dp_select then (ok tt, s) else restoring (update_dp_select t select s)

  unfoldable pub read_ap_register_raw : ℕ → ℕ → Act t.Wire SwdError ℕ
  read_ap_register_raw ap_index register s =
      continue (update_raw_select ap_index register (with_check_power false s)) (λ _ s₁.
        continue (restoring (read_wire t (SwdOp.ap_read register) false s₁))
          (λ _ s₂. restoring (read_wire t (SwdOp.dp_read rd_buff_address) true s₂)))

  unfoldable pub write_ap_register_raw : ℕ → ℕ → ℕ → Act t.Wire SwdError (Unit {0})
  write_ap_register_raw ap_index register value s =
      continue (update_raw_select ap_index register (with_check_power false s))
        (λ _ s₁. restoring (write_wire t (SwdOp.ap_write register) value true s₁))

  -- `register` only picks the bank: the words are read from DRW.
  unfoldable pub read_ap_register_raw_bulk : ℕ → ℕ → ℕ → BulkRead t.Wire
  read_ap_register_raw_bulk ap_index register count s =
      step [] (update_raw_select ap_index register (with_check_power false s))
        (λ _ s₁. restoring_bulk (read_drw_bulk t count true s₁))

  unfoldable pub write_ap_register_raw_bulk : ℕ → ℕ → List ℕ → Act t.Wire BulkError (Unit {0})
  write_ap_register_raw_bulk ap_index register buf s =
      continue (stopping 0 (update_raw_select ap_index register (with_check_power false s)))
        (λ _ s₁. restoring (write_drw_bulk t buf true s₁))
