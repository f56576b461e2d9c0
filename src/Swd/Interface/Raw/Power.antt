-- ===== src/Swd/Interface/Raw/Power.antt =====
-- What the raw accesses leave of `check_power`, the guard of the other accesses.
use airfrog.Prelude.{ℕ, ◌≡◌, refl, ◌==◌, Bool, true, false, Bool-cases, inl, inr}
use airfrog.Bin.Error.{Result, ok, err}
use airfrog.Core.Select.{Select}
use airfrog.Swd.Error.{SwdError}
use airfrog.Swd.Command.{SwdOp}
use airfrog.Swd.Interface.State.{Transport, Interface, Act, continue}
use airfrog.Swd.Interface.Steps.{continue-keeps}
use airfrog.Swd.Interface.Access.{
  rd_buff_address, write_wire, read_wire, read_ctrl_stat, check_dp_errors, store_select, errors_of,
  update_dp_select,
}
use airfrog.Swd.Interface.Raw.{
  with_check_power, restoring, raw_select, update_raw_select, read_ap_register_raw,
  write_ap_register_raw,
}

-- Whether a result is an error.
abbrev pub is_err : {E A : Type 0} → Result E A → Bool
is_err (ok _) = false
is_err (err _) = true

module _ {W : Type 0} where
  -- The guard is back after an error, and off after a success.
  abbrev OffIfOk : {A : Type 0} → Result SwdError A × Interface W → Type 0
  OffIfOk x = x.1.check_power ≡ is_err x.0

  restoring-OffIfOk :
      {A : Type 0} (x : Result SwdError A × Interface W)
      → x.1.check_power ≡ false
      → OffIfOk (restoring x)
  restoring-OffIfOk (ok a, s) h = h
  restoring-OffIfOk (err e, s) h = refl

  continue-OffIfOk :
      {A B : Type 0} (x : Result SwdError A × Interface W) (f : A → Act W SwdError B)
      → OffIfOk x
      → ((a : A) (s : Interface W) → s.check_power ≡ false → OffIfOk (f a s))
      → OffIfOk (continue x f)
  continue-OffIfOk (ok a, s) f h k = k a s h
  continue-OffIfOk (err e, s) f h k = h

module _ (t : Transport) where
  check_dp_errors-off :
      (b : Bool) (s : Interface t.Wire)
      → s.check_power ≡ false
      → (check_dp_errors t b s).1.check_power ≡ false
  unfolding check_dp_errors read_ctrl_stat read_wire
  check_dp_errors-off b s h =
      continue-keeps (λ s'. s'.check_power ≡ false) (read_ctrl_stat t s)
        (λ status s'. (errors_of b status, s')) h (λ _ _ k. k)

  update_dp_select-off :
      (v : Select) (s : Interface t.Wire)
      → s.check_power ≡ false
      → (update_dp_select t v s).1.check_power ≡ false
  unfolding update_dp_select write_wire
  update_dp_select-off v s h =
      continue-keeps (λ s'. s'.check_power ≡ false) (write_wire t _ v true s) _ h
        (λ _ s₁ h₁.
          continue-keeps (λ s'. s'.check_power ≡ false) (check_dp_errors t false s₁)
            (λ _. store_select t v) (check_dp_errors-off false s₁ h₁) (λ _ _ k. k))

  update_raw_select-OffIfOk :
      (ap_index register : ℕ) (s : Interface t.Wire)
      → s.check_power ≡ false
      → OffIfOk (update_raw_select t ap_index register s)
  unfolding update_raw_select
  update_raw_select-OffIfOk ap_index register s h =
      let v = raw_select ap_index register s.dp_select in
      elim (Bool-cases (v == s.dp_select)) [
        | inl e ↦ rw e h
        | inr e ↦ rw e (restoring-OffIfOk (update_dp_select t v s) (update_dp_select-off v s h))
      ]

  -- A raw read of an AP register leaves the power check on if it fails, and off if it succeeds,
  -- whatever it was before.
  pub read_ap_register_raw-check_power :
      (ap_index register : ℕ) (s : Interface t.Wire)
      → (read_ap_register_raw t ap_index register s).1.check_power
        ≡ is_err (read_ap_register_raw t ap_index register s).0
  unfolding read_ap_register_raw read_wire
  read_ap_register_raw-check_power ap_index register s =
      let start = with_check_power false s in
      continue-OffIfOk (update_raw_select t ap_index register start) _
        (update_raw_select-OffIfOk ap_index register start refl)
        (λ _ s₁ h₁.
          continue-OffIfOk (restoring (read_wire t (SwdOp.ap_read register) false s₁)) _
            (restoring-OffIfOk (read_wire t (SwdOp.ap_read register) false s₁) h₁)
            (λ _ s₂ h₂. restoring-OffIfOk (read_wire t (SwdOp.dp_read rd_buff_address) true s₂) h₂))

  -- A raw write of an AP register leaves the power check on if it fails, and off if it succeeds,
  -- whatever it was before.
  write_ap_register_raw-check_power :
      (ap_index register value : ℕ) (s : Interface t.Wire)
      → (write_ap_register_raw t ap_index register value s).1.check_power
        ≡ is_err (write_ap_register_raw t ap_index register value s).0
  unfolding write_ap_register_raw write_wire
  write_ap_register_raw-check_power ap_index register value s =
      let start = with_check_power false s in
      continue-OffIfOk (update_raw_select t ap_index register start) _
        (update_raw_select-OffIfOk ap_index register start refl)
        (λ _ s₁ h₁. restoring-OffIfOk (write_wire t (SwdOp.ap_write register) value true s₁) h₁)
