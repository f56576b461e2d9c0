-- ===== src/Swd/Interface/Written.antt =====
-- The words that reach DRW: what the transfers are documented to do with them, and the steps that
-- write none.
pub mod Words
pub mod Memory
use airfrog.Prelude.{
  ℕ, ◌≡◌, ◌≢◌, ◌∙◌, refl, Bool, true, false, Bool-cases, inl, inr, List, [], ◌∷◌, ◌++◌,
  if◌then◌else◌, not,
}
use airfrog.Bin.Error.{Result, ok, err}
use airfrog.Swd.Error.{SwdError}
use airfrog.Swd.Command.{SwdOp, check_dp_select}
use airfrog.Swd.Interface.State.{Transport, Interface, Act, continue, ◌>>=◌, ◌>>◌}
use airfrog.Swd.Interface.Steps.{continue-keeps}
use airfrog.Swd.Interface.Access.{
  select_address, write_wire, read_wire, read_ctrl_stat, check_dp_errors, errors_of, store_select,
  update_dp_select, check_and_update_dp_select, needs_select, select_for, refused, write_steps,
  write_operation, write_ap_register,
}
use airfrog.Swd.Interface.Bulk.{drw_address, write_drw_fast}
use airfrog.Swd.Interface.Memory.{tar_address}

-- The words that DRW has been given: one for each write of it that is acknowledged, and none for
-- any other transfer.
pub record DrwLog (t : Transport) : Type 0 where
  pub log : t.Wire → List ℕ
  pub written :
      (n word : ℕ) (single : Bool) (p : t.Wire)
      → (t.write_op n (SwdOp.ap_write drw_address) word single p).0 ≡ ok tt
      → log (t.write_op n (SwdOp.ap_write drw_address) word single p).1 ≡ log p ++ word ∷ []
  pub not_written :
      (n word : ℕ) (single : Bool) (p : t.Wire) (e : SwdError)
      → (t.write_op n (SwdOp.ap_write drw_address) word single p).0 ≡ err e
      → log (t.write_op n (SwdOp.ap_write drw_address) word single p).1 ≡ log p
  pub other_write :
      (n : ℕ) (op : SwdOp) (word : ℕ) (single : Bool) (p : t.Wire)
      → op ≢ SwdOp.ap_write drw_address
      → log (t.write_op n op word single p).1 ≡ log p
  pub read_nothing :
      (n : ℕ) (op : SwdOp) (single : Bool) (p : t.Wire) → log (t.read_op n op single p).1 ≡ log p

module _ (t : Transport) (d : DrwLog t) (l : List ℕ) where
  -- The words so far.
  abbrev pub IsLog : Interface t.Wire → Type 0
  IsLog s = d.log s.protocol ≡ l

  pub check_dp_errors-IsLog :
      (b : Bool) (s : Interface t.Wire) → IsLog s → IsLog (check_dp_errors t b s).1
  unfolding check_dp_errors read_ctrl_stat read_wire
  check_dp_errors-IsLog b s h =
      continue-keeps IsLog (read_ctrl_stat t s) (λ status s'. (errors_of b status, s'))
        (d.read_nothing _ _ _ _ ∙ h) (λ _ _ k. k)

  update_dp_select-IsLog :
      (v : ℕ) (s : Interface t.Wire) → IsLog s → IsLog (update_dp_select t v s).1
  unfolding update_dp_select write_wire
  update_dp_select-IsLog v s h =
      let select_write = SwdOp.dp_write select_address in
      continue-keeps IsLog (write_wire t select_write v true s) _
        (d.other_write _ select_write _ _ _ (λ e. cc) ∙ h)
        (λ _ s₁ h₁.
          continue-keeps IsLog (check_dp_errors t false s₁) (λ _. store_select t v)
            (check_dp_errors-IsLog false s₁ h₁) (λ _ _ k. k))

  pub check_and_update_dp_select-IsLog :
      (op : SwdOp) (s : Interface t.Wire) → IsLog s → IsLog (check_and_update_dp_select t op s).1
  unfolding check_and_update_dp_select
  check_and_update_dp_select-IsLog op s h = elim (Bool-cases (needs_select op)) [
    | inr e ↦ rw e h
    | inl e ↦ elim (Bool-cases (check_dp_select op s.dp_select)) [
      | inl c ↦ rw (e, c) h
      | inr c ↦ rw (e, c) (update_dp_select-IsLog (select_for op) s h)
    ]
  ]

  pub write_tar-IsLog :
      (addr : ℕ) (s : Interface t.Wire) → IsLog s → IsLog (write_ap_register t tar_address addr s).1
  unfolding write_ap_register write_operation write_steps write_wire
  write_tar-IsLog addr s h =
      let op = SwdOp.ap_write tar_address in
      elim (Bool-cases (refused t op s)) [
        | inl e ↦ rw e h
        | inr e ↦ rw e (
            continue-keeps IsLog (check_and_update_dp_select t op s) _
              (check_and_update_dp_select-IsLog op s h)
              (λ _ s₁ h₁.
                continue-keeps IsLog (write_wire t op addr true s₁) (λ _. check_dp_errors t false)
                  (d.other_write _ op _ _ _ (λ e. cc) ∙ h₁)
                  (λ _ s₂ h₂. check_dp_errors-IsLog false s₂ h₂)))
      ]
