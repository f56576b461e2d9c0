-- ===== src/Swd/Interface/Coherent.antt =====
-- The cached SELECT is the one that the target holds, and the check of SELECT before an access makes
-- it pick the bank of the access.
use airfrog.Prelude.{ℕ, ◌≡◌, ◌≢◌, refl, ap, ◌∙◌, ◌<◌, sym, inl, inr, Bool-cases, Bool, true, false}
use airfrog.Bin.Error.{ok}
use airfrog.Core.Select.{Select}
use airfrog.Swd.Command.{SwdOp, check_dp_select, address}
use airfrog.Swd.Interface.State.{Transport, Interface}
use airfrog.Swd.Interface.Steps.{continue-ok, continue-keeps}
use airfrog.Swd.Interface.Banks.{select_for-passes}
use airfrog.Swd.Interface.Access.{
  select_address, needs_select, select_for, errors_of, write_wire, read_wire, read_ctrl_stat,
  check_dp_errors, store_select, update_dp_select, check_and_update_dp_select,
}

-- What the Debug Interface specification says of SELECT: a write of it that is acknowledged sets
-- it, and no other transfer changes it.
pub record Selects (t : Transport) : Type 0 where
  pub selected : t.Wire → Select
  pub set :
      (n word : ℕ) (single : Bool) (p : t.Wire)
      → (t.write_op n (SwdOp.dp_write select_address) word single p).0 ≡ ok tt
      → selected (t.write_op n (SwdOp.dp_write select_address) word single p).1 ≡ word
  pub kept_by_write :
      (n : ℕ) (op : SwdOp) (word : ℕ) (single : Bool) (p : t.Wire)
      → op ≢ SwdOp.dp_write select_address
      → selected (t.write_op n op word single p).1 ≡ selected p
  pub kept_by_read :
      (n : ℕ) (op : SwdOp) (single : Bool) (p : t.Wire)
      → selected (t.read_op n op single p).1 ≡ selected p

module _ (t : Transport) (d : Selects t) where
  -- The cached SELECT is the target's.
  abbrev pub IsCoherent : Interface t.Wire → Type 0
  IsCoherent s = s.dp_select ≡ d.selected s.protocol

  -- A check for errors leaves the cache and the target's SELECT as they are.
  pub check_dp_errors-keeps :
      (b : Bool) (v : Select) (s : Interface t.Wire)
      → d.selected s.protocol ≡ v
      → (d.selected (check_dp_errors t b s).1.protocol ≡ v)
        × ((check_dp_errors t b s).1.dp_select ≡ s.dp_select)
  unfolding check_dp_errors read_ctrl_stat read_wire
  check_dp_errors-keeps b v s h =
      continue-keeps (λ s'. (d.selected s'.protocol ≡ v) × (s'.dp_select ≡ s.dp_select))
        (read_ctrl_stat t s) (λ status s'. (errors_of b status, s'))
        (d.kept_by_read _ _ _ _ ∙ h, refl) (λ a s' k. k)

  -- After a successful update both the cache and the target hold the new value.
  update_dp_select-sets :
      (v : Select) (s s' : Interface t.Wire)
      → update_dp_select t v s ≡ (ok tt, s')
      → (s'.dp_select ≡ v) × (d.selected s'.protocol ≡ v)
  unfolding update_dp_select write_wire
  update_dp_select-sets v s s' h =
      let (_, s₁, e₁, h₁) = continue-ok _ _ tt s' h in
      let (_, s₂, e₂, h₂) =
        continue-ok (check_dp_errors t false s₁) (λ _. store_select t v) tt s' h₁ in
      let written : d.selected s₁.protocol ≡ v =
        ap (λ x. d.selected x.1.protocol) (sym e₁) ∙ d.set _ _ _ _ (ap (λ x. x.0) e₁) in
      let checked : d.selected s₂.protocol ≡ v =
        ap (λ x. d.selected x.1.protocol) (sym e₂) ∙ (check_dp_errors-keeps false v s₁ written).0 in
      (sym (ap (λ x. x.1.dp_select) h₂), ap (λ x. d.selected x.1.protocol) (sym h₂) ∙ checked)

  -- If the check of SELECT succeeds, for an access that goes through a bank and whose register
  -- address is a byte, made with the cache right, the cache is right again and the target's SELECT
  -- picks the bank of that address.
  pub check_and_update_dp_select-selects :
      (op : SwdOp) (s s' : Interface t.Wire)
      → address op < 256
      → needs_select op ≡ true
      → IsCoherent s
      → check_and_update_dp_select t op s ≡ (ok tt, s')
      → IsCoherent s' × (check_dp_select op (d.selected s'.protocol) ≡ true)
  unfolding check_and_update_dp_select
  check_and_update_dp_select-selects op s s' ha n c h =
      elim (Bool-cases (check_dp_select op s.dp_select)) [
        | inl e ↦
            let h₁ = rw (n, e) at h in
            let same : s ≡ s' = ap (λ x. x.1) h₁ in rw (sym same) (c, rw (sym c) e)
        | inr e ↦
            let (cached, held) = update_dp_select-sets (select_for op) s s' (rw (n, e) at h) in
            (cached ∙ sym held, rw held (select_for-passes op ha))
      ]
