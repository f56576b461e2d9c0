-- ===== src/Swd/Interface/Routed.antt =====
-- Where an access goes: the target's SELECT picks its bank when the access is made.
use airfrog.Prelude.{
  ℕ, ◌/◌, ◌%◌, ◌^◌, arith, ◌≡◌, refl, ap, ◌∙◌, ◌<◌, sym, inl, inr, Bool-cases, Bool, true, false,
}
use airfrog.Bin.Error.{Result, ok, err}
use airfrog.Swd.Error.{SwdError}
use airfrog.Swd.Command.{SwdOp, check_dp_select, address, dp_bank, ap_bank, addr_bank}
use airfrog.Swd.Interface.State.{Transport, Interface, ◌>>=◌, ◌>>◌}
use airfrog.Swd.Interface.Steps.{continue-ok}
use airfrog.Swd.Interface.Access.{
  needs_select, read_wire, check_dp_errors, check_and_update_dp_select, refused, rd_buff_address,
  read_ap_steps, read_ap_operation,
}
use airfrog.Swd.Interface.Coherent.{
  Selects, IsCoherent, check_dp_errors-keeps, check_and_update_dp_select-selects,
}

-- The bank that a SELECT value picks for an access: its bits 3:0 for the debug port, 7:4 for an access
-- port.
abbrev pub bank_picked : SwdOp → ℕ → ℕ
bank_picked (SwdOp.dp_read _) select = select % 2 ^ 4
bank_picked (SwdOp.dp_write _) select = select % 2 ^ 4
bank_picked (SwdOp.ap_read _) select = select / 2 ^ 4 % 2 ^ 4
bank_picked (SwdOp.ap_write _) select = select / 2 ^ 4 % 2 ^ 4

check_dp_select-bank :
    (op : SwdOp) (select : ℕ)
    → address op < 256
    → check_dp_select op select ≡ true
    → bank_picked op select ≡ address op / 2 ^ 4
unfolding check_dp_select
check_dp_select-bank (SwdOp.dp_read a) s h e = ground (arith, dp_bank s, addr_bank a)
check_dp_select-bank (SwdOp.dp_write a) s h e = ground (arith, dp_bank s, addr_bank a)
check_dp_select-bank (SwdOp.ap_read a) s h e = ground (arith, ap_bank s, addr_bank a)
check_dp_select-bank (SwdOp.ap_write a) s h e = ground (arith, ap_bank s, addr_bank a)

module _ (t : Transport) (d : Selects t) where
  -- The steps that leave the cache and the target's SELECT as they are.
  unfoldable Keeps : Interface t.Wire → Interface t.Wire → Type 0
  Keeps s s' = (s'.dp_select ≡ s.dp_select) × (d.selected s'.protocol ≡ d.selected s.protocol)

  Keeps-IsCoherent : (s s' : Interface t.Wire) → Keeps s s' → IsCoherent t d s → IsCoherent t d s'
  unfolding Keeps
  Keeps-IsCoherent s s' (cached, held) c = cached ∙ c ∙ sym held

  read_wire-Keeps :
      (op : SwdOp) (single : Bool) (r : Result SwdError ℕ) (s s' : Interface t.Wire)
      → read_wire t op single s ≡ (r, s')
      → Keeps s s'
  unfolding Keeps read_wire
  read_wire-Keeps op single r s s' h = (
    ap (λ x. x.1.dp_select) (sym h),
    ap (λ x. d.selected x.1.protocol) (sym h) ∙ d.kept_by_read _ _ _ _,
  )

  check_dp_errors-Keeps :
      (b : Bool) (r : Result SwdError (Unit {0})) (s s' : Interface t.Wire)
      → check_dp_errors t b s ≡ (r, s')
      → Keeps s s'
  unfolding Keeps
  check_dp_errors-Keeps b r s s' h =
      let (held, same) = check_dp_errors-keeps t d b (d.selected s.protocol) s refl in
      (ap (λ x. x.1.dp_select) (sym h) ∙ same, ap (λ x. d.selected x.1.protocol) (sym h) ∙ held)

  -- The three calls that an AP read makes once SELECT is right.
  unfoldable ApRead : ℕ → Bool → ℕ → (s₁ s₂ s₃ s' : Interface t.Wire) → Type 0
  ApRead addr single v s₁ s₂ s₃ s' =
      ((r : ℕ) × (read_wire t (SwdOp.ap_read addr) false s₁ ≡ (ok r, s₂)))
      × (check_dp_errors t true s₂ ≡ (ok tt, s₃))
      × (read_wire t (SwdOp.dp_read rd_buff_address) single s₃ ≡ (ok v, s'))

  read_ap_steps-ApRead :
      (addr : ℕ) (single : Bool) (v : ℕ) (s s' : Interface t.Wire)
      → read_ap_steps t addr single s ≡ (ok v, s')
      → (s₁ s₂ s₃ : Interface t.Wire) × (check_and_update_dp_select t (SwdOp.ap_read addr) s
          ≡ (ok tt, s₁))
        × ApRead addr single v s₁ s₂ s₃ s'
  unfolding ApRead read_ap_steps
  read_ap_steps-ApRead addr single v s s' h =
      let last = read_wire t (SwdOp.dp_read rd_buff_address) single in
      let checks = check_dp_errors t true in
      let first = read_wire t (SwdOp.ap_read addr) false in
      let (_, s₁, e₁, h₁) =
        continue-ok (check_and_update_dp_select t (SwdOp.ap_read addr) s)
          (λ _. first >>= (λ _. checks >> last)) v s' h in
      let (r, s₂, e₂, h₂) = continue-ok (first s₁) (λ _. checks >> last) v s' h₁ in
      let (_, s₃, e₃, h₃) = continue-ok (checks s₂) (λ _. last) v s' h₂ in
      (s₁, s₂, s₃, e₁, ((r, e₂), e₃, h₃))

  ApRead-IsCoherent :
      (addr : ℕ) (single : Bool) (v : ℕ) (s₁ s₂ s₃ s' : Interface t.Wire)
      → ApRead addr single v s₁ s₂ s₃ s'
      → IsCoherent t d s₁
      → IsCoherent t d s'
  unfolding ApRead
  ApRead-IsCoherent addr single v s₁ s₂ s₃ s' ((r, e₂), e₃, h₃) c =
      Keeps-IsCoherent s₃ s' (read_wire-Keeps _ _ _ s₃ s' h₃) (
        Keeps-IsCoherent s₂ s₃ (check_dp_errors-Keeps _ _ s₂ s₃ e₃)
          (Keeps-IsCoherent s₁ s₂ (read_wire-Keeps _ _ _ s₁ s₂ e₂) c))

  -- A read of an AP register whose address is a byte, made with the cache right, succeeds only by these
  -- steps, in this order: SELECT is brought up to date, after which its bits on the target are the bank
  -- of the address; then the AP read is made and acknowledged; then the errors are checked; then
  -- RDBUFF is read, and its answer is the value. Afterwards the cache is right again.
  pub read_ap_operation-routed :
      (addr : ℕ) (single : Bool) (s s' : Interface t.Wire) (v : ℕ)
      → addr < 256
      → IsCoherent t d s
      → read_ap_operation t addr single s ≡ (ok v, s')
      → (s₁ s₂ s₃ : Interface t.Wire) × (check_and_update_dp_select t (SwdOp.ap_read addr) s
          ≡ (ok tt, s₁))
        × (d.selected s₁.protocol / 2 ^ 4 % 2 ^ 4 ≡ addr / 2 ^ 4)
        × ((r : ℕ) × (read_wire t (SwdOp.ap_read addr) false s₁ ≡ (ok r, s₂)))
        × (check_dp_errors t true s₂ ≡ (ok tt, s₃))
        × (read_wire t (SwdOp.dp_read rd_buff_address) single s₃ ≡ (ok v, s'))
        × IsCoherent t d s'
  unfolding read_ap_operation ApRead read_wire needs_select
  read_ap_operation-routed addr single s s' v ha c h =
      elim (Bool-cases (refused t (SwdOp.ap_read addr) s)) [
        | inl e ↦
            let refusal = rw e at h in
            let m : err SwdError.not_ready ≡ ok v = ap (λ x. x.0) refusal in absurd cc
        | inr e ↦
            let (s₁, s₂, s₃, e₁, calls) = read_ap_steps-ApRead addr single v s s' (rw e at h) in
            let (c₁, bank) =
              check_and_update_dp_select-selects t d (SwdOp.ap_read addr) s s₁ ha refl c e₁ in
            let ((r, e₂), e₃, h₃) = calls in
            (
              s₁,
              s₂,
              s₃,
              e₁,
              check_dp_select-bank (SwdOp.ap_read addr) (d.selected s₁.protocol) ha bank,
              (r, e₂),
              e₃,
              h₃,
              ApRead-IsCoherent addr single v s₁ s₂ s₃ s' calls c₁,
            )
      ]
