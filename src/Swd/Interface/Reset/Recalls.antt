-- ===== src/Swd/Interface/Reset/Recalls.antt =====
-- What a transport has seen of its target since the entry to SWD, and the two reads that tell it.
use airfrog.Prelude.{
  ℕ, ◌/◌, ◌%◌, ◌^◌, ◌≡◌, refl, arith, Bool, true, false, not, if_both, if◌then◌else◌, ◌||◌,
}
use airfrog.Bin.Error.{Result, ok, err}
use airfrog.Core.CtrlStat.{cdbgpwrupack, csyspwrupack}
use airfrog.Core.Fields.{bit_and-pow}
use airfrog.Swd.Error.{SwdError}
use airfrog.Swd.Command.{SwdOp}
use airfrog.Swd.Interface.State.{Transport, Interface}
use airfrog.Swd.Interface.Access.{
  read_wire, read_idcode, read_dp_register, read_dp_operation, read_dp_steps, refused,
  check_and_update_dp_select, ctrl_stat_address,
}
use airfrog.Swd.Interface.Reset.Leads.{OnOk, Anything, Leads, skip-Leads}

-- Bits 29 and 31 of CTRL/STAT: the debug domain and the system have acknowledged their power-up.
abbrev pub BothAcked : ℕ → Type 0
BothAcked status = (status / 2 ^ 29 % 2 ≡ 1) × (status / 2 ^ 31 % 2 ≡ 1)

-- Facts of the history of the lines: that a read of register 0 of the debug port has been answered
-- with a value, and that a read of its register 4 has been answered with both acknowledgements. What
-- happens later leaves them as they are.
pub record Recalls (t : Transport) : Type 1 where
  pub Gave : ℕ → t.Wire → Type 0
  pub Acked : t.Wire → Type 0
  pub gives :
      (n v : ℕ) (single : Bool) (w : t.Wire)
      → (t.read_op n (SwdOp.dp_read 0x00) single w).0 ≡ ok v
      → Gave v (t.read_op n (SwdOp.dp_read 0x00) single w).1
  pub acks :
      (n status : ℕ) (single : Bool) (w : t.Wire)
      → (t.read_op n (SwdOp.dp_read 0x04) single w).0 ≡ ok status
      → BothAcked status
      → Acked (t.read_op n (SwdOp.dp_read 0x04) single w).1
  pub gave_write :
      (v n word : ℕ) (op : SwdOp) (single : Bool) (w : t.Wire)
      → Gave v w
      → Gave v (t.write_op n op word single w).1
  pub gave_read :
      (v n : ℕ) (op : SwdOp) (single : Bool) (w : t.Wire)
      → Gave v w
      → Gave v (t.read_op n op single w).1
  pub gave_pause : (v us : ℕ) (w : t.Wire) → Gave v w → Gave v (t.pause us w)
  pub acked_write :
      (n word : ℕ) (op : SwdOp) (single : Bool) (w : t.Wire)
      → Acked w
      → Acked (t.write_op n op word single w).1
  pub acked_read :
      (n : ℕ) (op : SwdOp) (single : Bool) (w : t.Wire)
      → Acked w
      → Acked (t.read_op n op single w).1
  pub acked_pause : (us : ℕ) (w : t.Wire) → Acked w → Acked (t.pause us w)

both-Acked :
    (status : ℕ)
    → (not (cdbgpwrupack status) || not (csyspwrupack status)) ≡ false
    → BothAcked status
unfolding cdbgpwrupack csyspwrupack
both-Acked status h = ground (arith, bit_and-pow 29 status, bit_and-pow 31 status)

module _ (t : Transport) (d : Recalls t) where
  -- Both are acknowledged, as the interface notes.
  abbrev pub IsPowered : Interface t.Wire → Type 0
  IsPowered s = (s.powered_up ≡ true) × d.Acked s.protocol

  told :
      (R : ℕ → Interface t.Wire → Type 0) (x : Result SwdError ℕ) (s : Interface t.Wire)
      → ((v : ℕ) → x ≡ ok v → R v s)
      → OnOk t R (x, s)
  told R (ok v) s h = h v refl
  told R (err e) s h = tt

  pub read_idcode-Gave :
      (s : Interface t.Wire) → OnOk t (λ v s₁. d.Gave v s₁.protocol) (read_idcode t s)
  unfolding read_idcode read_wire
  read_idcode-Gave s =
      let x = t.read_op s.wait_retries (SwdOp.dp_read 0x00) true s.protocol in
      told (λ v s₁. d.Gave v s₁.protocol) x.0 (record s { protocol = x.1 })
        (λ v h. d.gives s.wait_retries v true s.protocol h)

  abbrev pub Answers : ℕ → Interface t.Wire → Type 0
  Answers status s = BothAcked status → d.Acked s.protocol

  read_status-Leads :
      Leads t (Anything t) (read_wire t (SwdOp.dp_read ctrl_stat_address) true) Answers
  unfolding Leads read_wire
  read_status-Leads s h =
      let x = t.read_op s.wait_retries (SwdOp.dp_read 0x04) true s.protocol in
      told Answers x.0 (record s { protocol = x.1 })
        (λ status h₁ both. d.acks s.wait_retries status true s.protocol h₁ both)

  pub read_ctrl_stat-Leads : Leads t (Anything t) (read_dp_register t ctrl_stat_address) Answers
  unfolding Leads read_dp_register read_dp_operation read_dp_steps
  read_ctrl_stat-Leads s h =
      if_both (OnOk t Answers) (refused t (SwdOp.dp_read ctrl_stat_address) s) _ _ (λ _. tt)
        (λ _.
          skip-Leads t Answers (check_and_update_dp_select t (SwdOp.dp_read ctrl_stat_address)) _
            (λ _. read_status-Leads) s tt)

  pub acked-Leads :
      (status : ℕ)
      → Leads t {A = Unit {0}}
          (Answers status)
          (λ s.
            if not (cdbgpwrupack status) || not (csyspwrupack status)
            then (err SwdError.operation_failed, s)
            else (ok tt, record s { powered_up = true }))
          (λ _. IsPowered)
  unfolding Leads
  acked-Leads status s h =
      if_both (OnOk t (λ _. IsPowered)) (not (cdbgpwrupack status) || not (csyspwrupack status)) _ _
        (λ _. tt) (λ e. (refl, h (both-Acked status e)))
