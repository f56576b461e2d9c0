-- ===== src/Swd/Interface/Reset/Steady.antt =====
-- What a transfer, a pause and a change of a cached field keep is kept by every access of registers and
-- of memory.
use airfrog.Prelude.{ℕ, Bool, true, false, Bool-cases, inl, inr, some, ◌==◌, if◌then◌else◌, not}
use airfrog.Bin.Error.{Result, ok, err}
use airfrog.Core.Select.{Select}
use airfrog.Swd.Error.{SwdError}
use airfrog.Swd.Command.{SwdOp, check_dp_select}
use airfrog.Swd.Interface.State.{Transport, Interface, Act, ◌>>=◌}
use airfrog.Swd.Interface.Steps.{continue-keeps}
use airfrog.Swd.Interface.Access.{
  write_wire, read_wire, read_ctrl_stat, check_dp_errors, errors_of, store_select, update_dp_select,
  check_and_update_dp_select, needs_select, select_for, refused, write_steps, write_operation,
  read_ap_steps, read_ap_operation, read_dp_steps, read_dp_operation, write_ap_register,
  read_ap_register, write_dp_register, read_dp_register, set_abort, clear_errors, pause_1_ms,
}
use airfrog.Swd.Interface.Memory.{read_mem, write_mem}

pub record IsSteady (t : Transport) (P : Interface t.Wire → Type 0) : Type 0 where
  pub on_write :
      (s : Interface t.Wire) (op : SwdOp) (word : ℕ) (single : Bool)
      → P s
      → P (record s { protocol = (t.write_op s.wait_retries op word single s.protocol).1 })
  pub on_read :
      (s : Interface t.Wire) (op : SwdOp) (single : Bool)
      → P s
      → P (record s { protocol = (t.read_op s.wait_retries op single s.protocol).1 })
  pub on_pause : (s : Interface t.Wire) → P s → P (record s { protocol = t.pause 1000 s.protocol })
  pub on_select : (s : Interface t.Wire) (v : Select) → P s → P (record s { dp_select = v })
  pub on_addr_inc : (s : Interface t.Wire) (b : Bool) → P s → P (record s { addr_inc = b })
  pub on_idr : (s : Interface t.Wire) (v : ℕ) → P s → P (record s { idr = some v })
  pub on_power : (s : Interface t.Wire) → P s → P (record s { powered_up = true })

module _ (t : Transport) (P : Interface t.Wire → Type 0) (d : IsSteady t P) where
  -- Whatever the result of an operation, the predicate is kept.
  unfoldable pub Keeps : {A : Type 0} → Act t.Wire SwdError A → Type 0
  Keeps act = (s : Interface t.Wire) → P s → P (act s).1

  -- One operation after another.
  pub chain-Keeps :
      {A B : Type 0} (m : Act t.Wire SwdError A) (f : A → Act t.Wire SwdError B)
      → Keeps m
      → ((a : A) → Keeps (f a))
      → Keeps (m >>= f)
  unfolding Keeps
  chain-Keeps m f k l s h = continue-keeps P (m s) f (k s h) (λ a s₁ h₁. l a s₁ h₁)

  -- An operation that the state decides on.
  pub branch-Keeps :
      {A : Type 0} (b : Interface t.Wire → Bool) (m n : Act t.Wire SwdError A)
      → Keeps m
      → Keeps n
      → Keeps (λ s. if b s then m s else n s)
  unfolding Keeps
  branch-Keeps b m n k l s h = elim (Bool-cases (b s)) [
    | inl e ↦ rw e (k s h)
    | inr e ↦ rw e (l s h)
  ]

  -- An operation that is chosen between.
  pub either-Keeps :
      {A : Type 0} (b : Bool) (m n : Act t.Wire SwdError A)
      → Keeps m
      → Keeps n
      → Keeps (if b then m else n)
  either-Keeps true m n k l = k
  either-Keeps false m n k l = l

  -- An operation that leaves the interface as it is.
  pub idle-Keeps : {A : Type 0} (r : Interface t.Wire → Result SwdError A) → Keeps (λ s. (r s, s))
  unfolding Keeps
  idle-Keeps r s h = h

  pub write_wire-Keeps : (op : SwdOp) (w : ℕ) (single : Bool) → Keeps (write_wire t op w single)
  unfolding Keeps write_wire
  write_wire-Keeps op w single s h = d.on_write s op w single h

  pub read_wire-Keeps : (op : SwdOp) (single : Bool) → Keeps (read_wire t op single)
  unfolding Keeps read_wire
  read_wire-Keeps op single s h = d.on_read s op single h

  check_dp_errors-Keeps : (b : Bool) → Keeps (check_dp_errors t b)
  unfolding check_dp_errors read_ctrl_stat
  check_dp_errors-Keeps b =
      chain-Keeps _ _ (read_wire-Keeps _ true) (λ status. idle-Keeps (λ _. errors_of b status))

  store_select-Keeps : (v : Select) → Keeps (store_select t v)
  unfolding Keeps
  store_select-Keeps v s h = d.on_select s v h

  pub update_dp_select-Keeps : (v : Select) → Keeps (update_dp_select t v)
  unfolding update_dp_select
  update_dp_select-Keeps v =
      chain-Keeps _ _ (write_wire-Keeps _ v true)
        (λ _. chain-Keeps _ _ (check_dp_errors-Keeps false) (λ _. store_select-Keeps v))

  check_and_update-Keeps : (op : SwdOp) → Keeps (check_and_update_dp_select t op)
  unfolding check_and_update_dp_select
  check_and_update-Keeps op =
      branch-Keeps (λ _. not (needs_select op)) _ _ (idle-Keeps (λ _. ok tt))
        (branch-Keeps (λ s. not (check_dp_select op s.dp_select)) _ _
          (update_dp_select-Keeps (select_for op)) (idle-Keeps (λ _. ok tt)))

  write_operation-Keeps :
      (op : SwdOp) (w : ℕ) (single : Bool) → Keeps (write_operation t op w single)
  unfolding write_operation write_steps
  write_operation-Keeps op w single =
      branch-Keeps (refused t op) _ _ (idle-Keeps (λ _. err SwdError.not_ready)) (
        chain-Keeps _ _ (check_and_update-Keeps op)
          (λ _. chain-Keeps _ _ (write_wire-Keeps op w single) (λ _. check_dp_errors-Keeps false)))

  pub read_ap_register-Keeps : (addr : ℕ) → Keeps (read_ap_register t addr)
  unfolding read_ap_register read_ap_operation read_ap_steps
  read_ap_register-Keeps addr =
      branch-Keeps (refused t (SwdOp.ap_read addr)) _ _ (idle-Keeps (λ _. err SwdError.not_ready)) (
        chain-Keeps _ _ (check_and_update-Keeps _) (λ _.
          chain-Keeps _ _ (read_wire-Keeps _ false)
            (λ _. chain-Keeps _ _ (check_dp_errors-Keeps true) (λ _. read_wire-Keeps _ true))))

  pub read_dp_register-Keeps : (addr : ℕ) → Keeps (read_dp_register t addr)
  unfolding read_dp_register read_dp_operation read_dp_steps
  read_dp_register-Keeps addr =
      branch-Keeps (refused t (SwdOp.dp_read addr)) _ _ (idle-Keeps (λ _. err SwdError.not_ready))
        (chain-Keeps _ _ (check_and_update-Keeps _) (λ _. read_wire-Keeps _ true))

  pub write_ap_register-Keeps : (addr w : ℕ) → Keeps (write_ap_register t addr w)
  unfolding write_ap_register
  write_ap_register-Keeps addr w = write_operation-Keeps _ w true

  pub write_dp_register-Keeps : (addr w : ℕ) → Keeps (write_dp_register t addr w)
  unfolding write_dp_register
  write_dp_register-Keeps addr w = write_operation-Keeps _ w true

  set_abort-Keeps : (a b c e : Bool) → Keeps (set_abort t a b c e)
  unfolding set_abort
  set_abort-Keeps a b c e = write_wire-Keeps _ _ true

  pause-Keeps : Keeps (pause_1_ms t)
  unfolding Keeps
  pause-Keeps s h = d.on_pause s h

  pub clear_errors-Keeps : Keeps (clear_errors t)
  unfolding clear_errors
  clear_errors-Keeps =
      chain-Keeps _ _ (set_abort-Keeps true true true true)
        (λ _. chain-Keeps _ _ pause-Keeps (λ _. check_dp_errors-Keeps false))

  pub read_mem-Keeps : (addr : ℕ) → Keeps (read_mem t addr)
  unfolding read_mem
  read_mem-Keeps addr = chain-Keeps _ _ (write_ap_register-Keeps _ addr) (λ _.
      chain-Keeps _ _ (read_ap_register-Keeps _) (λ readback.
        branch-Keeps (λ _. addr == readback) _ _ (read_ap_register-Keeps _)
          (idle-Keeps (λ _. err SwdError.operation_failed))))

  pub write_mem-Keeps : (addr w : ℕ) → Keeps (write_mem t addr w)
  unfolding write_mem
  write_mem-Keeps addr w = chain-Keeps _ _ (write_ap_register-Keeps _ addr) (λ _.
      chain-Keeps _ _ (read_ap_register-Keeps _) (λ readback.
        branch-Keeps (λ _. addr == readback) _ _ (write_ap_register-Keeps _ w)
          (idle-Keeps (λ _. err SwdError.operation_failed))))
