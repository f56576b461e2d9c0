-- ===== src/Swd/Interface/Access.antt =====
-- Register access of `SwdInterface` in airfrog-swd/src/interface.rs: the SELECT cache, the error
-- checks, and reads and writes of one register. `let _version = self.check_version()` has no effect
-- and is left out, as is logging.
use airfrog.Prelude.{ℕ, Bool, true, false, ◌&&◌, ◌||◌, not, ◌==◌, if◌then◌else◌}
use airfrog.Bin.Error.{Result, ok, err}
use airfrog.Core.Select
use airfrog.Core.Select.{Select}
use airfrog.Core.CtrlStat.{
  CtrlStat, has_errors, readok, set_stkcmpclr, set_stkerrclr, set_wderrclr, set_orunerrclr,
}
use airfrog.Swd.Error.{SwdError}
use airfrog.Swd.Command.{SwdOp, dp_select, check_dp_select, requires_power_up}
use airfrog.Swd.Interface.State.{Transport, Interface, Act, ◌>>=◌, ◌>>◌, reset_internal_state}

-- `R::ADDRESS` of the registers of airfrog-core/src/arm.
abbrev pub idcode_address : ℕ
idcode_address = 0x00

abbrev pub abort_address : ℕ
abort_address = 0x00

abbrev pub ctrl_stat_address : ℕ
ctrl_stat_address = 0x04

abbrev pub select_address : ℕ
select_address = 0x08

abbrev pub rd_buff_address : ℕ
rd_buff_address = 0x0c

-- The `check` of `check_and_update_dp_select`: whether an access goes through a bank of SELECT.
unfoldable pub needs_select : SwdOp → Bool
needs_select (SwdOp.dp_write addr) =
    not (addr == abort_address || addr == select_address || addr == rd_buff_address)
needs_select (SwdOp.dp_read addr) =
    not (addr == idcode_address || addr == select_address || addr == rd_buff_address)
needs_select (SwdOp.ap_write _) = true
needs_select (SwdOp.ap_read _) = true

-- `select_new` in `check_and_update_dp_select`.
unfoldable pub select_for : SwdOp → Select
select_for (SwdOp.dp_read addr) =
    Select.set_dpbanksel_from_addr (dp_select (SwdOp.dp_read addr)).0 addr
select_for (SwdOp.dp_write addr) =
    Select.set_dpbanksel_from_addr (dp_select (SwdOp.dp_write addr)).0 addr
select_for (SwdOp.ap_read addr) =
    Select.set_apbanksel_from_addr (dp_select (SwdOp.ap_read addr)).0 addr
select_for (SwdOp.ap_write addr) =
    Select.set_apbanksel_from_addr (dp_select (SwdOp.ap_write addr)).0 addr

-- The test at the end of `check_dp_errors`.
unfoldable pub errors_of : Bool → CtrlStat → Result SwdError (Unit {0})
errors_of check_read_ok status =
    if has_errors status || (check_read_ok && not (readok status))
    then err SwdError.dp_error
    else ok tt

module _ (t : Transport) where
  -- The calls of `do_write_op` and `do_read_op`.
  unfoldable pub write_wire : SwdOp → ℕ → Bool → Act t.Wire SwdError (Unit {0})
  write_wire op word single s =
      let (r, p) = t.write_op s.wait_retries op word single s.protocol in
      (r, record s { protocol = p })

  unfoldable pub read_wire : SwdOp → Bool → Act t.Wire SwdError ℕ
  read_wire op single s =
      let (r, p) = t.read_op s.wait_retries op single s.protocol in (r, record s { protocol = p })

  unfoldable pub read_ctrl_stat : Act t.Wire SwdError CtrlStat
  read_ctrl_stat = read_wire (SwdOp.dp_read ctrl_stat_address) true

  unfoldable pub check_dp_errors : Bool → Act t.Wire SwdError (Unit {0})
  check_dp_errors check_read_ok = do
    status ← read_ctrl_stat
    λ s. (errors_of check_read_ok status, s)

  abbrev pub store_select : Select → Act t.Wire SwdError (Unit {0})
  store_select select s = (ok tt, record s { dp_select = select })

  unfoldable pub update_dp_select : Select → Act t.Wire SwdError (Unit {0})
  update_dp_select select = do
    write_wire (SwdOp.dp_write select_address) select true
    check_dp_errors false
    store_select select

  unfoldable pub check_and_update_dp_select : SwdOp → Act t.Wire SwdError (Unit {0})
  check_and_update_dp_select op s =
      if not (needs_select op)
      then (ok tt, s)
      else if not (check_dp_select op s.dp_select)
      then update_dp_select (select_for op) s
      else (ok tt, s)

  -- The refusal at the head of `write_operation` and `read_operation`.
  unfoldable pub refused : SwdOp → Interface t.Wire → Bool
  refused op s = s.check_power && requires_power_up op && not s.powered_up

  unfoldable pub write_steps : SwdOp → ℕ → Bool → Act t.Wire SwdError (Unit {0})
  write_steps op word single = do
    check_and_update_dp_select op
    write_wire op word single
    check_dp_errors false

  unfoldable pub write_operation : SwdOp → ℕ → Bool → Act t.Wire SwdError (Unit {0})
  write_operation op word single s =
      if refused op s then (err SwdError.not_ready, s) else write_steps op word single s

  -- `read_operation` of a DP register and of an AP register; it is never called with a write.
  unfoldable pub read_dp_steps : ℕ → Bool → Act t.Wire SwdError ℕ
  read_dp_steps addr single = do
    check_and_update_dp_select (SwdOp.dp_read addr)
    read_wire (SwdOp.dp_read addr) single

  unfoldable pub read_ap_steps : ℕ → Bool → Act t.Wire SwdError ℕ
  read_ap_steps addr single = do
    check_and_update_dp_select (SwdOp.ap_read addr)
    _ ← read_wire (SwdOp.ap_read addr) false
    check_dp_errors true
    read_wire (SwdOp.dp_read rd_buff_address) single

  unfoldable pub read_dp_operation : ℕ → Bool → Act t.Wire SwdError ℕ
  read_dp_operation addr single s =
      if refused (SwdOp.dp_read addr) s
      then (err SwdError.not_ready, s)
      else read_dp_steps addr single s

  unfoldable pub read_ap_operation : ℕ → Bool → Act t.Wire SwdError ℕ
  read_ap_operation addr single s =
      if refused (SwdOp.ap_read addr) s
      then (err SwdError.not_ready, s)
      else read_ap_steps addr single s

  -- The typed accesses: `R::ADDRESS` and the raw value of the register.
  unfoldable pub write_dp_register : ℕ → ℕ → Act t.Wire SwdError (Unit {0})
  write_dp_register addr value = write_operation (SwdOp.dp_write addr) value true

  unfoldable pub write_ap_register : ℕ → ℕ → Act t.Wire SwdError (Unit {0})
  write_ap_register addr value = write_operation (SwdOp.ap_write addr) value true

  unfoldable pub read_dp_register : ℕ → Act t.Wire SwdError ℕ
  read_dp_register addr = read_dp_operation addr true

  unfoldable pub read_ap_register : ℕ → Act t.Wire SwdError ℕ
  read_ap_register addr = read_ap_operation addr true

  unfoldable pub read_idcode : Act t.Wire SwdError ℕ
  read_idcode = read_wire (SwdOp.dp_read idcode_address) true

  -- `inspect_err(|_| self.reset_internal_state())`
  unfoldable pub keepalive : Act t.Wire SwdError (Unit {0})
  keepalive s = elim (read_idcode s).0 [
    | ok _ ↦ (ok tt, (read_idcode s).1)
    | err e ↦ (err e, reset_internal_state (read_idcode s).1)
  ]

  unfoldable pub set_abort : Bool → Bool → Bool → Bool → Act t.Wire SwdError (Unit {0})
  set_abort stkcmpclr stkerrclr wderrclr orunerrclr =
      let abort =
        set_orunerrclr (set_wderrclr (set_stkerrclr (set_stkcmpclr 0 stkcmpclr) stkerrclr) wderrclr)
          orunerrclr in
      write_wire (SwdOp.dp_write abort_address) abort true

  -- `Timer::after(Duration::from_millis(1))`
  abbrev pub pause_1_ms : Act t.Wire SwdError (Unit {0})
  pause_1_ms s = (ok tt, record s { protocol = t.pause 1000 s.protocol })

  unfoldable pub clear_errors : Act t.Wire SwdError (Unit {0})
  clear_errors = do set_abort true true true true; pause_1_ms; check_dp_errors false
