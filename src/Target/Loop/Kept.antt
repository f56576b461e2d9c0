-- ===== src/Target/Loop/Kept.antt =====
-- The requests that leave the settings of the task of airfrog/src/target/mod.rs as they are.
use airfrog.Prelude.{ℕ, true, false, List}
use airfrog.Bin.Error.{Result, ok, err}
use airfrog.Swd.Error.{SwdError}
use airfrog.Swd.Interface.State.{Transport, Interface}
use airfrog.Swd.Interface.Bulk.{BulkError, Stored}
use airfrog.Swd.Interface.Memory.{read_mem, write_mem, set_addr_inc}
use airfrog.Swd.Interface.Access.{clear_errors, read_ctrl_stat}
use airfrog.Swd.Interface.Raw.{
  read_dp_register_raw, write_dp_register_raw, read_ap_register_raw, write_ap_register_raw,
  read_ap_register_raw_bulk, write_ap_register_raw_bulk,
}
use airfrog.Swd.Debug.{DebugError, swd_memory, unlock_flash, lock_flash}
use airfrog.Swd.Debug.Splice.{OperationBytes}
use airfrog.Swd.Debug.Erase.{erase_sector, erase_all}
use airfrog.Swd.Debug.Program.{write_flash, write_flash_bulk}
use airfrog.Swd.Debug.Connect.{read_bulk, write_bulk}
use airfrog.Target.HexText.{Text}
use airfrog.Target.Types.{AirfrogError, Command, Payload, Response, SettingsSource, with_data}
use airfrog.Target.State.{Target, set_speed}
use airfrog.Target.Rest.{
  Reply, Handler, checked, from_interface, then_interface, from_write_bulk, from_read_bulk,
  from_debug, with_status, rest_get_addr, rest_get_data, rest_check_data_len, rest_get_bulk_data,
  rest_get_dp_register, rest_get_ap_index, rest_get_ap_register, rest_get_status, rest_get_details,
  rest_clear_errors, rest_get_errors, detailed,
}
use airfrog.Target.Requests.{
  rest_read_mem, rest_write_mem, rest_read_mem_bulk, rest_write_mem_bulk, rest_unlock_flash,
  rest_lock_flash, rest_erase_sector, rest_erase_all, rest_write_flash_word, rest_write_flash_bulk,
  rest_get_speed, rest_set_speed, rest_raw_read_dp_reg, rest_raw_write_dp_reg, rest_raw_read_ap_reg,
  rest_raw_write_ap_reg, rest_raw_bulk_read_ap_reg, rest_raw_bulk_write_ap_reg, rest_raw_clock,
  update_settings, without_addr_inc, signalled, dispatch, handle_request,
}
use airfrog.Target.Loop.Quiet.{IsQuiet, rest_raw_reset-IsQuiet}

-- A request that does not ask for the settings to be turned on.
unfoldable pub IsCalm : Command → Type 0
IsCalm Command.reset = ⊥
IsCalm (Command.update_settings SettingsSource.from_runtime _) = ⊥
IsCalm _ = Unit

module _ (t : Transport) (n : ℕ) where
  -- The handler leaves a quiet state quiet.
  abbrev Keeps : Handler t n → Type 0
  Keeps handler = (s : Target t.Wire) → IsQuiet s → IsQuiet (handler s).1

  checked-Keeps :
      {A : Type 0} (r : Result AirfrogError A) (f : A → Handler t n)
      → ((a : A) → Keeps (f a))
      → Keeps (checked t n r f)
  checked-Keeps (ok a) f h s q = h a s q
  checked-Keeps (err e) f h s q = q

  from_interface-Keeps :
      {A : Type 0} (f : A → Response) (x : Result SwdError A × Interface t.Wire)
      → Keeps (from_interface t n f x)
  from_interface-Keeps f (ok a, i) s q = q
  from_interface-Keeps f (err e, i) s q = q

  then_interface-Keeps :
      {A : Type 0} (x : Result SwdError A × Interface t.Wire) (f : Handler t n)
      → Keeps f
      → Keeps (then_interface t n x f)
  then_interface-Keeps (ok a, i) f h s q = h _ q
  then_interface-Keeps (err e, i) f h s q = q

  with_status-Keeps :
      {A : Type 0} (f : A → Response → Response) (x : Result SwdError A × Interface t.Wire)
      → Keeps (with_status t n f x)
  with_status-Keeps f (ok a, i) s q = q
  with_status-Keeps f (err e, i) s q = q

  from_write_bulk-Keeps :
      (x : Result BulkError (Unit {0}) × Interface t.Wire) → Keeps (from_write_bulk t n x)
  from_write_bulk-Keeps (ok _, i) s q = q
  from_write_bulk-Keeps (err e, i) s q = q

  from_read_bulk-Keeps : (x : Stored t.Wire) → Keeps (from_read_bulk t n x)
  from_read_bulk-Keeps ((ok _, ws), i) s q = q
  from_read_bulk-Keeps ((err e, ws), i) s q = q

  from_debug-Keeps :
      (x : Result DebugError (Unit {0}) × Interface t.Wire) → Keeps (from_debug t n x)
  from_debug-Keeps (ok _, i) s q = q
  from_debug-Keeps (err (DebugError.failed e), i) s q = q
  from_debug-Keeps (err DebugError.endless, i) s q = q

  without_addr_inc-Keeps : (x : Reply t n) → IsQuiet x.1 → IsQuiet (without_addr_inc t n x).1
  without_addr_inc-Keeps (ok r, s) q =
      then_interface-Keeps (set_addr_inc t false s.swd) (λ s₁. (ok r, s₁)) (λ s₁ q₁. q₁) s q
  without_addr_inc-Keeps (err halt, s) q = q

  raw_bulk_read-Keeps :
      (ap_index register : Text) (count : ℕ)
      → Keeps (rest_raw_bulk_read_ap_reg t n ap_index register count)
  unfolding rest_raw_bulk_read_ap_reg
  raw_bulk_read-Keeps ap_index register count = checked-Keeps (rest_get_ap_index ap_index) _ (λ a.
      checked-Keeps (rest_get_ap_register register) _ (λ r.
        checked-Keeps (rest_check_data_len count) _ (λ _ s q.
          then_interface-Keeps (set_addr_inc t true s.swd) _
            (λ s₁ q₁.
              without_addr_inc-Keeps
                (from_read_bulk t n (read_ap_register_raw_bulk t a r count s₁.swd) s₁)
                (from_read_bulk-Keeps (read_ap_register_raw_bulk t a r count s₁.swd) s₁ q₁))
            s q)))

  raw_bulk_write-Keeps :
      (ap_index register : Text) (count : ℕ) (words : List Text)
      → Keeps (rest_raw_bulk_write_ap_reg t n ap_index register count words)
  unfolding rest_raw_bulk_write_ap_reg
  raw_bulk_write-Keeps ap_index register count words =
      checked-Keeps (rest_get_ap_index ap_index) _ (λ a.
        checked-Keeps (rest_get_ap_register register) _ (λ r.
          checked-Keeps (rest_get_bulk_data words) _ (λ ws.
            checked-Keeps (rest_check_data_len count) _ (λ _ s q.
              then_interface-Keeps (set_addr_inc t true s.swd) _
                (λ s₁ q₁.
                  without_addr_inc-Keeps
                    (from_write_bulk t n (write_ap_register_raw_bulk t a r ws s₁.swd) s₁)
                    (from_write_bulk-Keeps (write_ap_register_raw_bulk t a r ws s₁.swd) s₁ q₁))
                s q))))

  dispatch-Keeps : (command : Command) → IsCalm command → Keeps (dispatch t n command)
  unfolding dispatch IsCalm rest_get_status rest_get_details rest_clear_errors rest_get_errors
      rest_read_mem rest_write_mem rest_read_mem_bulk rest_write_mem_bulk rest_unlock_flash
      rest_lock_flash rest_erase_sector rest_erase_all rest_write_flash_word rest_write_flash_bulk
      rest_get_speed rest_set_speed set_speed rest_raw_read_dp_reg rest_raw_write_dp_reg
      rest_raw_read_ap_reg rest_raw_write_ap_reg rest_raw_clock update_settings
  dispatch-Keeps Command.get_status h = λ s q. q
  dispatch-Keeps Command.reset h = λ s q. absurd h
  dispatch-Keeps Command.get_details h =
      λ s q. checked-Keeps (detailed t n s.swd.mcu s.swd.idcode s.swd.idr) _ (λ d s₁ q₁. q₁) s q
  dispatch-Keeps Command.clear_errors h =
      λ s q. with_status-Keeps (λ _ r. r) (clear_errors t s.swd) s q
  dispatch-Keeps Command.get_errors h = λ s q.
      with_status-Keeps (λ c. with_data (Payload.error_states c)) (read_ctrl_stat t s.swd) s q
  dispatch-Keeps (Command.read_mem addr) h =
      checked-Keeps (rest_get_addr addr) _
        (λ a s q. from_interface-Keeps _ (read_mem t a s.swd) s q)
  dispatch-Keeps (Command.write_mem addr word) h = checked-Keeps (rest_get_addr addr) _ (λ a.
      checked-Keeps (rest_get_data word) _
        (λ w s q. from_interface-Keeps _ (write_mem t a w s.swd) s q))
  dispatch-Keeps (Command.read_mem_bulk addr count) h = checked-Keeps (rest_get_addr addr) _ (λ a.
      checked-Keeps (rest_check_data_len count) _
        (λ _ s q. from_read_bulk-Keeps (read_bulk t a count true s.swd) s q))
  dispatch-Keeps (Command.write_mem_bulk addr words) h = checked-Keeps (rest_get_addr addr) _ (λ a.
      checked-Keeps (rest_get_bulk_data words) _
        (λ ws s q. from_write_bulk-Keeps (write_bulk t a ws true s.swd) s q))
  dispatch-Keeps Command.unlock_flash h =
      λ s q. from_debug-Keeps (unlock_flash (swd_memory t) s.swd) s q
  dispatch-Keeps Command.lock_flash h =
      λ s q. from_debug-Keeps (lock_flash (swd_memory t) s.swd) s q
  dispatch-Keeps (Command.erase_sector sector) h =
      λ s q. from_debug-Keeps (erase_sector (swd_memory t) n sector s.swd) s q
  dispatch-Keeps Command.erase_all h =
      λ s q. from_debug-Keeps (erase_all (swd_memory t) n s.swd) s q
  dispatch-Keeps (Command.write_flash_word addr word) h = checked-Keeps (rest_get_addr addr) _ (λ a.
      checked-Keeps (rest_get_data word) _ (λ w s q.
        from_debug-Keeps (write_flash (swd_memory t) n a w OperationBytes.byte4 s.swd) s q))
  dispatch-Keeps (Command.write_flash_bulk addr words) h =
      checked-Keeps (rest_get_addr addr) _ (λ a.
        checked-Keeps (rest_get_bulk_data words) _
          (λ ws s q. from_debug-Keeps (write_flash_bulk (swd_memory t) n a ws s.swd) s q))
  dispatch-Keeps Command.get_speed h = λ s q. q
  dispatch-Keeps (Command.set_speed speed) h = λ s q. q
  dispatch-Keeps (Command.update_settings SettingsSource.from_flash settings) h = λ s q. q
  dispatch-Keeps (Command.update_settings SettingsSource.from_runtime settings) h = λ s q. absurd h
  dispatch-Keeps Command.raw_reset h = λ s q. rest_raw_reset-IsQuiet t n s
  dispatch-Keeps (Command.raw_read_dp_reg register) h =
      checked-Keeps (rest_get_dp_register register) _
        (λ r s q. from_interface-Keeps _ (read_dp_register_raw t r s.swd) s q)
  dispatch-Keeps (Command.raw_write_dp_reg register word) h =
      checked-Keeps (rest_get_dp_register register) _ (λ r.
        checked-Keeps (rest_get_data word) _
          (λ w s q. from_interface-Keeps _ (write_dp_register_raw t r w s.swd) s q))
  dispatch-Keeps (Command.raw_read_ap_reg ap_index register) h =
      checked-Keeps (rest_get_ap_index ap_index) _ (λ a.
        checked-Keeps (rest_get_ap_register register) _
          (λ r s q. from_interface-Keeps _ (read_ap_register_raw t a r s.swd) s q))
  dispatch-Keeps (Command.raw_write_ap_reg ap_index register word) h =
      checked-Keeps (rest_get_ap_index ap_index) _ (λ a.
        checked-Keeps (rest_get_ap_register register) _ (λ r.
          checked-Keeps (rest_get_data word) _
            (λ w s q. from_interface-Keeps _ (write_ap_register_raw t a r w s.swd) s q)))
  dispatch-Keeps (Command.raw_bulk_read_ap_reg a r count) h = raw_bulk_read-Keeps a r count
  dispatch-Keeps (Command.raw_bulk_write_ap_reg a r count words) h =
      raw_bulk_write-Keeps a r count words
  dispatch-Keeps (Command.clock level post_level count) h = λ s q. q

  signalled-IsQuiet : (x : Reply t n) → IsQuiet x.1 → IsQuiet (signalled t n x).1
  signalled-IsQuiet (ok r, s) q = q
  signalled-IsQuiet (err halt, s) q = q

  -- Every request but a reset and an update of the runtime settings leaves a state in which nothing is
  -- done by itself as such a state, whether it succeeds or fails.
  pub handle_request-IsQuiet :
      (command : Command) (s : Target t.Wire)
      → IsCalm command
      → IsQuiet s
      → IsQuiet (handle_request t n command s).1
  unfolding handle_request
  handle_request-IsQuiet command s h q =
      signalled-IsQuiet (dispatch t n command s) (dispatch-Keeps command h s q)
