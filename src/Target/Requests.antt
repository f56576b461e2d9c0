-- ===== src/Target/Requests.antt =====
-- The rest of the request handler of airfrog/src/target/mod.rs, and the dispatch of a request.
pub mod Limits
use airfrog.Prelude.{
  ℕ, Bool, true, false, not, ◌&&◌, ◌%◌, ◌^◌, ◌==◌, ltb, if◌then◌else◌, Option, some, none, List, [],
  ◌∷◌, length, map,
}
use airfrog.Bin.Error.{Result, ok, err}
use airfrog.Core.Mcu.{Mcu}
use airfrog.Swd.Error.{SwdError}
use airfrog.Swd.Wire.Protocol.{Speed, LineState}
use airfrog.Swd.Interface.State
use airfrog.Swd.Interface.State.{Transport, Interface, Version, check_version}
use airfrog.Swd.Interface.Access.{clear_errors, read_ctrl_stat}
use airfrog.Swd.Interface.Bulk.{BulkError, Stored}
use airfrog.Swd.Interface.Memory.{read_mem, write_mem, set_addr_inc}
use airfrog.Swd.Interface.Raw.{
  read_dp_register_raw, write_dp_register_raw, read_ap_register_raw, write_ap_register_raw,
  read_ap_register_raw_bulk, write_ap_register_raw_bulk,
}
use airfrog.Swd.Interface.Reset.{reset_target}
use airfrog.Swd.Interface.Line.{swd_speed, clock_raw}
use airfrog.Swd.Debug.{DebugError, swd_memory, unlock_flash, lock_flash}
use airfrog.Swd.Debug.Splice.{OperationBytes}
use airfrog.Swd.Debug.Erase.{erase_sector, erase_all}
use airfrog.Swd.Debug.Program.{write_flash, write_flash_bulk}
use airfrog.Swd.Debug.Connect.{read_bulk, write_bulk}
use airfrog.Config.Wifi.{Settings, swd_of_settings}
use airfrog.Target.HexText.{Text, format_word, parse_hex_word}
use airfrog.Target.Types.{
  ErrorKind, AirfrogError, from_swd, SettingsSource, Command, Status, Payload, Response, default,
  with_error, with_swd_status, with_data, with_speed,
}
use airfrog.Target.State.{
  Target, with_swd, set_auto_connect, set_keepalive, set_refresh, set_speed, connect,
}
use airfrog.Target.Rest.{
  Halt, max_word_count, rest_get_addr, rest_get_data, rest_check_data_len, rest_get_bulk_data,
  rest_get_dp_register, rest_get_ap_index, rest_get_ap_register, Reply, Handler, answer, checked,
  from_interface, then_interface, from_write_bulk, from_read_bulk, from_debug, word_response,
  no_data, rest_get_status, rest_reset, rest_get_details, rest_clear_errors, rest_get_errors,
}

module _ (t : Transport) (n : ℕ) where
  unfoldable pub rest_read_mem : Text → Handler t n
  rest_read_mem addr_str =
      checked t n (rest_get_addr addr_str)
        (λ addr s. from_interface t n (word_response t n) (read_mem t addr s.swd) s)

  unfoldable pub rest_write_mem : Text → Text → Handler t n
  rest_write_mem addr_str data_str = checked t n (rest_get_addr addr_str) (λ addr.
      checked t n (rest_get_data data_str)
        (λ word s. from_interface t n (no_data t n) (write_mem t addr word s.swd) s))

  unfoldable pub rest_read_mem_bulk : Text → ℕ → Handler t n
  rest_read_mem_bulk addr_str count = checked t n (rest_get_addr addr_str) (λ addr.
      checked t n (rest_check_data_len count)
        (λ _ s. from_read_bulk t n (read_bulk t addr count true s.swd) s))

  unfoldable pub rest_write_mem_bulk : Text → List Text → Handler t n
  rest_write_mem_bulk addr_str data_strs = checked t n (rest_get_addr addr_str) (λ addr.
      checked t n (rest_get_bulk_data data_strs)
        (λ words s. from_write_bulk t n (write_bulk t addr words true s.swd) s))

  unfoldable pub rest_unlock_flash : Handler t n
  rest_unlock_flash s = from_debug t n (unlock_flash (swd_memory t) s.swd) s

  unfoldable pub rest_lock_flash : Handler t n
  rest_lock_flash s = from_debug t n (lock_flash (swd_memory t) s.swd) s

  unfoldable pub rest_erase_sector : ℕ → Handler t n
  rest_erase_sector sector s = from_debug t n (erase_sector (swd_memory t) n sector s.swd) s

  unfoldable pub rest_erase_all : Handler t n
  rest_erase_all s = from_debug t n (erase_all (swd_memory t) n s.swd) s

  unfoldable pub rest_write_flash_word : Text → Text → Handler t n
  rest_write_flash_word addr_str data_str = checked t n (rest_get_addr addr_str) (λ addr.
      checked t n (rest_get_data data_str) (λ word s.
        from_debug t n (write_flash (swd_memory t) n addr word OperationBytes.byte4 s.swd) s))

  unfoldable pub rest_write_flash_bulk : Text → List Text → Handler t n
  rest_write_flash_bulk addr_str data_strs = checked t n (rest_get_addr addr_str) (λ addr.
      checked t n (rest_get_bulk_data data_strs)
        (λ words s. from_debug t n (write_flash_bulk (swd_memory t) n addr words s.swd) s))

  unfoldable pub rest_get_speed : Handler t n
  rest_get_speed s =
      let current = swd_speed t s.swd in
      (
        ok (ok (with_speed current default)),
        record s { settings = record (s.settings) { speed = current } },
      )

  unfoldable pub rest_set_speed : Speed → Handler t n
  rest_set_speed speed s = (ok (ok default), set_speed t speed s)

  -- After `reset_target` with version 1.
  abbrev pub or_v2 : Result SwdError (Unit {0}) × Interface t.Wire → Handler t n
  or_v2 (ok _, i) s = (ok (ok default), with_swd i s)
  or_v2 (err e, i) s = from_interface t n (no_data t n) (reset_target t Version.v2 i) s

  unfoldable pub rest_raw_reset : Handler t n
  rest_raw_reset s =
      let quiet = set_refresh false (set_keepalive false (set_auto_connect false s)) in
      or_v2 (reset_target t Version.v1 quiet.swd) quiet

  unfoldable pub rest_raw_read_dp_reg : Text → Handler t n
  rest_raw_read_dp_reg register_str = checked t n (rest_get_dp_register register_str) (λ register s.
      from_interface t n (word_response t n) (read_dp_register_raw t register s.swd) s)

  unfoldable pub rest_raw_write_dp_reg : Text → Text → Handler t n
  rest_raw_write_dp_reg register_str data_str =
      checked t n (rest_get_dp_register register_str) (λ register.
        checked t n (rest_get_data data_str) (λ word s.
          from_interface t n (no_data t n) (write_dp_register_raw t register word s.swd) s))

  unfoldable pub rest_raw_read_ap_reg : Text → Text → Handler t n
  rest_raw_read_ap_reg ap_index_str register_str =
      checked t n (rest_get_ap_index ap_index_str) (λ ap_index.
        checked t n (rest_get_ap_register register_str) (λ register s.
          from_interface t n (word_response t n) (read_ap_register_raw t ap_index register s.swd)
            s))

  unfoldable pub rest_raw_write_ap_reg : Text → Text → Text → Handler t n
  rest_raw_write_ap_reg ap_index_str register_str data_str =
      checked t n (rest_get_ap_index ap_index_str) (λ ap_index.
        checked t n (rest_get_ap_register register_str) (λ register.
          checked t n (rest_get_data data_str) (λ word s.
            from_interface t n (no_data t n) (write_ap_register_raw t ap_index register word s.swd)
              s)))

  -- `self.swd.swd_if().set_addr_inc(false).await?; result`
  abbrev pub without_addr_inc : Reply t n → Reply t n
  without_addr_inc (ok r, s) = then_interface t n (set_addr_inc t false s.swd) (λ s₁. (ok r, s₁)) s
  without_addr_inc (err halt, s) = (err halt, s)

  unfoldable pub rest_raw_bulk_read_ap_reg : Text → Text → ℕ → Handler t n
  rest_raw_bulk_read_ap_reg ap_index_str register_str count =
      checked t n (rest_get_ap_index ap_index_str) (λ ap_index.
        checked t n (rest_get_ap_register register_str) (λ register.
          checked t n (rest_check_data_len count) (λ _ s.
            then_interface t n (set_addr_inc t true s.swd)
              (λ s₁. without_addr_inc (
                from_read_bulk t n (read_ap_register_raw_bulk t ap_index register count s₁.swd) s₁))
              s)))

  unfoldable pub rest_raw_bulk_write_ap_reg : Text → Text → ℕ → List Text → Handler t n
  rest_raw_bulk_write_ap_reg ap_index_str register_str count data_strs =
      checked t n (rest_get_ap_index ap_index_str) (λ ap_index.
        checked t n (rest_get_ap_register register_str) (λ register.
          checked t n (rest_get_bulk_data data_strs) (λ words.
            checked t n (rest_check_data_len count) (λ _ s.
              then_interface t n (set_addr_inc t true s.swd)
                (λ s₁. without_addr_inc (
                  from_write_bulk t n (write_ap_register_raw_bulk t ap_index register words s₁.swd)
                    s₁))
                s))))

  unfoldable pub rest_raw_clock : LineState → LineState → ℕ → Handler t n
  rest_raw_clock level post_level count s =
      (ok (ok default), with_swd (clock_raw t level post_level count s.swd) s)

  unfoldable pub update_settings : SettingsSource → Settings → Handler t n
  update_settings SettingsSource.from_runtime settings s = (
    ok (ok default),
    set_refresh settings.refresh (
        set_keepalive settings.keepalive
          (set_auto_connect settings.auto_connect (set_speed t settings.speed s))),
  )
  update_settings SettingsSource.from_flash settings s =
      (ok (ok default), record s { config_swd = swd_of_settings settings; store = true })

  unfoldable pub dispatch : Command → Handler t n
  dispatch Command.get_status = rest_get_status t n
  dispatch Command.reset = rest_reset t n
  dispatch Command.get_details = rest_get_details t n
  dispatch Command.clear_errors = rest_clear_errors t n
  dispatch Command.get_errors = rest_get_errors t n
  dispatch (Command.read_mem addr) = rest_read_mem addr
  dispatch (Command.write_mem addr word) = rest_write_mem addr word
  dispatch (Command.read_mem_bulk addr count) = rest_read_mem_bulk addr count
  dispatch (Command.write_mem_bulk addr words) = rest_write_mem_bulk addr words
  dispatch Command.unlock_flash = rest_unlock_flash
  dispatch Command.lock_flash = rest_lock_flash
  dispatch (Command.erase_sector sector) = rest_erase_sector sector
  dispatch Command.erase_all = rest_erase_all
  dispatch (Command.write_flash_word addr word) = rest_write_flash_word addr word
  dispatch (Command.write_flash_bulk addr words) = rest_write_flash_bulk addr words
  dispatch Command.get_speed = rest_get_speed
  dispatch (Command.set_speed speed) = rest_set_speed speed
  dispatch (Command.update_settings source settings) = update_settings source settings
  dispatch Command.raw_reset = rest_raw_reset
  dispatch (Command.raw_read_dp_reg register) = rest_raw_read_dp_reg register
  dispatch (Command.raw_write_dp_reg register word) = rest_raw_write_dp_reg register word
  dispatch (Command.raw_read_ap_reg ap_index register) = rest_raw_read_ap_reg ap_index register
  dispatch (Command.raw_write_ap_reg ap_index register word) =
      rest_raw_write_ap_reg ap_index register word
  dispatch (Command.raw_bulk_read_ap_reg ap_index register count) =
      rest_raw_bulk_read_ap_reg ap_index register count
  dispatch (Command.raw_bulk_write_ap_reg ap_index register count words) =
      rest_raw_bulk_write_ap_reg ap_index register count words
  dispatch (Command.clock level post_level count) = rest_raw_clock level post_level count

  -- `.unwrap_or_else(|e| e.into())`
  abbrev pub response_of : Result AirfrogError Response → Response
  response_of (ok r) = r
  response_of (err e) = with_error e default

  abbrev pub signalled : Reply t n → Result Halt Response × Target t.Wire
  signalled (ok r, s) = (ok (response_of r), s)
  signalled (err halt, s) = (err halt, s)

  -- The response that is signalled to the sender of the request, and the state after it.
  unfoldable pub handle_request : Command → Target t.Wire → Result Halt Response × Target t.Wire
  handle_request command s = signalled (dispatch command s)
