-- ===== src/Target/Types.antt =====
-- The requests, responses and errors of airfrog/src/target/request.rs, response.rs and
-- airfrog/src/error.rs.
use airfrog.Prelude.{ℕ, Bool, Option, some, none, List}
use airfrog.Core.CtrlStat.{CtrlStat}
use airfrog.Core.Mcu.{Mcu}
use airfrog.Swd.Error.{SwdError}
use airfrog.Swd.Wire.Protocol.{Speed, LineState}
use airfrog.Swd.Interface.State.{Version}
use airfrog.Config.Wifi.{Settings}
use airfrog.Target.HexText.{Text}

pub data ErrorKind : Type 0 where
  bad_request invalid_body invalid_path invalid_method timeout too_large : ErrorKind
  internal_server_error api network no_firmware flash : ErrorKind

pub data AirfrogError : Type 0 where
  swd : SwdError → AirfrogError
  airfrog_kind : ErrorKind → AirfrogError

-- `impl From<SwdError> for AirfrogError`
unfoldable pub from_swd : SwdError → AirfrogError
from_swd SwdError.api = AirfrogError.airfrog_kind ErrorKind.api
from_swd SwdError.network = AirfrogError.airfrog_kind ErrorKind.network
from_swd SwdError.timeout = AirfrogError.airfrog_kind ErrorKind.timeout
from_swd e = AirfrogError.swd e

unfoldable pub status_code_from_swd_error : SwdError → ℕ
status_code_from_swd_error SwdError.wait_ack = 408
status_code_from_swd_error SwdError.timeout = 408
status_code_from_swd_error (SwdError.no_ack _) = 500
status_code_from_swd_error SwdError.fault_ack = 500
status_code_from_swd_error SwdError.read_parity = 500
status_code_from_swd_error SwdError.dp_error = 500
status_code_from_swd_error SwdError.operation_failed = 400
status_code_from_swd_error SwdError.not_ready = 503
status_code_from_swd_error SwdError.network = 503
status_code_from_swd_error SwdError.api = 400
status_code_from_swd_error SwdError.unsupported = 501

unfoldable pub kind_status_code : ErrorKind → ℕ
kind_status_code ErrorKind.bad_request = 400
kind_status_code ErrorKind.invalid_body = 400
kind_status_code ErrorKind.invalid_path = 404
kind_status_code ErrorKind.invalid_method = 405
kind_status_code ErrorKind.timeout = 408
kind_status_code ErrorKind.too_large = 413
kind_status_code ErrorKind.internal_server_error = 500
kind_status_code ErrorKind.api = 400
kind_status_code ErrorKind.network = 503
kind_status_code ErrorKind.no_firmware = 404
kind_status_code ErrorKind.flash = 500

unfoldable pub status_code : AirfrogError → ℕ
status_code (AirfrogError.swd e) = status_code_from_swd_error e
status_code (AirfrogError.airfrog_kind kind) = kind_status_code kind

pub data SettingsSource : Type 0 where
  from_flash from_runtime : SettingsSource

pub data Command : Type 0 where
  get_status reset get_details clear_errors get_errors : Command
  read_mem : Text → Command
  write_mem : (addr word : Text) → Command
  read_mem_bulk : Text → ℕ → Command
  write_mem_bulk : Text → List Text → Command
  unlock_flash lock_flash erase_all : Command
  erase_sector : ℕ → Command
  write_flash_word : (addr word : Text) → Command
  write_flash_bulk : Text → List Text → Command
  get_speed : Command
  set_speed : Speed → Command
  update_settings : SettingsSource → Settings → Command
  raw_reset : Command
  raw_read_dp_reg : Text → Command
  raw_write_dp_reg : (register word : Text) → Command
  raw_read_ap_reg : (ap_index register : Text) → Command
  raw_write_ap_reg : (ap_index register word : Text) → Command
  raw_bulk_read_ap_reg : (ap_index register : Text) → ℕ → Command
  raw_bulk_write_ap_reg : (ap_index register : Text) → ℕ → List Text → Command
  clock : (level post_level : LineState) → ℕ → Command

pub record Status : Type 0 where
  pub connected : Bool
  pub version : Option Version
  pub idcode : Option ℕ
  pub mcu : Option Mcu
  pub settings : Settings

-- The JSON value of a response. The details and the error states are what their text is made of.
pub data Payload : Type 0 where
  word_text : Text → Payload
  word_texts : List Text → Payload
  details : Mcu → ℕ → Option ℕ → Payload
  error_states : CtrlStat → Payload

pub record Response : Type 0 where
  pub status : Option Status
  pub payload : Option Payload
  pub speed : Option Speed
  pub error : Option AirfrogError

abbrev pub default : Response
default = record { status = none; payload = none; speed = none; error = none }

abbrev pub with_error : AirfrogError → Response → Response
with_error e r = record r { error = some e }

abbrev pub with_swd_status : Status → Response → Response
with_swd_status s r = record r { status = some s }

abbrev pub with_data : Payload → Response → Response
with_data p r = record r { payload = some p }

abbrev pub with_speed : Speed → Response → Response
with_speed s r = record r { speed = some s }
