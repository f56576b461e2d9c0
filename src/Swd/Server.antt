-- ===== src/Swd/Server.antt =====
-- The binary API server, airfrog-swd/src/bin.rs: what it does for each operation and how an error
-- becomes a response code. Logging is left out.
pub mod Calm
pub mod Session
mod Examples
use airfrog.Prelude.{ℕ, ◌+◌, ◌*◌, Bool, true, false, List, [], ◌∷◌, ◌++◌, Option, some, none}
use airfrog.Prelude.Bytes.{u16_to_le_bytes, u32_to_le_bytes}
use airfrog.Bin.Error.{Result, ok, err}
use airfrog.Bin.Speed.{LineLevel}
use airfrog.Bin.Response.{ResponseCode}
use airfrog.Bin.Op.{Op, RegType, MultiReg}
use airfrog.Swd.Error.{SwdError}
use airfrog.Swd.Wire.Protocol.{LineState, from_bin}
use airfrog.Swd.Interface.State.{Transport, Interface, Version, Act, continue}
use airfrog.Swd.Interface.Bulk.{BulkError, Stored}
use airfrog.Swd.Interface.Memory.{set_addr_inc}
use airfrog.Swd.Interface.Raw.{
  read_dp_register_raw, write_dp_register_raw, read_ap_register_raw, write_ap_register_raw,
  read_ap_register_raw_bulk, write_ap_register_raw_bulk,
}
use airfrog.Swd.Interface.Reset.{reset_target}
use airfrog.Swd.Interface.Line.{set_swd_speed, clock_raw}

-- What ends an operation: an `SwdError`, or the panic of an index out of range, of `unreachable!` or
-- of an allocation for which the heap has no room.
pub data ApiError : Type 0 where
  failed : SwdError → ApiError
  panicked : ApiError

-- The `match e` of the main loop.
unfoldable pub error_response : SwdError → ResponseCode
error_response SwdError.wait_ack = ResponseCode.swd
error_response (SwdError.no_ack _) = ResponseCode.swd
error_response SwdError.fault_ack = ResponseCode.swd
error_response SwdError.read_parity = ResponseCode.swd
error_response SwdError.dp_error = ResponseCode.swd
error_response SwdError.operation_failed = ResponseCode.swd
error_response SwdError.not_ready = ResponseCode.swd
error_response SwdError.network = ResponseCode.net
error_response SwdError.timeout = ResponseCode.timeout
error_response SwdError.api = ResponseCode.api
error_response SwdError.unsupported = ResponseCode.api

unfoldable pub binary_api_response_from_swd_error : SwdError → ResponseCode
binary_api_response_from_swd_error SwdError.api = ResponseCode.api
binary_api_response_from_swd_error SwdError.unsupported = ResponseCode.api
binary_api_response_from_swd_error SwdError.network = ResponseCode.net
binary_api_response_from_swd_error SwdError.timeout = ResponseCode.timeout
binary_api_response_from_swd_error _ = ResponseCode.swd

unfoldable pub into_swd_line_state : LineLevel → LineState
into_swd_line_state LineLevel.high = LineState.high
into_swd_line_state LineLevel.low = LineState.low
into_swd_line_state LineLevel.input = LineState.input

unfoldable pub from_swd_line_state : LineState → LineLevel
from_swd_line_state LineState.high = LineLevel.high
from_swd_line_state LineState.low = LineLevel.low
from_swd_line_state LineState.input = LineLevel.input

-- The bytes that follow a response code, if any.
abbrev pub Reply : Type 0
Reply = Option (List ℕ)

-- `buf.iter().flat_map(|word| word.to_le_bytes())`
unfoldable pub bytes_of_words : List ℕ → List ℕ
bytes_of_words [] = []
bytes_of_words (word ∷ words) = u32_to_le_bytes word ++ bytes_of_words words

-- `.map(|data| Some(data.to_le_bytes().to_vec()))`
abbrev pub word_reply :
    {W : Type 0} → Result SwdError ℕ × Interface W → Result ApiError Reply × Interface W
word_reply (ok word, s) = (ok (some (u32_to_le_bytes word)), s)
word_reply (err e, s) = (err (ApiError.failed e), s)

-- `.map(|_| None)`
abbrev pub no_reply :
    {W A : Type 0} → Result SwdError A × Interface W → Result ApiError Reply × Interface W
no_reply (ok _, s) = (ok none, s)
no_reply (err e, s) = (err (ApiError.failed e), s)

-- `.map_err(|(e, _)| e)`
abbrev pub bulk_error : BulkError → ApiError
bulk_error (BulkError.stopped e _) = ApiError.failed e
bulk_error BulkError.panicked = ApiError.panicked

abbrev pub bulk_write_reply :
    {W : Type 0} → Result BulkError (Unit {0}) × Interface W → Result ApiError Reply × Interface W
bulk_write_reply (ok _, s) = (ok none, s)
bulk_write_reply (err e, s) = (err (bulk_error e), s)

-- An allocation, which panics if there is no room, and what follows it.
abbrev pub allocating :
    {W : Type 0}
    → Bool
    → (Interface W → Result ApiError Reply × Interface W)
    → Interface W
    → Result ApiError Reply × Interface W
allocating true f s = f s
allocating false f s = (err ApiError.panicked, s)

-- The response of a bulk read: the count asked for and the words. `room` is whether the heap has
-- room for it beside the words.
abbrev pub bulk_read_reply :
    {W : Type 0} → Bool → ℕ → Stored W → Result ApiError Reply × Interface W
bulk_read_reply room count ((ok _, words), s) =
    allocating room (λ s₁. (ok (some (u16_to_le_bytes count ++ bytes_of_words words)), s₁)) s
bulk_read_reply room count ((err e, words), s) = (err (bulk_error e), s)

-- `?` on a result of the interface.
abbrev pub then_reply :
    {W A : Type 0}
    → Result SwdError A × Interface W
    → (Interface W → Result ApiError Reply × Interface W)
    → Result ApiError Reply × Interface W
then_reply (ok _, s) f = f s
then_reply (err e, s) f = (err (ApiError.failed e), s)

module _ (t : Transport) where
  -- The body of the loop of `MultiRegWrite`.
  unfoldable pub write_multi_reg : MultiReg → Act t.Wire SwdError (Unit {0})
  write_multi_reg m = elim m.reg_type [
    | RegType.dp ↦ write_dp_register_raw t m.reg m.value
    | RegType.ap ↦ write_ap_register_raw t 0 m.reg m.value
  ]

  unfoldable pub write_multi_regs : List MultiReg → Act t.Wire SwdError (Unit {0})
  write_multi_regs [] s = (ok tt, s)
  write_multi_regs (m ∷ ms) s = continue (write_multi_reg m s) (λ _. write_multi_regs ms)

  -- `if swd.reset_target(Version::V1).await.is_ok() { Ok(None) } else { … V2 … }`
  abbrev pub or_v2 :
      Result SwdError (Unit {0}) × Interface t.Wire → Result ApiError Reply × Interface t.Wire
  or_v2 (ok _, s) = (ok none, s)
  or_v2 (err _, s) = no_reply (reset_target t Version.v2 s)

  -- `fits` says of a number of bytes whether the heap has room for them; the words of a bulk read
  -- and its response are the allocations whose size the client decides on.
  unfoldable pub binary_api_handle_op : (ℕ → Bool) → Op → Act t.Wire ApiError Reply
  binary_api_handle_op fits (Op.dp_read reg) s = word_reply (read_dp_register_raw t reg s)
  binary_api_handle_op fits (Op.dp_write reg word) s = no_reply (write_dp_register_raw t reg word s)
  binary_api_handle_op fits (Op.ap_read reg) s = word_reply (read_ap_register_raw t 0 reg s)
  binary_api_handle_op fits (Op.ap_write reg word) s =
      no_reply (write_ap_register_raw t 0 reg word s)
  binary_api_handle_op fits (Op.ap_bulk_read reg count) s = then_reply (set_addr_inc t true s) (
      allocating (fits (4 * count)) (λ s₁.
        bulk_read_reply (fits (4 * count + (2 + 4 * count))) count
          (read_ap_register_raw_bulk t 0 reg count s₁)))
  binary_api_handle_op fits (Op.ap_bulk_write reg words) s =
      then_reply (set_addr_inc t true s)
        (λ s₁. bulk_write_reply (write_ap_register_raw_bulk t 0 reg words s₁))
  binary_api_handle_op fits (Op.multi_reg_write count regs) s = no_reply (write_multi_regs regs s)
  binary_api_handle_op fits Op.ping s = (ok none, s)
  binary_api_handle_op fits Op.reset_target s = or_v2 (reset_target t Version.v1 s)
  binary_api_handle_op fits (Op.clock level post_level cycles) s =
      (ok none, clock_raw t (into_swd_line_state level) (into_swd_line_state post_level) cycles s)
  binary_api_handle_op fits (Op.set_speed speed) s = (ok none, set_swd_speed t (from_bin speed) s)
  binary_api_handle_op fits Op.disconnect s = (err ApiError.panicked, s)
