-- ===== src/Swd/Server/Session.antt =====
-- A connection to the binary API server of airfrog-swd/src/bin.rs: the handshake, the main loop and
-- the response that ends it. The socket (embassy-net) and the timer (embassy-time) are not part of
-- the repository: they are the parameter `Socket`.
pub mod Ends
pub mod Sends
pub mod Answers
pub mod Panics
use airfrog.Prelude.{
  ℕ, zero, suc, ◌+◌, ◌%◌, ◌^◌, ◌==◌, if◌then◌else◌, Bool, List, [], ◌∷◌, Option, some, none,
}
use airfrog.Bin.Error.{Result, ok, err, ProtocolError, ParseError}
use airfrog.Bin.Response.{ResponseCode, response_byte}
use airfrog.Bin.Command.{Command}
use airfrog.Bin.Op.{Op}
use airfrog.Bin.Parse.{byte}
use airfrog.Bin.Reader.{Reader}
use airfrog.Bin.Recv.{recv_cmd, async_recv}
use airfrog.Swd.Error.{SwdError}
use airfrog.Swd.Interface.State.{Transport, Interface}
use airfrog.Swd.Server.{ApiError, Reply, error_response, binary_api_handle_op}

-- The socket's two halves, as `socket.split()` gives them, and its calls: `read_exact`, the same
-- under a timeout, the `read` into the buffer of one byte of the handshake under a timeout, and
-- `write_all` under a timeout. The error `none` of a call under a timeout is the timeout. Without
-- a timeout `read_exact` may never return, which is the answer `none`. `fits` is the heap of the
-- device: whether it has room for a number of bytes.
pub record Socket : Type 1 where
  pub Input : Type 0
  pub Output : Type 0
  pub Error : Type 0
  pub read_exact : ℕ → Input → Option (Result Error (List ℕ)) × Input
  pub read_exact_in_time : ℕ → Input → Result (Option Error) (List ℕ) × Input
  pub read_in_time : Input → Result (Option Error) (List ℕ) × Input
  pub write_all_in_time : List ℕ → Output → Result (Option Error) (Unit {0}) × Output
  pub fits : ℕ → Bool

-- `VERSION` of airfrog-bin/src/lib.rs.
abbrev pub version : ℕ
version = 0x01

-- `API_CALL_LOG_INTERVAL` only decides on a log entry, and is left out.
pub record Api (I O W : Type 0) : Type 0 where
  pub input : I
  pub output : O
  pub swd : Interface W
  pub binary_api_calls : ℕ

-- How the main loop ends: it returns, it panics, or it is `waiting` for ever. `unfinished` is said of a loop whose rounds are
-- used up.
pub data Exit : Type 0 where
  returned : Result SwdError (Option ResponseCode) → Exit
  panic waiting unfinished : Exit

-- `SwdError::from` of a socket's error, and the timeout of `with_timeout!`.
abbrev pub network_error : {E : Type 0} → Option E → SwdError
network_error (some _) = SwdError.network
network_error none = SwdError.timeout

-- In the handshake every error of the socket counts as an API error.
abbrev pub handshake_error : {E : Type 0} → Option E → SwdError
handshake_error (some _) = SwdError.api
handshake_error none = SwdError.timeout

module _ (k : Socket) where
  -- The error `none` stands for a read that never returns.
  abbrev pub answered : Option (Result k.Error (List ℕ)) → Result (Option k.Error) (List ℕ)
  answered none = err none
  answered (some (ok bytes)) = ok bytes
  answered (some (err e)) = err (some e)

  abbrev pub reader : Reader
  reader = record {
    State = k.Input;
    Error = Option k.Error;
    read_exact = λ n s. (answered (k.read_exact n s).0, (k.read_exact n s).1);
  }

  abbrev pub timed_reader : Reader
  timed_reader = record {
    State = k.Input;
    Error = Option k.Error;
    read_exact = k.read_exact_in_time;
  }

module _ (k : Socket) (t : Transport) where
  abbrev pub State : Type 0
  State = Api k.Input k.Output t.Wire

  -- A step that goes on with a value, or ends the loop.
  abbrev pub Flow : Type 0 → Type 0
  Flow A = Result Exit A × State

  abbrev pub with_input : k.Input → State → State
  with_input input s = record s { input = input }

  abbrev pub with_output : k.Output → State → State
  with_output output s = record s { output = output }

  abbrev pub exit : {A : Type 0} → Result SwdError (Option ResponseCode) → State → Flow A
  exit result s = (err (Exit.returned result), s)

  abbrev pub written : Result (Option k.Error) (Unit {0}) × k.Output → State → Flow (Unit {0})
  written (ok _, output) s = (ok tt, with_output output s)
  written (err e, output) s = exit (err (network_error e)) (with_output output s)

  -- `with_timeout!(API_TIMEOUT, writer.write_all(…))?`
  unfoldable pub write : List ℕ → State → Flow (Unit {0})
  write bytes s = written (k.write_all_in_time bytes s.output) s

  abbrev pub and_then : {A B : Type 0} → Flow A → (A → State → Flow B) → Flow B
  and_then (ok a, s) f = f a s
  and_then (err e, s) f = (err e, s)

  -- `if let Some(data) = data { … }`
  abbrev pub write_data : Reply → State → Flow (Unit {0})
  write_data (some bytes) s = write bytes s
  write_data none s = (ok tt, s)

  -- `self.binary_api_calls += 1;`, on a 32-bit `usize`.
  abbrev pub count_call : State → Flow (Unit {0})
  count_call s = (ok tt, record s { binary_api_calls = (s.binary_api_calls + 1) % 2 ^ 32 })

  unfoldable pub send_response : ResponseCode → Reply → State → Flow (Unit {0})
  send_response code bytes s =
      and_then (write (response_byte code ∷ []) s)
        (λ _ s₁. and_then (write_data bytes s₁) (λ _ s₂. count_call s₂))

  -- The response to the result of `binary_api_handle_op`.
  abbrev pub respond : Result ApiError Reply × Interface t.Wire → State → Flow (Unit {0})
  respond (ok bytes, swd) s = send_response ResponseCode.ok bytes (record s { swd = swd })
  respond (err (ApiError.failed e), swd) s =
      send_response (error_response e) none (record s { swd = swd })
  respond (err ApiError.panicked, swd) s = (err Exit.panic, record s { swd = swd })

  unfoldable pub perform : Op → State → Flow (Unit {0})
  perform Op.disconnect s = exit (ok (some ResponseCode.ok)) s
  perform op s = respond (binary_api_handle_op t k.fits op s.swd) s

  -- The two reads of a request: the command with a timeout, the rest without.
  abbrev pub received_op : Result (ParseError (Option k.Error)) Op × k.Input → State → Flow Op
  received_op (ok op, input) s = (ok op, with_input input s)
  received_op (err (ParseError.protocol (ProtocolError.command _)), input) s =
      (err Exit.panic, with_input input s)
  received_op (err (ParseError.protocol ProtocolError.arg), input) s =
      exit (ok (some ResponseCode.api)) (with_input input s)
  received_op (err (ParseError.transport none), input) s = (err Exit.waiting, with_input input s)
  received_op (err (ParseError.transport (some _)), input) s =
      exit (err SwdError.network) (with_input input s)

  -- `with_timeout!(API_TIMEOUT, Op::recv_cmd(…)).map_err(|e| SwdError::Network)?`
  abbrev pub received_cmd :
      Result (ParseError (Option k.Error)) Command × k.Input → State → Flow Command
  received_cmd (ok command, input) s = (ok command, with_input input s)
  received_cmd (err (ParseError.transport none), input) s =
      exit (err SwdError.timeout) (with_input input s)
  received_cmd (err _, input) s = exit (err SwdError.network) (with_input input s)

  unfoldable pub receive : State → Flow Op
  receive s =
      and_then (received_cmd (recv_cmd (timed_reader k) s.input) s)
        (λ command s₁. received_op (async_recv (reader k) command s₁.input) s₁)

  -- One round of the loop.
  unfoldable pub round : State → Flow (Unit {0})
  round s = and_then (receive s) perform

  abbrev pub ended : Flow (Unit {0}) → (State → Exit × State) → Exit × State
  ended (ok _, s) f = f s
  ended (err e, s) f = (e, s)

  -- The loop, for as many rounds as are given.
  unfoldable pub rounds : ℕ → State → Exit × State
  rounds zero s = (Exit.unfinished, s)
  rounds (suc n) s = ended (round s) (rounds n)

  abbrev pub acked : Result (Option k.Error) (List ℕ) × k.Input → State → Flow (Unit {0})
  acked (ok [], input) s = exit (err SwdError.api) (with_input input s)
  acked (ok (x ∷ xs), input) s =
      if x == version
      then (ok tt, with_input input s)
      else exit (err SwdError.api) (with_input input s)
  acked (err e, input) s = exit (err (handshake_error e)) (with_input input s)

  abbrev pub greeted : Result (Option k.Error) (Unit {0}) × k.Output → State → Flow (Unit {0})
  greeted (ok _, output) s = acked (k.read_in_time s.input) (with_output output s)
  greeted (err e, output) s = exit (err (handshake_error e)) (with_output output s)

  unfoldable pub binary_api_handshake : State → Flow (Unit {0})
  binary_api_handshake s = greeted (k.write_all_in_time (version ∷ []) s.output) s

  unfoldable pub binary_api_main_loop : ℕ → State → Exit × State
  binary_api_main_loop n s = ended (binary_api_handshake s) (rounds n)

  -- `let _ = with_timeout_no_return!(API_TIMEOUT, socket.write_all(…))`; what follows closes the
  -- socket.
  abbrev pub last_response : Exit × State → Exit × State
  last_response (Exit.returned (ok (some code)), s) = (
    Exit.returned (ok (some code)),
    with_output (k.write_all_in_time (response_byte code ∷ []) s.output).1 s,
  )
  last_response (e, s) = (e, s)

  unfoldable pub serve : ℕ → State → Exit × State
  serve n s = last_response (binary_api_main_loop n s)
