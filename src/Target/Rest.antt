-- ===== src/Target/Rest.antt =====
-- The request handler of `Target` in airfrog/src/target/mod.rs. Loops that poll the flash are given `n`
-- rounds. The text of the details and the serialization of responses are left out.
use airfrog.Prelude.{
  ℕ, true, not, ◌%◌, ◌^◌, ◌==◌, ltb, if◌then◌else◌, Option, some, none, List, [], ◌∷◌, length, map,
}
use airfrog.Bin.Error.{Result, ok, err}
use airfrog.Core.Mcu.{Mcu}
use airfrog.Swd.Error.{SwdError}
use airfrog.Swd.Interface.State
use airfrog.Swd.Interface.State.{Transport, Interface, Version, check_version}
use airfrog.Swd.Interface.Access.{clear_errors, read_ctrl_stat}
use airfrog.Swd.Interface.Bulk.{BulkError, Stored}
use airfrog.Swd.Debug.{DebugError}
use airfrog.Target.HexText.{Text, format_word, parse_hex_word}
use airfrog.Target.Types.{
  ErrorKind, AirfrogError, from_swd, Status, Payload, Response, default, with_error,
  with_swd_status, with_data,
}
use airfrog.Target.State.{Target, with_swd, set_auto_connect, set_keepalive, set_refresh, connect}

-- What is never answered: the polling used up the rounds, the code panicked, or it waits for a client
-- that is silent.
pub data Halt : Type 0 where
  endless panicked silent : Halt

-- `MAX_WORD_COUNT`
abbrev pub max_word_count : ℕ
max_word_count = 256

abbrev pub refuse : {A : Type 0} → ErrorKind → Result AirfrogError A
refuse kind = err (AirfrogError.airfrog_kind kind)

abbrev pub word_or : ErrorKind → Option ℕ → Result AirfrogError ℕ
word_or kind none = refuse kind
word_or kind (some w) = ok w

unfoldable pub rest_get_word : Text → Result AirfrogError ℕ
rest_get_word s = word_or ErrorKind.invalid_body (parse_hex_word s)

abbrev pub aligned : Result AirfrogError ℕ → Result AirfrogError ℕ
aligned (ok addr) = if not (addr % 4 == 0) then refuse ErrorKind.invalid_body else ok addr
aligned (err e) = err e

unfoldable pub rest_get_addr : Text → Result AirfrogError ℕ
rest_get_addr s = aligned (word_or ErrorKind.invalid_path (parse_hex_word s))

unfoldable pub rest_get_data : Text → Result AirfrogError ℕ
rest_get_data s = word_or ErrorKind.invalid_body (parse_hex_word s)

unfoldable pub rest_check_data_len : ℕ → Result AirfrogError (Unit {0})
rest_check_data_len count = if ltb max_word_count count then refuse ErrorKind.too_large else ok tt

abbrev pub and_word :
    Result AirfrogError ℕ → Result AirfrogError (List ℕ) → Result AirfrogError (List ℕ)
and_word (ok w) (ok ws) = ok (w ∷ ws)
and_word (ok w) (err e) = err e
and_word (err e) rest = err e

-- The loop of `rest_get_bulk_data`.
unfoldable pub rest_get_words : List Text → Result AirfrogError (List ℕ)
rest_get_words [] = ok []
rest_get_words (s ∷ ss) = and_word (rest_get_word s) (rest_get_words ss)

abbrev pub if_ok :
    {A : Type 0} → Result AirfrogError (Unit {0}) → Result AirfrogError A → Result AirfrogError A
if_ok (ok _) r = r
if_ok (err e) r = err e

unfoldable pub rest_get_bulk_data : List Text → Result AirfrogError (List ℕ)
rest_get_bulk_data ss = if_ok (rest_check_data_len (length ss)) (rest_get_words ss)

abbrev pub at_most : ℕ → Result AirfrogError ℕ → Result AirfrogError ℕ
at_most max (ok w) = if ltb max w then refuse ErrorKind.invalid_path else ok w
at_most max (err e) = err e

unfoldable pub rest_get_dp_register : Text → Result AirfrogError ℕ
rest_get_dp_register s = at_most 0xf (rest_get_word s)

unfoldable pub rest_get_ap_index : Text → Result AirfrogError ℕ
rest_get_ap_index s = at_most 0xff (rest_get_word s)

abbrev pub as_u8 : Result AirfrogError ℕ → Result AirfrogError ℕ
as_u8 (ok w) = ok (w % 2 ^ 8)
as_u8 (err e) = err e

unfoldable pub rest_get_ap_register : Text → Result AirfrogError ℕ
rest_get_ap_register s = as_u8 (rest_get_word s)

module _ (t : Transport) (n : ℕ) where
  -- What a handler gives: a response, an error that becomes one, or a halt; and the state after it.
  abbrev pub Reply : Type 0
  Reply = Result Halt (Result AirfrogError Response) × Target t.Wire

  abbrev pub Handler : Type 0
  Handler = Target t.Wire → Reply

  -- `Ok(response)`
  abbrev pub answer : Response → Handler
  answer r s = (ok (ok r), s)

  -- `?` on a value that does not depend on the state.
  abbrev pub checked : {A : Type 0} → Result AirfrogError A → (A → Handler) → Handler
  checked (ok a) f s = f a s
  checked (err e) f s = (ok (err e), s)

  -- `Ok(a) => Ok(…), Err(e) => Err(e.into())` on a call of the interface.
  abbrev pub from_interface :
      {A : Type 0} → (A → Response) → Result SwdError A × Interface t.Wire → Handler
  from_interface f (ok a, i) s = (ok (ok (f a)), with_swd i s)
  from_interface f (err e, i) s = (ok (err (from_swd e)), with_swd i s)

  -- The same, with the rest of the handler after a success.
  abbrev pub then_interface :
      {A : Type 0} → Result SwdError A × Interface t.Wire → Handler → Handler
  then_interface (ok a, i) f s = f (with_swd i s)
  then_interface (err e, i) f s = (ok (err (from_swd e)), with_swd i s)

  abbrev pub from_bulk_error : BulkError → Result Halt (Result AirfrogError Response)
  from_bulk_error (BulkError.stopped e _) = ok (err (from_swd e))
  from_bulk_error BulkError.panicked = err Halt.panicked

  abbrev pub from_write_bulk : Result BulkError (Unit {0}) × Interface t.Wire → Handler
  from_write_bulk (ok _, i) s = (ok (ok default), with_swd i s)
  from_write_bulk (err e, i) s = (from_bulk_error e, with_swd i s)

  -- `buf.iter().map(|&word| format!("0x{word:08X}"))`
  abbrev pub words_response : List ℕ → Response
  words_response ws = with_data (Payload.word_texts (map format_word ws)) default

  abbrev pub from_read_bulk : Stored t.Wire → Handler
  from_read_bulk ((ok _, ws), i) s = (ok (ok (words_response ws)), with_swd i s)
  from_read_bulk ((err e, ws), i) s = (from_bulk_error e, with_swd i s)

  abbrev pub from_debug : Result DebugError (Unit {0}) × Interface t.Wire → Handler
  from_debug (ok _, i) s = (ok (ok default), with_swd i s)
  from_debug (err (DebugError.failed e), i) s = (ok (err (from_swd e)), with_swd i s)
  from_debug (err DebugError.endless, i) s = (err Halt.endless, with_swd i s)

  abbrev pub word_response : ℕ → Response
  word_response w = with_data (Payload.word_text (format_word w)) default

  abbrev pub no_data : Unit {0} → Response
  no_data _ = default

  -- `.ok()`
  abbrev pub version_ok : Result SwdError Version → Option Version
  version_ok (ok v) = some v
  version_ok (err e) = none

  unfoldable pub get_status : Target t.Wire → Status
  get_status s = record {
    connected = State.is_connected s.swd;
    version = version_ok (check_version s.swd);
    idcode = s.swd.idcode;
    mcu = s.swd.mcu;
    settings = s.settings;
  }

  abbrev pub status_response : Target t.Wire → Response
  status_response s = with_swd_status (get_status s) default

  unfoldable pub rest_get_status : Handler
  rest_get_status s = (ok (ok (status_response s)), s)

  abbrev pub after_connect : Result SwdError (Unit {0}) × Target t.Wire → Reply
  after_connect (ok _, s) = (ok (ok (status_response s)), s)
  after_connect (err e, s) = (ok (err (from_swd e)), s)

  unfoldable pub rest_reset : Handler
  rest_reset s =
      after_connect (connect t (set_refresh true (set_keepalive true (set_auto_connect true s))))

  abbrev pub detailed : Option Mcu → Option ℕ → Option ℕ → Result AirfrogError Payload
  detailed none idcode idr = err (from_swd SwdError.not_ready)
  detailed (some mcu) none idr = err (from_swd SwdError.not_ready)
  detailed (some mcu) (some idcode) idr = ok (Payload.details mcu idcode idr)

  unfoldable pub rest_get_details : Handler
  rest_get_details s =
      checked (detailed s.swd.mcu s.swd.idcode s.swd.idr)
        (λ d. answer (with_data d (status_response s))) s

  -- `Response::from(e).with_swd_status(…)` on an error.
  abbrev pub with_status :
      {A : Type 0} → (A → Response → Response) → Result SwdError A × Interface t.Wire → Handler
  with_status f (ok a, i) s = (ok (ok (f a (status_response (with_swd i s)))), with_swd i s)
  with_status f (err e, i) s =
      (ok (ok (with_error (from_swd e) (status_response (with_swd i s)))), with_swd i s)

  unfoldable pub rest_clear_errors : Handler
  rest_clear_errors s = with_status (λ _ r. r) (clear_errors t s.swd) s

  unfoldable pub rest_get_errors : Handler
  rest_get_errors s =
      with_status (λ c. with_data (Payload.error_states c)) (read_ctrl_stat t s.swd) s
