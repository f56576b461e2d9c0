-- ===== src/Target/Examples.antt =====
-- The theorems on the target task at concrete inputs, over the target of Swd/Interface/Target.
use airfrog.Prelude.{◌≡◌, refl, arith, true, false, some, none, [], ◌∷◌, ◌++◌}
use airfrog.Bin.Error.{ok}
use airfrog.Config.Store.{default_swd}
use airfrog.Swd.Interface.Target
use airfrog.Swd.Interface.Target.{target_transport, ready}
use airfrog.Target.HexText.{Text, format_word, parse_hex_word, parse_hex_word-format}
use airfrog.Target.Types.{AirfrogError, Command, default, with_error}
use airfrog.Target.State
use airfrog.Target.State.{default_settings, connect}
use airfrog.Target.Requests.{rest_raw_reset, handle_request}
use airfrog.Target.Requests.Limits.{IsOversized, handle_request-refuses}
use airfrog.Target.Loop.{on_tick}
use airfrog.Target.Loop.Watched.{IsWatched, Announces, on_tick-IsWatched, connect-Announces}
use airfrog.Target.Loop.Quiet.{IsQuiet, ticks, rest_raw_reset-IsQuiet, ticks-rest_raw_reset}
use airfrog.Target.Loop.Kept.{IsCalm, handle_request-IsQuiet}
use airfrog.Target.Path.{ascii, slash, parse_u32}
use airfrog.Target.Api.{Method, Rest, RestJson, from_rest, from_rest_config, from_rest_raw}
use airfrog.Target.Api.Paths.{has_no_slash, from_rest_raw-ap_read}
use airfrog.Target.Api.Only.{Only, IsQuery, StoresAt, from_rest-IsQuery, from_rest_config-StoresAt}

-- The task with the interface as it is after a start.
abbrev idle : State.Target Target.Target
idle = record {
  swd = ready;
  settings = default_settings;
  firmware = none;
  config_swd = default_swd;
  store = false;
}

on_tick-IsWatched_example : IsWatched (on_tick target_transport idle)
on_tick-IsWatched_example = on_tick-IsWatched target_transport idle

connect-Announces_example : Announces idle (connect target_transport idle)
connect-Announces_example = connect-Announces target_transport idle

ticks-rest_raw_reset_example :
    (ticks target_transport
      (true ∷ false ∷ true ∷ [])
      (rest_raw_reset target_transport 10 idle).1).swd
    ≡ (rest_raw_reset target_transport 10 idle).1.swd
ticks-rest_raw_reset_example =
    ticks-rest_raw_reset target_transport 10 (true ∷ false ∷ true ∷ []) idle

quiet_status : IsCalm Command.get_status
unfolding IsCalm
quiet_status = tt

-- The task after a raw reset.
abbrev reset_raw : State.Target Target.Target
reset_raw = (rest_raw_reset target_transport 10 idle).1

handle_request-IsQuiet_example :
    IsQuiet (handle_request target_transport 10 Command.get_status reset_raw).1
handle_request-IsQuiet_example =
    handle_request-IsQuiet target_transport 10 Command.get_status reset_raw quiet_status
      (rest_raw_reset-IsQuiet target_transport 10 idle)

abbrev long_read : Command
long_read = Command.read_mem_bulk (ascii "0x20000000") 257

long_read-IsOversized : IsOversized long_read
unfolding IsOversized
long_read-IsOversized = omega arith

handle_request-refuses_example :
    (e : AirfrogError) × (handle_request target_transport 10 long_read idle
      ≡ (ok (with_error e default), idle))
handle_request-refuses_example =
    handle_request-refuses target_transport 10 long_read idle long_read-IsOversized

parse_hex_word-format_example : parse_hex_word (format_word 0x2000_04fc) ≡ some 0x2000_04fc
parse_hex_word-format_example = parse_hex_word-format 0x2000_04fc (omega arith)

-- A body whose every entry is the body itself, as text and as a number.
abbrev plain_json : RestJson
plain_json = record {
  Value = Text;
  from_str = some;
  at = λ v key. v;
  as_str = some;
  as_u64 = parse_u32;
  as_array = λ v. some (v ∷ []);
  to_settings = λ v. some default_settings;
}

no_slash_in_index : has_no_slash (ascii "0x0") ≡ true
unfolding has_no_slash
no_slash_in_index = refl

no_slash_in_register : has_no_slash (ascii "0xFC") ≡ true
unfolding has_no_slash
no_slash_in_register = refl

from_rest_raw-ap_read_example :
    from_rest_raw plain_json Method.get
      (ascii "/ap/read/" ++ (ascii "0x0" ++ (slash ∷ ascii "0xFC")))
      none
    ≡ ok (Command.raw_read_ap_reg (ascii "0x0") (ascii "0xFC"))
from_rest_raw-ap_read_example =
    from_rest_raw-ap_read plain_json (ascii "0x0") (ascii "0xFC") none no_slash_in_index
      no_slash_in_register

from_rest-IsQuery_example :
    Only IsQuery
      (from_rest plain_json Rest.target Method.get (ascii "/memory/read/0x20000000") none)
from_rest-IsQuery_example =
    from_rest-IsQuery plain_json Rest.target (ascii "/memory/read/0x20000000") none

from_rest_config-StoresAt_example :
    Only
      (StoresAt (ascii "/swd/flash") (ascii "/flash"))
      (from_rest_config plain_json Method.post (ascii "/flash") (some (ascii "{}")))
from_rest_config-StoresAt_example =
    from_rest_config-StoresAt plain_json Method.post (ascii "/flash") (some (ascii "{}"))
