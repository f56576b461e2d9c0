-- ===== src/Target/Loop.antt =====
-- The loop of the target task, `task` of airfrog/src/target/mod.rs: what it does once it has waited
-- for a request, a connection to the binary API, or its timer. The count of connection attempts only
-- decides on a log entry, and is left out.
pub mod Watched
pub mod Quiet
pub mod Kept
use airfrog.Prelude.{
  ℕ, zero, Bool, true, false, not, ◌&&◌, if◌then◌else◌, Option, some, none, List, [], ◌∷◌,
}
use airfrog.Bin.Error.{Result, ok, err}
use airfrog.Swd.Interface.State.{Transport, Interface}
use airfrog.Swd.Server.Session.{Socket, Api, Exit, serve}
use airfrog.Target.Types.{Command, Response}
use airfrog.Target.State.{Target, with_swd, is_connected, connect, do_keepalive, do_refresh}
use airfrog.Target.Rest.{Halt}
use airfrog.Target.Requests.{handle_request}

-- What ends the wait; a connection has the two halves of its socket.
pub data Event (I O : Type 0) : Type 0 where
  request : Command → Event I O
  accepted : I → O → Event I O
  accept_failed tick : Event I O

module _ (t : Transport) where
  -- A target that is connected, after the call of `is_connected`.
  abbrev pub tend : Target t.Wire → Target t.Wire
  tend s =
      if s.settings.refresh
      then do_refresh t s
      else if s.settings.keepalive
      then do_keepalive t s
      else s

  -- `!target.is_connected().await && target.auto_connect()`
  abbrev pub reconnect : Bool × Target t.Wire → Target t.Wire
  reconnect (connected, s) =
      if not connected && s.settings.auto_connect then (is_connected (connect t s).1).1 else s

  abbrev pub tend_or_reconnect : Bool × Target t.Wire → Target t.Wire
  tend_or_reconnect (true, s) = tend s
  tend_or_reconnect (false, s) = reconnect (is_connected s)

  -- The timer has fired.
  unfoldable pub on_tick : Target t.Wire → Target t.Wire
  on_tick s = tend_or_reconnect (is_connected s)

  -- The time of the timer has passed before the wait: a new one is set.
  unfoldable pub rearm : Bool → Target t.Wire → Target t.Wire
  rearm passed s = if passed then (is_connected s).1 else s

  module _ (k : Socket) (n : ℕ) where
    -- A step of the task, with the response that it signals, or a halt.
    abbrev pub Stepped : Type 0
    Stepped = Result Halt (Option Response) × Target t.Wire

    abbrev pub signal : Result Halt Response × Target t.Wire → Stepped
    signal (ok r, s) = (ok (some r), s)
    signal (err halt, s) = (err halt, s)

    abbrev pub served : Target t.Wire → Exit × Api k.Input k.Output t.Wire → Stepped
    served s (Exit.returned _, api) = (ok none, (connect t (with_swd api.swd s)).1)
    served s (Exit.panic, api) = (err Halt.panicked, with_swd api.swd s)
    served s (Exit.waiting, api) = (err Halt.silent, with_swd api.swd s)
    served s (Exit.unfinished, api) = (err Halt.endless, with_swd api.swd s)

    abbrev pub api : k.Input → k.Output → Interface t.Wire → Api k.Input k.Output t.Wire
    api input output i = record { input = input; output = output; swd = i; binary_api_calls = 0 }

    unfoldable pub on_event : Event k.Input k.Output → Target t.Wire → Stepped
    on_event (Event.request command) s = signal (handle_request t n command s)
    on_event (Event.accepted input output) s = served s (serve k t n (api input output s.swd))
    on_event Event.accept_failed s = (ok none, s)
    on_event Event.tick s = (ok none, on_tick s)

    -- A round of the loop.
    unfoldable pub round : Bool → Event k.Input k.Output → Target t.Wire → Stepped
    round passed event s = on_event event (rearm passed s)
