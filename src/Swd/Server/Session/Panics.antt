-- ===== src/Swd/Server/Session/Panics.antt =====
-- Where the server can panic: a bulk read of no words, or of too many for the heap.
use airfrog.Prelude.{ℕ, List, ◌∷◌, [], Option, some, none}
use airfrog.Bin.Error.{Result, ok, err}
use airfrog.Bin.Response.{ResponseCode, response_byte}
use airfrog.Bin.Op.{Op}
use airfrog.Swd.Interface.State.{Transport, Interface}
use airfrog.Swd.Server.{ApiError, Reply, error_response}
use airfrog.Swd.Server.Calm.{IsCalm, IsReadable, handle_op-IsCalm}
use airfrog.Swd.Server.Session.{
  Socket, State, Flow, Exit, perform, respond, send_response, write, write_data, written, and_then,
}

module _ (k : Socket) (t : Transport) where
  -- A step that does not panic.
  abbrev pub IsSafe : {A : Type 0} → Flow k t A → Type 0
  IsSafe (err Exit.panic, s) = ⊥
  IsSafe (err (Exit.returned _), s) = Unit {0}
  IsSafe (err Exit.waiting, s) = Unit {0}
  IsSafe (err Exit.unfinished, s) = Unit {0}
  IsSafe (ok _, s) = Unit {0}

  and_then-IsSafe :
      {A B : Type 0} (x : Flow k t A) (f : A → State k t → Flow k t B)
      → IsSafe x
      → ((a : A) (s : State k t) → IsSafe (f a s))
      → IsSafe (and_then k t x f)
  and_then-IsSafe (ok a, s) f h l = l a s
  and_then-IsSafe (err (Exit.returned r), s) f h l = tt
  and_then-IsSafe (err Exit.panic, s) f h l = h
  and_then-IsSafe (err Exit.waiting, s) f h l = tt
  and_then-IsSafe (err Exit.unfinished, s) f h l = tt

  written-IsSafe :
      (x : Result (Option k.Error) (Unit {0}) × k.Output) (s : State k t) → IsSafe (written k t x s)
  written-IsSafe (ok _, output) s = tt
  written-IsSafe (err e, output) s = tt

  write-IsSafe : (bytes : List ℕ) (s : State k t) → IsSafe (write k t bytes s)
  unfolding write
  write-IsSafe bytes s = written-IsSafe (k.write_all_in_time bytes s.output) s

  write_data-IsSafe : (bytes : Reply) (s : State k t) → IsSafe (write_data k t bytes s)
  write_data-IsSafe (some bytes) s = write-IsSafe bytes s
  write_data-IsSafe none s = tt

  send_response-IsSafe :
      (code : ResponseCode) (bytes : Reply) (s : State k t)
      → IsSafe (send_response k t code bytes s)
  unfolding send_response
  send_response-IsSafe code bytes s =
      and_then-IsSafe (write k t (response_byte code ∷ []) s) _ (write-IsSafe _ s) (λ _ s₁.
        and_then-IsSafe (write_data k t bytes s₁) _ (write_data-IsSafe bytes s₁) (λ _ s₂. tt))

  respond-IsSafe :
      (x : Result ApiError Reply × Interface t.Wire) (s : State k t)
      → IsCalm x
      → IsSafe (respond k t x s)
  respond-IsSafe (ok bytes, swd) s h = send_response-IsSafe ResponseCode.ok bytes _
  respond-IsSafe (err (ApiError.failed e), swd) s h = send_response-IsSafe (error_response e) none _
  respond-IsSafe (err ApiError.panicked, swd) s h = h

  -- The operation of a request panics the server only if it is a bulk read of no words, or one for
  -- whose words and response the heap has no room; in particular a disconnect does not reach
  -- `unreachable!`. The allocations that are checked are those of a bulk read.
  pub perform-IsSafe : (op : Op) (s : State k t) → IsReadable k.fits op → IsSafe (perform k t op s)
  unfolding perform
  perform-IsSafe Op.disconnect s h = tt
  perform-IsSafe (Op.dp_read a) s h =
      respond-IsSafe _ s (handle_op-IsCalm t k.fits (Op.dp_read a) s.swd (λ e. absurd cc) h)
  perform-IsSafe (Op.dp_write a w) s h =
      respond-IsSafe _ s (handle_op-IsCalm t k.fits (Op.dp_write a w) s.swd (λ e. absurd cc) h)
  perform-IsSafe (Op.ap_read a) s h =
      respond-IsSafe _ s (handle_op-IsCalm t k.fits (Op.ap_read a) s.swd (λ e. absurd cc) h)
  perform-IsSafe (Op.ap_write a w) s h =
      respond-IsSafe _ s (handle_op-IsCalm t k.fits (Op.ap_write a w) s.swd (λ e. absurd cc) h)
  perform-IsSafe (Op.ap_bulk_read a c) s h =
      respond-IsSafe _ s (handle_op-IsCalm t k.fits (Op.ap_bulk_read a c) s.swd (λ e. absurd cc) h)
  perform-IsSafe (Op.ap_bulk_write a ws) s h =
      respond-IsSafe _ s
        (handle_op-IsCalm t k.fits (Op.ap_bulk_write a ws) s.swd (λ e. absurd cc) h)
  perform-IsSafe (Op.multi_reg_write c ms) s h =
      respond-IsSafe _ s
        (handle_op-IsCalm t k.fits (Op.multi_reg_write c ms) s.swd (λ e. absurd cc) h)
  perform-IsSafe Op.ping s h =
      respond-IsSafe _ s (handle_op-IsCalm t k.fits Op.ping s.swd (λ e. absurd cc) h)
  perform-IsSafe Op.reset_target s h =
      respond-IsSafe _ s (handle_op-IsCalm t k.fits Op.reset_target s.swd (λ e. absurd cc) h)
  perform-IsSafe (Op.clock a b c) s h =
      respond-IsSafe _ s (handle_op-IsCalm t k.fits (Op.clock a b c) s.swd (λ e. absurd cc) h)
  perform-IsSafe (Op.set_speed x) s h =
      respond-IsSafe _ s (handle_op-IsCalm t k.fits (Op.set_speed x) s.swd (λ e. absurd cc) h)
