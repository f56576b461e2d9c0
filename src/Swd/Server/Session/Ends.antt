-- ===== src/Swd/Server/Session/Ends.antt =====
-- The main loop ends: each of its rounds takes a byte of what the client sends.
use airfrog.Prelude.{
  ℕ, zero, suc, ◌+◌, ◌≤◌, ◌<◌, ◌≡◌, refl, ap, arith, Bool-cases, inl, inr, ◌==◌, List, [], ◌∷◌,
  Option, some, none,
}
use airfrog.Bin.Error.{Result, ok, err, ProtocolError, ParseError}
use airfrog.Bin.Command.{Command}
use airfrog.Bin.Op.{Op}
use airfrog.Bin.Recv.{recv_cmd}
use airfrog.Bin.Drains.{Drains, Leaves, Takes, recv_cmd-Takes, async_recv-Takes}
use airfrog.Bin.Response.{ResponseCode, response_byte}
use airfrog.Swd.Interface.State.{Transport, Interface}
use airfrog.Swd.Server.{ApiError, Reply}
use airfrog.Swd.Server.Session.{
  Socket, State, Flow, Exit, answered, reader, timed_reader, receive, round, rounds, perform,
  respond, send_response, write, write_data, written, and_then, ended, received_cmd, received_op,
  binary_api_handshake, greeted, acked, binary_api_main_loop, version, serve, last_response,
}

-- The number of bytes that are still to arrive: a successful read takes from them. A read without a
-- timeout returns: the client sends what is read, or the connection ends.
pub record Finite (k : Socket) : Type 0 where
  pub left : k.Input → ℕ
  pub drained :
      (n : ℕ) (s s' : k.Input) (bytes : List ℕ)
      → k.read_exact n s ≡ (some (ok bytes), s')
      → n + left s' ≡ left s
  pub drained_in_time :
      (n : ℕ) (s s' : k.Input) (bytes : List ℕ)
      → k.read_exact_in_time n s ≡ (ok bytes, s')
      → n + left s' ≡ left s
  pub answers :
      (n : ℕ) (s : k.Input) → (r : Result k.Error (List ℕ)) × ((k.read_exact n s).0 ≡ some r)
  pub read : (s : k.Input) → left (k.read_in_time s).1 ≤ left s

-- The main loop has come to an end.
abbrev pub IsOver : Exit → Type 0
IsOver (Exit.returned _) = Unit {0}
IsOver Exit.panic = Unit {0}
IsOver Exit.waiting = ⊥
IsOver Exit.unfinished = ⊥

module _ (k : Socket) (t : Transport) (d : Finite k) where
  -- A failure that is told.
  abbrev IsTold : Option k.Error → Type 0
  IsTold (some _) = Unit {0}
  IsTold none = ⊥

  abbrev heard :
      Option (Result k.Error (List ℕ)) × k.Input → Result (Option k.Error) (List ℕ) × k.Input
  heard x = (answered k x.0, x.1)

  reads_bytes :
      (x : Option (Result k.Error (List ℕ)) × k.Input) (s' : k.Input) (bytes : List ℕ)
      → heard x ≡ (ok bytes, s')
      → x ≡ (some (ok bytes), s')
  reads_bytes (none, s) s' bytes h = absurd cc
  reads_bytes (some (ok bs), s) s' bytes h =
      let same : bs ≡ bytes = cc in let rest : s ≡ s' = cc in rw (same, rest) refl
  reads_bytes (some (err e), s) s' bytes h = absurd cc

  read_failed :
      (x : Option (Result k.Error (List ℕ))) (r : Result k.Error (List ℕ)) (e : Option k.Error)
      → x ≡ some r
      → answered k x ≡ err e
      → IsTold e
  read_failed none r e a h = absurd cc
  read_failed (some (ok bs)) r e a h = absurd cc
  read_failed (some (err e')) r none a h = absurd cc
  read_failed (some (err e')) r (some e) a h = tt

  abbrev drains : Drains (reader k)
  drains = record {
    left = d.left;
    drained = λ n s s' bytes h. d.drained n s s' bytes (reads_bytes (k.read_exact n s) s' bytes h);
    Fails = IsTold;
    failed = λ n s s' e h.
        let (r, answer) = d.answers n s in
        read_failed (k.read_exact n s).0 r e answer (ap (λ x. x.0) h);
  }

  abbrev drains_in_time : Drains (timed_reader k)
  drains_in_time = record {
    left = d.left;
    drained = d.drained_in_time;
    Fails = λ _. Unit {0};
    failed = λ n s s' e h. tt;
  }

  -- A step that goes on leaves less than this many bytes.
  abbrev Going : {A : Type 0} → ℕ → Flow k t A → Type 0
  Going n (ok _, s) = d.left s.input < n
  Going n (err Exit.unfinished, s) = ⊥
  Going n (err Exit.waiting, s) = ⊥
  Going n (err _, s) = Unit {0}

  and_then-Going :
      {A B : Type 0} (b c : ℕ) (x : Flow k t A) (f : A → State k t → Flow k t B)
      → Going b x
      → ((a : A) (s : State k t) → d.left s.input < b → Going c (f a s))
      → Going c (and_then k t x f)
  and_then-Going b c (ok a, s) f h l = l a s h
  and_then-Going b c (err (Exit.returned r), s) f h l = tt
  and_then-Going b c (err Exit.panic, s) f h l = tt
  and_then-Going b c (err Exit.waiting, s) f h l = h
  and_then-Going b c (err Exit.unfinished, s) f h l = h

  written-Going :
      (n : ℕ) (x : Result (Option k.Error) (Unit {0}) × k.Output) (s : State k t)
      → d.left s.input < n
      → Going n (written k t x s)
  written-Going n (ok _, output) s h = h
  written-Going n (err e, output) s h = tt

  write-Going :
      (n : ℕ) (bytes : List ℕ) (s : State k t) → d.left s.input < n → Going n (write k t bytes s)
  unfolding write
  write-Going n bytes s h = written-Going n (k.write_all_in_time bytes s.output) s h

  write_data-Going :
      (n : ℕ) (bytes : Reply) (s : State k t)
      → d.left s.input < n
      → Going n (write_data k t bytes s)
  write_data-Going n (some bytes) s h = write-Going n bytes s h
  write_data-Going n none s h = h

  send_response-Going :
      (n : ℕ) (code : ResponseCode) (bytes : Reply) (s : State k t)
      → d.left s.input < n
      → Going n (send_response k t code bytes s)
  unfolding send_response
  send_response-Going n code bytes s h =
      and_then-Going n n (write k t (response_byte code ∷ []) s) _ (write-Going n _ s h) (λ _ s₁ h₁.
        and_then-Going n n (write_data k t bytes s₁) _ (write_data-Going n bytes s₁ h₁)
          (λ _ s₂ h₂. h₂))

  respond-Going :
      (n : ℕ) (x : Result ApiError Reply × Interface t.Wire) (s : State k t)
      → d.left s.input < n
      → Going n (respond k t x s)
  respond-Going n (ok bytes, swd) s h = send_response-Going n ResponseCode.ok bytes _ h
  respond-Going n (err (ApiError.failed e), swd) s h = send_response-Going n _ none _ h
  respond-Going n (err ApiError.panicked, swd) s h = tt

  perform-Going :
      (n : ℕ) (op : Op) (s : State k t) → d.left s.input < n → Going n (perform k t op s)
  unfolding perform
  perform-Going n Op.disconnect s h = tt
  perform-Going n (Op.dp_read a) s h = respond-Going n _ s h
  perform-Going n (Op.dp_write a w) s h = respond-Going n _ s h
  perform-Going n (Op.ap_read a) s h = respond-Going n _ s h
  perform-Going n (Op.ap_write a w) s h = respond-Going n _ s h
  perform-Going n (Op.ap_bulk_read a c) s h = respond-Going n _ s h
  perform-Going n (Op.ap_bulk_write a ws) s h = respond-Going n _ s h
  perform-Going n (Op.multi_reg_write c ms) s h = respond-Going n _ s h
  perform-Going n Op.ping s h = respond-Going n _ s h
  perform-Going n Op.reset_target s h = respond-Going n _ s h
  perform-Going n (Op.clock a b c) s h = respond-Going n _ s h
  perform-Going n (Op.set_speed x) s h = respond-Going n _ s h

  received_cmd-Going :
      (n : ℕ) (x : Result (ParseError (Option k.Error)) Command × k.Input) (s : State k t)
      → Leaves (timed_reader k) drains_in_time 1 n x
      → Going n (received_cmd k t x s)
  received_cmd-Going n (ok command, input) s h = omega arith
  received_cmd-Going n (err (ParseError.transport none), input) s h = tt
  received_cmd-Going n (err (ParseError.transport (some e)), input) s h = tt
  received_cmd-Going n (err (ParseError.protocol e), input) s h = tt

  received_op-Going :
      (n b : ℕ) (x : Result (ParseError (Option k.Error)) Op × k.Input) (s : State k t)
      → b < n
      → Leaves (reader k) drains 0 b x
      → Going n (received_op k t x s)
  received_op-Going n b (ok op, input) s l h = omega arith
  received_op-Going n b (err (ParseError.transport (some e)), input) s l h = tt
  received_op-Going n b (err (ParseError.transport none), input) s l h = absurd h
  received_op-Going n b (err (ParseError.protocol (ProtocolError.command c)), input) s l h = tt
  received_op-Going n b (err (ParseError.protocol ProtocolError.arg), input) s l h = tt

  receive-Going : (n : ℕ) (s : State k t) → d.left s.input ≤ n → Going n (receive k t s)
  unfolding receive Takes
  receive-Going n s h =
      and_then-Going n n (received_cmd k t (recv_cmd (timed_reader k) s.input) s) _
        (received_cmd-Going n _ s (recv_cmd-Takes (timed_reader k) drains_in_time s.input n h))
        (λ command s₁ h₁.
          received_op-Going n (d.left s₁.input) _ s₁ h₁
            (async_recv-Takes (reader k) drains command s₁.input (d.left s₁.input) (omega arith)))

  round-Going : (n : ℕ) (s : State k t) → d.left s.input ≤ n → Going n (round k t s)
  unfolding round
  round-Going n s h =
      and_then-Going n n (receive k t s) _ (receive-Going n s h)
        (λ op s₁ h₁. perform-Going n op s₁ h₁)

  ended-IsOver :
      (n : ℕ) (x : Flow k t (Unit {0})) (f : State k t → Exit × State k t)
      → Going n x
      → ((s : State k t) → d.left s.input < n → IsOver (f s).0)
      → IsOver (ended k t x f).0
  ended-IsOver n (ok _, s) f h l = l s h
  ended-IsOver n (err (Exit.returned r), s) f h l = tt
  ended-IsOver n (err Exit.panic, s) f h l = tt
  ended-IsOver n (err Exit.waiting, s) f h l = absurd h
  ended-IsOver n (err Exit.unfinished, s) f h l = absurd h

  rounds-IsOver : (n : ℕ) (s : State k t) → d.left s.input < n → IsOver (rounds k t n s).0
  unfolding rounds
  rounds-IsOver zero s h = absurd (omega arith)
  rounds-IsOver (suc n) s h =
      ended-IsOver n (round k t s) (rounds k t n) (round-Going n s (omega arith))
        (λ s₁ h₁. rounds-IsOver n s₁ (omega arith))

  acked-Going :
      (n : ℕ) (x : Result (Option k.Error) (List ℕ) × k.Input) (s : State k t)
      → d.left x.1 < n
      → Going n (acked k t x s)
  acked-Going n (ok [], input) s h = tt
  acked-Going n (ok (x ∷ xs), input) s h = elim (Bool-cases (x == version)) [
    | inl e ↦ rw e h
    | inr e ↦ rw e tt
  ]
  acked-Going n (err e, input) s h = tt

  greeted-Going :
      (n : ℕ) (x : Result (Option k.Error) (Unit {0}) × k.Output) (s : State k t)
      → d.left s.input < n
      → Going n (greeted k t x s)
  greeted-Going n (ok _, output) s h =
      acked-Going n (k.read_in_time s.input) _ (omega (arith, d.read s.input))
  greeted-Going n (err e, output) s h = tt

  last_response-same : (x : Exit × State k t) → (last_response k t x).0 ≡ x.0
  last_response-same (Exit.returned (ok (some code)), s) = refl
  last_response-same (Exit.returned (ok none), s) = refl
  last_response-same (Exit.returned (err e), s) = refl
  last_response-same (Exit.panic, s) = refl
  last_response-same (Exit.waiting, s) = refl
  last_response-same (Exit.unfinished, s) = refl

  -- The server is done with a client that sends finitely many bytes and leaves no read of arguments
  -- without an answer for ever, whatever the bytes, the target and the socket's errors: one round more
  -- than there are bytes is enough for the main loop to return or panic.
  pub serve-IsOver : (n : ℕ) (s : State k t) → d.left s.input < n → IsOver (serve k t n s).0
  unfolding serve binary_api_main_loop binary_api_handshake
  serve-IsOver n s h = rw (last_response-same (binary_api_main_loop k t n s)) (
      ended-IsOver n (binary_api_handshake k t s) (rounds k t n) (greeted-Going n _ s h)
        (λ s₁ h₁. rounds-IsOver n s₁ (omega arith)))
