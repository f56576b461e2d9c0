-- ===== src/Swd/Server/Session/Answers.antt =====
-- A whole connection: every request of the client is answered, in order.
use airfrog.Prelude.{
  ℕ, zero, suc, ◌<◌, ◌≤◌, Bool, ◌≡◌, ◌≢◌, refl, sym, ap, ◌∙◌, arith, List, [], ◌∷◌, ◌++◌, length,
  All, Option, some, none,
}
use mathlib.Core.List.{append_assoc, append-nil}
use airfrog.Bin.Error.{Result, ok, err}
use airfrog.Bin.Response.{ResponseCode, response_byte}
use airfrog.Bin.Op.{Op}
use airfrog.Bin.Format.{encode, IsRequest, fixed_part, data_part}
use airfrog.Bin.RoundTrip.{Yields-cmd, Yields-async_recv}
use airfrog.Swd.Interface.State.{Transport, Interface}
use airfrog.Swd.Server.{ApiError, Reply, binary_api_handle_op, error_response}
use airfrog.Swd.Server.Calm.{IsCalm, IsReadable, handle_op-IsCalm}
use airfrog.Swd.Server.Session.{
  Socket, State, Exit, reader, timed_reader, version, with_output, with_input, perform, respond,
  receive, round, rounds, acked, greeted, binary_api_handshake, binary_api_main_loop, last_response,
  serve,
}
use airfrog.Swd.Server.Session.Sends.{Prompt, delivering, delivering_in_time, send_response-Sends}

-- The bytes that answer the result of an operation.
abbrev pub answer : Result ApiError Reply → List ℕ
answer (ok (some bytes)) = response_byte ResponseCode.ok ∷ bytes
answer (ok none) = response_byte ResponseCode.ok ∷ []
answer (err (ApiError.failed e)) = response_byte (error_response e) ∷ []
answer (err ApiError.panicked) = []

-- The answers to operations that are carried out one after another, and the interface after them.
unfoldable pub transcript :
    (t : Transport) → (ℕ → Bool) → List Op → Interface t.Wire → List ℕ × Interface t.Wire
transcript t fits [] s = ([], s)
transcript t fits (op ∷ ops) s =
    let (result, s₁) = binary_api_handle_op t fits op s in
    let (bytes, s₂) = transcript t fits ops s₁ in (answer result ++ bytes, s₂)

-- The bytes of requests that follow each other.
unfoldable pub encode_all : List Op → List ℕ
encode_all [] = []
encode_all (op ∷ ops) = encode op ++ encode_all ops

-- The documented bound on a bulk read.
abbrev pub IsBounded : Op → Type 0
IsBounded (Op.ap_bulk_read _ count) = count ≤ 256
IsBounded _ = Unit {0}

-- A request that the server carries out; a bulk read has at least one word and at most 256, and the
-- heap has room for it.
abbrev pub IsServed : (ℕ → Bool) → Op → Type 0
IsServed fits op = IsRequest op × (op ≢ Op.disconnect) × IsReadable fits op × IsBounded op

module _ (k : Socket) (t : Transport) (d : Prompt k) where
  -- The operation of a request sends its answer.
  respond-Sends :
      (x : Result ApiError Reply × Interface t.Wire) (s : State k t)
      → IsCalm x
      → (s' : State k t) × (respond k t x s ≡ (ok tt, s'))
        × (s'.input ≡ s.input)
        × (s'.swd ≡ x.1)
        × (d.sent s'.output ≡ d.sent s.output ++ answer x.0)
  respond-Sends (ok (some bytes), swd) s h =
      let (s₁, e₁, (i₁, w₁, o₁)) =
        send_response-Sends k t d ResponseCode.ok (some bytes) (record s { swd = swd }) in
      (s₁, e₁, i₁, w₁, o₁)
  respond-Sends (ok none, swd) s h =
      let (s₁, e₁, (i₁, w₁, o₁)) =
        send_response-Sends k t d ResponseCode.ok none (record s { swd = swd }) in
      (s₁, e₁, i₁, w₁, o₁)
  respond-Sends (err (ApiError.failed e), swd) s h =
      let (s₁, e₁, (i₁, w₁, o₁)) =
        send_response-Sends k t d (error_response e) none (record s { swd = swd }) in
      (s₁, e₁, i₁, w₁, o₁)
  respond-Sends (err ApiError.panicked, swd) s h = absurd h

  perform_is :
      (op : Op) (s : State k t)
      → op ≢ Op.disconnect
      → perform k t op s ≡ respond k t (binary_api_handle_op t k.fits op s.swd) s
  unfolding perform
  perform_is Op.disconnect s h = absurd (h refl)
  perform_is (Op.dp_read a) s h = refl
  perform_is (Op.dp_write a w) s h = refl
  perform_is (Op.ap_read a) s h = refl
  perform_is (Op.ap_write a w) s h = refl
  perform_is (Op.ap_bulk_read a c) s h = refl
  perform_is (Op.ap_bulk_write a ws) s h = refl
  perform_is (Op.multi_reg_write c ms) s h = refl
  perform_is Op.ping s h = refl
  perform_is Op.reset_target s h = refl
  perform_is (Op.clock a b c) s h = refl
  perform_is (Op.set_speed x) s h = refl

  -- A request is received whole.
  receive-gets :
      (op : Op) (rest : List ℕ) (s : State k t)
      → IsRequest op
      → d.pending s.input ≡ encode op ++ rest
      → (input : k.Input) × (receive k t s ≡ (ok op, with_input k t input s))
        × (d.pending input ≡ rest)
  unfolding receive encode
  receive-gets op rest s h p =
      let (i₁, e₁, p₁) =
        Yields-cmd (timed_reader k) (delivering_in_time k t d) op
          ((fixed_part op ++ data_part op) ++ rest) s.input p in
      let (i₂, e₂, p₂) = Yields-async_recv (reader k) (delivering k t d) op rest i₁ h p₁ in
      (i₂, rw (e₁, e₂) refl, p₂)

  -- One round carries one request out and answers it.
  round-answers :
      (op : Op) (rest : List ℕ) (s : State k t)
      → IsServed k.fits op
      → d.pending s.input ≡ encode op ++ rest
      → (s' : State k t) × (round k t s ≡ (ok tt, s'))
        × (d.pending s'.input ≡ rest)
        × (s'.swd ≡ (binary_api_handle_op t k.fits op s.swd).1)
        × (d.sent s'.output ≡ d.sent s.output ++ answer (binary_api_handle_op t k.fits op s.swd).0)
  unfolding round
  round-answers op rest s (hr, hd, hb, _) p =
      let (input, e, q) = receive-gets op rest s hr p in
      let s₁ = with_input k t input s in
      let (s₂, e₂, i₂, w₂, o₂) =
        respond-Sends (binary_api_handle_op t k.fits op s.swd) s₁
          (handle_op-IsCalm t k.fits op s.swd hd hb) in
      (s₂, rw (e, perform_is op s₁ hd) e₂, ap d.pending i₂ ∙ q, w₂, o₂)

  -- The disconnect ends the loop.
  round-disconnect :
      (rest : List ℕ) (s : State k t)
      → d.pending s.input ≡ encode Op.disconnect ++ rest
      → (s' : State k t) × (round k t s ≡ (err (Exit.returned (ok (some ResponseCode.ok))), s'))
        × (s'.swd ≡ s.swd)
        × (s'.output ≡ s.output)
  unfolding round perform
  round-disconnect rest s p =
      let (input, e, q) = receive-gets Op.disconnect rest s tt p in
      (with_input k t input s, rw e refl, refl, refl)

  rounds-answer :
      (ops : List Op) (rest : List ℕ) (n : ℕ) (s : State k t)
      → All (IsServed k.fits) ops
      → length ops < n
      → d.pending s.input ≡ encode_all ops ++ (encode Op.disconnect ++ rest)
      → ((rounds k t n s).0 ≡ Exit.returned (ok (some ResponseCode.ok)))
        × ((rounds k t n s).1.swd ≡ (transcript t k.fits ops s.swd).1)
        × (d.sent (rounds k t n s).1.output ≡ d.sent s.output ++ (transcript t k.fits ops s.swd).0)
  unfolding rounds transcript encode_all
  rounds-answer ops rest zero s h l p = absurd (omega arith)
  rounds-answer [] rest (suc n) s h l p =
      let (s₁, e, w, o) = round-disconnect rest s p in
      rw e (refl, w, rw o (sym (append-nil (d.sent s.output))))
  rounds-answer (op ∷ ops) rest (suc n) s (h, hs) l p =
      let bytes = encode_all ops ++ (encode Op.disconnect ++ rest) in
      let (s₁, e, q, w, o) =
        round-answers op bytes s h (p ∙ append_assoc (encode op) (encode_all ops) _) in
      let (done, w₁, o₁) = rounds-answer ops rest n s₁ hs (omega arith) q in
      rw e (
        done,
        w₁ ∙ ap (λ i. (transcript t k.fits ops i).1) w,
        o₁ ∙ rw (o, w) (append_assoc (d.sent s.output) _ _),
      )

  acked-version :
      (x : Result (Option k.Error) (List ℕ) × k.Input) (s : State k t)
      → x.0 ≡ ok (version ∷ [])
      → acked k t x s ≡ (ok tt, with_input k t x.1 s)
  acked-version (ok bytes, input) s e = let same : bytes ≡ version ∷ [] = cc in rw same refl
  acked-version (err a, input) s e = absurd cc

  greeted-version :
      (x : Result (Option k.Error) (Unit {0}) × k.Output) (s : State k t)
      → x.0 ≡ ok tt
      → (k.read_in_time s.input).0 ≡ ok (version ∷ [])
      → greeted k t x s ≡ (ok tt, with_input k t (k.read_in_time s.input).1 (with_output k t x.1 s))
  greeted-version (ok a, output) s e h =
      acked-version (k.read_in_time s.input) (with_output k t output s) h
  greeted-version (err a, output) s e h = absurd cc

  last-response :
      (x : Exit × State k t)
      → x.0 ≡ Exit.returned (ok (some ResponseCode.ok))
      → ((last_response k t x).0 ≡ x.0)
        × ((last_response k t x).1.swd ≡ x.1.swd)
        × (d.sent (last_response k t x).1.output
            ≡ d.sent x.1.output ++ response_byte ResponseCode.ok ∷ [])
  last-response (Exit.returned (ok (some code)), s) e =
      let same : code ≡ ResponseCode.ok = cc in
      (refl, refl, rw same ((d.writes (response_byte ResponseCode.ok ∷ []) s.output).1))
  last-response (Exit.returned (ok none), s) e = absurd cc
  last-response (Exit.returned (err a), s) e = absurd cc
  last-response (Exit.panic, s) e = absurd cc
  last-response (Exit.waiting, s) e = absurd cc
  last-response (Exit.unfinished, s) e = absurd cc

  -- On a connection without errors and delays, a client that acknowledges the version, sends any
  -- number of well-formed requests and disconnects is served: with more rounds than requests the
  -- server sends its version, for each request in turn the code and the bytes that its operation
  -- gives, and the response to the disconnect, and it leaves the interface as the operations carried
  -- out one after another do; it goes on after an operation that fails, which is answered by its
  -- code alone, as a bulk write is. A bulk read has at least one word and at most 256, and the heap
  -- has room for its words and its response.
  pub serve-transcript :
      (ops : List Op) (rest : List ℕ) (n : ℕ) (s : State k t)
      → All (IsServed k.fits) ops
      → length ops < n
      → d.pending s.input ≡ version ∷ (encode_all ops ++ (encode Op.disconnect ++ rest))
      → ((serve k t n s).0 ≡ Exit.returned (ok (some ResponseCode.ok)))
        × ((serve k t n s).1.swd ≡ (transcript t k.fits ops s.swd).1)
        × (d.sent (serve k t n s).1.output
            ≡ d.sent s.output
              ++ (version
                  ∷ ((transcript t k.fits ops s.swd).0 ++ response_byte ResponseCode.ok ∷ [])))
  unfolding serve binary_api_main_loop binary_api_handshake
  serve-transcript ops rest n s h l p =
      let requests = encode_all ops ++ (encode Op.disconnect ++ rest) in
      let (acknowledged, q) = d.reads version requests s.input p in
      let (greeting, o) = d.writes (version ∷ []) s.output in
      let whole =
        greeted-version (k.write_all_in_time (version ∷ []) s.output) s greeting acknowledged in
      let s₁ =
        with_input k t (k.read_in_time s.input).1
          (with_output k t (k.write_all_in_time (version ∷ []) s.output).1 s) in
      let (done, w₁, o₁) = rounds-answer ops rest n s₁ h l q in
      let (same, w₂, o₂) = last-response (rounds k t n s₁) done in
      rw whole (
        same ∙ done,
        w₂ ∙ w₁,
        o₂
            ∙ rw (o₁, o)
                (append_assoc (d.sent s.output ++ version ∷ []) _ _
                  ∙ append_assoc (d.sent s.output) _ _),
      )
