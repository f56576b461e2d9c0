-- ===== src/Swd/Server/Session/Sends.antt =====
-- A connection without errors: what the server sends arrives in order.
use airfrog.Prelude.{
  ℕ, ◌≤◌, ◌<◌, ◌≡◌, refl, ap, sym, ◌∙◌, List, [], ◌∷◌, ◌++◌, length, take, drop, Option, some, none,
}
use mathlib.Core.List.{append_assoc, append-nil}
use airfrog.Bin.Error.{Result, ok, err}
use airfrog.Bin.Response.{ResponseCode, response_byte}
use airfrog.Bin.Reader.{Delivers}
use airfrog.Swd.Interface.State.{Transport}
use airfrog.Swd.Server.{Reply}
use airfrog.Swd.Server.Session.{
  Socket, State, Flow, answered, reader, timed_reader, with_output, send_response, write,
  write_data, written, count_call,
}

-- What is documented of a connection without errors and delays: reads take the bytes that the client
-- has sent, and fail when there are too few, and writes append to what it is sent.
pub record Prompt (k : Socket) : Type 0 where
  pub pending : k.Input → List ℕ
  pub sent : k.Output → List ℕ
  pub delivers :
      (n : ℕ) (s : k.Input)
      → n ≤ length (pending s)
      → ((k.read_exact n s).0 ≡ some (ok (take n (pending s))))
        × (pending (k.read_exact n s).1 ≡ drop n (pending s))
  pub fails :
      (n : ℕ) (s : k.Input)
      → length (pending s) < n
      → (e : k.Error) × ((k.read_exact n s).0 ≡ some (err e))
  pub delivers_in_time :
      (n : ℕ) (s : k.Input)
      → n ≤ length (pending s)
      → ((k.read_exact_in_time n s).0 ≡ ok (take n (pending s)))
        × (pending (k.read_exact_in_time n s).1 ≡ drop n (pending s))
  pub fails_in_time :
      (n : ℕ) (s : k.Input)
      → length (pending s) < n
      → (e : Option k.Error) × ((k.read_exact_in_time n s).0 ≡ err e)
  pub reads :
      (x : ℕ) (rest : List ℕ) (s : k.Input)
      → pending s ≡ x ∷ rest
      → ((k.read_in_time s).0 ≡ ok (x ∷ [])) × (pending (k.read_in_time s).1 ≡ rest)
  pub writes :
      (bytes : List ℕ) (s : k.Output)
      → ((k.write_all_in_time bytes s).0 ≡ ok tt)
        × (sent (k.write_all_in_time bytes s).1 ≡ sent s ++ bytes)

module _ (k : Socket) (t : Transport) (d : Prompt k) where
  abbrev pub delivering : Delivers (reader k)
  delivering = record {
    pending = d.pending;
    delivers = λ n s h. let (bytes, rest) = d.delivers n s h in (ap (answered k) bytes, rest);
    fails = λ n s h. let (e, failed) = d.fails n s h in (some e, ap (answered k) failed);
  }

  abbrev pub delivering_in_time : Delivers (timed_reader k)
  delivering_in_time = record {
    pending = d.pending;
    delivers = d.delivers_in_time;
    fails = d.fails_in_time;
  }

  -- Bytes have been sent, and nothing else has happened to the connection.
  abbrev pub Sent : List ℕ → State k t → State k t → Type 0
  Sent bytes s s' =
      (s'.input ≡ s.input) × (s'.swd ≡ s.swd) × (d.sent s'.output ≡ d.sent s.output ++ bytes)

  abbrev pub Sends : List ℕ → Flow k t (Unit {0}) → State k t → Type 0
  Sends bytes x s = (s' : State k t) × (x ≡ (ok tt, s')) × Sent bytes s s'

  pub written-ok :
      (x : Result (Option k.Error) (Unit {0}) × k.Output) (s : State k t)
      → x.0 ≡ ok tt
      → written k t x s ≡ (ok tt, with_output k t x.1 s)
  written-ok (ok a, output) s e = refl
  written-ok (err a, output) s e = absurd cc

  pub write-Sends : (bytes : List ℕ) (s : State k t) → Sends bytes (write k t bytes s) s
  unfolding write
  write-Sends bytes s =
      let (done, appended) = d.writes bytes s.output in
      (
        with_output k t (k.write_all_in_time bytes s.output).1 s,
        written-ok (k.write_all_in_time bytes s.output) s done,
        (refl, refl, appended),
      )

  -- The bytes after the response code.
  abbrev pub data_of : Reply → List ℕ
  data_of (some bytes) = bytes
  data_of none = []

  write_data-Sends :
      (bytes : Reply) (s : State k t) → Sends (data_of bytes) (write_data k t bytes s) s
  write_data-Sends (some bytes) s = write-Sends bytes s
  write_data-Sends none s = (s, refl, (refl, refl, sym (append-nil (d.sent s.output))))

  pub send_response-Sends :
      (code : ResponseCode) (bytes : Reply) (s : State k t)
      → Sends (response_byte code ∷ data_of bytes) (send_response k t code bytes s) s
  unfolding send_response
  send_response-Sends code bytes s =
      let (s₁, e₁, (i₁, w₁, o₁)) = write-Sends (response_byte code ∷ []) s in
      let (s₂, e₂, (i₂, w₂, o₂)) = write_data-Sends bytes s₁ in
      let all : d.sent s₂.output ≡ d.sent s.output ++ response_byte code ∷ data_of bytes =
        rw (o₂, o₁) (append_assoc (d.sent s.output) (response_byte code ∷ []) (data_of bytes)) in
      ((count_call k t s₂).1, rw (e₁, e₂) refl, (i₂ ∙ i₁, w₂ ∙ w₁, all))
