-- ===== src/Swd/Server/Examples.antt =====
-- The theorems on the server at concrete inputs, over the target of Swd/Interface/Target. The socket
-- is a list of the bytes to read and a list of those written.
use airfrog.Prelude.{
  leb→le, ap, sym, Bool-cases, inl, inr, length-drop, ℕ, ◌+◌, ◌≤◌, ◌<◌, ◌≡◌, refl, arith, List, [],
  ◌∷◌, ◌++◌, length, take, drop, leb, if◌then◌else◌, Option, some, none,
}
use airfrog.Bin.Error.{Result, ok, err}
use airfrog.Bin.Response.{ResponseCode, response_byte}
use airfrog.Bin.Op.{Op}
use airfrog.Bin.Format.{encode}
use airfrog.Swd.Interface.Target.{target_transport, ready}
use airfrog.Swd.Server.Session.{Socket, State, Exit, version, serve, perform}
use airfrog.Swd.Server.Session.Ends.{Finite, IsOver, serve-IsOver}
use airfrog.Swd.Server.Session.Panics.{IsSafe, perform-IsSafe}
use airfrog.Swd.Server.Session.Sends.{Prompt}
use airfrog.Swd.Server.Session.Answers.{transcript, encode_all, serve-transcript}

read_list : {E : Type 0} → E → ℕ → List ℕ → Result E (List ℕ) × List ℕ
read_list e n s = if leb n (length s) then (ok (take n s), drop n s) else (err e, [])

read_whole : ℕ → List ℕ → Option (Result (Unit {0}) (List ℕ)) × List ℕ
read_whole n s = (some (read_list tt n s).0, (read_list tt n s).1)

read_one : List ℕ → Result (Option (Unit {0})) (List ℕ) × List ℕ
read_one [] = (ok [], [])
read_one (x ∷ rest) = (ok (x ∷ []), rest)

write_list : List ℕ → List ℕ → Result (Option (Unit {0})) (Unit {0}) × List ℕ
write_list bytes s = (ok tt, s ++ bytes)

abbrev list_socket : Socket
list_socket = record {
  Input = List ℕ;
  Output = List ℕ;
  Error = Unit {0};
  read_exact = read_whole;
  read_exact_in_time = read_list none;
  read_in_time = read_one;
  write_all_in_time = write_list;
  fits = λ bytes. leb bytes 4096;
}

read_list-drained :
    {E : Type 0} (e : E) (n : ℕ) (s s' bytes : List ℕ)
    → read_list e n s ≡ (ok bytes, s')
    → n + length s' ≡ length s
unfolding read_list
read_list-drained e n s s' bytes h = elim (Bool-cases (leb n (length s))) [
  | inl b ↦
      let both : (ok (take n s), drop n s) ≡ (ok bytes, s') = rw b at h in
      let dropped : drop n s ≡ s' = ap (λ x. x.1) both in
      let enough : n ≤ length s = leb→le n (length s) b in
      omega (arith, length-drop n s, ap (λ l. length l) dropped)
  | inr b ↦
      let none_read : (err e, []) ≡ (ok bytes, s') = rw b at h in
      let impossible : err e ≡ ok bytes = ap (λ x. x.0) none_read in absurd cc
]

read_whole-drained :
    (n : ℕ) (s s' bytes : List ℕ)
    → read_whole n s ≡ (some (ok bytes), s')
    → n + length s' ≡ length s
unfolding read_whole
read_whole-drained n s s' bytes h =
    let read : (read_list tt n s).0 ≡ ok bytes = cc in
    let left : (read_list tt n s).1 ≡ s' = cc in
    read_list-drained tt n s s' bytes (rw (sym read, sym left) refl)

whole_read : (n : ℕ) (s : List ℕ) → (r : Result (Unit {0}) (List ℕ)) × ((read_whole n s).0 ≡ some r)
unfolding read_whole
whole_read n s = ((read_list tt n s).0, refl)

one_read : (s : List ℕ) → length (read_one s).1 ≤ length s
unfolding read_one
one_read [] = omega arith
one_read (x ∷ s) = omega arith

abbrev finite : Finite list_socket
finite = record {
  left = λ s. length s;
  drained = read_whole-drained;
  answers = whole_read;
  drained_in_time = read_list-drained none;
  read = one_read;
}

read_list-take :
    {E : Type 0} (e : E) (n : ℕ) (s : List ℕ)
    → n ≤ length s
    → ((read_list e n s).0 ≡ ok (take n s)) × ((read_list e n s).1 ≡ drop n s)
unfolding read_list
read_list-take e n s h = ground arith

read_list_short :
    {E : Type 0} (e : E) (n : ℕ) (s : List ℕ)
    → length s < n
    → (e' : E) × ((read_list e n s).0 ≡ err e')
unfolding read_list
read_list_short e n s h = (e, ground arith)

read_whole-take :
    (n : ℕ) (s : List ℕ)
    → n ≤ length s
    → ((read_whole n s).0 ≡ some (ok (take n s))) × ((read_whole n s).1 ≡ drop n s)
unfolding read_whole
read_whole-take n s h = let (bytes, rest) = read_list-take tt n s h in (ap some bytes, rest)

read_whole_short :
    (n : ℕ) (s : List ℕ) → length s < n → (e : Unit {0}) × ((read_whole n s).0 ≡ some (err e))
unfolding read_whole
read_whole_short n s h = let (e, failed) = read_list_short tt n s h in (e, ap some failed)

one_byte :
    (x : ℕ) (rest s : List ℕ)
    → s ≡ x ∷ rest
    → ((read_one s).0 ≡ ok (x ∷ [])) × ((read_one s).1 ≡ rest)
unfolding read_one
one_byte x rest s h = rw h (refl, refl)

all_written :
    (bytes s : List ℕ) → ((write_list bytes s).0 ≡ ok tt) × ((write_list bytes s).1 ≡ s ++ bytes)
unfolding write_list
all_written bytes s = (refl, refl)

abbrev prompt : Prompt list_socket
prompt = record {
  pending = λ s. s;
  sent = λ s. s;
  delivers = read_whole-take;
  fails = read_whole_short;
  delivers_in_time = read_list-take none;
  fails_in_time = read_list_short none;
  reads = one_byte;
  writes = all_written;
}

-- A ping, a write of TAR and a disconnect.
abbrev two_requests : List Op
two_requests = Op.ping ∷ Op.ap_write 4 0x20000000 ∷ []

abbrev connection : State list_socket target_transport
connection = record {
  input = version ∷ (encode_all two_requests ++ (encode Op.disconnect ++ []));
  output = [];
  swd = ready;
  binary_api_calls = 0;
}

fifteen_bytes : length connection.input < 15
unfolding encode_all encode
fifteen_bytes = omega arith

serve-IsOver_example : IsOver (serve list_socket target_transport 15 connection).0
serve-IsOver_example = serve-IsOver list_socket target_transport finite 15 connection fifteen_bytes

perform-IsSafe_example :
    IsSafe list_socket target_transport
      (perform list_socket target_transport (Op.ap_bulk_read 12 2) connection)
perform-IsSafe_example =
    perform-IsSafe list_socket target_transport (Op.ap_bulk_read 12 2) connection
      (omega arith, refl, refl)

serve-transcript_example :
    ((serve list_socket target_transport 3 connection).0
      ≡ Exit.returned (ok (some ResponseCode.ok)))
    × ((serve list_socket target_transport 3 connection).1.swd
        ≡ (transcript target_transport list_socket.fits two_requests ready).1)
    × ((serve list_socket target_transport 3 connection).1.output
        ≡ []
          ++ (version
              ∷ ((transcript target_transport list_socket.fits two_requests ready).0
                  ++ response_byte ResponseCode.ok ∷ [])))
serve-transcript_example =
    serve-transcript list_socket target_transport prompt two_requests [] 3 connection
      ((tt, (λ e. absurd cc), tt, tt), (((omega arith, omega arith), (λ e. absurd cc), tt, tt), tt))
      (omega arith) refl
