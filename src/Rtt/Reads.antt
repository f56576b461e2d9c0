-- ===== src/Rtt/Reads.antt =====
-- `Command::Read` of the RTT task of airfrog/src/firmware/rtt.rs on the queue that its ring holds.
use airfrog.Prelude.{
  ℕ, zero, suc, ◌+◌, ◌-◌, ◌%◌, ◌<◌, ◌≤◌, ◌≡◌, refl, ap, sym, ◌∙◌, arith, leb, leb→le, min,
  Bool-cases, inl, inr, List, [], ◌∷◌, ◌++◌, take, drop, length, replicate, length-append,
  take-append,
}
use airfrog.Bin.Error.{ok}
use airfrog.Rtt.Local.{buffer_size, LocalBuf, available_data, slice, copied, read_data}
use airfrog.Rtt.Queue.{IsValid, around, contents, available_sum, length-around, around-split}
use airfrog.Rtt.Task.{State, Command, Response, Rtt, max_bytes_per_read, handle_command}

slice-around : (bytes : ℕ → ℕ) (i n : ℕ) → i + n ≤ buffer_size → slice bytes i n ≡ around bytes i n
unfolding around
slice-around bytes i zero h = refl
slice-around bytes i (suc zero) h = refl
slice-around bytes i (suc (suc n)) h =
    let next : (i + 1) % buffer_size ≡ i + 1 = omega arith in
    let later = slice-around bytes (i + 1) (suc n) (omega arith) in
    rw next (ap (◌∷◌ (bytes i)) later)

copied-around :
    (b : LocalBuf) (n : ℕ)
    → IsValid b
    → n < buffer_size
    → copied b n ≡ around b.data_at b.read_pos n
unfolding copied IsValid
copied-around b n (hw, hr) hn = elim (Bool-cases (leb (b.read_pos + n) buffer_size)) [
  | inl e ↦ rw e (slice-around b.data_at b.read_pos n (leb→le (b.read_pos + n) buffer_size e))
  | inr e ↦
      let past : buffer_size < b.read_pos + n = ground arith in
      let first = buffer_size - b.read_pos in
      let wraps : (b.read_pos + first) % buffer_size ≡ 0 = omega arith in
      let parts : n ≡ first + (n - first) = omega arith in
      let front = slice-around b.data_at b.read_pos first (omega arith) in
      let back = slice-around b.data_at 0 (n - first) (omega arith) in
      let whole = around-split b.data_at b.read_pos first (n - first) hr in
      rw (e, front, back)
        (ap (λ j. around b.data_at b.read_pos first ++ around b.data_at j (n - first)) (sym wraps)
          ∙ sym whole
          ∙ ap (around b.data_at b.read_pos) (sym parts))
]

split_at :
    (n : ℕ) (xs ys : List ℕ)
    → length xs ≡ min n (length xs + length ys)
    → (take n (xs ++ ys) ≡ xs) × (drop n (xs ++ ys) ≡ ys)
split_at zero [] ys h = (refl, refl)
split_at zero (x ∷ xs) ys h = absurd (omega arith)
split_at (suc n) [] [] h = (refl, refl)
split_at (suc n) [] (y ∷ ys) h = absurd (omega arith)
split_at (suc n) (x ∷ xs) ys h =
    let (front, back) = split_at n xs ys (omega arith) in (ap (◌∷◌ x) front, back)

-- The ring after `n` bytes are read from it.
unfoldable advance : LocalBuf → ℕ → LocalBuf
advance b n = record {
  data_at = b.data_at;
  write_pos = b.write_pos;
  read_pos = (b.read_pos + n) % buffer_size;
}

advance-IsValid : (b : LocalBuf) (n : ℕ) → IsValid b → IsValid (advance b n)
unfolding IsValid advance
advance-IsValid b n v = (v.0, omega arith)

available_data-advance :
    (b : LocalBuf) (n : ℕ)
    → IsValid b
    → n ≤ available_data b
    → available_data (advance b n) ≡ available_data b - n
unfolding IsValid advance available_data
available_data-advance b n (hw, hr) h = ground arith

contents-advance :
    (b : LocalBuf) (n : ℕ)
    → IsValid b
    → n ≤ available_data b
    → contents b ≡ copied b n ++ contents (advance b n)
unfolding contents advance IsValid
contents-advance b n v h =
    let short : n < buffer_size = omega (arith, available_sum b v) in
    let parts : available_data b ≡ n + (available_data b - n) = omega arith in
    let left = available_data-advance b n v h in
    rw (copied-around b n v short, left)
      (ap (around b.data_at b.read_pos) parts
        ∙ around-split b.data_at b.read_pos n (available_data b - n) v.1)

length-contents : (b : LocalBuf) → length (contents b) ≡ available_data b
unfolding contents
length-contents b = length-around b.data_at b.read_pos (available_data b)

length-copied : (b : LocalBuf) (n : ℕ) → IsValid b → n ≤ available_data b → length (copied b n) ≡ n
length-copied b n v h =
    ap length (copied-around b n v (omega (arith, available_sum b v)))
    ∙ length-around b.data_at b.read_pos n

-- A read takes the oldest bytes of the queue, as many as fit into the caller's buffer or all of them.
read_data-contents :
    (b : LocalBuf) (buf : List ℕ)
    → IsValid b
    → (take (read_data b buf).0 (read_data b buf).1 ≡ take (length buf) (contents b))
      × (contents (read_data b buf).2 ≡ drop (length buf) (contents b))
      × IsValid (read_data b buf).2
unfolding read_data advance
read_data-contents b buf v =
    let n = min (length buf) (available_data b) in
    let fits : n ≤ available_data b = omega arith in
    let whole = contents-advance b n v fits in
    let new = advance b n in
    let count = length-copied b n v fits in
    let total : length (contents b) ≡ length (copied b n) + length (contents new) =
      ap length whole ∙ length-append (copied b n) (contents new) in
    let (front, back) =
      split_at (length buf) (copied b n) (contents new)
        (omega (arith, count, total, length-contents b)) in
    (
      ap (λ k. take k (copied b n ++ drop n buf)) (sym count)
          ∙ take-append (copied b n) (drop n buf)
          ∙ sym front
          ∙ ap (take (length buf)) (sym whole),
      sym back ∙ ap (drop (length buf)) (sym whole),
      advance-IsValid b n v,
    )

length-replicate : (n v : ℕ) → length (replicate n v) ≡ n
length-replicate zero v = refl
length-replicate (suc n) v = ap suc (length-replicate n v)

-- A read while the task runs, on a ring with its positions inside its array, is answered with the
-- oldest bytes of the queue, at most `max` and at most 256 of them, and leaves the others in it, with
-- the positions still inside.
pub handle_command-takes :
    (r : Rtt) (max : ℕ)
    → IsValid r.local_buf
    → r.state ≡ State.started
    → ((handle_command (Command.read max) r).0
        ≡ ok (Response.bytes (take (min max max_bytes_per_read) (contents r.local_buf))))
      × (contents (handle_command (Command.read max) r).1.local_buf
          ≡ drop (min max max_bytes_per_read) (contents r.local_buf))
      × IsValid (handle_command (Command.read max) r).1.local_buf
unfolding handle_command
handle_command-takes r max v running =
    let n = min max max_bytes_per_read in
    let (front, back, valid) = read_data-contents r.local_buf (replicate n 0) v in
    let size = length-replicate n 0 in
    rw running (
      ap (λ l. ok (Response.bytes l)) front
          ∙ ap (λ k. ok (Response.bytes (take k (contents r.local_buf)))) size,
      back ∙ ap (λ k. drop k (contents r.local_buf)) size,
      valid,
    )
