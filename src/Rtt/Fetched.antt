-- ===== src/Rtt/Fetched.antt =====
-- What a fetch of the RTT task of airfrog/src/firmware/rtt.rs does to its ring.
use airfrog.Prelude.{
  ℕ, ◌+◌, ◌%◌, ◌^◌, ◌==◌, ◌≤◌, ◌≡◌, ap, sym, ◌∙◌, arith, min, not, Bool-cases, inl, inr,
  if◌then◌else◌, List, [], take, length, length-append, take-append,
}
use mathlib.Core.List.{append-nil}
use airfrog.Bin.Error.{Result, ok, err}
use airfrog.Rtt.Local.{LocalBuf, available_space, write_data}
use airfrog.Rtt.Queue.{IsValid, contents, contents-write_data}
use airfrog.Rtt.Task.{
  RttError, RttBuf, write_pos_field_loc, read_pos_field_loc, buf_available_data, max_bytes_per_read,
}
use airfrog.Rtt.Fetch.{
  TargetTask, Fault, Run, Machine, pure, fail, continue, ok_or, ◌>>=◌, read_word_at, restarted,
  gather, with_local, with_read_pos, with_write_pos, tell, keep, get_new, fetch,
  get_rtt_data_from_target,
}
use airfrog.Rtt.Asks.{Any, After, Asks, pure-Asks, fail-Asks, ok_or-Asks, if-Asks}
use airfrog.Rtt.Requests.{read_word_at-Asks, restarted-Asks, gather-Asks, tell-Asks}

-- The queue has kept its bytes, and has at most 256 more after them.
unfoldable pub Extends : LocalBuf → LocalBuf → Type 0
Extends b b' =
    IsValid b'
    × (take (length (contents b)) (contents b') ≡ contents b)
    × (length (contents b') ≤ length (contents b) + max_bytes_per_read)

Extends-self : (b : LocalBuf) → IsValid b → Extends b b
unfolding Extends
Extends-self b v = (
  v,
  ap (take (length (contents b))) (sym (append-nil (contents b))) ∙ take-append (contents b) [],
  omega arith,
)

Extends-write_data :
    (b : LocalBuf) (bs : List ℕ)
    → IsValid b
    → length bs ≤ available_space b
    → length bs ≤ max_bytes_per_read
    → Extends b (write_data b bs)
unfolding Extends
Extends-write_data b bs v room few =
    let (more, valid) = contents-write_data b bs v room in
    (
      valid,
      ap (take (length (contents b))) more ∙ take-append (contents b) bs,
      omega (arith, ap length more, length-append (contents b) bs),
    )

module _ (t : TargetTask) where
  -- The ring after an operation.
  abbrev ring_after : {A : Type 0} → Result Fault A × Machine t → LocalBuf
  ring_after m = m.1.0.local_buf

  After-same :
      {A : Type 0} (Q : A → Type 0) (b : LocalBuf) (m : Result Fault A × Machine t)
      → After t Q b m
      → ring_after m ≡ b
  unfolding After
  After-same Q b (ok a, s) h = h.0
  After-same Q b (err e, s) h = h

  continue-Extends :
      {A B : Type 0} (Q : A → Type 0) (b : LocalBuf) (m : Result Fault A × Machine t)
      (f : A → Run (Machine t) B)
      → IsValid b
      → After t Q b m
      → ((a : A) (s : Machine t) → Q a → s.0.local_buf ≡ b → Extends b (ring_after (f a s)))
      → Extends b (ring_after (continue m f))
  unfolding After
  continue-Extends Q b (ok a, s) f v (same, q) h = h a s q same
  continue-Extends Q b (err e, s) f v same h = rw same (Extends-self b v)

  keep-Extends :
      (stored : RttBuf) (bs : List ℕ) (b : LocalBuf) (s : Machine t)
      → IsValid b
      → s.0.local_buf ≡ b
      → length bs ≤ available_space b
      → length bs ≤ max_bytes_per_read
      → Extends b (ring_after (keep t stored bs s))
  unfolding keep Asks
  keep-Extends stored bs b s v same room few =
      let later =
        if-Asks t Any (stored.size == 0) (fail Fault.panicked)
          (tell t (with_read_pos t stored ((stored.read_pos + length bs) % 2 ^ 32 % stored.size)))
          (fail-Asks t Any _) (tell-Asks t _) (with_local t bs s.0, s.1) in
      let end = After-same Any _ _ later in rw (end, same) (Extends-write_data b bs v room few)

  get_new-Extends :
      (stored : RttBuf) (s : Machine t)
      → IsValid s.0.local_buf
      → Extends s.0.local_buf (ring_after (get_new t stored s))
  unfolding get_new Asks
  get_new-Extends stored s v = elim (Bool-cases (stored.write_pos == stored.read_pos)) [
    | inl e ↦ rw e (Extends-self s.0.local_buf v)
    | inr e ↦
        let n =
          min (min (buf_available_data stored) (available_space s.0.local_buf))
            max_bytes_per_read in
        rw e (
          continue-Extends (λ l. length l ≡ n) s.0.local_buf (gather t stored n s) (keep t stored) v
            (gather-Asks t stored n s)
            (λ bs s₁ size same.
              keep-Extends stored bs s.0.local_buf s₁ v same (omega arith) (omega arith)))
  ]

  fetch-Extends :
      (stored : RttBuf) (b : LocalBuf) (s : Machine t)
      → IsValid b
      → s.0.local_buf ≡ b
      → Extends b (ring_after (fetch t stored s))
  unfolding fetch Asks
  fetch-Extends stored b s v same =
      let write_pos_of : RttBuf → Run (Machine t) ℕ =
        λ up. read_word_at t (write_pos_field_loc up) in
      let buffer : ℕ → Run (Machine t) RttBuf =
        λ pos. if not (pos == stored.read_pos) then restarted t else pure stored in
      let buffer-Asks : (pos : ℕ) → Asks t Any (buffer pos) = λ pos.
        if-Asks t Any (not (pos == stored.read_pos)) (restarted t) (pure stored) (restarted-Asks t)
          (pure-Asks t Any stored tt) in
      continue-Extends Any b (read_word_at t (read_pos_field_loc stored) s)
        (λ pos. do
          up ← buffer pos
          write_pos ← write_pos_of up
          get_new t (with_write_pos t up write_pos))
        v (rw (sym same) (read_word_at-Asks t _ s))
        (λ pos s₁ _ same₁.
          continue-Extends Any b (buffer pos s₁)
            (λ up. do write_pos ← write_pos_of up; get_new t (with_write_pos t up write_pos)) v
            (rw (sym same₁) (buffer-Asks pos s₁))
            (λ up s₂ _ same₂.
              continue-Extends Any b (write_pos_of up s₂)
                (λ write_pos. get_new t (with_write_pos t up write_pos)) v
                (rw (sym same₂) (read_word_at-Asks t _ s₂))
                (λ write_pos s₃ _ same₃. rw (sym same₃) (get_new-Extends _ s₃ (rw same₃ v)))))

  stored_is : (s : Machine t) → After t Any s.0.local_buf (ok_or RttError.stopped s.0.rtt_up_buf s)
  unfolding Asks
  stored_is s = ok_or-Asks t RttError.stopped s.0.rtt_up_buf s

  -- Whatever the target task answers, and whether it succeeds, fails or panics, a fetch into a ring
  -- with its positions inside its array keeps the bytes that have not been read, in their order, and
  -- puts at most 256 more after them, and the positions stay inside.
  pub get_rtt_data_from_target-Extends :
      (s : Machine t)
      → IsValid s.0.local_buf
      → Extends s.0.local_buf (get_rtt_data_from_target t s).1.0.local_buf
  unfolding get_rtt_data_from_target
  get_rtt_data_from_target-Extends s v = elim (Bool-cases (available_space s.0.local_buf == 0)) [
    | inl e ↦ rw e (Extends-self s.0.local_buf v)
    | inr e ↦ rw e (
        continue-Extends Any s.0.local_buf (ok_or RttError.stopped s.0.rtt_up_buf s) (fetch t) v
          (stored_is s) (λ stored s₁ _ same. fetch-Extends stored s.0.local_buf s₁ v same))
  ]
