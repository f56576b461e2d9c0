-- ===== src/Swd/Transfer/Waveform.antt =====
-- The waveform of a whole transfer, as the target sees it: docs/SWD.md and the ARM Debug Interface
-- specification give the eight command bits, the turnarounds, and the data with its parity.
use mathlib.Core.List.{append-nil, append_assoc}
use airfrog.Prelude.{
  ℕ, zero, suc, ◌+◌, ◌^◌, ◌<◌, ◌≡◌, refl, sym, ap, ◌∙◌, arith, Bool, true, false, List, [], ◌∷◌,
  ◌++◌, map, Option, none, some, if◌then◌else◌, replicate,
}
use airfrog.Bin.Error.{Result, ok, err}
use airfrog.Swd.Error.{SwdError, from_ack}
use airfrog.Swd.Parity.{bits, odd}
use airfrog.Swd.Command.{SwdOp, to_cmd, frame, to_cmd-frame}
use airfrog.Swd.Wire.Hal.{Event, view}
use airfrog.Swd.Wire.Protocol.{
  Protocol, set_swdio_output, set_swdio_low, clock, write_cmd_turnaround, turnaround_to_output,
  write_u32_parity, turnaround_write_u32_parity,
}
use airfrog.Swd.Wire.Read.{read_bit, read_bits, read_ack, after_ack}
use airfrog.Swd.Wire.Driven.{
  Sends, Sent-trans, clock-Sends, clock-level, write_cmd_turnaround-Sends,
  turnaround_to_output-Sends, write_u32_parity-Sends,
}
use airfrog.Swd.Transfer.Retries.{retry_first}
use airfrog.Swd.Transfer.{send_data, send_clocks, finish_write, attempt_write, do_write_op}

module _ (line : List Event → Bool) where
  -- A bit is read on one edge with the line released.
  read_bit-edges :
      (p : Protocol)
      → (view p.trace).driven ≡ false
      → ((view (read_bit line p).1.trace).edges ≡ (view p.trace).edges ++ none ∷ [])
        × ((view (read_bit line p).1.trace).driven ≡ false)
  unfolding read_bit
  read_bit-edges p d = (rw d refl, d)

  read_bits-edges :
      (n ii w : ℕ) (p : Protocol)
      → (view p.trace).driven ≡ false
      → ((view (read_bits line n ii w p).1.trace).edges ≡ (view p.trace).edges ++ replicate n none)
        × ((view (read_bits line n ii w p).1.trace).driven ≡ false)
  unfolding read_bits
  read_bits-edges zero ii w p d = (sym (append-nil _), d)
  read_bits-edges (suc n) ii w p d =
      let (e, d') = read_bit-edges p d in
      let (es, d'') = read_bits-edges n (ii + 1) _ (read_bit line p).1 d' in
      (es ∙ rw e (append_assoc (view p.trace).edges _ _), d'')

  -- An ACK of OK takes three edges and nothing more.
  read_ack-edges :
      (p : Protocol)
      → (view p.trace).driven ≡ false
      → (read_ack line p).0 ≡ ok tt
      → ((view (read_ack line p).1.trace).edges ≡ (view p.trace).edges ++ none ∷ none ∷ none ∷ [])
        × ((view (read_ack line p).1.trace).driven ≡ false)
  unfolding read_ack after_ack
  read_ack-edges p d h =
      let (e, d') = read_bits-edges 3 0 0 p d in
      let said : from_ack (read_bits line 3 0 0 p).0 ≡ ok tt = h in rw said (e, d')

-- Clocks while SWDIO is driven low.
low_clocks :
    (n : ℕ) (p : Protocol)
    → (view p.trace).driven ≡ true
    → (view p.trace).level ≡ false
    → Sends (clock n) p (replicate n (some false)) true
low_clocks n p d l = let (e, d', c) = clock-Sends n p in (rw (d, l) at e, d' ∙ d, c)

final_clocks :
    (single : Bool) (p : Protocol)
    → (view p.trace).driven ≡ true
    → Sends (send_clocks single) p (replicate (if single then 8 else 2) (some false)) true
unfolding send_clocks
final_clocks true p d =
    let low = set_swdio_low p in
    let two = low_clocks 2 low d refl in
    Sent-trans low (clock 2 low) (clock 6 (clock 2 low)) _ (replicate 6 (some false)) true true two
      (low_clocks 6 (clock 2 low) two.1 (clock-level 2 low))
final_clocks false p d = low_clocks 2 (set_swdio_low p) d refl

-- After an OK: a turnaround, the 33 bits of the data, and clocks with the line low.
send_data-Sends :
    (w : ℕ) (single : Bool) (p : Protocol)
    → w < 2 ^ 32
    → (view p.trace).driven ≡ false
    → Sends
        (send_data w single)
        p
        ((none ∷ map some (bits 32 w ++ odd (bits 32 w) ∷ []))
          ++ replicate (if single then 8 else 2) (some false))
        true
unfolding send_data turnaround_write_u32_parity
send_data-Sends w single p h d =
    let p₁ = turnaround_to_output p in
    let p₂ = write_u32_parity w p₁ in
    let first = turnaround_to_output-Sends p d in
    let second = write_u32_parity-Sends w p₁ h first.1 in
    let third = final_clocks single p₂ second.1 in
    Sent-trans p p₂ (send_clocks single p₂) _ _ true true
      (Sent-trans p p₁ p₂ (none ∷ []) _ true true first second) third

-- The levels that a target sees of a write that it acknowledges at the first attempt, one for each
-- rising edge and `none` for a released line: the frame of the operation, one edge of turnaround,
-- three of the ACK, one of turnaround, the 32 bits of the data, lowest first, their parity, and
-- the final edges with the line low, eight for a single operation and two otherwise.
abbrev pub write_waveform : SwdOp → ℕ → Bool → List (Option Bool)
write_waveform op w single =
    map some (frame op)
    ++ none ∷ none ∷ none ∷ none ∷ none ∷ map some (bits 32 w ++ odd (bits 32 w) ∷ [])
    ++ replicate (if single then 8 else 2) (some false)

three_parts :
    (e₀ e₁ e₂ e₃ a b c : List (Option Bool))
    → e₁ ≡ e₀ ++ a
    → e₂ ≡ e₁ ++ b
    → e₃ ≡ e₂ ++ c
    → e₃ ≡ e₀ ++ (a ++ (b ++ c))
three_parts e₀ e₁ e₂ e₃ a b c p q r =
    r ∙ rw (q, p) (append_assoc (e₀ ++ a) b c ∙ append_assoc e₀ a (b ++ c))

-- The waveform with the bits of its command written out.
abbrev with_command : List Bool → ℕ → Bool → List (Option Bool)
with_command l w single =
    (map some l ++ none ∷ [])
    ++ ((none ∷ none ∷ none ∷ [])
        ++ ((none ∷ map some (bits 32 w ++ odd (bits 32 w) ∷ []))
            ++ replicate (if single then 8 else 2) (some false)))

finish_write-ok :
    (w : ℕ) (single : Bool) (x : Result SwdError (Unit {0}) × Protocol)
    → x.0 ≡ ok tt
    → finish_write w single x ≡ (ok tt, send_data w single x.1)
unfolding finish_write
finish_write-ok w single (ok _, p) h = refl
finish_write-ok w single (err e, p) h = cc

-- A write of a 32-bit word that the target acknowledges at once succeeds, whatever the number of
-- retries allowed, and the target sees the waveform of the write and nothing more.
pub do_write_op-waveform :
    (line : List Event → Bool) (wait_retries : ℕ) (op : SwdOp) (w : ℕ) (single : Bool)
    (p : Protocol)
    → w < 2 ^ 32
    → (read_ack line (write_cmd_turnaround (to_cmd op) (set_swdio_output p))).0 ≡ ok tt
    → ((do_write_op line wait_retries op w single p).0 ≡ ok tt)
      × ((view (do_write_op line wait_retries op w single p).1.trace).edges
          ≡ (view p.trace).edges ++ write_waveform op w single)
do_write_op-waveform line wait_retries op w single p h ack =
    let q = set_swdio_output p in
    let p₁ = write_cmd_turnaround (to_cmd op) q in
    let acked = read_ack line p₁ in
    let done : attempt_write line (to_cmd op) w single q ≡ (ok tt, send_data w single acked.1) =
      unfold attempt_write in finish_write-ok w single acked ack in
    let whole : do_write_op line wait_retries op w single p ≡ (ok tt, send_data w single acked.1) =
      unfold do_write_op in
      (retry_first (attempt_write line (to_cmd op) w single) wait_retries 0 q (omega arith) tt
          (rw done refl)
        ∙ done) in
    let first = write_cmd_turnaround-Sends (to_cmd op) q refl in
    let (heard, released) = read_ack-edges line p₁ first.1 ack in
    let last = send_data-Sends w single acked.1 h released in
    let total = three_parts (view p.trace).edges _ _ _ _ _ _ first.0 heard last.0 in
    (
      ap (λ x. x.0) whole,
      ap (λ x. (view x.1.trace).edges) whole
          ∙ total
          ∙ ap (λ l. (view p.trace).edges ++ with_command l w single) (to_cmd-frame op),
    )
