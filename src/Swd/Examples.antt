-- ===== src/Swd/Examples.antt =====
-- Tests of the SWD modules, and their theorems at concrete inputs.
use airfrog.Prelude.{
  ◌≡◌, refl, arith, Bool, true, false, List, [], ◌∷◌, ◌++◌, length, get_or, take, map, replicate,
  some, if◌then◌else◌,
}
use airfrog.Bin.Error.{ok, err}
use airfrog.Swd.Error.{SwdError, from_ack}
use airfrog.Swd.Parity.{bits, from_bits, odd, flip}
use airfrog.Swd.Command.{SwdOp, to_cmd, frame, to_cmd-frame}
use airfrog.Swd.Wire.Hal.{Event, view}
use airfrog.Swd.Wire.Protocol.{
  new, set_swdio_output, write_bits, write_bits_loop, write_bit, clock, clock_loop,
  write_cmd_turnaround,
}
use airfrog.Swd.Wire.Read.{read_u32_parity_turnaround, read_bit, read_bits, read_ack}
use airfrog.Swd.Wire.Entry.{enter_v1, enter_v2, alert_bits, enter_v1-Sends, enter_v2-Sends}
use airfrog.Swd.Wire.Driven.{Sends}
use airfrog.Swd.Wire.Sampled.{samples, read_u32_parity_turnaround-samples, read_word_flipped}
use airfrog.Swd.Transfer.{do_write_op}
use airfrog.Swd.Transfer.Waveform.{write_waveform, do_write_op-waveform}

-- A target that drives a level for each clock edge that it has seen.
answering : List Bool → List Event → Bool
answering levels t = get_or levels (length (view t).edges) false

abbrev answer : List Bool
answer = bits 32 0xdeadbeef ++ odd (bits 32 0xdeadbeef) ∷ []

flipped_sampled : samples (answering (flip 7 answer)) 33 new ≡ flip 7 answer
unfolding samples read_bit answering new
flipped_sampled = refl

read_word_flipped_example :
    (read_u32_parity_turnaround (answering (flip 7 answer)) new).0 ≡ err SwdError.read_parity
read_word_flipped_example =
    read_word_flipped (answering (flip 7 answer)) 0xdeadbeef 7 new (omega arith) (omega arith)
      flipped_sampled

to_cmd-frame_example : bits 8 (to_cmd (SwdOp.ap_write 0x0c)) ≡ frame (SwdOp.ap_write 0x0c)
to_cmd-frame_example = to_cmd-frame (SwdOp.ap_write 0x0c)

read_u32_parity_turnaround-samples_example :
    (read_u32_parity_turnaround (answering answer) new).0 ≡ (
      if odd (samples (answering answer) 33 new)
      then err SwdError.read_parity
      else ok (from_bits (take 32 (samples (answering answer) 33 new))))
read_u32_parity_turnaround-samples_example =
    read_u32_parity_turnaround-samples (answering answer) new

-- A target that acknowledges a first command.
abbrev acknowledging : List Event → Bool
acknowledging = answering (replicate 9 false ++ true ∷ false ∷ false ∷ [])

acknowledged :
    (read_ack acknowledging
      (write_cmd_turnaround (to_cmd (SwdOp.dp_write 8)) (set_swdio_output new))).0
    ≡ ok tt
unfolding read_ack write_cmd_turnaround to_cmd answering new read_bit from_ack read_bits clock
    clock_loop write_bits write_bits_loop write_bit
acknowledged = refl

do_write_op-waveform_example :
    ((do_write_op acknowledging 5 (SwdOp.dp_write 8) 0xf0 true new).0 ≡ ok tt)
    × ((view (do_write_op acknowledging 5 (SwdOp.dp_write 8) 0xf0 true new).1.trace).edges
        ≡ (view new.trace).edges ++ write_waveform (SwdOp.dp_write 8) 0xf0 true)
do_write_op-waveform_example =
    do_write_op-waveform acknowledging 5 (SwdOp.dp_write 8) 0xf0 true new (omega arith) acknowledged

-- A target that asks for one retry of a read, and then answers it.
abbrev waiting_once : List Event → Bool
waiting_once = answering (
    replicate 9 false ++ false ∷ true ∷ false ∷ replicate 10 false ++ true ∷ false ∷ false ∷ answer)

enter_v1-Sends_example :
    Sends enter_v1 new
      (map some (
        replicate 51 true
        ++ bits 16 0xe3bc
        ++ replicate 51 true
        ++ bits 16 0xe79e
        ++ replicate 51 true
        ++ replicate 3 false))
      true
enter_v1-Sends_example = enter_v1-Sends new

enter_v2-Sends_example :
    Sends enter_v2 new
      (map some (
        replicate 51 true
        ++ bits 16 0xe3bc
        ++ replicate 51 true
        ++ replicate 8 true
        ++ alert_bits
        ++ replicate 4 false
        ++ bits 8 0x1a
        ++ replicate 51 true
        ++ replicate 3 false))
      true
enter_v2-Sends_example = enter_v2-Sends new
