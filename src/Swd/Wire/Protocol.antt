-- ===== src/Swd/Wire/Protocol.antt =====
-- The writing half of `SwdProtocol` in airfrog-swd/src/protocol.rs: the state, the pins, and the
-- clocking out of bits.
use airfrog.Prelude.{
  ℕ, zero, suc, ◌*◌, ◌/◌, ◌^◌, Bool, true, false, List, [], ◌∷◌, ◌==◌, if◌then◌else◌, bit_and,
  bit_or,
}
use airfrog.Bin.Speed.{Speed as BinSpeed}
use airfrog.Swd.Parity.{calculate_parity}
use airfrog.Swd.Wire.Hal.{Event}

pub data Speed : Type 0 where
  slow medium fast turbo : Speed

-- `impl From<BinSpeed> for Speed`
unfoldable pub from_bin : BinSpeed → Speed
from_bin BinSpeed.slow = Speed.slow
from_bin BinSpeed.medium = Speed.medium
from_bin BinSpeed.fast = Speed.fast
from_bin BinSpeed.turbo = Speed.turbo

unfoldable pub speed_khz : Speed → ℕ
speed_khz Speed.slow = 500
speed_khz Speed.medium = 1000
speed_khz Speed.fast = 2000
speed_khz Speed.turbo = 4000

unfoldable pub clock_high_cycles : Speed → ℕ
clock_high_cycles Speed.slow = 75
clock_high_cycles Speed.medium = 33
clock_high_cycles Speed.fast = 10
clock_high_cycles Speed.turbo = 0

unfoldable pub clock_low_cycles : Speed → ℕ
clock_low_cycles Speed.slow = 75
clock_low_cycles Speed.medium = 33
clock_low_cycles Speed.fast = 10
clock_low_cycles Speed.turbo = 0

pub data LineState : Type 0 where
  low high input : LineState

-- `SwdProtocol`, with the trace of what was done to the pins, the latest event first.
pub record Protocol : Type 0 where
  pub trace : List Event
  pub speed : Speed
  pub clock_high_cycles : ℕ
  pub clock_low_cycles : ℕ

-- A step returns the new state; `>>` is the sequence of statements.
abbrev pub Step : Type 0
Step = Protocol → Protocol

infixl 5 ◌>>◌
abbrev pub ◌>>◌ : Step → Step → Step
◌>>◌ m k p = k (m p)

abbrev pub emit : Event → Step
emit e p = record p { trace = e ∷ p.trace }

-- `riscv::asm::delay(self.clock_low_cycles)`, and for the high half.
abbrev pub delay_low : Step
delay_low p = emit (Event.delay p.clock_low_cycles) p

abbrev pub delay_high : Step
delay_high p = emit (Event.delay p.clock_high_cycles) p

-- The configuration of the two pins, SWDIO first.
unfoldable pub new : Protocol
unfolding clock_high_cycles clock_low_cycles
new = record {
  trace = Event.swclk false ∷ Event.input_enable true ∷ [];
  speed = Speed.turbo;
  clock_high_cycles = clock_high_cycles Speed.turbo;
  clock_low_cycles = clock_low_cycles Speed.turbo;
}

unfoldable pub set_speed : Speed → Step
unfolding clock_high_cycles clock_low_cycles
set_speed speed p = record {
  trace = p.trace;
  speed = speed;
  clock_high_cycles = clock_high_cycles speed;
  clock_low_cycles = clock_low_cycles speed;
}

abbrev pub set_swdio_output : Step
set_swdio_output = do emit (Event.input_enable false); emit (Event.output_enable true)

abbrev pub set_swdio_input : Step
set_swdio_input = do emit (Event.output_enable false); emit (Event.input_enable true)

abbrev pub set_swdio_high : Step
set_swdio_high = emit (Event.swdio true)

abbrev pub set_swdio_low : Step
set_swdio_low = emit (Event.swdio false)

abbrev pub set_swclk_high : Step
set_swclk_high = emit (Event.swclk true)

abbrev pub set_swclk_low : Step
set_swclk_low = emit (Event.swclk false)

-- `LineState::set_swdio_state`
unfoldable pub set_swdio_state : LineState → Step
set_swdio_state LineState.input = set_swdio_input
set_swdio_state LineState.low = set_swdio_low
set_swdio_state LineState.high = set_swdio_high

unfoldable pub write_bit : Bool → Step
write_bit b = do
  if b then set_swdio_high else set_swdio_low
  set_swclk_low
  delay_low
  set_swclk_high
  delay_high

-- The loop of `clock`, which ends with SWCLK low.
unfoldable pub clock_loop : ℕ → Step
clock_loop zero p = p
clock_loop (suc cycles) p =
    clock_loop cycles ((do set_swclk_low; delay_low; set_swclk_high; delay_high) p)

unfoldable pub clock : ℕ → Step
clock cycles = do clock_loop cycles; set_swclk_low

-- The loop of `write_bits`: the lowest bit, then `data >>= 1`.
unfoldable pub write_bits_loop : ℕ → ℕ → Step
write_bits_loop zero word p = p
write_bits_loop (suc count) word p =
    write_bits_loop count (word / 2 ^ 1) (write_bit (bit_and word 1 == 1) p)

unfoldable pub write_bits : ℕ → ℕ → Step
write_bits count word = do write_bits_loop count word; set_swclk_low

unfoldable pub write_cmd_turnaround : ℕ → Step
write_cmd_turnaround cmd = do write_bits 8 cmd; set_swdio_input; clock 1

unfoldable pub write_cmd_5_undriven : ℕ → Step
write_cmd_5_undriven cmd = do write_bits 8 cmd; set_swdio_input; clock 5; set_swdio_output

unfoldable pub turnaround_to_output : Step
turnaround_to_output = do clock 1; set_swdio_output; set_swdio_low; set_swclk_low

unfoldable pub write_u32_parity : ℕ → Step
write_u32_parity word =
    write_bits 33 (if calculate_parity word then bit_or word (1 * 2 ^ 32) else word)

unfoldable pub turnaround_write_u32_parity : ℕ → Step
turnaround_write_u32_parity word = do turnaround_to_output; write_u32_parity word
