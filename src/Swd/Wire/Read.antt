-- ===== src/Swd/Wire/Read.antt =====
-- The reading half of `SwdProtocol` in airfrog-swd/src/protocol.rs. What the target drives is a
-- parameter: `line` gives the level of SWDIO after the trace so far, for `swdio.is_high()`.
use airfrog.Prelude.{ℕ, zero, suc, ◌+◌, ◌^◌, Bool, not, List, if◌then◌else◌, bit_or, ◌*◌}
use airfrog.Bin.Error.{Result, ok, err}
use airfrog.Swd.Error.{SwdError, from_ack}
use airfrog.Swd.Parity.{calculate_parity}
use airfrog.Swd.Wire.Hal.{Event}
use airfrog.Swd.Wire.Protocol.{
  Protocol, Step, ◌>>◌, set_swclk_low, set_swclk_high, set_swdio_low, delay_low, delay_high,
  turnaround_to_output,
}

-- `a != b` on `bool`.
abbrev pub differ : Bool → Bool → Bool
differ a b = if a then not b else b

-- What `read_ack` does to the lines after each result.
unfoldable pub after_ack : Result SwdError (Unit {0}) → Step
after_ack (ok _) p = p
after_ack (err SwdError.wait_ack) p = turnaround_to_output p
after_ack (err SwdError.fault_ack) p = turnaround_to_output p
after_ack (err _) p = (do set_swdio_low; set_swclk_low) p

module _ (line : List Event → Bool) where
  unfoldable pub read_bit : Protocol → Bool × Protocol
  read_bit p =
      let sampled = (do set_swclk_low; delay_low) p in
      (line sampled.trace, (do set_swclk_high; delay_high) sampled)

  -- `for ii in from..from + n { if self.read_bit() { data |= 1 << ii; } }`
  unfoldable pub read_bits : ℕ → ℕ → ℕ → Protocol → ℕ × Protocol
  read_bits zero ii word p = (word, p)
  read_bits (suc n) ii word p =
      let (b, p') = read_bit p in
      read_bits n (ii + 1) (if b then bit_or word (1 * 2 ^ ii) else word) p'

  unfoldable pub read_u32_parity_turnaround : Protocol → Result SwdError ℕ × Protocol
  read_u32_parity_turnaround p =
      let (word, p') = read_bits 32 0 0 p in
      let (parity, p'') = read_bit p' in
      (
        if differ (calculate_parity word) parity then err SwdError.read_parity else ok word,
        turnaround_to_output p'',
      )

  unfoldable pub read_ack : Protocol → Result SwdError (Unit {0}) × Protocol
  read_ack p =
      let (ack, p') = read_bits 3 0 0 p in
      let result = from_ack ack in (result, after_ack result p')
