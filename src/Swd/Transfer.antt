-- ===== src/Swd/Transfer.antt =====
-- The single transfers of `SwdInterface` in airfrog-swd/src/interface.rs: `do_write_op`,
-- `do_read_op` and `do_write_target_sel`, with their retries after a WAIT. The loop's counter runs
-- from 0 to `wait_retries`, so the model recurs on the retries that are left.
pub mod Retries
pub mod Waveform
use airfrog.Prelude.{ℕ, zero, suc, ◌-◌, Bool, true, false, List, if◌then◌else◌}
use airfrog.Bin.Error.{Result, ok, err}
use airfrog.Swd.Error.{SwdError}
use airfrog.Swd.Command.{SwdOp, to_cmd}
use airfrog.Swd.Wire.Hal.{Event}
use airfrog.Swd.Wire.Protocol.{
  Protocol, Step, ◌>>◌, set_swdio_output, set_swdio_low, clock, write_cmd_turnaround,
  write_cmd_5_undriven, write_u32_parity, turnaround_write_u32_parity,
}
use airfrog.Swd.Wire.Read.{read_u32_parity_turnaround, read_ack}

abbrev pub post_single_operation_cycles : ℕ
post_single_operation_cycles = 8

-- `TargetSelRegister::ADDRESS`
abbrev pub target_sel_address : ℕ
target_sel_address = 0x0c

-- The ACK of a target that asks for the transfer to be tried again.
abbrev pub is_wait {ℓ} : {A : Type ℓ} → Result SwdError A → Bool
is_wait (err SwdError.wait_ack) = true
is_wait _ = false

-- What follows an OK in `do_write_op`.
unfoldable pub send_clocks : Bool → Step
send_clocks single = do
  set_swdio_low
  clock 2
  if single then clock (post_single_operation_cycles - 2) else (λ p. p)

unfoldable pub send_data : ℕ → Bool → Step
send_data word single = do turnaround_write_u32_parity word; send_clocks single

unfoldable pub finish_write :
    ℕ → Bool → Result SwdError (Unit {0}) × Protocol → Result SwdError (Unit {0}) × Protocol
finish_write word single (ok _, p) = (ok tt, send_data word single p)
finish_write word single (err e, p) = (err e, p)

-- The final clocks of `do_read_op`, after a good answer only.
unfoldable pub finish_data : Bool → Result SwdError ℕ × Protocol → Result SwdError ℕ × Protocol
finish_data single (ok word, p) =
    (ok word, if single then clock post_single_operation_cycles p else p)
finish_data single (err e, p) = (err e, p)

module _ (line : List Event → Bool) where
  unfoldable pub finish_read :
      Bool → Result SwdError (Unit {0}) × Protocol → Result SwdError ℕ × Protocol
  finish_read single (ok _, p) = finish_data single (read_u32_parity_turnaround line p)
  finish_read single (err e, p) = (err e, p)

  -- One round of the loop in `do_write_op`.
  unfoldable pub attempt_write : ℕ → ℕ → Bool → Protocol → Result SwdError (Unit {0}) × Protocol
  attempt_write cmd word single p =
      finish_write word single (read_ack line (write_cmd_turnaround cmd p))

  -- One round of the loop in `do_read_op`.
  unfoldable pub attempt_read : ℕ → Bool → Protocol → Result SwdError ℕ × Protocol
  attempt_read cmd single p = finish_read single (read_ack line (write_cmd_turnaround cmd p))

-- `loop { match … { Err(WaitAck) => {} , r => break r } attempt += 1; if attempt > wait_retries …`
module _ {A : Type 0} (attempt : Protocol → Result SwdError A × Protocol) where
  unfoldable pub retry : ℕ → Protocol → Result SwdError A × Protocol
  retry zero p = attempt p
  retry (suc left) p =
      let (r, p') = attempt p in let again = retry left p' in if is_wait r then again else (r, p')

module _ (line : List Event → Bool) where
  unfoldable pub do_write_op :
      ℕ → SwdOp → ℕ → Bool → Protocol → Result SwdError (Unit {0}) × Protocol
  do_write_op wait_retries op word single p =
      retry (attempt_write line (to_cmd op) word single) wait_retries (set_swdio_output p)

  unfoldable pub do_read_op : ℕ → SwdOp → Bool → Protocol → Result SwdError ℕ × Protocol
  do_read_op wait_retries op single p =
      retry (attempt_read line (to_cmd op) single) wait_retries (set_swdio_output p)

-- It never fails; the target gives no ACK here.
unfoldable pub do_write_target_sel : ℕ → Step
do_write_target_sel ts = do
  set_swdio_output
  write_cmd_5_undriven (to_cmd (SwdOp.dp_write target_sel_address))
  write_u32_parity ts
  set_swdio_low
  clock 2
