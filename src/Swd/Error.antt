-- ===== src/Swd/Error.antt =====
-- `SwdError` of airfrog-swd/src/lib.rs. The text of `OperationFailed` is left out.
use airfrog.Prelude.{ℕ, ◌≡◌, Bool, true, false, ◌&&◌, not, ◌==◌, if◌then◌else◌, arith}
use airfrog.Bin.Error.{Result, ok, err}

pub data SwdError : Type 0 where
  wait_ack fault_ack : SwdError
  no_ack : ℕ → SwdError
  read_parity dp_error operation_failed not_ready api network timeout unsupported : SwdError

unfoldable pub from_ack : ℕ → Result SwdError (Unit {0})
from_ack ack =
    if ack == 1
    then ok tt
    else if ack == 2
    then err SwdError.wait_ack
    else if ack == 4
    then err SwdError.fault_ack
    else err (SwdError.no_ack ack)

unfoldable pub requires_reset : SwdError → Bool
requires_reset (SwdError.no_ack _) = true
requires_reset SwdError.fault_ack = true
requires_reset SwdError.read_parity = true
requires_reset SwdError.dp_error = true
requires_reset _ = false

unfoldable pub requires_retry : SwdError → Bool
requires_retry SwdError.wait_ack = true
requires_retry _ = false

unfoldable pub requires_other : SwdError → Bool
unfolding requires_reset requires_retry
requires_other e = not (requires_reset e) && not (requires_retry e)

-- An error of an acknowledgement calls for a retry exactly when the target said WAIT, and for a
-- reset otherwise.
from_ack-recovery :
    (ack : ℕ) (e : SwdError)
    → from_ack ack ≡ err e
    → (requires_retry e ≡ (ack == 2))
      × (requires_reset e ≡ not (ack == 2))
      × (requires_other e ≡ false)
unfolding from_ack requires_retry requires_reset requires_other
from_ack-recovery ack e h = ground arith
