-- ===== src/Swd/Interface/Reset/Examples.antt =====
-- The theorems on the resets at concrete inputs, over the target of Swd/Interface/Target with its answers kept.
use airfrog.Swd.Interface.State.{Version}
use airfrog.Swd.Interface.Target.{target_transport, ready}
use airfrog.Swd.Interface.Logged.{logged, logged_recalls, logging}
use airfrog.Swd.Interface.Reset.{reset_target}
use airfrog.Swd.Interface.Reset.Connected.{Settled, reset_target-Settled}

reset_target-Settled_example :
    Settled
      (logged target_transport)
      (logged_recalls target_transport)
      Version.v2
      (reset_target (logged target_transport) Version.v2 (logging target_transport ready))
reset_target-Settled_example =
    reset_target-Settled (logged target_transport) (logged_recalls target_transport) Version.v2
      (logging target_transport ready)
