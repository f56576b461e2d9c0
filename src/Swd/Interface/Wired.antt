-- ===== src/Swd/Interface/Wired.antt =====
-- The transfers of Swd/Transfer and the line operations of Swd/Wire as the transport of the
-- interface, over a target that drives `line`.
use airfrog.Prelude.{Bool, List}
use airfrog.Swd.Wire.Hal.{Event}
use airfrog.Swd.Wire.Protocol.{Protocol, Step, emit, set_speed, set_swdio_state, clock}
use airfrog.Swd.Wire.Reset.{line_reset_after}
use airfrog.Swd.Wire.Entry.{enter_v1, enter_v2}
use airfrog.Swd.Transfer.{do_write_op, do_read_op, do_write_target_sel}
use airfrog.Swd.Interface.State.{Transport, Version}

abbrev pub enter_version : Version → Step
enter_version Version.v1 = enter_v1
enter_version Version.v2 = enter_v2

abbrev pub wire_transport : (List Event → Bool) → Transport
wire_transport line = record {
  Wire = Protocol;
  write_op = do_write_op line;
  read_op = do_read_op line;
  pause = λ us. emit (Event.after_micros us);
  enter = enter_version;
  line_reset = line_reset_after;
  target_sel = do_write_target_sel;
  current_speed = λ p. p.speed;
  speed = set_speed;
  level = set_swdio_state;
  clocks = clock;
}
