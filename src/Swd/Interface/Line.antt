-- ===== src/Swd/Interface/Line.antt =====
-- `set_swd_speed` and `clock_raw` of airfrog-swd/src/interface.rs.
use airfrog.Prelude.{ℕ}
use airfrog.Swd.Wire.Protocol.{Speed, LineState}
use airfrog.Swd.Interface.State.{Transport, Interface}

module _ (t : Transport) where
  unfoldable pub set_swd_speed : Speed → Interface t.Wire → Interface t.Wire
  set_swd_speed speed s = record s { protocol = t.speed speed s.protocol }

  unfoldable pub swd_speed : Interface t.Wire → Speed
  swd_speed s = t.current_speed s.protocol

  unfoldable pub clock_raw : LineState → LineState → ℕ → Interface t.Wire → Interface t.Wire
  clock_raw level post_level cycles s = record s {
    protocol = t.level post_level (t.clocks cycles (t.level level s.protocol));
  }
