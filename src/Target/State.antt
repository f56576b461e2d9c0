-- ===== src/Target/State.antt =====
-- `Target` of airfrog/src/target/mod.rs: its state, the connection to a target, and what it tells the
-- firmware task.
use airfrog.Prelude.{Bool, true, false, Option, some, none, if◌then◌else◌}
use airfrog.Bin.Error.{Result, ok, err}
use airfrog.Core.Mcu.{Mcu}
use airfrog.Swd.Error.{SwdError}
use airfrog.Swd.Wire.Protocol.{Speed}
use airfrog.Swd.Interface.State
use airfrog.Swd.Interface.State.{Transport, Interface}
use airfrog.Swd.Interface.Access.{keepalive}
use airfrog.Swd.Interface.Line.{set_swd_speed}
use airfrog.Swd.Interface.Reset.{refresh_mcu}
use airfrog.Swd.Debug.Connect.{reset_swd_target}
use airfrog.Config.Partition.{Swd}
use airfrog.Config.Wifi.{Settings}

-- `Control` of airfrog/src/firmware/mod.rs.
pub data FirmwareControl : Type 0 where
  start : Mcu → FirmwareControl
  stop : FirmwareControl

-- The signal to the firmware task holds the last control that was sent; `config_swd` is the part of
-- the configuration that the task may change, and `store` the signal to store it.
pub record Target (W : Type 0) : Type 0 where
  pub swd : Interface W
  pub settings : Settings
  pub firmware : Option FirmwareControl
  pub config_swd : Swd
  pub store : Bool

abbrev pub default_settings : Settings
default_settings = record {
  speed = Speed.turbo;
  auto_connect = true;
  keepalive = true;
  refresh = true;
}

abbrev pub fw_control : {W : Type 0} → FirmwareControl → Target W → Target W
fw_control control s = record s { firmware = some control }

abbrev pub with_swd : {W : Type 0} → Interface W → Target W → Target W
with_swd i s = record s { swd = i }

abbrev pub is_unknown : Option Mcu → Bool
is_unknown (some (Mcu.unknown _)) = true
is_unknown _ = false

abbrev pub set_auto_connect : {W : Type 0} → Bool → Target W → Target W
set_auto_connect b s = record s { settings = record (s.settings) { auto_connect = b } }

abbrev pub set_keepalive : {W : Type 0} → Bool → Target W → Target W
set_keepalive b s = record s { settings = record (s.settings) { keepalive = b } }

abbrev pub set_refresh : {W : Type 0} → Bool → Target W → Target W
set_refresh b s = record s { settings = record (s.settings) { refresh = b } }

-- Whether the target is connected; if it is not, the firmware task is stopped.
unfoldable pub is_connected : {W : Type 0} → Target W → Bool × Target W
is_connected s =
    if State.is_connected s.swd then (true, s) else (false, fw_control FirmwareControl.stop s)

module _ (t : Transport) where
  unfoldable pub set_speed : Speed → Target t.Wire → Target t.Wire
  set_speed speed s = record s {
    swd = set_swd_speed t speed s.swd;
    settings = record (s.settings) { speed = speed };
  }

  -- `if matches!(self.swd.mcu(), Some(Mcu::Unknown(_))) { let _ = … }`
  unfoldable pub refreshed : Interface t.Wire → Interface t.Wire
  refreshed i = if is_unknown i.mcu then (refresh_mcu t i).1 else i

  -- With the MCU, the firmware task is started.
  abbrev pub started : Option Mcu → Target t.Wire → Result SwdError (Unit {0}) × Target t.Wire
  started none s = (err SwdError.not_ready, s)
  started (some m) s = (ok tt, fw_control (FirmwareControl.start m) s)

  abbrev pub after_reset :
      Target t.Wire
      → Result SwdError (Unit {0}) × Interface t.Wire
      → Result SwdError (Unit {0}) × Target t.Wire
  after_reset s (ok _, i) = started (refreshed i).mcu (with_swd (refreshed i) s)
  after_reset s (err e, i) = (err e, with_swd i s)

  unfoldable pub connect : Target t.Wire → Result SwdError (Unit {0}) × Target t.Wire
  connect s = after_reset s (reset_swd_target t s.swd)

  -- The firmware task is stopped if the call has failed.
  abbrev pub or_stop : Target t.Wire → Result SwdError (Unit {0}) × Interface t.Wire → Target t.Wire
  or_stop s (ok _, i) = with_swd i s
  or_stop s (err e, i) = fw_control FirmwareControl.stop (with_swd i s)

  unfoldable pub do_keepalive : Target t.Wire → Target t.Wire
  do_keepalive s = or_stop s (keepalive t s.swd)

  unfoldable pub do_refresh : Target t.Wire → Target t.Wire
  do_refresh s = or_stop s (reset_swd_target t s.swd)
