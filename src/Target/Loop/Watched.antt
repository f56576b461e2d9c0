-- ===== src/Target/Loop/Watched.antt =====
-- The firmware task and the target: when `Target` of airfrog/src/target/mod.rs starts it and stops it.
use airfrog.Prelude.{ℕ, Bool, true, false, if_both, ◌⊎◌, inl, inr, Option, some, none, ◌≡◌, refl}
use airfrog.Bin.Error.{Result, ok, err}
use airfrog.Core.Mcu.{Mcu}
use airfrog.Swd.Error.{SwdError}
use airfrog.Swd.Command.{SwdOp}
use airfrog.Swd.Interface.State
use airfrog.Swd.Interface.State.{Transport, Interface, reset_internal_state}
use airfrog.Swd.Interface.Access.{keepalive, read_idcode, idcode_address}
use airfrog.Swd.Interface.Reset.Recalls.{Recalls}
use airfrog.Swd.Interface.Reset.Steady.{IsSteady, Keeps, read_wire-Keeps}
use airfrog.Swd.Debug.Connect.{reset_swd_target}
use airfrog.Swd.Debug.Connected.{Resolved, reset_swd_target-Resolved}
use airfrog.Target.State.{
  FirmwareControl, Target, fw_control, with_swd, is_connected, refreshed, started, after_reset,
  connect, or_stop, do_keepalive, do_refresh,
}
use airfrog.Target.Loop.{tend, reconnect, tend_or_reconnect, on_tick}

-- A target is connected, or the firmware task has been told to stop.
unfoldable pub IsWatched : {W : Type 0} → Target W → Type 0
IsWatched s = (State.is_connected s.swd ≡ true) ⊎ (s.firmware ≡ some FirmwareControl.stop)

-- What `connect` ends in: a known MCU, for which the firmware task is started, or no word to it.
unfoldable pub Announces : {W : Type 0} → Target W → Result SwdError (Unit {0}) × Target W → Type 0
Announces s (ok _, s') =
    (m : Mcu) × (s'.swd.mcu ≡ some m) × (s'.firmware ≡ some (FirmwareControl.start m))
Announces s (err _, s') = s'.firmware ≡ s.firmware

module _ {W : Type 0} where
  checked-IsWatched : (s : Target W) → IsWatched (is_connected s).1
  unfolding is_connected IsWatched
  checked-IsWatched s =
      if_both {A = Bool × Target W} (λ x. IsWatched x.1) (State.is_connected s.swd) _ _ (λ c. inl c)
        (λ _. inr refl)

  is_connected-some :
      (i : Interface W) (idcode : ℕ) → i.idcode ≡ some idcode → State.is_connected i ≡ true
  unfolding State.is_connected
  is_connected-some i idcode h = rw h refl

  idle-IsWatched : (s : Target W) → State.is_connected s.swd ≡ true → IsWatched s
  unfolding IsWatched
  idle-IsWatched s h = inl h

  stopped-IsWatched : (s : Target W) → IsWatched (fw_control FirmwareControl.stop s)
  unfolding IsWatched
  stopped-IsWatched s = inr refl

  is_connected-same :
      (i i' : Interface W)
      → i.idcode ≡ i'.idcode
      → State.is_connected i' ≡ true
      → State.is_connected i ≡ true
  unfolding State.is_connected
  is_connected-same i i' e h = rw e h

module _ (t : Transport) where
  abbrev nothing_recalled : Recalls t
  nothing_recalled = record {
    Gave = λ v w. Unit {0};
    Acked = λ w. Unit {0};
    gives = λ n v b w h. tt;
    acks = λ n v b w h both. tt;
    gave_write = λ v n word op b w h. tt;
    gave_read = λ v n op b w h. tt;
    gave_pause = λ v us w h. tt;
    acked_write = λ n word op b w h. tt;
    acked_read = λ n op b w h. tt;
    acked_pause = λ us w h. tt;
  }

  or_stop-IsWatched :
      (s : Target t.Wire) (x : Result SwdError (Unit {0}) × Interface t.Wire)
      → Resolved t nothing_recalled x
      → IsWatched (or_stop t s x)
  unfolding IsWatched
  or_stop-IsWatched s (ok _, i) (inl ((idcode, h, _), _, _, _)) = inl (is_connected-some i idcode h)
  or_stop-IsWatched s (ok _, i) (inr ((idcode, h, _), _, _, _)) = inl (is_connected-some i idcode h)
  or_stop-IsWatched s (err e, i) h = inr refl

  -- The IDCODE stays.
  abbrev same_idcode : (v : Option ℕ) → IsSteady t (λ i. i.idcode ≡ v)
  same_idcode v = record {
    on_write = λ s op w b h. h;
    on_read = λ s op b h. h;
    on_pause = λ s h. h;
    on_select = λ s u h. h;
    on_addr_inc = λ s b h. h;
    on_idr = λ s u h. h;
    on_power = λ s h. h;
  }

  read_idcode-idcode : (i : Interface t.Wire) → (read_idcode t i).1.idcode ≡ i.idcode
  unfolding read_idcode Keeps
  read_idcode-idcode i =
      read_wire-Keeps t (λ i'. i'.idcode ≡ i.idcode) (same_idcode i.idcode)
        (SwdOp.dp_read idcode_address) true i refl

  kept_alive :
      (s : Target t.Wire) (r : Result SwdError ℕ) (i : Interface t.Wire)
      → State.is_connected i ≡ true
      → IsWatched
          (or_stop t s (elim r [ ok _ ↦ (ok tt, i) | err e ↦ (err e, reset_internal_state i) ]))
  unfolding IsWatched
  kept_alive s (ok _) i h = inl h
  kept_alive s (err e) i h = inr refl

  do_keepalive-IsWatched :
      (s : Target t.Wire) → State.is_connected s.swd ≡ true → IsWatched (do_keepalive t s)
  unfolding do_keepalive keepalive
  do_keepalive-IsWatched s h =
      let still = is_connected-same (read_idcode t s.swd).1 s.swd (read_idcode-idcode s.swd) h in
      kept_alive s (read_idcode t s.swd).0 (read_idcode t s.swd).1 still

  do_refresh-IsWatched : (s : Target t.Wire) → IsWatched (do_refresh t s)
  unfolding do_refresh
  do_refresh-IsWatched s =
      or_stop-IsWatched s _ (reset_swd_target-Resolved t nothing_recalled s.swd)

  tend-IsWatched : (s : Target t.Wire) → State.is_connected s.swd ≡ true → IsWatched (tend t s)
  tend-IsWatched s h =
      if_both IsWatched s.settings.refresh _ _ (λ _. do_refresh-IsWatched s)
        (λ _.
          if_both IsWatched s.settings.keepalive _ _ (λ _. do_keepalive-IsWatched s h)
            (λ _. idle-IsWatched s h))

  reconnect-IsWatched :
      (connected : Bool) (s : Target t.Wire) → IsWatched s → IsWatched (reconnect t (connected, s))
  reconnect-IsWatched true s h = h
  reconnect-IsWatched false s h =
      if_both IsWatched s.settings.auto_connect _ _ (λ _. checked-IsWatched (connect t s).1)
        (λ _. h)

  -- Whatever the target answers, after the timer has been handled a target is connected or the
  -- firmware task has been told to stop.
  pub on_tick-IsWatched : (s : Target t.Wire) → IsWatched (on_tick t s)
  unfolding on_tick is_connected
  on_tick-IsWatched s =
      if_both {A = Bool × Target t.Wire} (λ x. IsWatched (tend_or_reconnect t x))
        (State.is_connected s.swd) _ _ (λ c. tend-IsWatched s c)
        (λ _.
          let again = is_connected (fw_control FirmwareControl.stop s) in
          reconnect-IsWatched again.0 again.1
            (checked-IsWatched (fw_control FirmwareControl.stop s)))

  started-Announces :
      (s₀ s : Target t.Wire) (m : Option Mcu)
      → s.swd.mcu ≡ m
      → s.firmware ≡ s₀.firmware
      → Announces s₀ (started t m s)
  unfolding Announces
  started-Announces s₀ s none h k = k
  started-Announces s₀ s (some m) h k = (m, h, refl)

  after_reset-Announces :
      (s : Target t.Wire) (x : Result SwdError (Unit {0}) × Interface t.Wire)
      → Announces s (after_reset t s x)
  unfolding Announces
  after_reset-Announces s (ok _, i) =
      started-Announces s (with_swd (refreshed t i) s) (refreshed t i).mcu refl refl
  after_reset-Announces s (err e, i) = refl

  -- A connection that succeeds starts the firmware task for the MCU that is now known; one that fails
  -- tells the task nothing.
  pub connect-Announces : (s : Target t.Wire) → Announces s (connect t s)
  unfolding connect
  connect-Announces s = after_reset-Announces s (reset_swd_target t s.swd)
