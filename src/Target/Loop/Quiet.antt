-- ===== src/Target/Loop/Quiet.antt =====
-- The settings under which the task of airfrog/src/target/mod.rs leaves a target alone, and the
-- events that keep them.
use airfrog.Prelude.{ℕ, Bool, true, false, List, [], ◌∷◌, ◌≡◌, refl, ◌∙◌, if_both}
use airfrog.Bin.Error.{Result, ok, err}
use airfrog.Swd.Error.{SwdError}
use airfrog.Swd.Interface.State
use airfrog.Swd.Interface.State.{Transport, Interface, Version}
use airfrog.Swd.Interface.Reset.{reset_target}
use airfrog.Target.State.{Target, is_connected}
use airfrog.Target.Rest.{from_interface, no_data}
use airfrog.Target.Requests.{rest_raw_reset, or_v2}
use airfrog.Target.Loop.{tend, reconnect, tend_or_reconnect, on_tick, rearm}

-- No connection, no keepalive and no refresh by itself.
abbrev pub IsQuiet : {W : Type 0} → Target W → Type 0
IsQuiet s =
    (s.settings.auto_connect ≡ false)
    × (s.settings.keepalive ≡ false)
    × (s.settings.refresh ≡ false)

-- The state is left quiet, with the interface as it is.
abbrev pub Idles : {W : Type 0} → Target W → Target W → Type 0
Idles s s' = IsQuiet s' × (s'.swd ≡ s.swd)

module _ {W : Type 0} where
  is_connected-Idles : (s : Target W) → IsQuiet s → Idles s (is_connected s).1
  unfolding is_connected
  is_connected-Idles s h =
      if_both {A = Bool × Target W} (λ x. Idles s x.1) (State.is_connected s.swd) _ _
        (λ _. (h, refl)) (λ _. (h, refl))

module _ (t : Transport) where
  -- Rounds of the loop that only the timer ends; each may find the time passed.
  unfoldable pub ticks : List Bool → Target t.Wire → Target t.Wire
  ticks [] s = s
  ticks (passed ∷ more) s = ticks more (on_tick t (rearm t passed s))

  tend-Idles : (s : Target t.Wire) → IsQuiet s → Idles s (tend t s)
  tend-Idles s (a, k, r) =
      if_both (Idles s) s.settings.refresh _ _ (λ e. absurd cc)
        (λ _. if_both (Idles s) s.settings.keepalive _ _ (λ e. absurd cc) (λ _. ((a, k, r), refl)))

  reconnect-Idles :
      (connected : Bool) (s : Target t.Wire) → IsQuiet s → Idles s (reconnect t (connected, s))
  reconnect-Idles true s h = (h, refl)
  reconnect-Idles false s (a, k, r) =
      if_both (Idles s) s.settings.auto_connect _ _ (λ e. absurd cc) (λ _. ((a, k, r), refl))

  Idles-trans : (s s₁ s₂ : Target t.Wire) → Idles s s₁ → Idles s₁ s₂ → Idles s s₂
  Idles-trans s s₁ s₂ (h, e) (h₁, e₁) = (h₁, e₁ ∙ e)

  tend_or_reconnect-Idles :
      (connected : Bool) (s₁ : Target t.Wire)
      → IsQuiet s₁
      → Idles s₁ (tend_or_reconnect t (connected, s₁))
  tend_or_reconnect-Idles true s₁ h₁ = tend-Idles s₁ h₁
  tend_or_reconnect-Idles false s₁ h₁ =
      let (quiet, same) = is_connected-Idles s₁ h₁ in
      let again = is_connected s₁ in
      Idles-trans s₁ again.1 (reconnect t again) (quiet, same)
        (reconnect-Idles again.0 again.1 quiet)

  on_tick-Idles : (s : Target t.Wire) → IsQuiet s → Idles s (on_tick t s)
  unfolding on_tick
  on_tick-Idles s h =
      let (quiet, same) = is_connected-Idles s h in
      Idles-trans s (is_connected s).1 (on_tick t s) (quiet, same)
        (tend_or_reconnect-Idles (is_connected s).0 (is_connected s).1 quiet)

  rearm-Idles : (passed : Bool) (s : Target t.Wire) → IsQuiet s → Idles s (rearm t passed s)
  unfolding rearm
  rearm-Idles true s h = is_connected-Idles s h
  rearm-Idles false s h = (h, refl)

  -- However often the timer fires on a quiet state, it stays quiet and nothing is done on the
  -- interface.
  pub ticks-Idles : (passed : List Bool) (s : Target t.Wire) → IsQuiet s → Idles s (ticks passed s)
  unfolding ticks
  ticks-Idles [] s h = (h, refl)
  ticks-Idles (p ∷ ps) s h =
      let s₁ = rearm t p s in
      let s₂ = on_tick t s₁ in
      let first = rearm-Idles p s h in
      let second = on_tick-Idles s₁ first.0 in
      Idles-trans s s₁ (ticks ps s₂) first
        (Idles-trans s₁ s₂ (ticks ps s₂) second (ticks-Idles ps s₂ second.0))

  module _ (n : ℕ) where
    from_interface-IsQuiet :
        (x : Result SwdError (Unit {0}) × Interface t.Wire) (s : Target t.Wire)
        → IsQuiet s
        → IsQuiet (from_interface t n (no_data t n) x s).1
    from_interface-IsQuiet (ok _, i) s h = h
    from_interface-IsQuiet (err e, i) s h = h

    or_v2-IsQuiet :
        (x : Result SwdError (Unit {0}) × Interface t.Wire) (s : Target t.Wire)
        → IsQuiet s
        → IsQuiet (or_v2 t n x s).1
    or_v2-IsQuiet (ok _, i) s h = h
    or_v2-IsQuiet (err e, i) s h = from_interface-IsQuiet (reset_target t Version.v2 i) s h

    pub rest_raw_reset-IsQuiet : (s : Target t.Wire) → IsQuiet (rest_raw_reset t n s).1
    unfolding rest_raw_reset
    rest_raw_reset-IsQuiet s = or_v2-IsQuiet _ _ (refl, refl, refl)

    -- After a raw reset, whether it has succeeded or not, the task makes no access to the target of its
    -- own, however often its timer fires.
    pub ticks-rest_raw_reset :
        (passed : List Bool) (s : Target t.Wire)
        → (ticks passed (rest_raw_reset t n s).1).swd ≡ (rest_raw_reset t n s).1.swd
    ticks-rest_raw_reset passed s =
        (ticks-Idles passed (rest_raw_reset t n s).1 (rest_raw_reset-IsQuiet s)).1
