-- ===== src/Swd/Debug/Connected.antt =====
-- What `reset_swd_target` of airfrog-swd/src/debug.rs leaves behind.
use airfrog.Prelude.{ℕ, ◌==◌, ◌≡◌, refl, Bool-cases, ◌⊎◌, inl, inr, none, List, [], ◌∷◌}
use airfrog.Bin.Error.{Result, ok, err}
use airfrog.Swd.Error.{SwdError}
use airfrog.Swd.Interface.State.{Transport, Interface, Version, reset_internal_state}
use airfrog.Swd.Interface.Reset.{
  MultiDropTarget, start, found, detect, some_found, reset_target, reset_sequence_v2,
  reset_detect_multidrop,
}
use airfrog.Swd.Interface.Reset.Recalls.{Recalls}
use airfrog.Swd.Interface.Reset.Connected.{
  IsForgotten, IsConnected, Settled, IsCleared, read_idcode-IsCleared, reset_target-Settled,
}
use airfrog.Swd.Interface.Reset.Multidrop.{reset_multidrop_target-Settled}
use airfrog.Swd.Debug.Connect.{
  reset_swd_target, or_multidrop, of_targets, or_version_2, target_sel_rp2040_all,
  target_sel_rp2040_rescue_dp,
}

-- A connection by either version of the protocol, or nothing known of a target.
abbrev pub Resolved :
    (t : Transport) → Recalls t → Result SwdError (Unit {0}) × Interface t.Wire → Type 0
Resolved t d (ok _, s) = IsConnected t d Version.v1 s ⊎ IsConnected t d Version.v2 s
Resolved t d (err _, s) = IsForgotten s × (s.reset_version ≡ none)

module _ (t : Transport) (d : Recalls t) where
  v2-Resolved :
      (x : Result SwdError (Unit {0}) × Interface t.Wire)
      → Settled t d Version.v2 x
      → Resolved t d x
  v2-Resolved (ok _, s) h = inr h
  v2-Resolved (err _, s) h = h

  or_version_2-Resolved :
      (x : Result SwdError (Unit {0}) × Interface t.Wire)
      → Settled t d Version.v2 x
      → Resolved t d (or_version_2 t x)
  or_version_2-Resolved (ok _, s) h = inr h
  or_version_2-Resolved (err _, s) h = v2-Resolved _ (reset_target-Settled t d Version.v2 s)

  found-IsCleared :
      (target : ℕ) (md_targets : List MultiDropTarget) (x : Result SwdError ℕ × Interface t.Wire)
      → IsCleared t d x.1
      → IsCleared t d (found t target md_targets x).1
  found-IsCleared target md_targets (ok idcode, s) h = h
  found-IsCleared target md_targets (err e, s) h = h

  detect-IsCleared :
      (targets : List ℕ) (md_targets : List MultiDropTarget) (s : Interface t.Wire)
      → IsCleared t d s
      → IsCleared t d (detect t targets md_targets s).1
  unfolding detect
  detect-IsCleared [] md_targets s h = h
  detect-IsCleared (target ∷ rest) md_targets s h =
      detect-IsCleared rest _ _
        (found-IsCleared target md_targets _ (read_idcode-IsCleared t d _ h))

  some_found-IsCleared :
      (x : List MultiDropTarget × Interface t.Wire)
      → IsCleared t d x.1
      → IsCleared t d (some_found t x).1
  some_found-IsCleared ([], s) h = h
  some_found-IsCleared (target ∷ rest, s) h = h

  reset_detect_multidrop-IsCleared :
      (targets : List ℕ) (s : Interface t.Wire)
      → IsCleared t d (reset_detect_multidrop t targets s).1
  unfolding reset_detect_multidrop reset_sequence_v2 start reset_internal_state
  reset_detect_multidrop-IsCleared targets s =
      some_found-IsCleared _ (detect-IsCleared targets [] _ ((refl, refl), refl))

  of_targets-Resolved :
      (x : Result SwdError (List MultiDropTarget) × Interface t.Wire)
      → IsCleared t d x.1
      → Resolved t d (of_targets t x)
  of_targets-Resolved (ok (target ∷ rest), s) h =
      elim (Bool-cases (target.target == target_sel_rp2040_rescue_dp)) [
        | inl b ↦ rw b h
        | inr b ↦ rw b (or_version_2-Resolved _ (reset_multidrop_target-Settled t d target s))
      ]
  of_targets-Resolved (ok [], s) h = v2-Resolved _ (reset_target-Settled t d Version.v2 s)
  of_targets-Resolved (err e, s) h = v2-Resolved _ (reset_target-Settled t d Version.v2 s)

  or_multidrop-Resolved :
      (x : Result SwdError (Unit {0}) × Interface t.Wire)
      → Settled t d Version.v1 x
      → Resolved t d (or_multidrop t x)
  or_multidrop-Resolved (ok _, s) h = inl h
  or_multidrop-Resolved (err e, s) h =
      of_targets-Resolved (reset_detect_multidrop t target_sel_rp2040_all s)
        (reset_detect_multidrop-IsCleared target_sel_rp2040_all s)

  -- Whatever state it starts in and whichever of its three resets answers, the reset of a target that
  -- succeeds leaves the IDCODE that the target has given, a type for it, which may be that of an unknown
  -- MCU, the version of the protocol, and the power-up of the debug domain and of the system noted,
  -- which the target has acknowledged in both bits of CTRL/STAT; one that fails leaves no IDCODE, no
  -- type and no version behind.
  pub reset_swd_target-Resolved : (s : Interface t.Wire) → Resolved t d (reset_swd_target t s)
  unfolding reset_swd_target
  reset_swd_target-Resolved s =
      or_multidrop-Resolved (reset_target t Version.v1 s) (reset_target-Settled t d Version.v1 s)
