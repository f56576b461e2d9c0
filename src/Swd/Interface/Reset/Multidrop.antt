-- ===== src/Swd/Interface/Reset/Multidrop.antt =====
-- The resets of version 2 that pick out one of several targets on the same lines.
use airfrog.Prelude.{ℕ, ◌≡◌, refl, sym, ap, ◌∙◌, ◌⊎◌, inl, inr, some, List, [], ◌∷◌, ◌++◌}
use mathlib.Core.List.{append_assoc, append-nil}
use airfrog.Bin.Error.{Result, ok, err}
use airfrog.Swd.Error.{SwdError}
use airfrog.Swd.Interface.State.{Transport, Interface, Version, continue, reset_internal_state}
use airfrog.Swd.Interface.Access.{read_idcode}
use airfrog.Swd.Interface.Reset.{
  MultiDropTarget, on_wire, connect, detect, found, some_found, reset_detect_multidrop,
  reset_multidrop_target, reset_sequence_v2, start, with_version,
}
use airfrog.Swd.Interface.Reset.Leads.{OnOk}
use airfrog.Swd.Interface.Reset.Recalls.{Recalls, read_idcode-Gave}
use airfrog.Swd.Interface.Reset.Connected.{
  Settled, IsCleared, connect-Settled, read_idcode-IsCleared,
}

-- The targets that were found are some of those that were tried, in the same order.
abbrev pub Among : List MultiDropTarget → List ℕ → Type 0
Among [] targets = Unit {0}
Among (f ∷ fs) [] = ⊥
Among (f ∷ fs) (target ∷ targets) =
    ((f.target ≡ target) × Among fs targets) ⊎ Among (f ∷ fs) targets

-- What a search for targets may return.
abbrev pub Searched : List ℕ → Result SwdError (List MultiDropTarget) → Type 0
Searched targets (ok []) = ⊥
Searched targets (ok (f ∷ fs)) = Among (f ∷ fs) targets
Searched targets (err e) = e ≡ SwdError.operation_failed

module _ (t : Transport) where
  skipping :
      (fs : List MultiDropTarget) (target : ℕ) (targets : List ℕ)
      → Among fs targets
      → Among fs (target ∷ targets)
  skipping [] target targets h = tt
  skipping (f ∷ fs) target targets h = inr h

  found-append :
      (target : ℕ) (md_targets : List MultiDropTarget) (x : Result SwdError ℕ × Interface t.Wire)
      → found t target md_targets x ≡ (md_targets ++ (found t target [] x).0, x.1)
  found-append target md_targets (ok idcode, s) = refl
  found-append target md_targets (err e, s) = ap (λ l. (l, s)) (sym (append-nil md_targets))

  detect-append :
      (targets : List ℕ) (md_targets : List MultiDropTarget) (s : Interface t.Wire)
      → detect t targets md_targets s
        ≡ (md_targets ++ (detect t targets [] s).0, (detect t targets [] s).1)
  unfolding detect
  detect-append [] md_targets s = ap (λ l. (l, s)) (sym (append-nil md_targets))
  detect-append (target ∷ rest) md_targets s =
      let x = read_idcode t (on_wire t (t.target_sel target) (on_wire t t.line_reset s)) in
      let one = (found t target [] x).0 in
      let here = found-append target md_targets x in
      let alone = found-append target [] x in
      let later = detect-append rest (md_targets ++ one) x.1 in
      let first = detect-append rest one x.1 in
      let whole : detect t (target ∷ rest) md_targets s ≡ detect t rest (md_targets ++ one) x.1 =
        ap (λ p. detect t rest p.0 p.1) here in
      let single : detect t (target ∷ rest) [] s ≡ detect t rest one x.1 =
        ap (λ p. detect t rest p.0 p.1) alone in
      whole
      ∙ later
      ∙ ap (λ l. (l, (detect t rest [] x.1).1))
          (append_assoc md_targets one (detect t rest [] x.1).0)
      ∙ sym (ap (λ p. (md_targets ++ p.0, p.1)) (single ∙ first))

  found-Among :
      (target : ℕ) (rest : List ℕ) (x : Result SwdError ℕ × Interface t.Wire)
      → ((s : Interface t.Wire) → Among (detect t rest [] s).0 rest)
      → Among (detect t rest (found t target [] x).0 (found t target [] x).1).0 (target ∷ rest)
  found-Among target rest (ok idcode, s) h =
      let one : List MultiDropTarget = record { target = target; idcode = idcode } ∷ [] in
      rw (detect-append rest one s) (inl (refl, h s))
  found-Among target rest (err e, s) h = skipping (detect t rest [] s).0 target rest (h s)

  detect-Among : (targets : List ℕ) (s : Interface t.Wire) → Among (detect t targets [] s).0 targets
  unfolding detect
  detect-Among [] s = tt
  detect-Among (target ∷ rest) s = found-Among target rest _ (λ s₁. detect-Among rest s₁)

  some_found-Searched :
      (targets : List ℕ) (x : List MultiDropTarget × Interface t.Wire)
      → Among x.0 targets
      → Searched targets (some_found t x).0
  some_found-Searched targets ([], s) h = refl
  some_found-Searched targets (f ∷ fs, s) h = h

  -- A search for targets returns at least one, and only targets that it was given, in their order;
  -- or it fails because it has found none.
  pub reset_detect_multidrop-Searched :
      (targets : List ℕ) (s : Interface t.Wire)
      → Searched targets (reset_detect_multidrop t targets s).0
  unfolding reset_detect_multidrop
  reset_detect_multidrop-Searched targets s = some_found-Searched targets _ (detect-Among targets _)

  module _ (d : Recalls t) where
    Settled-multidrop :
        (x : Result SwdError ℕ × Interface t.Wire)
        → IsCleared t d x.1
        → OnOk t (λ v s. d.Gave v s.protocol) x
        → Settled t d Version.v2
            (continue x (λ idcode s. connect t idcode (with_version (some Version.v2) s)))
    Settled-multidrop (ok idcode, s) h g = connect-Settled t d Version.v2 idcode _ h.0 refl g
    Settled-multidrop (err e, s) h g = h

    -- A reset to one of several targets ends as other resets do, with version 2 of the protocol.
    pub reset_multidrop_target-Settled :
        (target : MultiDropTarget) (s : Interface t.Wire)
        → Settled t d Version.v2 (reset_multidrop_target t target s)
    unfolding reset_multidrop_target reset_sequence_v2 start reset_internal_state
    reset_multidrop_target-Settled target s =
        Settled-multidrop _ (read_idcode-IsCleared t d _ ((refl, refl), refl))
          (read_idcode-Gave t d _)
