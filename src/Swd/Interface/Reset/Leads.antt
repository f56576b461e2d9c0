-- ===== src/Swd/Interface/Reset/Leads.antt =====
-- What the success of an operation of the interface leads to, along a chain of `?`.
use airfrog.Bin.Error.{Result, ok, err}
use airfrog.Swd.Error.{SwdError}
use airfrog.Swd.Interface.State.{Transport, Interface, Act, continue, ◌>>=◌}
use airfrog.Swd.Interface.Reset.Steady.{IsSteady, Keeps}

module _ (t : Transport) where
  -- What holds of a success.
  abbrev pub OnOk :
      {A : Type 0} → (A → Interface t.Wire → Type 0) → Result SwdError A × Interface t.Wire → Type 0
  OnOk Q (ok a, s) = Q a s
  OnOk Q (err e, s) = Unit {0}

  -- From a state of the one kind, a success of the operation leads to the other.
  unfoldable pub Leads :
      {A : Type 0}
      → (Interface t.Wire → Type 0)
      → Act t.Wire SwdError A
      → (A → Interface t.Wire → Type 0)
      → Type 0
  Leads P act Q = (s : Interface t.Wire) → P s → OnOk Q (act s)

  continue-OnOk :
      {A B : Type 0} (R : A → Interface t.Wire → Type 0) (Q : B → Interface t.Wire → Type 0)
      (x : Result SwdError A × Interface t.Wire) (f : A → Act t.Wire SwdError B)
      → OnOk R x
      → ((a : A) (s : Interface t.Wire) → R a s → OnOk Q (f a s))
      → OnOk Q (continue x f)
  continue-OnOk R Q (ok a, s) f h k = k a s h
  continue-OnOk R Q (err e, s) f h k = tt

  pub chain-Leads :
      {A B : Type 0} (P : Interface t.Wire → Type 0) (R : A → Interface t.Wire → Type 0)
      (Q : B → Interface t.Wire → Type 0) (m : Act t.Wire SwdError A)
      (f : A → Act t.Wire SwdError B)
      → Leads P m R
      → ((a : A) → Leads (R a) (f a) Q)
      → Leads P (m >>= f) Q
  unfolding Leads
  chain-Leads P R Q m f k l s h = continue-OnOk R Q (m s) f (k s h) (λ a s₁ h₁. l a s₁ h₁)

  -- Every success leads somewhere.
  abbrev pub Anything : Interface t.Wire → Type 0
  Anything s = Unit {0}

  anywhere : {A : Type 0} (x : Result SwdError A × Interface t.Wire) → OnOk (λ _. Anything) x
  anywhere (ok a, s) = tt
  anywhere (err e, s) = tt

  -- A step whose success says nothing.
  pub skip-Leads :
      {A B : Type 0} (Q : B → Interface t.Wire → Type 0) (m : Act t.Wire SwdError A)
      (f : A → Act t.Wire SwdError B)
      → ((a : A) → Leads Anything (f a) Q)
      → Leads Anything (m >>= f) Q
  unfolding Leads
  skip-Leads Q m f l s h =
      continue-OnOk (λ _. Anything) Q (m s) f (anywhere (m s)) (λ a s₁ h₁. l a s₁ h₁)

  kept :
      {A : Type 0} (P : Interface t.Wire → Type 0) (x : Result SwdError A × Interface t.Wire)
      → P x.1
      → OnOk (λ _. P) x
  kept P (ok a, s) h = h
  kept P (err e, s) h = tt

  pub keeps-Leads :
      {A : Type 0} (P : Interface t.Wire → Type 0) (d : IsSteady t P) (m : Act t.Wire SwdError A)
      → Keeps t P d m
      → Leads P m (λ _. P)
  unfolding Leads Keeps
  keeps-Leads P d m k s h = kept P (m s) (k s h)
