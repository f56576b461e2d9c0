-- ===== src/Swd/Interface/Steps.antt =====
-- What a chain of `?` says of its parts.
use airfrog.Prelude.{◌≡◌, refl}
use airfrog.Bin.Error.{Result, ok, err}
use airfrog.Swd.Interface.State.{Interface, Act, continue}

module _ {W E A B : Type 0} where
  -- A chain that succeeds has succeeded at its head.
  pub continue-ok :
      (x : Result E A × Interface W) (f : A → Act W E B) (b : B) (s' : Interface W)
      → continue x f ≡ (ok b, s')
      → (a : A) × (s₁ : Interface W) × (x ≡ (ok a, s₁)) × (f a s₁ ≡ (ok b, s'))
  continue-ok (ok a, s₁) f b s' h = (a, s₁, refl, h)
  continue-ok (err e, s₁) f b s' h = absurd cc

  -- What every step keeps, a chain of them keeps, whatever its result.
  pub continue-keeps :
      (P : Interface W → Type 0) (x : Result E A × Interface W) (f : A → Act W E B)
      → P x.1
      → ((a : A) (s : Interface W) → P s → P (f a s).1)
      → P (continue x f).1
  continue-keeps P (ok a, s) f h k = k a s h
  continue-keeps P (err e, s) f h k = h
