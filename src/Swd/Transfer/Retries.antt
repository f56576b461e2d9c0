-- ===== src/Swd/Transfer/Retries.antt =====
-- How often a transfer is tried, and which attempt decides its result.
use airfrog.Prelude.{ℕ, zero, suc, ◌≤◌, ◌≡◌, refl, true, false, arith}
use airfrog.Bin.Error.{Result}
use airfrog.Swd.Error.{SwdError}
use airfrog.Swd.Wire.Protocol.{Protocol}
use airfrog.Swd.Transfer.{is_wait, retry}

module _ {A : Type 0} (attempt : Protocol → Result SwdError A × Protocol) where
  -- The state in which attempt number `k` begins, if all before it were answered by WAIT.
  abbrev pub at : ℕ → Protocol → Protocol
  at zero p = p
  at (suc k) p = at k (attempt p).1

  abbrev pub WaitsBefore : ℕ → Protocol → Type 0
  WaitsBefore zero p = Unit
  WaitsBefore (suc k) p = (is_wait (attempt p).0 ≡ true) × WaitsBefore k (attempt p).1

  -- The first attempt that the target does not answer by WAIT decides the result and is the last
  -- one made, if it is among the first `retries + 1`.
  pub retry_first :
      (retries k : ℕ) (p : Protocol)
      → k ≤ retries
      → WaitsBefore k p
      → is_wait (attempt (at k p)).0 ≡ false
      → retry attempt retries p ≡ attempt (at k p)
  unfolding retry
  retry_first zero zero p h w f = refl
  retry_first (suc r) zero p h w f = rw f refl
  retry_first zero (suc k) p h w f = absurd (omega arith)
  retry_first (suc r) (suc k) p h (w, ws) f =
      rw w (retry_first r k (attempt p).1 (omega arith) ws f)

  -- If the first `retries` attempts are all answered by WAIT, one more is made, and its result is the
  -- result, whatever it is.
  pub retry_exhausted :
      (retries : ℕ) (p : Protocol)
      → WaitsBefore retries p
      → retry attempt retries p ≡ attempt (at retries p)
  unfolding retry
  retry_exhausted zero p w = refl
  retry_exhausted (suc r) p (w, ws) = rw w (retry_exhausted r (attempt p).1 ws)
