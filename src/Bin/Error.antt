-- ===== src/Bin/Error.antt =====
-- `ProtocolError` and `ParseError` of airfrog-bin/src/lib.rs, and Rust's `Result`.
use airfrog.Prelude.{ℕ}

-- Rust's `Result<A, E>`.
pub data Result {ℓ κ} (E : Type ℓ) (A : Type κ) : Type (ℓ ⊔ κ) where
  ok : A → Result E A
  err : E → Result E A

-- The `?` operator.
infixl 5 ◌>>=◌
abbrev pub ◌>>=◌ {ℓ κ μ} :
    {E : Type ℓ} {A : Type κ} {B : Type μ} → Result E A → (A → Result E B) → Result E B
ok a >>= f = f a
err e >>= f = err e

pub data ProtocolError : Type 0 where
  command : ℕ → ProtocolError
  arg : ProtocolError

pub data ParseError (T : Type 0) : Type 0 where
  transport : T → ParseError T
  protocol : ProtocolError → ParseError T

-- `impl From<ProtocolError> for ParseError<T>`, which `?` applies.
abbrev pub from_protocol {ℓ} :
    {T : Type 0} {A : Type ℓ} → Result ProtocolError A → Result (ParseError T) A
from_protocol (ok a) = ok a
from_protocol (err e) = err (ParseError.protocol e)
