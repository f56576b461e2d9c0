-- ===== src/Bin/Reader.antt =====
-- `AsyncReader` of airfrog-bin/src/lib.rs. What implements it (embassy's TCP socket) is not part
-- of the repository, so it is a parameter: a type of reader states with `read_exact`, which fills
-- a buffer of the given length or fails. The contents of the filled buffer are the result.
use airfrog.Prelude.{ℕ, ◌<◌, ◌≤◌, ◌≡◌, List, length, take, drop}
use airfrog.Bin.Error.{Result, ok, err}

pub record Reader : Type 1 where
  pub State : Type 0
  pub Error : Type 0
  pub read_exact : ℕ → State → Result Error (List ℕ) × State

-- What is documented of `read_exact`, over the bytes that are still to arrive: if there are enough
-- it takes exactly as many as fit the buffer, and otherwise it fails.
pub record Delivers (r : Reader) : Type 0 where
  pub pending : r.State → List ℕ
  pub delivers :
      (n : ℕ) (s : r.State)
      → n ≤ length (pending s)
      → ((r.read_exact n s).0 ≡ ok (take n (pending s)))
        × (pending (r.read_exact n s).1 ≡ drop n (pending s))
  pub fails :
      (n : ℕ) (s : r.State)
      → length (pending s) < n
      → (e : r.Error) × ((r.read_exact n s).0 ≡ err e)
