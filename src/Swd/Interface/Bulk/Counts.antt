-- ===== src/Swd/Interface/Bulk/Counts.antt =====
-- What a bulk read reports is what it stored.
use airfrog.Prelude.{
  ℕ, zero, suc, ◌+◌, ◌-◌, ◌==◌, ◌≡◌, ◌≤◌, ◌<◌, refl, arith, Bool, true, false, not, List, [], ◌∷◌,
  ◌++◌, length, length-append,
}
use airfrog.Bin.Error.{Result, ok, err}
use airfrog.Swd.Error.{SwdError}
use airfrog.Swd.Command.{SwdOp}
use airfrog.Swd.Interface.State.{Transport, Interface}
use airfrog.Swd.Interface.Access.{check_and_update_dp_select}
use airfrog.Swd.Interface.Bulk.{
  BulkError, BulkRead, step, drw_address, read_rd_buff_fast, read_drw_fast, check_if, read_last,
  read_items, read_drw_bulk,
}

-- The result of a read into a buffer of `count` words agrees with the words stored: all of them
-- after a success, as many as an error says after an error, and a panic only for an empty buffer.
abbrev pub Accounts : ℕ → Result BulkError (Unit {0}) × List ℕ → Type 0
Accounts count (ok _, words) = length words ≡ count
Accounts count (err (BulkError.stopped e n), words) = (n ≡ length words) × (n ≤ count)
Accounts count (err BulkError.panicked, words) = count ≡ 0

step-Accounts :
    {W A : Type 0} (count : ℕ) (words : List ℕ) (x : Result SwdError A × Interface W)
    (f : A → BulkRead W)
    → length words ≤ count
    → ((a : A) (s : Interface W) → Accounts count (f a s).0)
    → Accounts count (step words x f).0
step-Accounts count words (ok a, s) f h k = k a s
step-Accounts count words (err e, s) f h k = (refl, h)

one_more : (words : List ℕ) (word : ℕ) → length (words ++ word ∷ []) ≡ length words + 1
one_more words word = length-append words (word ∷ [])

module _ (t : Transport) (fast : Bool) where
  read_last-Accounts :
      (count : ℕ) (is_empty : Bool) (words : List ℕ) (s : Interface t.Wire)
      → is_empty ≡ (count == 0)
      → length words ≡ count - 1
      → Accounts count (read_last t fast is_empty words s).0
  unfolding read_last
  read_last-Accounts count true words s b h =
      let nothing : count ≡ 0 = ground arith in
      step-Accounts count words (read_rd_buff_fast t true s) _ (omega arith) (λ word s₁.
        step-Accounts count words (check_if t (not fast) s₁) _ (omega arith) (λ _ s₂. nothing))
  read_last-Accounts count false words s b h =
      let some_left : 0 < count = ground arith in
      step-Accounts count words (read_rd_buff_fast t true s) _ (omega arith) (λ word s₁.
        let more = one_more words word in
        step-Accounts count words (check_if t (not fast) s₁) _ (omega arith) (λ _ s₂.
          step-Accounts count (words ++ word ∷ []) (check_if t fast s₂) _ (omega arith)
            (λ _ s₃. omega arith)))

  read_items-Accounts :
      (count left : ℕ) (words : List ℕ) (s : Interface t.Wire)
      → length words + left ≡ count - 1
      → Accounts count (read_items t left fast (count == 0) words s).0
  unfolding read_items
  read_items-Accounts count zero words s h =
      read_last-Accounts count (count == 0) words s refl (omega arith)
  read_items-Accounts count (suc left) words s h =
      step-Accounts count words (read_drw_fast t s) _ (omega arith) (λ word s₁.
        step-Accounts count words (check_if t (not fast) s₁) _ (omega arith) (λ _ s₂.
          read_items-Accounts count left (words ++ word ∷ []) s₂
            (omega (arith, one_more words word))))

  -- A bulk read of `count` words stores all of them if it succeeds, stores exactly as many as its
  -- error says if it fails, and panics only on an empty buffer.
  pub read_drw_bulk-Accounts :
      (count : ℕ) (s : Interface t.Wire) → Accounts count (read_drw_bulk t count fast s).0
  unfolding read_drw_bulk
  read_drw_bulk-Accounts count s =
      step-Accounts count [] (check_and_update_dp_select t (SwdOp.ap_read drw_address) s) _
        (omega arith)
        (λ _ s₁.
          step-Accounts count [] (read_drw_fast t s₁) _ (omega arith)
            (λ _ s₂. read_items-Accounts count (count - 1) [] s₂ (omega arith)))
