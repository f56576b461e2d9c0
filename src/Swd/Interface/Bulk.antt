-- ===== src/Swd/Interface/Bulk.antt =====
-- `read_drw_bulk` and `write_drw_bulk` of airfrog-swd/src/interface.rs. What a read stores in the
-- caller's buffer is returned: the words of the prefix that was overwritten.
pub mod Counts
use airfrog.Prelude.{
  ℕ, zero, suc, ◌+◌, ◌-◌, ◌==◌, Bool, true, false, not, List, [], ◌∷◌, ◌++◌, if◌then◌else◌, length,
}
use airfrog.Bin.Error.{Result, ok, err}
use airfrog.Swd.Error.{SwdError}
use airfrog.Swd.Command.{SwdOp}
use airfrog.Swd.Interface.State.{Transport, Interface, Act, continue, ◌>>=◌, ◌>>◌}
use airfrog.Swd.Interface.Access.{
  rd_buff_address, write_wire, read_wire, check_dp_errors, check_and_update_dp_select,
}

-- `DrwRegister::ADDRESS`
abbrev pub drw_address : ℕ
drw_address = 0x0c

-- `Err((SwdError, usize))`, and the panic of an index out of range.
pub data BulkError : Type 0 where
  stopped : SwdError → ℕ → BulkError
  panicked : BulkError

-- The result of a bulk read with the words that it stored.
abbrev pub Stored : Type 0 → Type 0
Stored W = (Result BulkError (Unit {0}) × List ℕ) × Interface W

abbrev pub BulkRead : Type 0 → Type 0
BulkRead W = Interface W → Stored W

-- `.map_err(|e| (e, count))?` on a call, with the words stored so far.
abbrev pub step :
    {W A : Type 0} → List ℕ → Result SwdError A × Interface W → (A → BulkRead W) → Stored W
step words (ok a, s) f = f a s
step words (err e, s) f = ((err (BulkError.stopped e (length words)), words), s)

-- `.map_err(|e| (e, count))` on a call that stores nothing.
abbrev pub stopping :
    {W A : Type 0} → ℕ → Result SwdError A × Interface W → Result BulkError A × Interface W
stopping count (ok a, s) = (ok a, s)
stopping count (err e, s) = (err (BulkError.stopped e count), s)

module _ (t : Transport) where
  unfoldable pub read_rd_buff_fast : Bool → Act t.Wire SwdError ℕ
  read_rd_buff_fast last = read_wire t (SwdOp.dp_read rd_buff_address) (not last)

  unfoldable pub read_drw_fast : Act t.Wire SwdError ℕ
  read_drw_fast = read_wire t (SwdOp.ap_read drw_address) false

  unfoldable pub write_drw_fast : ℕ → Bool → Act t.Wire SwdError (Unit {0})
  write_drw_fast value last = write_wire t (SwdOp.ap_write drw_address) value (not last)

  -- `if … { self.check_dp_errors(true).await…?; }`
  unfoldable pub check_if : Bool → Act t.Wire SwdError (Unit {0})
  check_if wanted s = if wanted then check_dp_errors t true s else (ok tt, s)

  -- From the read of RDBUFF on; `words` are those stored before. With an empty buffer the store
  -- `buf[read_count]` is out of range.
  unfoldable pub read_last : Bool → Bool → List ℕ → BulkRead t.Wire
  read_last fast is_empty words s = step words (read_rd_buff_fast true s) (λ word s₁.
      step words (check_if (not fast) s₁) (λ _ s₂.
        if is_empty
        then ((err BulkError.panicked, words), s₂)
        else step (words ++ word ∷ []) (check_if fast s₂)
            (λ _ s₃. ((ok tt, words ++ word ∷ []), s₃))))

  -- The loop over the items that are left, and what follows it.
  unfoldable pub read_items : ℕ → Bool → Bool → List ℕ → BulkRead t.Wire
  read_items zero fast is_empty words s = read_last fast is_empty words s
  read_items (suc left) fast is_empty words s = step words (read_drw_fast s) (λ word s₁.
      step words (check_if (not fast) s₁)
        (λ _ s₂. read_items left fast is_empty (words ++ word ∷ []) s₂))

  -- `count` is the length of the buffer. `take(count - 1)` of an empty buffer takes nothing: the
  -- release build wraps.
  unfoldable pub read_drw_bulk : ℕ → Bool → BulkRead t.Wire
  read_drw_bulk count fast s =
      step [] (check_and_update_dp_select t (SwdOp.ap_read drw_address) s) (λ _ s₁.
        step [] (read_drw_fast s₁) (λ _ s₂. read_items (count - 1) fast (count == 0) [] s₂))

  -- The loop of `write_drw_bulk` over the words that are left.
  unfoldable pub write_items : List ℕ → ℕ → ℕ → Act t.Wire BulkError (Unit {0})
  write_items [] count written s = (ok tt, s)
  write_items (value ∷ rest) count written s =
      continue (stopping written (write_drw_fast value (written == count - 1) s)) (λ _ s₁.
        continue (stopping written (check_dp_errors t false s₁))
          (λ _. write_items rest count (written + 1)))

  unfoldable pub write_drw_bulk : List ℕ → Bool → Act t.Wire BulkError (Unit {0})
  write_drw_bulk [] fast s = (ok tt, s)
  write_drw_bulk (value ∷ rest) fast s =
      let buf = value ∷ rest in
      continue (stopping 0 (check_and_update_dp_select t (SwdOp.ap_write drw_address) s)) (λ _ s₁.
        continue (write_items buf (length buf) 0 s₁) (λ _ s₂.
          if fast then stopping (length buf) (check_dp_errors t false s₂) else (ok tt, s₂)))
