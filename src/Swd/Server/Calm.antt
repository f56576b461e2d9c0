-- ===== src/Swd/Server/Calm.antt =====
-- No operation of a request panics, except the bulk read of no words or of too many for the heap.
use airfrog.Prelude.{
  ℕ, zero, suc, ◌+◌, ◌*◌, ◌<◌, ◌≡◌, ◌-◌, ◌==◌, ◌≢◌, refl, arith, Bool, true, false, if◌then◌else◌,
  List, [], ◌∷◌, length,
}
use airfrog.Bin.Error.{Result, ok, err}
use airfrog.Bin.Op.{Op}
use airfrog.Swd.Error.{SwdError}
use airfrog.Swd.Command.{SwdOp}
use airfrog.Swd.Interface.State.{Transport, Interface, Version, continue}
use airfrog.Swd.Interface.Access.{check_dp_errors, check_and_update_dp_select}
use airfrog.Swd.Interface.Bulk.{
  BulkError, BulkRead, Stored, step, stopping, write_items, write_drw_bulk, write_drw_fast,
  drw_address,
}
use airfrog.Swd.Interface.Bulk.Counts.{Accounts, read_drw_bulk-Accounts}
use airfrog.Swd.Interface.Memory.{set_addr_inc}
use airfrog.Swd.Interface.Raw.{
  restoring, restoring_bulk, update_raw_select, with_check_power, read_ap_register_raw_bulk,
  write_ap_register_raw_bulk, read_dp_register_raw, write_dp_register_raw, read_ap_register_raw,
  write_ap_register_raw,
}
use airfrog.Swd.Interface.Reset.{reset_target}
use airfrog.Swd.Server.{
  ApiError, Reply, binary_api_handle_op, word_reply, no_reply, then_reply, bulk_read_reply,
  bulk_write_reply, or_v2, write_multi_regs,
}

-- An operation that does not panic.
abbrev pub IsCalm : {A S : Type 0} → Result ApiError A × S → Type 0
IsCalm (ok _, s) = Unit {0}
IsCalm (err (ApiError.failed _), s) = Unit {0}
IsCalm (err ApiError.panicked, s) = ⊥

-- A bulk read has words, and the heap has room for them and for the response.
abbrev pub IsReadable : (ℕ → Bool) → Op → Type 0
IsReadable fits (Op.ap_bulk_read _ count) =
    (0 < count) × (fits (4 * count) ≡ true) × (fits (4 * count + (2 + 4 * count)) ≡ true)
IsReadable fits _ = Unit {0}

abbrev IsBulkCalm : {A S : Type 0} → Result BulkError A × S → Type 0
IsBulkCalm (ok _, s) = Unit {0}
IsBulkCalm (err (BulkError.stopped _ _), s) = Unit {0}
IsBulkCalm (err BulkError.panicked, s) = ⊥

module _ {W : Type 0} where
  word_reply-IsCalm : (x : Result SwdError ℕ × Interface W) → IsCalm (word_reply x)
  word_reply-IsCalm (ok a, s) = tt
  word_reply-IsCalm (err e, s) = tt

  no_reply-IsCalm : {A : Type 0} (x : Result SwdError A × Interface W) → IsCalm (no_reply x)
  no_reply-IsCalm (ok a, s) = tt
  no_reply-IsCalm (err e, s) = tt

  then_reply-IsCalm :
      {A : Type 0} (x : Result SwdError A × Interface W)
      (f : Interface W → Result ApiError Reply × Interface W)
      → ((s : Interface W) → IsCalm (f s))
      → IsCalm (then_reply x f)
  then_reply-IsCalm (ok a, s) f k = k s
  then_reply-IsCalm (err e, s) f k = tt

  bulk_write_reply-IsCalm :
      (x : Result BulkError (Unit {0}) × Interface W) → IsBulkCalm x → IsCalm (bulk_write_reply x)
  bulk_write_reply-IsCalm (ok a, s) h = tt
  bulk_write_reply-IsCalm (err (BulkError.stopped e n), s) h = tt
  bulk_write_reply-IsCalm (err BulkError.panicked, s) h = absurd h

  bulk_read_reply-IsCalm :
      (count : ℕ) (x : Stored W)
      → Accounts (suc count) x.0
      → IsCalm (bulk_read_reply true (suc count) x)
  bulk_read_reply-IsCalm count ((ok a, words), s) h = tt
  bulk_read_reply-IsCalm count ((err (BulkError.stopped e n), words), s) h = tt
  bulk_read_reply-IsCalm count ((err BulkError.panicked, words), s) h = absurd (ground arith)

  stopping-IsBulkCalm :
      {A : Type 0} (n : ℕ) (x : Result SwdError A × Interface W) → IsBulkCalm (stopping n x)
  stopping-IsBulkCalm n (ok a, s) = tt
  stopping-IsBulkCalm n (err e, s) = tt

  continue-IsBulkCalm :
      {A B : Type 0} (x : Result BulkError A × Interface W)
      (f : A → Interface W → Result BulkError B × Interface W)
      → IsBulkCalm x
      → ((a : A) (s : Interface W) → IsBulkCalm (f a s))
      → IsBulkCalm (continue x f)
  continue-IsBulkCalm (ok a, s) f h k = k a s
  continue-IsBulkCalm (err (BulkError.stopped e n), s) f h k = tt
  continue-IsBulkCalm (err BulkError.panicked, s) f h k = absurd h

  restoring-IsBulkCalm :
      {A : Type 0} (x : Result BulkError A × Interface W) → IsBulkCalm x → IsBulkCalm (restoring x)
  restoring-IsBulkCalm (ok a, s) h = tt
  restoring-IsBulkCalm (err (BulkError.stopped e n), s) h = tt
  restoring-IsBulkCalm (err BulkError.panicked, s) h = absurd h

  restoring_bulk-Accounts :
      (count : ℕ) (x : Stored W) → Accounts count x.0 → Accounts count (restoring_bulk x).0
  restoring_bulk-Accounts count ((ok a, words), s) h = h
  restoring_bulk-Accounts count ((err e, words), s) h = h

  step-Accounts :
      {A : Type 0} (count : ℕ) (x : Result SwdError A × Interface W) (f : A → BulkRead W)
      → ((a : A) (s : Interface W) → Accounts count (f a s).0)
      → Accounts count (step [] x f).0
  step-Accounts count (ok a, s) f k = k a s
  step-Accounts count (err e, s) f k = (refl, omega arith)

module _ (t : Transport) where
  if_fast-IsBulkCalm :
      (fast : Bool) (n : ℕ) (s : Interface t.Wire)
      → IsBulkCalm (if fast then stopping n (check_dp_errors t false s) else (ok tt, s))
  if_fast-IsBulkCalm true n s = stopping-IsBulkCalm n _
  if_fast-IsBulkCalm false n s = tt

  write_items-IsBulkCalm :
      (words : List ℕ) (count n : ℕ) (s : Interface t.Wire)
      → IsBulkCalm (write_items t words count n s)
  unfolding write_items
  write_items-IsBulkCalm [] count n s = tt
  write_items-IsBulkCalm (w ∷ ws) count n s =
      continue-IsBulkCalm (stopping n (write_drw_fast t w (n == count - 1) s)) _
        (stopping-IsBulkCalm n _)
        (λ _ s₁.
          continue-IsBulkCalm (stopping n (check_dp_errors t false s₁)) _ (stopping-IsBulkCalm n _)
            (λ _ s₂. write_items-IsBulkCalm ws count (n + 1) s₂))

  write_drw_bulk-IsBulkCalm :
      (words : List ℕ) (fast : Bool) (s : Interface t.Wire)
      → IsBulkCalm (write_drw_bulk t words fast s)
  unfolding write_drw_bulk
  write_drw_bulk-IsBulkCalm [] fast s = tt
  write_drw_bulk-IsBulkCalm (w ∷ ws) fast s =
      continue-IsBulkCalm (stopping 0 (check_and_update_dp_select t (SwdOp.ap_write drw_address) s))
        _ (stopping-IsBulkCalm 0 _)
        (λ _ s₁.
          continue-IsBulkCalm (write_items t (w ∷ ws) (length (w ∷ ws)) 0 s₁) _
            (write_items-IsBulkCalm (w ∷ ws) _ 0 s₁) (λ _ s₂. if_fast-IsBulkCalm fast _ s₂))

  write_raw_bulk-IsBulkCalm :
      (reg : ℕ) (words : List ℕ) (s : Interface t.Wire)
      → IsBulkCalm (write_ap_register_raw_bulk t 0 reg words s)
  unfolding write_ap_register_raw_bulk
  write_raw_bulk-IsBulkCalm reg words s =
      continue-IsBulkCalm (stopping 0 (update_raw_select t 0 reg (with_check_power false s))) _
        (stopping-IsBulkCalm 0 _)
        (λ _ s₁. restoring-IsBulkCalm _ (write_drw_bulk-IsBulkCalm words true s₁))

  pub read_raw_bulk-Accounts :
      (reg count : ℕ) (s : Interface t.Wire)
      → Accounts count (read_ap_register_raw_bulk t 0 reg count s).0
  unfolding read_ap_register_raw_bulk
  read_raw_bulk-Accounts reg count s =
      step-Accounts count (update_raw_select t 0 reg (with_check_power false s)) _
        (λ _ s₁. restoring_bulk-Accounts count _ (read_drw_bulk-Accounts t true count s₁))

  or_v2-IsCalm : (x : Result SwdError (Unit {0}) × Interface t.Wire) → IsCalm (or_v2 t x)
  or_v2-IsCalm (ok a, s) = tt
  or_v2-IsCalm (err e, s) = no_reply-IsCalm (reset_target t Version.v2 s)

  -- With the exception of the bulk read of no words or of too many for the heap, and of
  -- `unreachable!`, every operation of a request returns.
  pub handle_op-IsCalm :
      (fits : ℕ → Bool) (op : Op) (s : Interface t.Wire)
      → op ≢ Op.disconnect
      → IsReadable fits op
      → IsCalm (binary_api_handle_op t fits op s)
  unfolding binary_api_handle_op
  handle_op-IsCalm fits (Op.dp_read a) s h k = word_reply-IsCalm (read_dp_register_raw t a s)
  handle_op-IsCalm fits (Op.dp_write a w) s h k = no_reply-IsCalm (write_dp_register_raw t a w s)
  handle_op-IsCalm fits (Op.ap_read a) s h k = word_reply-IsCalm (read_ap_register_raw t 0 a s)
  handle_op-IsCalm fits (Op.ap_write a w) s h k = no_reply-IsCalm (write_ap_register_raw t 0 a w s)
  handle_op-IsCalm fits (Op.ap_bulk_read a zero) s h (k, _, _) = absurd (omega arith)
  handle_op-IsCalm fits (Op.ap_bulk_read a (suc n)) s h (_, words, response) =
      rw (words, response)
        (then_reply-IsCalm (set_addr_inc t true s) _
          (λ s₁. bulk_read_reply-IsCalm n _ (read_raw_bulk-Accounts a (suc n) s₁)))
  handle_op-IsCalm fits (Op.ap_bulk_write a ws) s h k =
      then_reply-IsCalm (set_addr_inc t true s) _
        (λ s₁. bulk_write_reply-IsCalm _ (write_raw_bulk-IsBulkCalm a ws s₁))
  handle_op-IsCalm fits (Op.multi_reg_write c ms) s h k = no_reply-IsCalm (write_multi_regs t ms s)
  handle_op-IsCalm fits Op.ping s h k = tt
  handle_op-IsCalm fits Op.reset_target s h k = or_v2-IsCalm (reset_target t Version.v1 s)
  handle_op-IsCalm fits (Op.clock a b c) s h k = tt
  handle_op-IsCalm fits (Op.set_speed x) s h k = tt
  handle_op-IsCalm fits Op.disconnect s h k = absurd (h refl)
