-- ===== src/Swd/Interface/Written/Words.antt =====
-- Which words a bulk write of DRW has written, whatever its result.
use mathlib.Core.List.{append-nil, append_assoc}
use airfrog.Prelude.{
  ℕ, ◌+◌, ◌-◌, ◌≡◌, ◌≤◌, ◌==◌, ◌∙◌, refl, sym, ap, arith, Bool, true, false, List, [], ◌∷◌, ◌++◌,
  length, length-append, if◌then◌else◌, not,
}
use airfrog.Bin.Error.{Result, ok, err}
use airfrog.Swd.Error.{SwdError}
use airfrog.Swd.Command.{SwdOp}
use airfrog.Swd.Interface.State.{Transport, Interface, Act, continue}
use airfrog.Swd.Interface.Access.{write_wire, check_dp_errors, check_and_update_dp_select}
use airfrog.Swd.Interface.Bulk.{
  BulkError, stopping, drw_address, write_drw_fast, write_items, write_drw_bulk,
}
use airfrog.Swd.Interface.Written.{
  DrwLog, IsLog, check_dp_errors-IsLog, check_and_update_dp_select-IsLog,
}

module _ (t : Transport) (d : DrwLog t) where
  -- Since the log was `l`, of the words `buf` to write, all have been written in order after a
  -- success. After an error the first of them have been, as many as the error says, with those
  -- counted from `base`, or one more: its word was written, and the check after it failed.
  abbrev pub Wrote : List ℕ → ℕ → List ℕ → Result BulkError (Unit {0}) × Interface t.Wire → Type 0
  Wrote l base buf (ok _, s) = d.log s.protocol ≡ l ++ buf
  Wrote l base buf (err (BulkError.stopped e n), s) =
      (sent rest : List ℕ) × (buf ≡ sent ++ rest)
      × (d.log s.protocol ≡ l ++ sent)
      × (n ≤ base + length sent)
      × (base + length sent ≤ n + 1)
  Wrote l base buf (err BulkError.panicked, s) = ⊥

  -- What is written after the words `first`.
  pub Wrote-after :
      (l first : List ℕ) (base : ℕ) (buf : List ℕ)
      (x : Result BulkError (Unit {0}) × Interface t.Wire)
      → Wrote (l ++ first) (base + length first) buf x
      → Wrote l base (first ++ buf) x
  Wrote-after l first base buf (ok _, s) h = h ∙ append_assoc l first buf
  Wrote-after l first base buf (err (BulkError.stopped e n), s)
        (sent, rest, whole, logged, low, high) =
      let len = length-append first sent in
      (
        first ++ sent,
        rest,
        ap (◌++◌ first) whole ∙ sym (append_assoc first sent rest),
        logged ∙ append_assoc l first sent,
        omega (arith, len),
        omega (arith, len),
      )
  Wrote-after l first base buf (err BulkError.panicked, s) h = h

  -- A step that writes nothing.
  pub idle_step :
      (l : List ℕ) (base : ℕ) (buf : List ℕ) (x : Result SwdError (Unit {0}) × Interface t.Wire)
      (f : Unit {0} → Act t.Wire BulkError (Unit {0}))
      → IsLog t d l x.1
      → ((s : Interface t.Wire) → IsLog t d l s → Wrote l base buf (f tt s))
      → Wrote l base buf (continue (stopping base x) f)
  idle_step l base buf (ok _, s) f h k = k s h
  idle_step l base buf (err e, s) f h k =
      ([], buf, refl, h ∙ sym (append-nil l), omega arith, omega arith)

  -- The check after the word `v` has been written.
  checked_step :
      (l : List ℕ) (base v : ℕ) (rest : List ℕ) (x : Result SwdError (Unit {0}) × Interface t.Wire)
      (f : Unit {0} → Act t.Wire BulkError (Unit {0}))
      → IsLog t d (l ++ v ∷ []) x.1
      → ((s : Interface t.Wire)
          → IsLog t d (l ++ v ∷ []) s
          → Wrote (l ++ v ∷ []) (base + 1) rest (f tt s))
      → Wrote l base (v ∷ rest) (continue (stopping base x) f)
  checked_step l base v rest (ok _, s) f h k = Wrote-after l (v ∷ []) base rest (f tt s) (k s h)
  checked_step l base v rest (err e, s) f h k = (v ∷ [], rest, refl, h, omega arith, omega arith)

  -- What a write of one word does to the log.
  abbrev Fate : List ℕ → ℕ → Result SwdError (Unit {0}) × Interface t.Wire → Type 0
  Fate l v (ok _, s) = IsLog t d (l ++ v ∷ []) s
  Fate l v (err e, s) = IsLog t d l s

  Fate-cases :
      (l : List ℕ) (v : ℕ) (r : Result SwdError (Unit {0})) (s : Interface t.Wire)
      → (r ≡ ok tt → IsLog t d (l ++ v ∷ []) s)
      → ((e : SwdError) → r ≡ err e → IsLog t d l s)
      → Fate l v (r, s)
  Fate-cases l v (ok tt) s h k = h refl
  Fate-cases l v (err e) s h k = k e refl

  write_drw_fast-Fate :
      (l : List ℕ) (v : ℕ) (last : Bool) (s : Interface t.Wire)
      → IsLog t d l s
      → Fate l v (write_drw_fast t v last s)
  unfolding write_drw_fast write_wire
  write_drw_fast-Fate l v last s h =
      Fate-cases l v
        (t.write_op s.wait_retries (SwdOp.ap_write drw_address) v (not last) s.protocol).0 _
        (λ r. d.written _ _ _ _ r ∙ ap (λ m. m ++ v ∷ []) h) (λ e r. d.not_written _ _ _ _ e r ∙ h)

  write_step :
      (l : List ℕ) (base v : ℕ) (rest : List ℕ) (x : Result SwdError (Unit {0}) × Interface t.Wire)
      (f : Unit {0} → Act t.Wire BulkError (Unit {0}))
      → Fate l v x
      → ((s : Interface t.Wire) → IsLog t d (l ++ v ∷ []) s → Wrote l base (v ∷ rest) (f tt s))
      → Wrote l base (v ∷ rest) (continue (stopping base x) f)
  write_step l base v rest (ok _, s) f h k = k s h
  write_step l base v rest (err e, s) f h k =
      ([], v ∷ rest, refl, h ∙ sym (append-nil l), omega arith, omega arith)

  write_items-Wrote :
      (l words : List ℕ) (count base : ℕ) (s : Interface t.Wire)
      → IsLog t d l s
      → Wrote l base words (write_items t words count base s)
  unfolding write_items
  write_items-Wrote l [] count base s h = h ∙ sym (append-nil l)
  write_items-Wrote l (v ∷ rest) count base s h =
      let last = base == count - 1 in
      write_step l base v rest (write_drw_fast t v last s) _ (write_drw_fast-Fate l v last s h)
        (λ s₁ h₁.
          checked_step l base v rest (check_dp_errors t false s₁) _
            (check_dp_errors-IsLog t d (l ++ v ∷ []) false s₁ h₁)
            (λ s₂ h₂. write_items-Wrote (l ++ v ∷ []) rest count (base + 1) s₂ h₂))

  -- The check at the end of a fast write.
  last_check :
      (l buf : List ℕ) (fast : Bool) (x : Result BulkError (Unit {0}) × Interface t.Wire)
      → Wrote l 0 buf x
      → Wrote l 0 buf (
          continue x
            (λ _ s. if fast then stopping (length buf) (check_dp_errors t false s) else (ok tt, s)))
  last_check l buf false (ok _, s) h = h
  last_check l buf true (ok _, s) h =
      let after = check_dp_errors-IsLog t d (l ++ buf) false s h in
      end_of (check_dp_errors t false s) after
    where
      end_of :
          (y : Result SwdError (Unit {0}) × Interface t.Wire)
          → IsLog t d (l ++ buf) y.1
          → Wrote l 0 buf (stopping (length buf) y)
      end_of (ok _, s') k = k
      end_of (err e, s') k = (buf, [], sym (append-nil buf), k, omega arith, omega arith)
  last_check l buf fast (err (BulkError.stopped e n), s) h = h
  last_check l buf fast (err BulkError.panicked, s) h = h

  pub write_drw_bulk-Wrote :
      (l buf : List ℕ) (fast : Bool) (s : Interface t.Wire)
      → IsLog t d l s
      → Wrote l 0 buf (write_drw_bulk t buf fast s)
  unfolding write_drw_bulk
  write_drw_bulk-Wrote l [] fast s h = h ∙ sym (append-nil l)
  write_drw_bulk-Wrote l (v ∷ rest) fast s h =
      let buf = v ∷ rest in
      idle_step l 0 buf (check_and_update_dp_select t (SwdOp.ap_write drw_address) s) _
        (check_and_update_dp_select-IsLog t d l (SwdOp.ap_write drw_address) s h)
        (λ s₁ h₁.
          last_check l buf fast (write_items t buf (length buf) 0 s₁)
            (write_items-Wrote l buf (length buf) 0 s₁ h₁))
