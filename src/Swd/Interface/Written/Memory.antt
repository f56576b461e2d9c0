-- ===== src/Swd/Interface/Written/Memory.antt =====
-- Which words a bulk write of memory has written, whatever its result.
use mathlib.Core.List.{append-nil, append_assoc}
use airfrog.Prelude.{
  ℕ, zero, suc, ◌+◌, ◌*◌, ◌%◌, ◌^◌, ◌≡◌, ◌≤◌, ◌<◌, ◌==◌, ◌∙◌, refl, sym, ap, arith, Bool,
  Bool-cases, inl, inr, List, [], ◌∷◌, ◌++◌, length, take, drop, take-append-drop, length-take,
  length-drop, bit_and,
}
use airfrog.Prelude.Bits.{bit_and_low_mask}
use airfrog.Bin.Error.{Result, ok, err}
use airfrog.Swd.Interface.State.{Transport, Interface, Act, continue}
use airfrog.Swd.Interface.Access.{write_ap_register}
use airfrog.Swd.Interface.Bulk.{BulkError, write_drw_bulk}
use airfrog.Swd.Interface.Memory.{tar_address, chunk_size, adding, write_chunks, write_mem_bulk}
use airfrog.Swd.Interface.Memory.Chunks.{chunk_size-bounds}
use airfrog.Swd.Interface.Written.{DrwLog, IsLog, write_tar-IsLog}
use airfrog.Swd.Interface.Written.Words.{Wrote, Wrote-after, idle_step, write_drw_bulk-Wrote}

module _ (t : Transport) (d : DrwLog t) where
  -- A chunk written from the words `first`, and what follows it.
  chunk_step :
      (l : List ℕ) (base : ℕ) (first rest : List ℕ)
      (x : Result BulkError (Unit {0}) × Interface t.Wire)
      (f : Unit {0} → Act t.Wire BulkError (Unit {0}))
      → Wrote t d l 0 first x
      → ((s : Interface t.Wire)
          → IsLog t d (l ++ first) s
          → Wrote t d (l ++ first) (base + length first) rest (f tt s))
      → Wrote t d l base (first ++ rest) (continue (adding base x) f)
  chunk_step l base first rest (ok _, s) f h k = Wrote-after t d l first base rest (f tt s) (k s h)
  chunk_step l base first rest (err (BulkError.stopped e n), s) f
        (sent, left, whole, logged, low, high) k =
      (
        sent,
        left ++ rest,
        ap (λ m. m ++ rest) whole ∙ append_assoc sent left rest,
        logged,
        omega arith,
        omega arith,
      )
  chunk_step l base first rest (err BulkError.panicked, s) f h k = h

  write_chunks-Wrote :
      (l : List ℕ) (rounds addr : ℕ) (words : List ℕ) (fast : Bool) (base : ℕ)
      (s : Interface t.Wire)
      → length words ≤ rounds
      → addr % 4 ≡ 0
      → IsLog t d l s
      → Wrote t d l base words (write_chunks t rounds addr words fast base s)
  unfolding write_chunks
  write_chunks-Wrote l rounds addr [] fast base s fits a h = h ∙ sym (append-nil l)
  write_chunks-Wrote l zero addr (v ∷ rest) fast base s fits a h = absurd (omega arith)
  write_chunks-Wrote l (suc rounds) addr (v ∷ rest) fast base s fits a h =
      let words = v ∷ rest in
      let some_left : 0 < length words = omega arith in
      let chunk = chunk_size addr (length words) in
      let (c, b, _) = chunk_size-bounds addr (length words) a some_left in
      let first = take chunk words in
      let later = drop chunk words in
      let long : length first ≡ chunk = length-take chunk words b in
      let next = (addr + chunk * 4) % 2 ^ 32 in
      rw (take-append-drop chunk words) at (
        idle_step t d l base (first ++ later) (write_ap_register t tar_address addr s)
          (λ _ s₁.
            continue (adding base (write_drw_bulk t first fast s₁))
              (λ _. write_chunks t rounds next later fast (base + chunk)))
          (write_tar-IsLog t d l addr s h)
          (λ s₁ h₁.
            chunk_step l base first later (write_drw_bulk t first fast s₁) _
              (write_drw_bulk-Wrote t d l first fast s₁ h₁)
              (λ s₂ h₂. rw long (
                write_chunks-Wrote (l ++ first) rounds next later fast (base + chunk) s₂
                  (omega (arith, length-drop chunk words)) (omega arith) h₂))))

  -- A bulk write of memory that succeeds has written all its words, in order and once each. One that
  -- fails has written the first of them, in order and once each, as many as its error says or one
  -- more. It never panics. The words written are those of
  -- the acknowledged writes of DRW, from any log `l` on.
  pub write_mem_bulk-Wrote :
      (l : List ℕ) (addr : ℕ) (buf : List ℕ) (fast : Bool) (s : Interface t.Wire)
      → IsLog t d l s
      → Wrote t d l 0 buf (write_mem_bulk t addr buf fast s)
  unfolding write_mem_bulk
  write_mem_bulk-Wrote l addr buf fast s h = elim (Bool-cases (bit_and addr 0x3 == 0)) [
    | inl z ↦
        let aligned : addr % 4 ≡ 0 = ground (arith, bit_and_low_mask 2 addr) in
        rw z (write_chunks-Wrote l (length buf) addr buf fast 0 s (omega arith) aligned h)
    | inr z ↦ rw z ([], buf, refl, h ∙ sym (append-nil l), omega arith, omega arith)
  ]
