-- ===== src/Swd/Interface/Memory/Reports.antt =====
-- What a bulk read of memory reports is what it stored.
use airfrog.Prelude.{
  ℕ, zero, suc, ◌+◌, ◌-◌, ◌*◌, ◌%◌, ◌^◌, ◌==◌, ◌≡◌, ◌≤◌, ◌<◌, refl, arith, Bool, Bool-cases, inl,
  inr, List, [], ◌++◌, length, length-append, bit_and,
}
use airfrog.Prelude.Bits.{bit_and_low_mask}
use airfrog.Bin.Error.{Result, ok, err}
use airfrog.Swd.Error.{SwdError}
use airfrog.Swd.Interface.State.{Transport, Interface}
use airfrog.Swd.Interface.Access.{write_ap_register}
use airfrog.Swd.Interface.Bulk.{BulkError, Stored, BulkRead, step, read_drw_bulk}
use airfrog.Swd.Interface.Bulk.Counts.{Accounts, read_drw_bulk-Accounts}
use airfrog.Swd.Interface.Memory.{tar_address, chunk_size, after_chunk, read_chunks, read_mem_bulk}
use airfrog.Swd.Interface.Memory.Chunks.{chunk_size-bounds}

-- The result of a read of `count` words agrees with the words stored: all of them after a success,
-- and after an error as many as the error says. There is no panic.
abbrev pub Reports : ℕ → Result BulkError (Unit {0}) × List ℕ → Type 0
Reports count (ok _, words) = length words ≡ count
Reports count (err (BulkError.stopped e n), words) = (n ≡ length words) × (n ≤ count)
Reports count (err BulkError.panicked, words) = ⊥

step-Reports :
    {W A : Type 0} (count : ℕ) (words : List ℕ) (x : Result SwdError A × Interface W)
    (f : A → BulkRead W)
    → length words ≤ count
    → ((a : A) (s : Interface W) → Reports count (f a s).0)
    → Reports count (step words x f).0
step-Reports count words (ok a, s) f h k = k a s
step-Reports count words (err e, s) f h k = (refl, h)

after_chunk-Reports :
    {W : Type 0} (count chunk : ℕ) (words : List ℕ) (x : Stored W) (f : List ℕ → BulkRead W)
    → 0 < chunk
    → length words + chunk ≤ count
    → Accounts chunk x.0
    → ((more : List ℕ) (s : Interface W) → length more ≡ chunk → Reports count (f more s).0)
    → Reports count (after_chunk words x f).0
after_chunk-Reports count chunk words ((ok _, more), s) f c h r k = k more s r
after_chunk-Reports count chunk words ((err (BulkError.stopped e n), more), s) f c h (r, b) k =
    (omega (arith, length-append words more), omega arith)
after_chunk-Reports count chunk words ((err BulkError.panicked, more), s) f c h r k =
    absurd (omega arith)

module _ (t : Transport) (fast : Bool) where
  read_chunks-Reports :
      (rounds addr remaining count : ℕ) (words : List ℕ) (s : Interface t.Wire)
      → remaining ≤ rounds
      → addr % 4 ≡ 0
      → length words + remaining ≡ count
      → Reports count (read_chunks t rounds addr remaining fast words s).0
  unfolding read_chunks
  read_chunks-Reports zero addr remaining count words s h a e = omega arith
  read_chunks-Reports (suc rounds) addr remaining count words s h a e =
      elim (Bool-cases (remaining == 0)) [
        | inl z ↦ let none_left : remaining ≡ 0 = ground arith in rw z (omega arith)
        | inr z ↦
            let some_left : 0 < remaining = ground arith in
            let chunk = chunk_size addr remaining in
            let (c, b, _) = chunk_size-bounds addr remaining a some_left in
            rw z (
              step-Reports count words (write_ap_register t tar_address addr s) _ (omega arith)
                (λ _ s₁.
                  after_chunk-Reports count chunk words (read_drw_bulk t chunk fast s₁) _ c
                    (omega arith) (read_drw_bulk-Accounts t fast chunk s₁)
                    (λ more s₂ m.
                      read_chunks-Reports rounds ((addr + chunk * 4) % 2 ^ 32) (remaining - chunk)
                        count (words ++ more) s₂ (omega arith) (omega arith)
                        (omega (arith, length-append words more)))))
      ]

  -- A bulk read of `count` words of memory stores all of them if it succeeds, stores exactly as many
  -- as its error says if it fails, and never panics, for any address and count.
  pub read_mem_bulk-Reports :
      (addr count : ℕ) (s : Interface t.Wire) → Reports count (read_mem_bulk t addr count fast s).0
  unfolding read_mem_bulk
  read_mem_bulk-Reports addr count s = elim (Bool-cases (bit_and addr 0x3 == 0)) [
    | inl z ↦
        let aligned : addr % 4 ≡ 0 = ground (arith, bit_and_low_mask 2 addr) in
        rw z (read_chunks-Reports count addr count count [] s (omega arith) aligned (omega arith))
    | inr z ↦ rw z (refl, omega arith)
  ]
