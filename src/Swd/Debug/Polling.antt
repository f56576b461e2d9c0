-- ===== src/Swd/Debug/Polling.antt =====
-- The polling loop of the erasure of an STM32F4, in airfrog-swd/src/debug.rs.
use airfrog.Prelude.{
  ℕ, zero, suc, ◌<◌, ◌≡◌, ◌+◌, ◌*◌, ◌/◌, ◌%◌, ◌^◌, ◌==◌, refl, arith, true, false, bit_and, bit_or,
  ◌⊎◌, inl, inr, if◌then◌else◌,
}
use airfrog.Prelude.Bits.{bit_and_fields, bit_and_low_mask}
use airfrog.Core.Fields.{bit_and-pow}
use airfrog.Bin.Error.{Result, ok, err}
use airfrog.Core.Stm.Flash.{f4_cr, f4_sr, strt, f4_busy, f4_errors}
use airfrog.Swd.Error.{SwdError}
use airfrog.Swd.Debug.{TargetMemory, DebugError, lifted, continue, read, write, poll, finished}
use airfrog.Swd.Debug.Erase.{execute_stm32f4_erase}

-- The fields of FLASH_SR of an STM32F4: BSY is bit 16, and the errors are bits 1 and 4 to 8.
abbrev pub bsy : ℕ → ℕ
bsy sr = sr / 2 ^ 16 % 2

abbrev pub error_bits : ℕ → ℕ
error_bits sr = sr / 2 % 2 + sr / 2 ^ 4 % 2 ^ 5

busy_lem : (sr : ℕ) → bsy sr ≡ 1 → f4_busy sr ≡ true
unfolding f4_busy
busy_lem sr h = ground (arith, bit_and_low_mask 1 (sr / 2 ^ 16))

idle_lem : (sr : ℕ) → bsy sr ≡ 0 → f4_busy sr ≡ false
unfolding f4_busy
idle_lem sr h = ground (arith, bit_and_low_mask 1 (sr / 2 ^ 16))

masked : (sr : ℕ) → bit_and sr 0x1f2 ≡ sr / 2 ^ 4 % 2 ^ 5 * 16 + sr / 2 % 2 * 2
masked sr = ground (
  arith,
  bit_and_fields 4 (sr / 16) (sr % 16) 0x1f 2 (omega arith) (omega arith),
  bit_and_low_mask 5 (sr / 16),
  bit_and-pow 1 (sr % 16),
)

clean_lem : (sr : ℕ) → error_bits sr ≡ 0 → f4_errors sr ≡ false
unfolding f4_errors
clean_lem sr h = ground (arith, masked sr)

errors_lem : (sr : ℕ) → 0 < error_bits sr → f4_errors sr ≡ true
unfolding f4_errors
errors_lem sr h = ground (arith, masked sr)

zero_or_positive : (k : ℕ) → (k ≡ 0) ⊎ (0 < k)
zero_or_positive zero = inl refl
zero_or_positive (suc k) = inr (omega arith)

-- What an operation of the flash ends in, by the status that it has left.
abbrev pub outcome : ℕ → Result DebugError (Unit {0})
outcome sr = if error_bits sr == 0 then ok tt else err (DebugError.failed SwdError.operation_failed)

module _ (m : TargetMemory) where
  -- The status is read this many times with BSY set and no error, and the next time is this one, with
  -- BSY clear or with an error.
  abbrev pub Polls : ℕ → ℕ → m.State → Type 0
  Polls zero last s = ((m.read_mem f4_sr s).0 ≡ ok last) × ((bsy last ≡ 0) ⊎ (0 < error_bits last))
  Polls (suc k) last s =
      ((sr : ℕ) × ((m.read_mem f4_sr s).0 ≡ ok sr) × (bsy sr ≡ 1) × (error_bits sr ≡ 0))
      × Polls k last (m.pause_1_ms (m.read_mem f4_sr s).1)

  -- The rest of an operation that polls for its end.
  abbrev polled : ℕ → m.State → Result DebugError (Unit {0}) × m.State
  polled n s = continue (poll m f4_errors f4_busy f4_sr n s) (finished m)

  read-ok : (x : Result SwdError ℕ × m.State) (sr : ℕ) → x.0 ≡ ok sr → lifted x ≡ (ok sr, x.1)
  read-ok (ok a, s) sr h = let same : a ≡ sr = cc in rw same refl
  read-ok (err e, s) sr h = absurd cc

  polled-outcome :
      (k n last : ℕ) (s : m.State) → Polls k last s → k < n → (polled n s).0 ≡ outcome last
  unfolding poll read
  polled-outcome k zero last s h l = absurd (omega arith)
  polled-outcome zero (suc n) last s (e, h) l = elim h [
    | inr failing ↦
        let some_error : (error_bits last == 0) ≡ false = ground arith in
        rw (read-ok (m.read_mem f4_sr s) last e, errors_lem last failing, some_error) refl
    | inl idle ↦ elim (zero_or_positive (error_bits last)) [
      | inr failing ↦
          let some_error : (error_bits last == 0) ≡ false = ground arith in
          rw (read-ok (m.read_mem f4_sr s) last e, errors_lem last failing, some_error) refl
      | inl clean ↦
          rw (read-ok (m.read_mem f4_sr s) last e, clean_lem last clean, idle_lem last idle, clean)
            refl
    ]
  ]
  polled-outcome (suc k) (suc n) last s ((sr, e, b, c), h) l =
      rw (read-ok (m.read_mem f4_sr s) sr e, clean_lem sr c, busy_lem sr b)
        (polled-outcome k n last (m.pause_1_ms (m.read_mem f4_sr s).1) h (omega arith))

  begun : (x : Result SwdError (Unit {0}) × m.State) → x.0 ≡ ok tt → lifted x ≡ (ok tt, x.1)
  begun (ok _, s) h = refl
  begun (err e, s) h = absurd cc

  -- Once an STM32F4 has taken the start of an erasure, the erasure polls FLASH_SR: for every status
  -- with BSY (bit 16) set and no error (bits 1 and 4 to 8) it polls again, and the first other status
  -- is its end, with success if that has no error and a failed operation if it has one; if it is
  -- given more rounds than such statuses come before.
  pub execute_stm32f4_erase-outcome :
      (k n last cr : ℕ) (s : m.State)
      → (m.write_mem f4_cr (bit_or cr strt) s).0 ≡ ok tt
      → Polls k last (m.write_mem f4_cr (bit_or cr strt) s).1
      → k < n
      → (execute_stm32f4_erase m n cr s).0 ≡ outcome last
  unfolding execute_stm32f4_erase write
  execute_stm32f4_erase-outcome k n last cr s h i l =
      rw (begun (m.write_mem f4_cr (bit_or cr strt) s) h)
        (polled-outcome k n last (m.write_mem f4_cr (bit_or cr strt) s).1 i l)
