-- ===== src/Swd/Debug/Program.antt =====
-- Flash programming of `DebugInterface` in airfrog-swd/src/debug.rs. Each polling loop is given `n`
-- rounds.
use airfrog.Prelude.{
  ℕ, Bool, true, false, not, if◌then◌else◌, ◌+◌, ◌*◌, ◌%◌, ◌^◌, ◌==◌, bit_and, bit_or, List, [],
  ◌∷◌,
}
use airfrog.Bin.Error.{Result, ok, err}
use airfrog.Core.Fields.{u32_not}
use airfrog.Core.Stm.Flash.{
  f4_cr, f4_sr, g0_cr, g0_sr, pg, psize_mask, psize_x8, psize_x16, psize_x32, f4_busy, f4_errors,
  g0_busy, g0_errors,
}
use airfrog.Swd.Error.{SwdError}
use airfrog.Swd.Debug.{
  TargetMemory, Run, pure, fail, ◌>>=◌, ◌>>◌, ignoring, lifted, read, write, set_addr_inc, poll,
  finished, set_bits, clear_bits, stm32g0_wait_not_busy, stm32g0_clear_status, on_flash,
}
use airfrog.Swd.Debug.Splice.{OperationBytes, base_of, rmw_words}

-- A result that is already known, as a step.
abbrev pub known : {S A : Type 0} → Result SwdError A → Run S A
known r s = lifted (r, s)

-- `psize` of `write_flash`.
unfoldable pub psize_of : OperationBytes → ℕ → Result SwdError ℕ
psize_of OperationBytes.byte1 addr = ok psize_x8
psize_of OperationBytes.byte2 addr =
    if not (bit_and addr 1 == 0) then err SwdError.api else ok psize_x16
psize_of OperationBytes.byte4 addr =
    if not (bit_and addr 3 == 0) then err SwdError.api else ok psize_x32

-- `flash_cr &= !(PSIZE_MASK << PSIZE_SHIFT); flash_cr |= psize << PSIZE_SHIFT;`
unfoldable pub with_psize : ℕ → ℕ → ℕ
with_psize cr psize = bit_or (bit_and cr (u32_not (psize_mask * 2 ^ 8))) (psize * 2 ^ 8)

module _ (m : TargetMemory) (n : ℕ) where
  -- What follows the loop of `execute_stm32g0_program_doubleword`: on errors PG is cleared, if it can
  -- be.
  abbrev pub programmed : Bool → Run m.State (Unit {0})
  programmed true = clear_bits m g0_cr pg
  programmed false = do
    cr ← read m g0_cr
    λ s. ignoring (write m g0_cr (bit_and cr (u32_not pg)) s)
    fail SwdError.operation_failed

  -- From the wait on.
  unfoldable pub program_steps : ℕ → ℕ → ℕ → Run m.State (Unit {0})
  program_steps addr lo hi = do
    stm32g0_wait_not_busy m n
    stm32g0_clear_status m
    set_bits m g0_cr pg
    write m addr lo
    write m (addr + 4) hi
    done ← poll m g0_errors g0_busy g0_sr n
    programmed done

  unfoldable pub execute_stm32g0_program_doubleword : ℕ → ℕ → ℕ → Run m.State (Unit {0})
  execute_stm32g0_program_doubleword addr lo hi =
      if not (bit_and addr 0x7 == 0) then fail SwdError.api else program_steps addr lo hi

  unfoldable pub stm32g0_write_rmw : ℕ → ℕ → OperationBytes → Run m.State (Unit {0})
  stm32g0_write_rmw addr word bytes = do
    lo ← read m (base_of addr)
    hi ← read m (base_of addr + 4)
    (lo', hi') ← known (rmw_words bytes addr word lo hi)
    execute_stm32g0_program_doubleword (base_of addr) lo' hi'

  unfoldable pub execute_stm32f4_program : ℕ → Run m.State (Unit {0})
  execute_stm32f4_program flash_cr = do
    write m f4_cr (bit_or flash_cr pg)
    done ← poll m f4_errors f4_busy f4_sr n
    finished m done

  unfoldable pub write_flash_f4 : ℕ → ℕ → OperationBytes → Run m.State (Unit {0})
  write_flash_f4 addr word bytes = do
    psize ← known (psize_of bytes addr)
    flash_cr ← read m f4_cr
    write m addr word
    execute_stm32f4_program (with_psize flash_cr psize)

  unfoldable pub write_flash : ℕ → ℕ → OperationBytes → Run m.State (Unit {0})
  write_flash addr word bytes =
      on_flash m (λ _. write_flash_f4 addr word bytes) (λ _. stm32g0_write_rmw addr word bytes)

  unfoldable pub write_flash_u8 : ℕ → ℕ → Run m.State (Unit {0})
  write_flash_u8 addr word = write_flash addr word OperationBytes.byte1

  unfoldable pub write_flash_u16 : ℕ → ℕ → Run m.State (Unit {0})
  write_flash_u16 addr word =
      if not (bit_and addr 1 == 0)
      then fail SwdError.api
      else write_flash addr word OperationBytes.byte2

  unfoldable pub write_flash_u32 : ℕ → ℕ → Run m.State (Unit {0})
  write_flash_u32 addr word = write_flash addr word OperationBytes.byte4

  -- What follows the loop for one word: on errors the address increment is switched off, if it can
  -- be.
  abbrev pub word_done : Bool → Run m.State (Unit {0})
  word_done true = pure tt
  word_done false = do λ s. ignoring (set_addr_inc m false s); fail SwdError.operation_failed

  -- `addr + (i as u32 * 4)` wraps.
  unfoldable pub write_words_f4 : ℕ → ℕ → List ℕ → Run m.State (Unit {0})
  write_words_f4 addr i [] = pure tt
  write_words_f4 addr i (word ∷ words) = do
    write m ((addr + i * 4) % 2 ^ 32) word
    done ← poll m f4_errors f4_busy f4_sr n
    word_done done
    write_words_f4 addr (i + 1) words

  unfoldable pub write_bulk_f4 : ℕ → List ℕ → Run m.State (Unit {0})
  write_bulk_f4 addr words = do
    set_addr_inc m true
    flash_cr ← read m f4_cr
    write m f4_cr (bit_or (with_psize flash_cr psize_x32) pg)
    write_words_f4 addr 0 words
    set_addr_inc m false

  -- The loop over the words that are left: two at a time where the address allows it and there are
  -- two.
  unfoldable pub write_words_g0 : ℕ → List ℕ → Run m.State (Unit {0})
  write_words_g0 addr [] = pure tt
  write_words_g0 addr (lo ∷ []) = stm32g0_write_rmw addr lo OperationBytes.byte4
  write_words_g0 addr (lo ∷ hi ∷ words) =
      let second = write_words_g0 ((addr + 4) % 2 ^ 32) (hi ∷ words) in
      let both = write_words_g0 ((addr + 8) % 2 ^ 32) words in
      if not (bit_and addr 0x7 == 0)
      then (do stm32g0_write_rmw addr lo OperationBytes.byte4; second)
      else (do execute_stm32g0_program_doubleword addr lo hi; both)

  unfoldable pub write_flash_bulk : ℕ → List ℕ → Run m.State (Unit {0})
  write_flash_bulk addr words =
      on_flash m (λ _. write_bulk_f4 addr words) (λ _. write_words_g0 addr words)
