-- ===== src/Swd/Debug/Examples.antt =====
-- The theorems on the flash operations at concrete inputs. The memory holds one word at each address
-- and a number of polls for which the flash is still busy.
use airfrog.Prelude.{
  inl, ℕ, ◌+◌, ◌-◌, ◌%◌, ◌^◌, ◌==◌, ◌≡◌, refl, arith, if◌then◌else◌, some, ◌++◌, take, drop,
}
use airfrog.Prelude.Bytes.{u32_to_le_bytes}
use airfrog.Bin.Error.{Result, ok}
use airfrog.Core.Rp.{RpLine}
use airfrog.Core.Mcu.{Mcu}
use airfrog.Swd.Error.{SwdError}
use airfrog.Swd.Interface.Target.{target_transport, ready}
use airfrog.Swd.Interface.Logged.{logged, logged_recalls, logging}
use airfrog.Swd.Debug.{TargetMemory}
use airfrog.Swd.Debug.Splice.{
  OperationBytes, rmw_words, splice, set_all, bytes_of, width, rmw_words-patch,
}
use airfrog.Swd.Debug.Erase.{execute_stm32f4_erase}
use airfrog.Swd.Debug.Polling.{execute_stm32f4_erase-outcome, outcome}
use airfrog.Swd.Debug.Connect.{reset_swd_target}
use airfrog.Swd.Debug.Connected.{Resolved, reset_swd_target-Resolved}

-- A flash that is busy for some polls.
answer_read : ℕ → ℕ → Result SwdError ℕ × ℕ
answer_read addr polls = (ok (if polls == 0 then 0 else 2 ^ 16), polls)

abbrev busy_memory : TargetMemory
busy_memory = record {
  State = ℕ;
  mcu = λ s. some (Mcu.rp RpLine.rp2040);
  read_mem = answer_read;
  write_mem = λ addr word s. (ok tt, s);
  set_addr_inc = λ b s. (ok tt, s);
  pause_1_ms = λ s. s - 1;
}

halfword_written :
    rmw_words OperationBytes.byte2 0x08000006 0xbeef 0x11223344 0x55667788
    ≡ ok (0x11223344, 0xbeef7788)
unfolding rmw_words splice set_all
halfword_written = refl

rmw_words-patch_example :
    bytes_of 0x11223344 0xbeef7788
    ≡ take (0x08000006 % 8) (bytes_of 0x11223344 0x55667788)
      ++ (take (width OperationBytes.byte2) (u32_to_le_bytes 0xbeef)
          ++ drop (0x08000006 % 8 + width OperationBytes.byte2) (bytes_of 0x11223344 0x55667788))
rmw_words-patch_example =
    rmw_words-patch OperationBytes.byte2 0x08000006 0xbeef 0x11223344 0x55667788 0x11223344
      0xbeef7788 (omega arith) halfword_written

execute_stm32f4_erase-outcome_example : (execute_stm32f4_erase busy_memory 4 2 3).0 ≡ outcome 0
unfolding answer_read
execute_stm32f4_erase-outcome_example =
    execute_stm32f4_erase-outcome busy_memory 3 4 0 2 3 refl
      (
        (2 ^ 16, refl, refl, refl),
        ((2 ^ 16, refl, refl, refl), ((2 ^ 16, refl, refl, refl), (refl, inl refl))),
      )
      (omega arith)

reset_swd_target-Resolved_example :
    Resolved
      (logged target_transport)
      (logged_recalls target_transport)
      (reset_swd_target (logged target_transport) (logging target_transport ready))
reset_swd_target-Resolved_example =
    reset_swd_target-Resolved (logged target_transport) (logged_recalls target_transport)
      (logging target_transport ready)
