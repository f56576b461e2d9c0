-- ===== src/Swd/Interface/Examples.antt =====
-- The theorems on `SwdInterface` at concrete inputs, over the target of Swd/Interface/Target.
use airfrog.Prelude.{ℕ, ◌/◌, ◌%◌, ◌^◌, ◌≡◌, refl, arith, true, false}
use airfrog.Bin.Error.{ok}
use airfrog.Swd.Command.{SwdOp, check_dp_select, requires_power_up}
use airfrog.Swd.Interface.State.{Interface, new_interface}
use airfrog.Swd.Interface.Access.{
  needs_select, rd_buff_address, check_and_update_dp_select, write_operation, read_ap_operation,
  write_wire, read_wire, check_dp_errors, read_ctrl_stat, errors_of, refused, read_ap_steps,
}
use airfrog.Core.CtrlStat.{has_errors, readok}
use airfrog.Swd.Interface.Coherent.{IsCoherent}
use airfrog.Swd.Interface.Routed.{read_ap_operation-routed}
use airfrog.Swd.Interface.Bulk.{read_drw_bulk}
use airfrog.Swd.Interface.Bulk.Counts.{Accounts, read_drw_bulk-Accounts}
use airfrog.Swd.Interface.Memory.{read_mem_bulk}
use airfrog.Swd.Interface.Memory.Reports.{Reports, read_mem_bulk-Reports}
use airfrog.Swd.Interface.Raw.{read_ap_register_raw}
use airfrog.Swd.Interface.Raw.Power.{is_err, read_ap_register_raw-check_power}
use airfrog.Prelude.{[], ◌∷◌}
use airfrog.Swd.Interface.Memory.{write_mem_bulk}
use airfrog.Swd.Interface.Written.Words.{Wrote}
use airfrog.Swd.Interface.Written.Memory.{write_mem_bulk-Wrote}
use airfrog.Swd.Interface.Written.{IsLog}
use airfrog.Swd.Interface.Target.{
  Target, answer_write, answer_read, target_transport, target_selects, target_log, ready,
}

coherent : IsCoherent target_transport target_selects ready
unfolding new_interface
coherent = refl

abbrev read_idr : SwdOp
read_idr = SwdOp.ap_read 0xfc

abbrev address_set : Interface Target
address_set = (write_operation target_transport (SwdOp.ap_write 0x04) 0x20000000 true ready).1

abbrev word_read : Interface Target
word_read = (read_ap_operation target_transport 0x0c true ready).1

word_answered : read_ap_operation target_transport 0x0c true ready ≡ (ok 1, word_read)
unfolding read_ap_operation refused requires_power_up read_ap_steps check_and_update_dp_select
    readok needs_select check_dp_select new_interface write_wire answer_write check_dp_errors
    read_ctrl_stat read_wire answer_read errors_of has_errors
word_answered = refl

read_ap_operation-routed_example :
    (s₁ s₂ s₃ : Interface Target) × (check_and_update_dp_select target_transport
        (SwdOp.ap_read 0x0c)
        ready
      ≡ (ok tt, s₁))
    × (s₁.protocol.select / 2 ^ 4 % 2 ^ 4 ≡ 0x0c / 2 ^ 4)
    × ((r : ℕ) × (read_wire target_transport (SwdOp.ap_read 0x0c) false s₁ ≡ (ok r, s₂)))
    × (check_dp_errors target_transport true s₂ ≡ (ok tt, s₃))
    × (read_wire target_transport (SwdOp.dp_read rd_buff_address) true s₃ ≡ (ok 1, word_read))
    × IsCoherent target_transport target_selects word_read
read_ap_operation-routed_example =
    read_ap_operation-routed target_transport target_selects 0x0c true ready word_read 1
      (omega arith) coherent word_answered

read_drw_bulk-Accounts_example : Accounts 3 (read_drw_bulk target_transport 3 true ready).0
read_drw_bulk-Accounts_example = read_drw_bulk-Accounts target_transport true 3 ready

read_mem_bulk-Reports_example :
    Reports 9 (read_mem_bulk target_transport 0x200003f8 9 false ready).0
read_mem_bulk-Reports_example = read_mem_bulk-Reports target_transport false 0x200003f8 9 ready

read_ap_register_raw-check_power_example :
    (read_ap_register_raw target_transport 0 0xfc ready).1.check_power
    ≡ is_err (read_ap_register_raw target_transport 0 0xfc ready).0
read_ap_register_raw-check_power_example =
    read_ap_register_raw-check_power target_transport 0 0xfc ready

nothing_written : IsLog target_transport target_log [] ready
unfolding new_interface
nothing_written = refl

write_mem_bulk-Wrote_example :
    Wrote target_transport target_log [] 0
      (7 ∷ 8 ∷ 9 ∷ [])
      (write_mem_bulk target_transport 0x200003f8 (7 ∷ 8 ∷ 9 ∷ []) true ready)
write_mem_bulk-Wrote_example =
    write_mem_bulk-Wrote target_transport target_log [] 0x200003f8 (7 ∷ 8 ∷ 9 ∷ []) true ready
      nothing_written
