-- ===== src/Swd/Wire/Reset.antt =====
-- The reset and activation sequences of `SwdProtocol` in airfrog-swd/src/protocol.rs.
use airfrog.Prelude.{ℕ, List, [], ◌∷◌}
use airfrog.Swd.Wire.Hal.{Event}
use airfrog.Swd.Wire.Protocol.{
  Step, ◌>>◌, emit, clock, write_bits, set_swdio_output, set_swdio_high, set_swdio_low,
  set_swclk_low,
}

-- The constants of the module; `JTAG_TO_SWD_SEQUENCE` is 0b0111100111100111 with its bits reversed.
abbrev pub jtag_to_swd_documented : ℕ
jtag_to_swd_documented = 0b0111100111100111

abbrev pub jtag_to_swd : ℕ
jtag_to_swd = 0xe79e

abbrev pub swd_to_dormant : ℕ
swd_to_dormant = 0xe3bc

abbrev pub selection_alert : List ℕ
selection_alert = 0x6209_f392 ∷ 0x8685_2d95 ∷ 0xe3dd_afe9 ∷ 0x19bc_0ea2 ∷ []

abbrev pub line_reset_high_cycles : ℕ
line_reset_high_cycles = 51

abbrev pub line_reset_low_cycles : ℕ
line_reset_low_cycles = 3

abbrev pub dormant_exit_high_cycles : ℕ
dormant_exit_high_cycles = 8

abbrev pub dormant_exit_low_cycles : ℕ
dormant_exit_low_cycles = 4

abbrev pub swd_activation_code : ℕ
swd_activation_code = 0x1a

unfoldable pub reset_prep : Step
reset_prep = do set_swdio_output; set_swdio_low; set_swclk_low; emit (Event.after_micros 500)

unfoldable pub pre_line_reset : Step
pre_line_reset = do set_swdio_high; clock line_reset_high_cycles

unfoldable pub line_reset_after : Step
line_reset_after = do
  set_swdio_output
  set_swdio_high
  clock line_reset_high_cycles
  set_swdio_low
  clock line_reset_low_cycles
  emit (Event.after_micros 100)

unfoldable pub jtag_to_swd_sequence : Step
jtag_to_swd_sequence = do write_bits 16 jtag_to_swd; set_swdio_high; set_swclk_low

unfoldable pub swd_to_dormant_sequence : Step
swd_to_dormant_sequence = do write_bits 16 swd_to_dormant; set_swdio_high; set_swclk_low

unfoldable pub pre_sel_alert_seq : Step
pre_sel_alert_seq = do set_swdio_output; set_swdio_high; clock dormant_exit_high_cycles

unfoldable pub write_words : List ℕ → Step
write_words [] p = p
write_words (w ∷ ws) p = write_words ws (write_bits 32 w p)

unfoldable pub sel_alert_seq : Step
sel_alert_seq = write_words selection_alert

unfoldable pub post_sel_alert_seq : Step
post_sel_alert_seq = do set_swdio_low; clock dormant_exit_low_cycles

unfoldable pub swd_act_code : Step
swd_act_code = write_bits 8 swd_activation_code
