-- ===== src/Swd/Wire/Entry.antt =====
-- The line sequences with which `reset_sequence_v1` and `reset_sequence_v2` of
-- airfrog-swd/src/interface.rs wake the target, before any transfer.
use mathlib.Core.List.{append-nil}
use airfrog.Prelude.{
  ℕ, zero, suc, ◌≡◌, refl, sym, ◌∙◌, ap, Bool, true, false, List, [], ◌∷◌, ◌++◌, map, some,
  replicate,
}
use airfrog.Swd.Parity.{bits}
use airfrog.Swd.Wire.Hal.{Event, view}
use airfrog.Swd.Wire.Protocol.{
  Protocol, Step, ◌>>◌, emit, set_swdio_high, set_swdio_low, set_swdio_output, set_swclk_low, clock,
  write_bits,
}
use airfrog.Swd.Wire.Reset.{
  reset_prep, pre_line_reset, line_reset_after, jtag_to_swd, jtag_to_swd_sequence, swd_to_dormant,
  swd_to_dormant_sequence, pre_sel_alert_seq, write_words, sel_alert_seq, post_sel_alert_seq,
  swd_act_code, swd_activation_code,
}
use airfrog.Swd.Wire.Driven.{Sends, Sent-trans, clock-Sends, write_bits-Sends}

-- `Timer::after(Duration::from_micros(100))`
abbrev pub pause_100 : Step
pause_100 = emit (Event.after_micros 100)

-- `reset_sequence_v1` up to the write of TARGETSEL, which begins with `reset_prep`.
unfoldable pub wake_v1 : Step
wake_v1 = do
  pre_line_reset
  pause_100
  swd_to_dormant_sequence
  pause_100
  pre_line_reset
  pause_100
  jtag_to_swd_sequence
  pause_100
  line_reset_after

unfoldable pub enter_v1 : Step
enter_v1 = do reset_prep; wake_v1

-- `reset_sequence_v2` up to its first transfer.
unfoldable pub wake_v2 : Step
wake_v2 = do
  pre_line_reset
  pause_100
  swd_to_dormant_sequence
  pause_100
  pre_line_reset
  pause_100
  pre_sel_alert_seq
  sel_alert_seq
  post_sel_alert_seq
  swd_act_code
  line_reset_after

unfoldable pub enter_v2 : Step
enter_v2 = do reset_prep; wake_v2

-- A step that, on a driven line with the clock low, sends these levels and leaves the line so.
unfoldable Sender : Step → List Bool → Type 0
Sender step levels =
    (p : Protocol)
    → (view p.trace).driven ≡ true
    → (view p.trace).clock ≡ false
    → Sends step p (map some levels) true

map-append : (xs ys : List Bool) → map some (xs ++ ys) ≡ map some xs ++ map some ys
map-append [] ys = refl
map-append (x ∷ xs) ys = ap (◌∷◌ (some x)) (map-append xs ys)

map-replicate : (n : ℕ) (b : Bool) → map some (replicate n b) ≡ replicate n (some b)
map-replicate zero b = refl
map-replicate (suc n) b = ap (◌∷◌ (some b)) (map-replicate n b)

both : (a b : Step) (xs ys : List Bool) → Sender a xs → Sender b ys → Sender (a >> b) (xs ++ ys)
unfolding Sender
both a b xs ys f g p d c =
    let first = f p d c in
    let second = g (a p) first.1 first.2 in
    rw map-append (Sent-trans p (a p) (b (a p)) (map some xs) (map some ys) true true first second)

paused : Sender pause_100 []
unfolding Sender
paused p d c = (sym (append-nil _), d, c)

level_clocks :
    (n : ℕ) (b : Bool) (p : Protocol)
    → (view p.trace).driven ≡ true
    → (view p.trace).level ≡ b
    → Sends (clock n) p (map some (replicate n b)) true
level_clocks n b p d l =
    let (e, d', c) = clock-Sends n p in rw map-replicate (rw (d, l) at e, d' ∙ d, c)

pre_line_reset-Sender : Sender pre_line_reset (replicate 51 true)
unfolding Sender pre_line_reset
pre_line_reset-Sender p d c = level_clocks 51 true (set_swdio_high p) d refl

line_reset_after-Sender : Sender line_reset_after (replicate 51 true ++ replicate 3 false)
unfolding Sender line_reset_after
line_reset_after-Sender p d c =
    let high = set_swdio_high (set_swdio_output p) in
    let low = set_swdio_low (clock 51 high) in
    let first = level_clocks 51 true high refl refl in
    let second = level_clocks 3 false low first.1 refl in
    Sent-trans p (clock 51 high) (clock 3 low) (replicate 51 (some true)) (replicate 3 (some false))
      true true first second

word_then_high : (n w : ℕ) → Sender (do write_bits n w; set_swdio_high; set_swclk_low) (bits n w)
unfolding Sender
word_then_high n w p d c = let (e, d', _) = write_bits-Sends n w p d in (e, d', refl)

jtag_to_swd-Sender : Sender jtag_to_swd_sequence (bits 16 jtag_to_swd)
unfolding jtag_to_swd_sequence
jtag_to_swd-Sender = word_then_high 16 jtag_to_swd

swd_to_dormant-Sender : Sender swd_to_dormant_sequence (bits 16 swd_to_dormant)
unfolding swd_to_dormant_sequence
swd_to_dormant-Sender = word_then_high 16 swd_to_dormant

wake_v1-Sender : Sender wake_v1 (
    replicate 51 true
    ++ bits 16 0xe3bc
    ++ replicate 51 true
    ++ bits 16 0xe79e
    ++ replicate 51 true
    ++ replicate 3 false)
unfolding wake_v1
wake_v1-Sender = both _ _ _ _ pre_line_reset-Sender (
    both _ _ _ _ paused (
      both _ _ _ _ swd_to_dormant-Sender (
        both _ _ _ _ paused (
          both _ _ _ _ pre_line_reset-Sender (
            both _ _ _ _ paused
              (both _ _ _ _ jtag_to_swd-Sender (both _ _ _ _ paused line_reset_after-Sender)))))))

-- The entry to SWD of version 1, from any state of the lines, shows the target exactly this on a
-- driven line: 51 high levels, the 16-bit selection of the dormant state, 51 high levels, the 16-bit
-- switch from JTAG to SWD, and a line reset of 51 high levels and 3 low ones.
pub enter_v1-Sends :
    (p : Protocol)
    → Sends enter_v1 p
        (map some (
          replicate 51 true
          ++ bits 16 0xe3bc
          ++ replicate 51 true
          ++ bits 16 0xe79e
          ++ replicate 51 true
          ++ replicate 3 false))
        true
unfolding enter_v1 Sender reset_prep
enter_v1-Sends p = wake_v1-Sender (reset_prep p) refl refl

pre_sel_alert-Sender : Sender pre_sel_alert_seq (replicate 8 true)
unfolding Sender pre_sel_alert_seq
pre_sel_alert-Sender p d c = level_clocks 8 true (set_swdio_high (set_swdio_output p)) refl refl

post_sel_alert-Sender : Sender post_sel_alert_seq (replicate 4 false)
unfolding Sender post_sel_alert_seq
post_sel_alert-Sender p d c = level_clocks 4 false (set_swdio_low p) d refl

write_bits-Sender : (n w : ℕ) → Sender (write_bits n w) (bits n w)
unfolding Sender
write_bits-Sender n w p d c = write_bits-Sends n w p d

-- The selection alert: four 32-bit words, lowest bit first.
abbrev pub alert_bits : List Bool
alert_bits = bits 32 0x6209f392 ++ bits 32 0x86852d95 ++ bits 32 0xe3ddafe9 ++ bits 32 0x19bc0ea2

sel_alert-Sender : Sender sel_alert_seq alert_bits
unfolding sel_alert_seq write_words
sel_alert-Sender = both _ _ _ _ (write_bits-Sender 32 0x6209f392) (
    both _ _ _ _ (write_bits-Sender 32 0x86852d95)
      (both _ _ _ _ (write_bits-Sender 32 0xe3ddafe9) (write_bits-Sender 32 0x19bc0ea2)))

act_code-Sender : Sender swd_act_code (bits 8 0x1a)
unfolding swd_act_code
act_code-Sender = write_bits-Sender 8 swd_activation_code

wake_v2-Sender : Sender wake_v2 (
    replicate 51 true
    ++ bits 16 0xe3bc
    ++ replicate 51 true
    ++ replicate 8 true
    ++ alert_bits
    ++ replicate 4 false
    ++ bits 8 0x1a
    ++ replicate 51 true
    ++ replicate 3 false)
unfolding wake_v2
wake_v2-Sender = both _ _ _ _ pre_line_reset-Sender (
    both _ _ _ _ paused (
      both _ _ _ _ swd_to_dormant-Sender (
        both _ _ _ _ paused (
          both _ _ _ _ pre_line_reset-Sender (
            both _ _ _ _ paused (
              both _ _ _ _ pre_sel_alert-Sender (
                both _ _ _ _ sel_alert-Sender (
                  both _ _ _ _ post_sel_alert-Sender
                    (both _ _ _ _ act_code-Sender line_reset_after-Sender)))))))))

-- The entry to SWD of version 2, from any state of the lines, shows the target exactly this on a
-- driven line: 51 high levels, the 16-bit selection of the dormant state, 59 high levels, the 128-bit
-- selection alert, 4 low levels, the 8-bit activation code, and a line reset of 51 high levels and 3
-- low ones.
pub enter_v2-Sends :
    (p : Protocol)
    → Sends enter_v2 p
        (map some (
          replicate 51 true
          ++ bits 16 0xe3bc
          ++ replicate 51 true
          ++ replicate 8 true
          ++ alert_bits
          ++ replicate 4 false
          ++ bits 8 0x1a
          ++ replicate 51 true
          ++ replicate 3 false))
        true
unfolding enter_v2 Sender reset_prep
enter_v2-Sends p = wake_v2-Sender (reset_prep p) refl refl
