-- ===== src/Swd/Wire/Driven.antt =====
-- What the target sees of the writing steps: one driven level for each rising edge of the clock.
use mathlib.Core.List.{append-nil, append_assoc}
use airfrog.Prelude.{
  ℕ, zero, suc, ◌+◌, ◌*◌, ◌/◌, ◌%◌, ◌^◌, ◌<◌, ◌≡◌, refl, sym, ap, ◌∙◌, arith, Bool, true, false,
  List, [], ◌∷◌, ◌++◌, map, Option, none, some, ◌==◌, if◌then◌else◌, replicate, bit_and, bit_or,
}
use airfrog.Prelude.Bits.{bit_and_low_mask, bit_or_low_high}
use airfrog.Swd.Parity.{calculate_parity, bits, odd, calculate_parity-odd, bits_with_top}
use airfrog.Swd.Wire.Hal.{View, view}
use airfrog.Swd.Wire.Protocol.{
  Protocol, Step, set_swdio_input, write_bit, clock_loop, clock, write_bits_loop, write_bits,
  write_cmd_turnaround, turnaround_to_output, write_u32_parity,
}

-- What the target sees at a rising edge.
abbrev pub out : View → Option Bool
out v = if v.driven then some v.level else none

-- From one state to another, levels have been sent to the target, one at each rising edge, and
-- SWDIO is left driven or released and the clock low.
abbrev pub Sent : Protocol → Protocol → List (Option Bool) → Bool → Type 0
Sent p q sent driven =
    ((view q.trace).edges ≡ (view p.trace).edges ++ sent)
    × ((view q.trace).driven ≡ driven)
    × ((view q.trace).clock ≡ false)

abbrev pub Sends : Step → Protocol → List (Option Bool) → Bool → Type 0
Sends step p = Sent p (step p)

pub Sent-trans :
    (p q r : Protocol) (xs ys : List (Option Bool)) (d d' : Bool)
    → Sent p q xs d
    → Sent q r ys d'
    → Sent p r (xs ++ ys) d'
Sent-trans p q r xs ys d d' (e, _, _) (e', s, c) =
    (e' ∙ rw e (append_assoc (view p.trace).edges xs ys), s, c)

write_bit-edges :
    (b : Bool) (p : Protocol)
    → (view p.trace).driven ≡ true
    → ((view (write_bit b p).trace).edges ≡ (view p.trace).edges ++ some b ∷ [])
      × ((view (write_bit b p).trace).driven ≡ true)
unfolding write_bit
write_bit-edges true p d = (rw d refl, d)
write_bit-edges false p d = (rw d refl, d)

clock_loop-edges :
    (n : ℕ) (p : Protocol)
    → let v = view p.trace in
      ((view (clock_loop n p).trace).edges ≡ v.edges ++ replicate n (out v))
      × ((view (clock_loop n p).trace).driven ≡ v.driven)
      × ((view (clock_loop n p).trace).level ≡ v.level)
unfolding clock_loop
clock_loop-edges zero p = (sym (append-nil _), refl, refl)
clock_loop-edges (suc n) p =
    let (e, d, l) = clock_loop-edges n (clock_loop 1 p) in
    (e ∙ append_assoc (view p.trace).edges (out (view p.trace) ∷ []) _, d, l)

lowest_bit : (w : ℕ) → (bit_and w 1 == 1) ≡ (w % 2 == 1)
lowest_bit w = ap (λ (t : ℕ). t == 1) (bit_and_low_mask 1 w)

write_bits_loop-edges :
    (n w : ℕ) (p : Protocol)
    → (view p.trace).driven ≡ true
    → ((view (write_bits_loop n w p).trace).edges ≡ (view p.trace).edges ++ map some (bits n w))
      × ((view (write_bits_loop n w p).trace).driven ≡ true)
unfolding write_bits_loop
write_bits_loop-edges zero w p d = (sym (append-nil _), d)
write_bits_loop-edges (suc n) w p d =
    let b : Bool = bit_and w 1 == 1 in
    let (e, d₁) = write_bit-edges b p d in
    let (es, d₂) = write_bits_loop-edges n (w / 2) (write_bit b p) d₁ in
    (es ∙ rw (e, lowest_bit w) (append_assoc (view p.trace).edges _ _), d₂)

-- `clock` gives as many edges as it is asked for, with SWDIO unchanged.
pub clock-Sends :
    (n : ℕ) (p : Protocol)
    → Sends (clock n) p (replicate n (out (view p.trace))) (view p.trace).driven
unfolding clock
clock-Sends n p = let (e, d, l) = clock_loop-edges n p in (e, d, refl)

pub clock-level : (n : ℕ) (p : Protocol) → (view (clock n p).trace).level ≡ (view p.trace).level
unfolding clock
clock-level n p = (clock_loop-edges n p).2

-- On a driven line `write_bits` sends the lowest bits of its word, lowest first, one at each edge.
pub write_bits-Sends :
    (n w : ℕ) (p : Protocol)
    → (view p.trace).driven ≡ true
    → Sends (write_bits n w) p (map some (bits n w)) true
unfolding write_bits
write_bits-Sends n w p d = let (e, d') = write_bits_loop-edges n w p d in (e, d', refl)

-- A command is eight driven bits, and one edge with the line released.
pub write_cmd_turnaround-Sends :
    (cmd : ℕ) (p : Protocol)
    → (view p.trace).driven ≡ true
    → Sends (write_cmd_turnaround cmd) p (map some (bits 8 cmd) ++ none ∷ []) false
unfolding write_cmd_turnaround
write_cmd_turnaround-Sends cmd p d =
    let (e, _, _) = write_bits-Sends 8 cmd p d in
    let released = set_swdio_input (write_bits 8 cmd p) in
    let (e', d', c) = clock-Sends 1 released in
    (e' ∙ rw e (append_assoc (view p.trace).edges _ _), d', c)

-- The turnaround to output is one edge with the line released, after which it is driven low.
pub turnaround_to_output-Sends :
    (p : Protocol) → (view p.trace).driven ≡ false → Sends turnaround_to_output p (none ∷ []) true
unfolding turnaround_to_output
turnaround_to_output-Sends p d = let (e, _, _) = clock-Sends 1 p in (e ∙ rw d refl, refl, refl)

word_with_parity :
    (w : ℕ)
    → w < 2 ^ 32
    → bits 33 (if calculate_parity w then bit_or w (1 * 2 ^ 32) else w)
      ≡ bits 32 w ++ odd (bits 32 w) ∷ []
word_with_parity w h =
    let b = calculate_parity w in
    let sum : (if b then bit_or w (1 * 2 ^ 32) else w) ≡ w + (if b then 2 ^ 32 else 0) =
      ground (arith, bit_or_low_high 32 1 w h) in
    ap (bits 33) sum ∙ bits_with_top 32 w b h ∙ rw (calculate_parity-odd w h)

-- On a driven line a data word below 2 ^ 32 is sent as its 32 bits, lowest first, and its parity
-- bit, one at each edge.
pub write_u32_parity-Sends :
    (w : ℕ) (p : Protocol)
    → w < 2 ^ 32
    → (view p.trace).driven ≡ true
    → Sends (write_u32_parity w) p (map some (bits 32 w ++ odd (bits 32 w) ∷ [])) true
unfolding write_u32_parity
write_u32_parity-Sends w p h d =
    let b = calculate_parity w in
    let (e, d', c) = write_bits-Sends 33 (if b then bit_or w (1 * 2 ^ 32) else w) p d in
    (e ∙ ap (λ l. (view p.trace).edges ++ map some l) (word_with_parity w h), d', c)
