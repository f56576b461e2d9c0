-- ===== src/Swd/Wire/Sampled.antt =====
-- What the reading steps make of the levels that they sample, and what the target sees meanwhile.
use native.Mathlib.Numerals.{towards_suc}
use native.Mathlib.Nat.{pow-suc}
use airfrog.Prelude.{
  ℕ, zero, suc, ◌+◌, ◌*◌, ◌^◌, ◌<◌, ◌≡◌, refl, ap, ◌∙◌, arith, Bool, true, false, not, take,
  take-append, List, [], ◌∷◌, ◌++◌, if◌then◌else◌, bit_or, length,
}
use airfrog.Prelude.Bits.{bit_or_low_high}
use airfrog.Bin.Error.{ok, err}
use airfrog.Swd.Error.{SwdError}
use airfrog.Swd.Parity.{
  bits, from_bits, odd, flip, odd-append, odd-flip, odd-with_parity, from_bits-bits,
  calculate_parity-from_bits,
}
use airfrog.Swd.Wire.Hal.{Event}
use airfrog.Swd.Wire.Protocol.{Protocol}
use airfrog.Swd.Wire.Read.{differ, read_bit, read_bits, read_u32_parity_turnaround}

pow_double : (n : ℕ) → 2 ^ suc n ≡ 2 * 2 ^ n
pow_double n = omega (arith, pow-suc 2 n)

-- One round of the gathering loop, as arithmetic.
or_digit :
    (b : Bool) (word ii rest : ℕ)
    → word < 2 ^ ii
    → let word' = if b then bit_or word (1 * 2 ^ ii) else word in
      (word' + 2 ^ (ii + 1) * rest ≡ word + 2 ^ ii * ((if b then 1 else 0) + 2 * rest))
      × (word' < 2 ^ (ii + 1))
or_digit true word ii rest h =
    let double : 2 ^ (ii + 1) ≡ 2 * 2 ^ ii = simp towards_suc (pow_double ii) in
    let whole = bit_or_low_high ii 1 word h in
    (omega (arith, ap (λ (t : ℕ). t * rest) double), omega arith)
or_digit false word ii rest h =
    let double : 2 ^ (ii + 1) ≡ 2 * 2 ^ ii = simp towards_suc (pow_double ii) in
    (omega (arith, ap (λ (t : ℕ). t * rest) double), omega arith)

module _ (line : List Event → Bool) where
  -- The levels at the next sampling points, and the state after them.
  unfoldable pub samples : ℕ → Protocol → List Bool
  samples zero p = []
  samples (suc n) p = (read_bit line p).0 ∷ samples n (read_bit line p).1

  unfoldable pub after_samples : ℕ → Protocol → Protocol
  after_samples zero p = p
  after_samples (suc n) p = after_samples n (read_bit line p).1

  length-samples : (n : ℕ) (p : Protocol) → length (samples n p) ≡ n
  unfolding samples
  length-samples zero p = refl
  length-samples (suc n) p = ap suc (length-samples n (read_bit line p).1)

  -- The loop gathers the samples as the binary digits of a number, lowest first.
  read_bits-samples :
      (n ii word : ℕ) (p : Protocol)
      → word < 2 ^ ii
      → read_bits line n ii word p ≡ (word + 2 ^ ii * from_bits (samples n p), after_samples n p)
  unfolding read_bits samples after_samples
  read_bits-samples zero ii word p h = ap (λ (t : ℕ). (t, p)) (omega arith)
  read_bits-samples (suc n) ii word p h =
      let (b, p') = read_bit line p in
      let rest = from_bits (samples n p') in
      let (sum, fits) = or_digit b word ii rest h in
      read_bits-samples n (ii + 1) (if b then bit_or word (1 * 2 ^ ii) else word) p' fits
      ∙ ap (λ (t : ℕ). (t, after_samples n p')) sum

  samples-append :
      (n : ℕ) (p : Protocol)
      → samples (suc n) p ≡ samples n p ++ (read_bit line (after_samples n p)).0 ∷ []
  unfolding samples after_samples
  samples-append zero p = refl
  samples-append (suc n) p = ap (◌∷◌ (read_bit line p).0) (samples-append n (read_bit line p).1)

  first_samples : (p : Protocol) → take 32 (samples 33 p) ≡ samples 32 p
  first_samples p = rw samples-append (
      rw (length-samples 32 p) at
        (take-append (samples 32 p) ((read_bit line (after_samples 32 p)).0 ∷ [])))

  -- The target's answer to a read is refused exactly when an odd number of the 33 levels sampled is
  -- high, and is otherwise the number whose binary digits the first 32 are, lowest first.
  pub read_u32_parity_turnaround-samples :
      (p : Protocol)
      → (read_u32_parity_turnaround line p).0 ≡ (
          if odd (samples 33 p)
          then err SwdError.read_parity
          else ok (from_bits (take 32 (samples 33 p))))
  unfolding read_u32_parity_turnaround
  read_u32_parity_turnaround-samples p =
      let bs = samples 32 p in
      let b = (read_bit line (after_samples 32 p)).0 in
      let gathered : read_bits line 32 0 0 p ≡ (from_bits bs, after_samples 32 p) =
        read_bits-samples 32 0 0 p (omega arith)
        ∙ ap (λ (t : ℕ). (t, after_samples 32 p)) (omega arith) in
      let parity : odd (samples 33 p) ≡ differ (odd bs) b =
        ap odd (samples-append 32 p) ∙ odd-append bs b in
      rw (gathered, calculate_parity-from_bits bs (length-samples 32 p), parity, first_samples p)
        refl

  -- If the 33 levels sampled are the bits of a word below 2 ^ 32, lowest first, and then its parity,
  -- the read gives that word.
  pub read_word :
      (w : ℕ) (p : Protocol)
      → w < 2 ^ 32
      → samples 33 p ≡ bits 32 w ++ odd (bits 32 w) ∷ []
      → (read_u32_parity_turnaround line p).0 ≡ ok w
  read_word w p h e =
      let even : odd (samples 33 p) ≡ false = ap odd e ∙ odd-with_parity (bits 32 w) in
      let heard : from_bits (take 32 (samples 33 p)) ≡ w =
        ap (λ l. from_bits (take 32 l)) e ∙ from_bits-bits 32 w h in
      read_u32_parity_turnaround-samples p ∙ rw (even, heard) refl

  -- If one of the 33 levels of a 32-bit word, lowest bit first, and its parity bit is inverted on the
  -- way, whichever it is, the read is refused with a parity error.
  pub read_word_flipped :
      (w i : ℕ) (p : Protocol)
      → w < 2 ^ 32
      → i < 33
      → samples 33 p ≡ flip i (bits 32 w ++ odd (bits 32 w) ∷ [])
      → (read_u32_parity_turnaround line p).0 ≡ err SwdError.read_parity
  read_word_flipped w i p h hi e =
      let sent = bits 32 w ++ odd (bits 32 w) ∷ [] in
      let within : i < length sent = hi in
      let heard_odd : odd (samples 33 p) ≡ true =
        ap odd e ∙ odd-flip i sent within ∙ ap not (odd-with_parity (bits 32 w)) in
      read_u32_parity_turnaround-samples p ∙ rw heard_odd refl
