-- ===== src/Swd/Parity.antt =====
-- `calculate_parity` of airfrog-swd/src/protocol.rs, and the bits of a word, lowest first.
use mathlib.Core.Path.{ap₂}
use native.Mathlib.Nat.{pow-suc}
use airfrog.Prelude.{
  length, ℕ, zero, suc, ◌+◌, ◌*◌, ◌/◌, ◌%◌, ◌^◌, ◌<◌, ◌≡◌, refl, sym, ap, ◌∙◌, arith, Bool, true,
  false, not, ◌==◌, if◌then◌else◌, List, [], ◌∷◌, ◌++◌,
}

-- `count_ones` of a word of `width` bits.
unfoldable pub count_ones : ℕ → ℕ → ℕ
count_ones zero v = 0
count_ones (suc width) v = v % 2 + count_ones width (v / 2)

-- The value is converted to `u64` first.
unfoldable pub calculate_parity : ℕ → Bool
calculate_parity v = count_ones 64 v % 2 == 1

-- The lowest `n` bits, lowest first.
abbrev pub bits : ℕ → ℕ → List Bool
bits zero v = []
bits (suc n) v = (v % 2 == 1) ∷ bits n (v / 2)

-- The number that bits stand for, lowest first.
abbrev pub from_bits : List Bool → ℕ
from_bits [] = 0
from_bits (b ∷ bs) = (if b then 1 else 0) + 2 * from_bits bs

-- Whether an odd number of the bits is set.
abbrev pub odd : List Bool → Bool
odd [] = false
odd (b ∷ bs) = if b then not (odd bs) else odd bs

pub from_bits-bits : (n v : ℕ) → v < 2 ^ n → from_bits (bits n v) ≡ v
from_bits-bits zero v h = omega arith
from_bits-bits (suc n) v h = ground (arith, from_bits-bits n (v / 2) (omega (arith, pow-suc 2 n)))

pub length-bits : (n v : ℕ) → length (bits n v) ≡ n
length-bits zero v = refl
length-bits (suc n) v = ap suc (length-bits n (v / 2))

pub odd-bits : (n v : ℕ) → odd (bits n v) ≡ (count_ones n v % 2 == 1)
unfolding count_ones
odd-bits zero v = refl
odd-bits (suc n) v = ground (arith, odd-bits n (v / 2))

count_ones-zero : (n v : ℕ) → v < 1 → count_ones n v ≡ 0
unfolding count_ones
count_ones-zero zero v h = refl
count_ones-zero (suc n) v h = omega (arith, count_ones-zero n (v / 2) (omega arith))

-- Bits above the highest one that is set count for nothing.
count_ones_enough : (m n v : ℕ) → v < 2 ^ m → v < 2 ^ n → count_ones m v ≡ count_ones n v
unfolding count_ones
count_ones_enough zero n v hm hn = sym (count_ones-zero n v (omega arith))
count_ones_enough (suc m) zero v hm hn = count_ones-zero (suc m) v (omega arith)
count_ones_enough (suc m) (suc n) v hm hn =
    omega (
      arith,
      count_ones_enough m n (v / 2) (omega (arith, pow-suc 2 m)) (omega (arith, pow-suc 2 n)),
    )

-- The parity of a 32-bit word is set exactly when an odd number of its bits is.
pub calculate_parity-odd : (v : ℕ) → v < 2 ^ 32 → calculate_parity v ≡ odd (bits 32 v)
unfolding calculate_parity
calculate_parity-odd v h = rw (count_ones_enough 64 32 v (omega arith) h) (sym (odd-bits 32 v))

top_bit_half :
    (n w : ℕ) (b : Bool)
    → ((w + (if b then 2 ^ suc n else 0)) / 2 ≡ w / 2 + (if b then 2 ^ n else 0))
      × ((w + (if b then 2 ^ suc n else 0)) % 2 ≡ w % 2)
top_bit_half n w true = omega (arith, pow-suc 2 n)
top_bit_half n w false = omega arith

-- A bit above a word is the last of the longer word's bits.
pub bits_with_top :
    (n w : ℕ) (b : Bool)
    → w < 2 ^ n
    → bits (suc n) (w + (if b then 2 ^ n else 0)) ≡ bits n w ++ b ∷ []
bits_with_top zero w b h = ground arith
bits_with_top (suc n) w b h =
    let (half, low) = top_bit_half n w b in
    ap₂ ◌∷◌ (ap (λ (t : ℕ). t == 1) low)
      (ap (bits (suc n)) half ∙ bits_with_top n (w / 2) b (omega (arith, pow-suc 2 n)))

pub from_bits-lt : (bs : List Bool) → from_bits bs < 2 ^ length bs
from_bits-lt [] = omega arith
from_bits-lt (b ∷ bs) = ground (arith, from_bits-lt bs, pow-suc 2 (length bs))

pub bits-from_bits : (bs : List Bool) → bits (length bs) (from_bits bs) ≡ bs
bits-from_bits [] = refl
bits-from_bits (true ∷ bs) =
    let half : (1 + 2 * from_bits bs) / 2 ≡ from_bits bs = omega arith in
    let low : (1 + 2 * from_bits bs) % 2 ≡ 1 = omega arith in
    rw (low, half) (ap (◌∷◌ true) (bits-from_bits bs))
bits-from_bits (false ∷ bs) =
    let half : (0 + 2 * from_bits bs) / 2 ≡ from_bits bs = omega arith in
    let low : (0 + 2 * from_bits bs) % 2 ≡ 0 = omega arith in
    rw (low, half) (ap (◌∷◌ false) (bits-from_bits bs))

-- The parity of a word that was gathered from 32 bits.
pub calculate_parity-from_bits :
    (bs : List Bool) → length bs ≡ 32 → calculate_parity (from_bits bs) ≡ odd bs
calculate_parity-from_bits bs h =
    let fits : from_bits bs < 2 ^ 32 = rw h at (from_bits-lt bs) in
    calculate_parity-odd (from_bits bs) fits ∙ ap odd (rw h at (bits-from_bits bs))

-- One more bit at the end changes the parity exactly when it is set.
pub odd-append : (bs : List Bool) (b : Bool) → odd (bs ++ b ∷ []) ≡ (if odd bs then not b else b)
odd-append [] b = ground arith
odd-append (c ∷ bs) b = ground (arith, odd-append bs b)

-- The bits with the one at an index inverted.
abbrev pub flip : ℕ → List Bool → List Bool
flip i [] = []
flip zero (b ∷ bs) = not b ∷ bs
flip (suc i) (b ∷ bs) = b ∷ flip i bs

pub odd-flip : (i : ℕ) (bs : List Bool) → i < length bs → odd (flip i bs) ≡ not (odd bs)
odd-flip i [] h = absurd (omega arith)
odd-flip zero (b ∷ bs) h = ground arith
odd-flip (suc i) (b ∷ bs) h = ground (arith, odd-flip i bs (omega arith))

-- A word followed by its parity bit has an even number of bits set.
pub odd-with_parity : (bs : List Bool) → odd (bs ++ odd bs ∷ []) ≡ false
odd-with_parity bs = odd-append bs (odd bs) ∙ cancel (odd bs)
  where
    cancel : (b : Bool) → (if b then not b else b) ≡ false
    cancel true = refl
    cancel false = refl
