-- ===== src/Prelude/Bits.antt =====
-- The bit operations at variables, as arithmetic: one equation for the lowest binary digit, and
-- from it the laws of shifted fields and low masks at every width.
use Prim.Native.Nat.{
  ℕ, zero, suc, ◌+◌, ◌*◌, ◌/◌, ◌%◌, ◌^◌, ◌≤◌, ◌<◌, ◌-◌, min, max, bit_and, bit_or, digits,
  bit_and-bitwise, bit_or-bitwise,
}
use mathlib.Core.Path.{◌≡◌, refl, ap}
use native.Mathlib.Nat.{pow-suc, one-le-pow, mod-lt, div-add-mod}
use native.Mathlib.Omega.{arith}

module _ (end : ℕ → ℕ) (digit : ℕ → ℕ → ℕ) where
  -- Any two supplies of fuel that reach the first operand give the same digits.
  same_digits : (m n x y : ℕ) → x ≤ m → x ≤ n → digits end digit m x y ≡ digits end digit n x y
  same_digits zero zero x y hm hn = refl
  same_digits zero (suc n) zero y hm hn = refl
  same_digits (suc m) zero zero y hm hn = refl
  same_digits (suc m) (suc n) zero y hm hn = refl
  same_digits zero (suc n) (suc x) y hm hn = absurd (omega arith)
  same_digits (suc m) zero (suc x) y hm hn = absurd (omega arith)
  same_digits (suc m) (suc n) (suc x) y hm hn =
      let lower = same_digits m n (suc x / 2) (y / 2) (omega arith) (omega arith) in
      ap (λ (t : ℕ). t * 2 + digit (suc x % 2) (y % 2)) lower

  lowest_digit :
      (x y : ℕ)
      → digits end digit (suc x) (suc x) y
        ≡ digits end digit (suc x / 2) (suc x / 2) (y / 2) * 2 + digit (suc x % 2) (y % 2)
  lowest_digit x y =
      let lower = same_digits x (suc x / 2) (suc x / 2) (y / 2) (omega arith) (omega arith) in
      ap (λ (t : ℕ). t * 2 + digit (suc x % 2) (y % 2)) lower

pub bit_or_digit : (x y : ℕ) → bit_or x y ≡ bit_or (x / 2) (y / 2) * 2 + max (x % 2) (y % 2)
bit_or_digit zero y = simp bit_or-bitwise (omega arith)
bit_or_digit (suc x) y = simp bit_or-bitwise (lowest_digit (λ b. b) max x y)

pub bit_and_digit : (x y : ℕ) → bit_and x y ≡ bit_and (x / 2) (y / 2) * 2 + min (x % 2) (y % 2)
bit_and_digit zero y = simp bit_and-bitwise (omega arith)
bit_and_digit (suc x) y = simp bit_and-bitwise (lowest_digit (λ b. zero) min x y)

zero-bit_or : (y : ℕ) → bit_or 0 y ≡ y
zero-bit_or y = bit_or-bitwise 0 y

zero-bit_and : (y : ℕ) → bit_and 0 y ≡ 0
zero-bit_and y = bit_and-bitwise 0 y

bit_or-zero_below : (n x : ℕ) → x ≤ n → bit_or x 0 ≡ x
bit_or-zero_below zero zero h = refl
bit_or-zero_below zero (suc x) h = absurd (omega arith)
bit_or-zero_below (suc n) zero h = refl
bit_or-zero_below (suc n) (suc x) h =
    omega (arith, bit_or_digit (suc x) 0, bit_or-zero_below n (suc x / 2) (omega arith))

pub bit_or-zero : (x : ℕ) → bit_or x 0 ≡ x
bit_or-zero x = bit_or-zero_below x x (omega arith)

bit_and-zero_below : (n x : ℕ) → x ≤ n → bit_and x 0 ≡ 0
bit_and-zero_below zero zero h = refl
bit_and-zero_below zero (suc x) h = absurd (omega arith)
bit_and-zero_below (suc n) zero h = refl
bit_and-zero_below (suc n) (suc x) h =
    omega (arith, bit_and_digit (suc x) 0, bit_and-zero_below n (suc x / 2) (omega arith))

pub bit_and-zero : (x : ℕ) → bit_and x 0 ≡ 0
bit_and-zero x = bit_and-zero_below x x (omega arith)

double_field : (q k : ℕ) → q * 2 ^ suc k ≡ 2 * (q * 2 ^ k)
double_field q k = omega (arith, ap (λ (t : ℕ). q * t) (pow-suc 2 k))

-- Both operations act on the bits from `k` up and on the bits below apart.
pub bit_and_fields :
    (k q r p s : ℕ)
    → r < 2 ^ k
    → s < 2 ^ k
    → bit_and (q * 2 ^ k + r) (p * 2 ^ k + s) ≡ bit_and q p * 2 ^ k + bit_and r s
bit_and_fields zero q r p s hr hs = ground (arith, zero-bit_and 0)
bit_and_fields (suc k) q r p s hr hs = ground (
  arith,
  bit_and_digit (q * 2 ^ suc k + r) (p * 2 ^ suc k + s),
  bit_and_digit r s,
  double_field q k,
  double_field p k,
  double_field (bit_and q p) k,
  bit_and_fields k q (r / 2) p (s / 2) (omega (arith, pow-suc 2 k)) (omega (arith, pow-suc 2 k)),
)

pub bit_or_fields :
    (k q r p s : ℕ)
    → r < 2 ^ k
    → s < 2 ^ k
    → bit_or (q * 2 ^ k + r) (p * 2 ^ k + s) ≡ bit_or q p * 2 ^ k + bit_or r s
bit_or_fields zero q r p s hr hs = ground (arith, zero-bit_or 0)
bit_or_fields (suc k) q r p s hr hs = ground (
  arith,
  bit_or_digit (q * 2 ^ suc k + r) (p * 2 ^ suc k + s),
  bit_or_digit r s,
  double_field q k,
  double_field p k,
  double_field (bit_or q p) k,
  bit_or_fields k q (r / 2) p (s / 2) (omega (arith, pow-suc 2 k)) (omega (arith, pow-suc 2 k)),
)

-- `high << k | low` is a sum when `low` fits below bit `k`, in either order.
pub bit_or_high_low : (k q r : ℕ) → r < 2 ^ k → bit_or (q * 2 ^ k) r ≡ q * 2 ^ k + r
bit_or_high_low k q r h =
    ground (
      arith,
      bit_or_fields k q 0 0 r (omega (arith, one-le-pow k 2)) h,
      bit_or-zero q,
      zero-bit_or r,
    )

pub bit_or_low_high : (k q r : ℕ) → r < 2 ^ k → bit_or r (q * 2 ^ k) ≡ r + q * 2 ^ k
bit_or_low_high k q r h =
    ground (
      arith,
      bit_or_fields k 0 r q 0 h (omega (arith, one-le-pow k 2)),
      zero-bit_or q,
      bit_or-zero r,
    )

ones_double : (k : ℕ) → 2 ^ suc k - 1 ≡ 2 * (2 ^ k - 1) + 1
ones_double k = omega (arith, pow-suc 2 k, one-le-pow k 2)

-- Masking by `2 ^ k - 1` leaves a number below `2 ^ k` as it is.
pub bit_and_ones : (k r : ℕ) → r < 2 ^ k → bit_and r (2 ^ k - 1) ≡ r
bit_and_ones zero r h = ground (arith, bit_and-zero r)
bit_and_ones (suc k) r h = ground (
  arith,
  bit_and_digit r (2 ^ suc k - 1),
  ones_double k,
  bit_and_ones k (r / 2) (omega (arith, pow-suc 2 k)),
)

-- Masking by `2 ^ k - 1` keeps the remainder by `2 ^ k`.
pub bit_and_low_mask : (k x : ℕ) → bit_and x (2 ^ k - 1) ≡ x % 2 ^ k
bit_and_low_mask k x =
    let room : 0 < 2 ^ k = omega (arith, one-le-pow k 2) in
    let rem : x % 2 ^ k < 2 ^ k = mod-lt x room in
    ground (
      arith,
      bit_and_fields k (x / 2 ^ k) (x % 2 ^ k) 0 (2 ^ k - 1) rem (omega arith),
      bit_and-zero (x / 2 ^ k),
      bit_and_ones k (x % 2 ^ k) rem,
      div-add-mod x (2 ^ k),
    )
