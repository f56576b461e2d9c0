-- ===== src/Config/Netmask.antt =====
-- Netmasks in airfrog/src/config.rs: the check of `Net::deserialize` and the prefix of `wifi_config`.
use airfrog.Prelude.{
  ℕ, zero, suc, ◌+◌, ◌-◌, ◌*◌, ◌/◌, ◌%◌, ◌^◌, ◌<◌, ◌≤◌, ◌==◌, ◌≡◌, ◌↔◌, ◌⊎◌, inl, inr, Bool-cases,
  refl, ap, sym, ◌∙◌, arith, Bool, true, not, ◌&&◌, bit_and,
}
use native.Mathlib.Nat.{pow-suc}
use airfrog.Prelude.Bits.{bit_and_digit}
use airfrog.Core.Fields.{u32_not}

-- `!(inverted != 0 && (inverted + 1) & inverted != 0)` with `inverted = !mask`
unfoldable pub netmask_ok : ℕ → Bool
netmask_ok mask =
    not (not (u32_not mask == 0) && not (bit_and ((u32_not mask + 1) % 2 ^ 32) (u32_not mask) == 0))

-- `x.count_ones()`, of the lowest `n` bits.
unfoldable pub count_ones : ℕ → ℕ → ℕ
count_ones zero x = 0
count_ones (suc n) x = x % 2 + count_ones n (x / 2)

unfoldable pub netmask_to_prefix : ℕ → ℕ
netmask_to_prefix mask = count_ones 32 mask

bit_and_odd : (x : ℕ) → bit_and (x * 2 + 1 + 1) (x * 2 + 1) ≡ bit_and (x + 1) x * 2
bit_and_odd x =
    let first : (x * 2 + 1 + 1) / 2 ≡ x + 1 = omega arith in
    let second : (x * 2 + 1) / 2 ≡ x = omega arith in
    bit_and_digit (x * 2 + 1 + 1) (x * 2 + 1) ∙ rw (first, second) (omega arith)

bit_and_even : (x : ℕ) → bit_and (x * 2 + 1) (x * 2) ≡ bit_and x x * 2
bit_and_even x =
    let first : (x * 2 + 1) / 2 ≡ x = omega arith in
    let second : x * 2 / 2 ≡ x = omega arith in
    bit_and_digit (x * 2 + 1) (x * 2) ∙ rw (first, second) (omega arith)

bit_and-self_below : (n x : ℕ) → x ≤ n → bit_and x x ≡ x
bit_and-self_below n zero h = refl
bit_and-self_below zero (suc x) h = absurd (omega arith)
bit_and-self_below (suc n) (suc x) h =
    let digit = bit_and_digit (suc x) (suc x) in
    let lower = bit_and-self_below n (suc x / 2) (omega arith) in omega (arith, digit, lower)

count_ones-zero : (w : ℕ) → count_ones w 0 ≡ 0
unfolding count_ones
count_ones-zero zero = refl
count_ones-zero (suc w) = omega (arith, count_ones-zero w)

parity : (n : ℕ) → (n ≡ n / 2 * 2) ⊎ (n ≡ n / 2 * 2 + 1)
parity n = elim (Bool-cases (n % 2 == 0)) [
  | inl e ↦ inl (ground arith)
  | inr e ↦ inr (ground arith)
]

carries_even : (n : ℕ) → n ≡ n / 2 * 2 → bit_and (n + 1) n ≡ n
carries_even n e =
    let half = n / 2 in
    let same = bit_and-self_below half half (omega arith) in
    let twice = bit_and_even half in ap (λ k. bit_and (k + 1) k) e ∙ omega (arith, twice, same)

carries_odd : (n : ℕ) → n ≡ n / 2 * 2 + 1 → bit_and (n + 1) n ≡ bit_and (n / 2 + 1) (n / 2) * 2
carries_odd n e = ap (λ k. bit_and (k + 1) k) e ∙ bit_and_odd (n / 2)

-- A number that shares no bit with its successor is one below a power of two.
ones_below : (w n : ℕ) → n < 2 ^ w → bit_and (n + 1) n ≡ 0 → n + 1 ≡ 2 ^ count_ones w n
unfolding count_ones
ones_below zero n h e = omega arith
ones_below (suc w) n h e =
    let half : n / 2 < 2 ^ w = omega (arith, pow-suc 2 w) in
    elim (parity n) [
      | inl even ↦
          let none : n ≡ 0 = sym (carries_even n even) ∙ e in
          let count : 0 % 2 + count_ones w (0 / 2) ≡ 0 = count_ones-zero (suc w) in
          rw (none, count) refl
      | inr odd ↦
          let shared : bit_and (n / 2 + 1) (n / 2) ≡ 0 = omega (arith, carries_odd n odd) in
          let later = ones_below w (n / 2) half shared in
          let bit : n % 2 + count_ones w (n / 2) ≡ suc (count_ones w (n / 2)) = omega arith in
          rw bit (omega (arith, later, pow-suc 2 (count_ones w (n / 2))))
    ]

even_below : (n c : ℕ) → n ≡ n / 2 * 2 → n + 1 ≡ 2 ^ c → n ≡ 0
even_below n zero even e = omega arith
even_below n (suc c) even e = absurd (omega (arith, e, pow-suc 2 c))

below_ones : (w n : ℕ) → n < 2 ^ w → n + 1 ≡ 2 ^ count_ones w n → bit_and (n + 1) n ≡ 0
unfolding count_ones
below_ones zero n h e = let none : n ≡ 0 = omega arith in rw none refl
below_ones (suc w) n h e =
    let half : n / 2 < 2 ^ w = omega (arith, pow-suc 2 w) in
    elim (parity n) [
      | inl even ↦ carries_even n even ∙ even_below n (count_ones (suc w) n) even e
      | inr odd ↦
          let c = count_ones w (n / 2) in
          let bit : n % 2 + c ≡ suc c = omega arith in
          let power : n + 1 ≡ 2 ^ suc c = e ∙ ap (λ k. 2 ^ k) bit in
          let later = below_ones w (n / 2) half (omega (arith, power, pow-suc 2 c)) in
          omega (arith, carries_odd n odd, later)
    ]

complement : (w n : ℕ) → n < 2 ^ w → count_ones w (2 ^ w - 1 - n) + count_ones w n ≡ w
unfolding count_ones
complement zero n h = omega arith
complement (suc w) n h =
    let half : n / 2 < 2 ^ w = omega (arith, pow-suc 2 w) in
    let halved : (2 ^ suc w - 1 - n) / 2 ≡ 2 ^ w - 1 - n / 2 = omega (arith, pow-suc 2 w) in
    let later = complement w (n / 2) half in rw halved (omega (arith, later, pow-suc 2 w))

carries : (n : ℕ) → n < 2 ^ 32 → bit_and ((n + 1) % 2 ^ 32) n ≡ bit_and (n + 1) n
carries n h = elim (Bool-cases (n == 0xffff_ffff)) [
  | inl e ↦ let full : n ≡ 0xffff_ffff = ground arith in rw full refl
  | inr e ↦ let same : (n + 1) % 2 ^ 32 ≡ n + 1 = ground arith in rw same refl
]

netmask_ok_carries :
    (mask : ℕ)
    → mask < 2 ^ 32
    → (netmask_ok mask ≡ true) ↔ (bit_and (u32_not mask + 1) (u32_not mask) ≡ 0)
unfolding netmask_ok
netmask_ok_carries mask h =
    let n = u32_not mask in
    let wrapped = carries n (omega arith) in
    let none : n ≡ 0 → bit_and (n + 1) n ≡ 0 = λ e. rw e refl in
    elim (Bool-cases (n == 0)) [
      | inl e ↦ rw e ((λ _. none (ground arith)), (λ _. refl))
      | inr e ↦ rw (e, wrapped) (ground arith)
    ]

-- A netmask passes the check exactly when it is the mask of its prefix: the ones that are counted are
-- its highest bits.
pub netmask_ok_iff :
    (mask : ℕ)
    → mask < 2 ^ 32
    → (netmask_ok mask ≡ true) ↔ (mask + 2 ^ (32 - netmask_to_prefix mask) ≡ 2 ^ 32)
unfolding netmask_to_prefix
netmask_ok_iff mask h =
    let n = u32_not mask in
    let whole : count_ones 32 (2 ^ 32 - 1 - mask) + count_ones 32 mask ≡ 32 =
      complement 32 mask h in
    let zeros : 32 - count_ones 32 mask ≡ count_ones 32 n = omega (arith, whole) in
    let (there, back) = netmask_ok_carries mask h in
    rw zeros (
      (λ ok. let e = ones_below 32 n (omega arith) (there ok) in omega (arith, e)),
      (λ sum. back (below_ones 32 n (omega arith) (omega (arith, sum)))),
    )
