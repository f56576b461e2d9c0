-- ===== src/Core/Select.antt =====
-- `Select` of airfrog-core/src/arm/dp.rs: the DP SELECT register, which picks the access port and
-- the register banks.
use airfrog.Prelude.{ℕ, ◌+◌, ◌-◌, ◌*◌, ◌/◌, ◌%◌, ◌^◌, ◌<◌, ◌≡◌, refl, arith, bit_and, bit_or}
use airfrog.Prelude.Bits.{
  bit_and_low_mask, bit_or_fields, bit_or_low_high, bit_or_high_low, bit_or-zero,
}
use airfrog.Core.Fields.{get_field, set_field, clear_24, clear_nibble_0, clear_nibble_1}

abbrev pub Select : Type 0
Select = ℕ

-- `Select::default()`
abbrev pub default : Select
default = 0

abbrev pub dpbanksel_mask : ℕ
dpbanksel_mask = 0xf

abbrev pub dpbanksel_shift : ℕ
dpbanksel_shift = 0

abbrev pub apbanksel_mask : ℕ
apbanksel_mask = 0xf

abbrev pub apbanksel_shift : ℕ
apbanksel_shift = 4

unfoldable pub apsel : Select → ℕ
apsel = get_field 0xff 24

unfoldable pub dpbanksel : Select → ℕ
dpbanksel = get_field dpbanksel_mask dpbanksel_shift

unfoldable pub apbanksel : Select → ℕ
apbanksel = get_field apbanksel_mask apbanksel_shift

unfoldable pub set_apsel : Select → ℕ → Select
set_apsel = set_field 0xff 24

unfoldable pub set_dpbanksel : Select → ℕ → Select
set_dpbanksel = set_field dpbanksel_mask dpbanksel_shift

unfoldable pub set_apbanksel : Select → ℕ → Select
set_apbanksel = set_field apbanksel_mask apbanksel_shift

unfoldable pub set_dpbanksel_from_addr : Select → ℕ → Select
unfolding set_dpbanksel
set_dpbanksel_from_addr v addr = set_dpbanksel v (bit_and (addr / 2 ^ 4) 0xf)

unfoldable pub set_apbanksel_from_addr : Select → ℕ → Select
unfolding set_apbanksel
set_apbanksel_from_addr v addr = set_apbanksel v (bit_and (addr / 2 ^ 4) 0xf)

-- The fields and setters as arithmetic.
pub apsel_lem : (v : ℕ) → apsel v ≡ v / 2 ^ 24 % 256
unfolding apsel
apsel_lem v = bit_and_low_mask 8 (v / 2 ^ 24)

pub apbanksel_lem : (v : ℕ) → apbanksel v ≡ v / 16 % 16
unfolding apbanksel
apbanksel_lem v = bit_and_low_mask 4 (v / 16)

pub dpbanksel_lem : (v : ℕ) → dpbanksel v ≡ v % 16
unfolding dpbanksel
dpbanksel_lem v = ground (arith, bit_and_low_mask 4 (v / 1))

pub set_apsel_lem : (v x : ℕ) → set_apsel v x ≡ v % 2 ^ 24 + x % 256 * 2 ^ 24
unfolding set_apsel
set_apsel_lem v x =
    rw (clear_24 v, bit_and_low_mask 8 x) (bit_or_low_high 24 (x % 256) (v % 2 ^ 24) (omega arith))

pub set_apbanksel_lem :
    (v x : ℕ) → v < 2 ^ 32 → set_apbanksel v x ≡ v / 256 * 256 + x % 16 * 16 + v % 16
unfolding set_apbanksel
set_apbanksel_lem v x h = ground (
  arith,
  clear_nibble_1 v h,
  bit_and_low_mask 4 x,
  bit_or_fields 8 (v / 256) (v % 16) 0 (x % 16 * 16) (omega arith) (omega arith),
  bit_or-zero (v / 256),
  bit_or_low_high 4 (x % 16) (v % 16) (omega arith),
)

pub set_dpbanksel_lem : (v x : ℕ) → v < 2 ^ 32 → set_dpbanksel v x ≡ v / 16 * 16 + x % 16
unfolding set_dpbanksel
set_dpbanksel_lem v x h = ground (
  arith,
  clear_nibble_0 v h,
  bit_and_low_mask 4 x,
  bit_or_high_low 4 (v / 16) (x % 16) (omega arith),
)

pub ruleset select_laws = (
  arith, apsel_lem, apbanksel_lem, dpbanksel_lem, set_apsel_lem, set_apbanksel_lem,
  set_dpbanksel_lem,
)

-- Each setter stores its field, cut to the field's width, and leaves the two other fields as they
-- were and the register a `u32`.
setters_independent :
    (v x : ℕ)
    → v < 2 ^ 32
    → ((apsel (set_apsel v x) ≡ x % 256)
        × (apbanksel (set_apsel v x) ≡ apbanksel v)
        × (dpbanksel (set_apsel v x) ≡ dpbanksel v)
        × (set_apsel v x < 2 ^ 32))
      × ((apbanksel (set_apbanksel v x) ≡ x % 16)
          × (apsel (set_apbanksel v x) ≡ apsel v)
          × (dpbanksel (set_apbanksel v x) ≡ dpbanksel v)
          × (set_apbanksel v x < 2 ^ 32))
      × ((dpbanksel (set_dpbanksel v x) ≡ x % 16)
          × (apsel (set_dpbanksel v x) ≡ apsel v)
          × (apbanksel (set_dpbanksel v x) ≡ apbanksel v)
          × (set_dpbanksel v x < 2 ^ 32))
setters_independent v x h = omega select_laws
