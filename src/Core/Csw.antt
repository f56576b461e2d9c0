-- ===== src/Core/Csw.antt =====
-- `Csw` of airfrog-core/src/arm/map.rs: the MEM-AP's control word.
use airfrog.Prelude.{ℕ, ◌+◌, ◌*◌, ◌/◌, ◌%◌, ◌^◌, ◌<◌, ◌≡◌, arith, ap, Bool, true, bit_and, bit_or}
use airfrog.Prelude.Bits.{
  bit_and_low_mask, bit_and_fields, bit_and_ones, bit_or_fields, bit_or-zero, bit_or_low_high,
  bit_or_digit,
}
use airfrog.Core.Fields.{get_field, set_field, get_flag, set_flag, clear_pair_4}

abbrev pub Csw : Type 0
Csw = ℕ

abbrev pub size_32bit : ℕ
size_32bit = 0b010

abbrev pub addrinc_off : ℕ
addrinc_off = 0b00

abbrev pub addrinc_single : ℕ
addrinc_single = 0b01

abbrev pub addrinc_packed : ℕ
addrinc_packed = 0b10

abbrev pub prot_master_debug : ℕ
prot_master_debug = 2 ^ 5

abbrev pub prot_bit_1 : ℕ
prot_bit_1 = 2 ^ 1

unfoldable pub size : Csw → ℕ
size = get_field 0b111 0

unfoldable pub addrinc : Csw → ℕ
addrinc = get_field 0b11 4

unfoldable pub device_en : Csw → Bool
device_en = get_flag (2 ^ 6)

unfoldable pub tr_in_prog : Csw → Bool
tr_in_prog = get_flag (2 ^ 7)

unfoldable pub mode : Csw → ℕ
mode = get_field 0b1111 8

unfoldable pub type_bits : Csw → ℕ
type_bits = get_field 0b111 12

unfoldable pub mte : Csw → Bool
mte = get_flag (2 ^ 15)

unfoldable pub spiden : Csw → Bool
spiden = get_flag (2 ^ 23)

unfoldable pub prot : Csw → ℕ
prot = get_field 0b1111111 24

unfoldable pub dbg_sw_enable : Csw → Bool
dbg_sw_enable = get_flag (2 ^ 31)

unfoldable pub set_reserved_high : Csw → Csw
set_reserved_high v = bit_or v (2 ^ 24)

unfoldable pub set_size : Csw → ℕ → Csw
set_size = set_field 0b111 0

unfoldable pub set_addrinc : Csw → ℕ → Csw
set_addrinc = set_field 0b11 4

unfoldable pub set_device_en : Csw → Bool → Csw
set_device_en v enable = set_flag (2 ^ 6) v enable

unfoldable pub set_mode : Csw → ℕ → Csw
set_mode = set_field 0b1111 8

unfoldable pub set_type : Csw → ℕ → Csw
set_type = set_field 0b111 12

unfoldable pub set_mte : Csw → Bool → Csw
set_mte v enable = set_flag (2 ^ 15) v enable

unfoldable pub set_spiden : Csw → Bool → Csw
set_spiden v enable = set_flag (2 ^ 23) v enable

unfoldable pub set_prot : Csw → ℕ → Csw
set_prot = set_field 0b1111111 24

unfoldable pub set_dbg_sw_enable : Csw → Bool → Csw
set_dbg_sw_enable v enable = set_flag (2 ^ 31) v enable

-- `impl Default for Csw`
unfoldable pub default : Csw
unfolding set_reserved_high set_prot set_size set_addrinc set_device_en
default =
    set_device_en
      (set_addrinc
        (set_size (set_prot (set_reserved_high 0) (bit_or prot_master_debug prot_bit_1)) size_32bit)
        addrinc_off)
      true

addrinc_lem : (v : Csw) → addrinc v ≡ v / 16 % 4
unfolding addrinc
addrinc_lem v = bit_and_low_mask 2 (v / 16)

set_addrinc_lem :
    (v : Csw) (x : ℕ) → v < 2 ^ 32 → set_addrinc v x ≡ v / 64 * 64 + x % 4 * 16 + v % 16
unfolding set_addrinc
set_addrinc_lem v x h = ground (
  arith,
  clear_pair_4 v h,
  bit_and_low_mask 2 x,
  bit_or_fields 6 (v / 64) (v % 16) 0 (x % 4 * 16) (omega arith) (omega arith),
  bit_or-zero (v / 64),
  bit_or_low_high 4 (x % 4) (v % 16) (omega arith),
)

-- Setting the address increment of a 32-bit word stores its two bits, and changes no other bit.
set_addrinc_only :
    (v : Csw) (x : ℕ)
    → v < 2 ^ 32
    → (addrinc (set_addrinc v x) ≡ x % 4)
      × (set_addrinc v x % 16 ≡ v % 16)
      × (set_addrinc v x / 64 ≡ v / 64)
      × (set_addrinc v x < 2 ^ 32)
set_addrinc_only v x h = omega (arith, addrinc_lem (set_addrinc v x), set_addrinc_lem v x h)

clear_prot : (v : ℕ) → v < 2 ^ 32 → bit_and v 0x80ff_ffff ≡ v / 2 ^ 31 * 2 ^ 31 + v % 2 ^ 24
clear_prot v h = ground (
  arith,
  bit_and_fields 31 (v / 2 ^ 31) (v % 2 ^ 31) 1 0x00ff_ffff (omega arith) (omega arith),
  bit_and_ones 1 (v / 2 ^ 31) (omega arith),
  bit_and_low_mask 24 (v % 2 ^ 31),
)

or_bit_24 : (v : ℕ) → bit_or v (2 ^ 24) ≡ v / 2 ^ 25 * 2 ^ 25 + 2 ^ 24 + v % 2 ^ 24
or_bit_24 v = ground (
  arith,
  bit_or_fields 24 (v / 2 ^ 24) (v % 2 ^ 24) 1 0 (omega arith) (omega arith),
  bit_or-zero (v % 2 ^ 24),
  bit_or_digit (v / 2 ^ 24) 1,
  bit_or-zero (v / 2 ^ 24 / 2),
)

-- In a 32-bit word `set_prot` rewrites bit 24, which `set_reserved_high` sets: setting it before
-- makes no difference.
pub set_prot-reserved_high :
    (v : Csw) (x : ℕ) → v < 2 ^ 32 → set_prot (set_reserved_high v) x ≡ set_prot v x
unfolding set_prot set_reserved_high
set_prot-reserved_high v x h =
    let or = or_bit_24 v in
    let same : bit_and (bit_or v (2 ^ 24)) 0x80ff_ffff ≡ bit_and v 0x80ff_ffff =
      omega (arith, clear_prot (bit_or v (2 ^ 24)) (omega arith), clear_prot v h) in
    ap (λ (t : ℕ). bit_or t (bit_and x 127 * 16777216)) same
