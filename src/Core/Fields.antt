-- ===== src/Core/Fields.antt =====
-- The shapes in which the register types of airfrog-core/src/arm read and write their bits, and the
-- arithmetic that they come to.
use native.Mathlib.Nat.{one-le-pow, mod-lt, div-add-mod}
use airfrog.Prelude.{
  ℕ, ◌+◌, ◌-◌, ◌*◌, ◌/◌, ◌%◌, ◌^◌, ◌<◌, ◌≡◌, arith, Bool, not, ◌==◌, if◌then◌else◌, bit_and, bit_or,
}
use airfrog.Prelude.Bits.{bit_and_fields, bit_and-zero, bit_and_ones, bit_and_low_mask}

-- `!x` on a `u32`.
abbrev pub u32_not : ℕ → ℕ
u32_not x = 0xffff_ffff - x

-- `(v >> shift) & mask`
abbrev pub get_field : ℕ → ℕ → ℕ → ℕ
get_field mask shift v = bit_and (v / 2 ^ shift) mask

-- `(v & !(mask << shift)) | ((x & mask) << shift)`
abbrev pub set_field : ℕ → ℕ → ℕ → ℕ → ℕ
set_field mask shift v x =
    bit_or (bit_and v (u32_not (mask * 2 ^ shift))) (bit_and x mask * 2 ^ shift)

-- `v & flag != 0`
abbrev pub get_flag : ℕ → ℕ → Bool
get_flag flag v = not (bit_and v flag == 0)

-- `if enable { v |= flag } else { v &= !flag }`
abbrev pub set_flag : ℕ → ℕ → Bool → ℕ
set_flag flag v enable = if enable then bit_or v flag else bit_and v (u32_not flag)

-- Clearing a field of four bits at bit 4, eight at bit 24, four at bit 0 and two at bit 4.
pub clear_24 : (v : ℕ) → bit_and v 0x00ff_ffff ≡ v % 2 ^ 24
clear_24 v = bit_and_low_mask 24 v

pub clear_nibble_1 : (v : ℕ) → v < 2 ^ 32 → bit_and v 0xffff_ff0f ≡ v / 256 * 256 + v % 16
clear_nibble_1 v h = ground (
  arith,
  bit_and_fields 8 (v / 256) (v % 256) 0x00ff_ffff 0x0f (omega arith) (omega arith),
  bit_and_ones 24 (v / 256) (omega arith),
  bit_and_low_mask 4 (v % 256),
)

pub clear_nibble_0 : (v : ℕ) → v < 2 ^ 32 → bit_and v 0xffff_fff0 ≡ v / 16 * 16
clear_nibble_0 v h = ground (
  arith,
  bit_and_fields 4 (v / 16) (v % 16) 0x0fff_ffff 0 (omega arith) (omega arith),
  bit_and_ones 28 (v / 16) (omega arith),
  bit_and-zero (v % 16),
)

pub clear_pair_4 : (v : ℕ) → v < 2 ^ 32 → bit_and v 0xffff_ffcf ≡ v / 64 * 64 + v % 16
clear_pair_4 v h = ground (
  arith,
  bit_and_fields 6 (v / 64) (v % 64) 0x03ff_ffff 0x0f (omega arith) (omega arith),
  bit_and_ones 26 (v / 64) (omega arith),
  bit_and_low_mask 4 (v % 64),
)

-- Masking by one bit.
pub bit_and-pow : (k v : ℕ) → bit_and v (2 ^ k) ≡ v / 2 ^ k % 2 * 2 ^ k
bit_and-pow k v =
    let room : 0 < 2 ^ k = omega (arith, one-le-pow k 2) in
    let rem : v % 2 ^ k < 2 ^ k = mod-lt v room in
    ground (
      arith,
      bit_and_fields k (v / 2 ^ k) (v % 2 ^ k) 1 0 rem room,
      bit_and-zero (v % 2 ^ k),
      bit_and_low_mask 1 (v / 2 ^ k),
      div-add-mod v (2 ^ k),
    )
