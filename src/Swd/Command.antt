-- ===== src/Swd/Command.antt =====
-- `SwdOp` of airfrog-swd/src/interface.rs: a DP or AP access, its command byte, and the DP SELECT
-- value that it needs.
use airfrog.Prelude.{
  ℕ, ◌*◌, ◌/◌, ◌%◌, ◌^◌, ◌<◌, ◌≡◌, refl, arith, ◌∙◌, ap, Bool, true, false, ◌==◌, if◌then◌else◌,
  bit_and, bit_or, List, [], ◌∷◌, ◌⊎◌, ◌↔◌, inl, inr,
}
use airfrog.Prelude.Bits.{bit_and_low_mask, bit_and_fields, bit_and-zero}
use airfrog.Core.Select
use airfrog.Core.Select.{Select}
use airfrog.Swd.Parity.{count_ones, calculate_parity, bits, odd}

pub data SwdOp : Type 0 where
  dp_read dp_write ap_read ap_write : ℕ → SwdOp

-- Bits 1 to 4 decide the parity, which goes to bit 5.
unfoldable pub add_parity : ℕ → ℕ
unfolding calculate_parity count_ones
add_parity cmd = bit_or cmd ((if calculate_parity (bit_and cmd 0x1e) then 1 else 0) * 2 ^ 5)

-- `base | ((addr & 0x0C) << 1)` with its parity.
unfoldable pub command_with : ℕ → ℕ → ℕ
unfolding add_parity
command_with base addr = add_parity (bit_or base (bit_and addr 0x0c * 2))

unfoldable pub to_cmd : SwdOp → ℕ
unfolding command_with
to_cmd (SwdOp.dp_read a) = command_with 0x85 a
to_cmd (SwdOp.dp_write a) = command_with 0x81 a
to_cmd (SwdOp.ap_read a) = command_with 0x87 a
to_cmd (SwdOp.ap_write a) = command_with 0x83 a

unfoldable pub dp_select : SwdOp → Select × ℕ
dp_select (SwdOp.dp_read addr) =
    (Select.set_dpbanksel_from_addr Select.default addr, Select.dpbanksel_mask)
dp_select (SwdOp.dp_write addr) =
    (Select.set_dpbanksel_from_addr Select.default addr, Select.dpbanksel_mask)
dp_select (SwdOp.ap_read addr) =
    (Select.set_apbanksel_from_addr Select.default addr, Select.apbanksel_mask)
dp_select (SwdOp.ap_write addr) =
    (Select.set_apbanksel_from_addr Select.default addr, Select.apbanksel_mask)

-- The bank is computed in `u8`.
abbrev bank_matches : ℕ → ℕ → ℕ → Select → Bool
bank_matches addr shift mask select =
    bit_and select (mask * 2 ^ shift) == bit_and (addr / 2 ^ 4) 0xf * 2 ^ shift % 2 ^ 8

unfoldable pub check_dp_select : SwdOp → Select → Bool
check_dp_select (SwdOp.dp_read addr) =
    bank_matches addr Select.dpbanksel_shift Select.dpbanksel_mask
check_dp_select (SwdOp.dp_write addr) =
    bank_matches addr Select.dpbanksel_shift Select.dpbanksel_mask
check_dp_select (SwdOp.ap_read addr) =
    bank_matches addr Select.apbanksel_shift Select.apbanksel_mask
check_dp_select (SwdOp.ap_write addr) =
    bank_matches addr Select.apbanksel_shift Select.apbanksel_mask

unfoldable pub requires_power_up : SwdOp → Bool
requires_power_up (SwdOp.dp_read _) = false
requires_power_up (SwdOp.dp_write _) = false
requires_power_up (SwdOp.ap_read _) = true
requires_power_up (SwdOp.ap_write _) = true

-- The access port and direction bits, and the register address, of an operation.
abbrev pub is_ap : SwdOp → Bool
is_ap (SwdOp.dp_read _) = false
is_ap (SwdOp.dp_write _) = false
is_ap (SwdOp.ap_read _) = true
is_ap (SwdOp.ap_write _) = true

abbrev pub is_read : SwdOp → Bool
is_read (SwdOp.dp_read _) = true
is_read (SwdOp.dp_write _) = false
is_read (SwdOp.ap_read _) = true
is_read (SwdOp.ap_write _) = false

abbrev pub address : SwdOp → ℕ
address (SwdOp.dp_read a) = a
address (SwdOp.dp_write a) = a
address (SwdOp.ap_read a) = a
address (SwdOp.ap_write a) = a

and_0c : (a : ℕ) → bit_and a 0x0c ≡ a / 4 % 4 * 4
and_0c a = ground (
  arith,
  bit_and_fields 2 (a / 4) (a % 4) 3 0 (omega arith) (omega arith),
  bit_and_low_mask 2 (a / 4),
  bit_and-zero (a % 4),
)

below_four : (n : ℕ) → (n % 4 ≡ 0) ⊎ (n % 4 ≡ 1) ⊎ (n % 4 ≡ 2) ⊎ (n % 4 ≡ 3)
below_four n = grind arith

-- Eight bits in the order in which they go over the wire: start (1), APnDP, RnW, address bits 2
-- and 3, the parity of these four, stop (0) and park (1).
abbrev pub frame_bits : Bool → Bool → Bool → Bool → List Bool
frame_bits ap rd a2 a3 = true ∷ ap ∷ rd ∷ a2 ∷ a3 ∷ odd (ap ∷ rd ∷ a2 ∷ a3 ∷ []) ∷ false ∷ true ∷ []

abbrev pub frame : SwdOp → List Bool
frame op = frame_bits (is_ap op) (is_read op) (address op / 4 % 2 == 1) (address op / 8 % 2 == 1)

-- The four values of the two address bits.
data Quarter : Type 0 where
  first second third fourth : Quarter

abbrev value : Quarter → ℕ
value first = 0
value second = 1
value third = 2
value fourth = 3

quarter_of : (n : ℕ) → (q : Quarter) × (n % 4 ≡ value q)
quarter_of n = elim (below_four n) [
  | inl e ↦ (first, e)
  | inr (inl e) ↦ (second, e)
  | inr (inr (inl e)) ↦ (third, e)
  | inr (inr (inr e)) ↦ (fourth, e)
]

abbrev bit_2 : Quarter → Bool
bit_2 first = false
bit_2 second = true
bit_2 third = false
bit_2 fourth = true

abbrev bit_3 : Quarter → Bool
bit_3 first = false
bit_3 second = false
bit_3 third = true
bit_3 fourth = true

bits_of :
    (a : ℕ) (q : Quarter)
    → a / 4 % 4 ≡ value q
    → ((a / 4 % 2 == 1) ≡ bit_2 q) × ((a / 8 % 2 == 1) ≡ bit_3 q)
bits_of a first e = (ground arith, ground arith)
bits_of a _ e = (ground arith, ground arith)

-- With the address bits known the command byte computes.
command_at :
    (op : SwdOp) (q : Quarter)
    → bit_and (address op) 0x0c ≡ value q * 4
    → bits 8 (to_cmd op) ≡ frame_bits (is_ap op) (is_read op) (bit_2 q) (bit_3 q)
unfolding to_cmd
command_at (SwdOp.dp_read a) first m = rw m refl
command_at (SwdOp.dp_read a) _ m = rw m refl
command_at (SwdOp.dp_write a) first m = rw m refl
command_at (SwdOp.dp_write a) _ m = rw m refl
command_at (SwdOp.ap_read a) first m = rw m refl
command_at (SwdOp.ap_read a) _ m = rw m refl
command_at (SwdOp.ap_write a) first m = rw m refl
command_at (SwdOp.ap_write a) _ m = rw m refl

-- A command byte is the frame of its operation, for every operation and register address.
pub to_cmd-frame : (op : SwdOp) → bits 8 (to_cmd op) ≡ frame op
to_cmd-frame op =
    let (q, e) = quarter_of (address op / 4) in
    let (two, three) = bits_of (address op) q e in
    command_at op q (and_0c (address op) ∙ ap (λ (t : ℕ). t * 4) e) ∙ rw (two, three) refl

pub dp_bank : (s : ℕ) → bit_and s 0x0f ≡ s % 16
dp_bank = bit_and_low_mask 4

pub addr_bank : (a : ℕ) → bit_and (a / 2 ^ 4) 0xf ≡ a / 16 % 16
addr_bank a = bit_and_low_mask 4 (a / 16)

pub ap_bank : (s : ℕ) → bit_and s 0xf0 ≡ s / 16 % 16 * 16
ap_bank s = ground (
  arith,
  bit_and_fields 4 (s / 16) (s % 16) 0xf 0 (omega arith) (omega arith),
  bit_and_low_mask 4 (s / 16),
  bit_and-zero (s % 16),
)

-- The SELECT check passes exactly when the bank that the operation is routed through, the AP bank
-- for an AP access and the DP bank otherwise, is the one of its register address.
pub check_dp_select_iff :
    (op : SwdOp) (s : Select)
    → s < 2 ^ 32
    → address op < 256
    → (check_dp_select op s ≡ true)
      ↔ ((if is_ap op then Select.apbanksel s else Select.dpbanksel s) ≡ address op / 16)
unfolding check_dp_select
check_dp_select_iff (SwdOp.dp_read a) s hs ha =
    ground (arith, dp_bank s, addr_bank a, Select.dpbanksel_lem s)
check_dp_select_iff (SwdOp.dp_write a) s hs ha =
    ground (arith, dp_bank s, addr_bank a, Select.dpbanksel_lem s)
check_dp_select_iff (SwdOp.ap_read a) s hs ha =
    ground (arith, ap_bank s, addr_bank a, Select.apbanksel_lem s)
check_dp_select_iff (SwdOp.ap_write a) s hs ha =
    ground (arith, ap_bank s, addr_bank a, Select.apbanksel_lem s)
