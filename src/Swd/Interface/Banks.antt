-- ===== src/Swd/Interface/Banks.antt =====
-- The SELECT value that `check_and_update_dp_select` writes picks the bank of the access.
use airfrog.Prelude.{ℕ, ◌≡◌, ◌<◌, ◌/◌, ◌^◌, arith, true, bit_and}
use airfrog.Prelude.Bits.{bit_and_low_mask}
use airfrog.Core.Select
use airfrog.Core.Select.{Select, select_laws}
use airfrog.Swd.Command.{SwdOp, dp_select, check_dp_select, address, check_dp_select_iff}
use airfrog.Swd.Interface.Access.{select_for}

bank_of : (a : ℕ) → a < 256 → bit_and (a / 2 ^ 4) 0xf ≡ a / 16
bank_of a h = omega (arith, bit_and_low_mask 4 (a / 16))

ap_bank_set :
    (v : Select) (a : ℕ)
    → v < 2 ^ 32
    → a < 256
    → (Select.apbanksel (Select.set_apbanksel_from_addr v a) ≡ a / 16)
      × (Select.set_apbanksel_from_addr v a < 2 ^ 32)
unfolding Select.set_apbanksel_from_addr
ap_bank_set v a h k = rw (bank_of a k) (omega select_laws)

dp_bank_set :
    (v : Select) (a : ℕ)
    → v < 2 ^ 32
    → a < 256
    → (Select.dpbanksel (Select.set_dpbanksel_from_addr v a) ≡ a / 16)
      × (Select.set_dpbanksel_from_addr v a < 2 ^ 32)
unfolding Select.set_dpbanksel_from_addr
dp_bank_set v a h k = rw (bank_of a k) (omega select_laws)

pub select_for-passes : (op : SwdOp) → address op < 256 → check_dp_select op (select_for op) ≡ true
unfolding select_for dp_select
select_for-passes (SwdOp.dp_read a) h =
    let (_, fits) = dp_bank_set 0 a (omega arith) h in
    let (bank, fits') = dp_bank_set _ a fits h in
    (check_dp_select_iff (SwdOp.dp_read a) _ fits' h).1 bank
select_for-passes (SwdOp.dp_write a) h =
    let (_, fits) = dp_bank_set 0 a (omega arith) h in
    let (bank, fits') = dp_bank_set _ a fits h in
    (check_dp_select_iff (SwdOp.dp_write a) _ fits' h).1 bank
select_for-passes (SwdOp.ap_read a) h =
    let (_, fits) = ap_bank_set 0 a (omega arith) h in
    let (bank, fits') = ap_bank_set _ a fits h in
    (check_dp_select_iff (SwdOp.ap_read a) _ fits' h).1 bank
select_for-passes (SwdOp.ap_write a) h =
    let (_, fits) = ap_bank_set 0 a (omega arith) h in
    let (bank, fits') = ap_bank_set _ a fits h in
    (check_dp_select_iff (SwdOp.ap_write a) _ fits' h).1 bank
