-- ===== src/Core/CtrlStat.antt =====
-- `CtrlStat` and `Abort` of airfrog-core/src/arm/dp.rs: the DP's status register, and the register
-- that clears its errors.
use airfrog.Prelude.{ℕ, ◌/◌, ◌%◌, ◌^◌, ◌≡◌, ◌↔◌, ◌||◌, arith, Bool, false}
use airfrog.Core.Fields.{get_field, get_flag, set_flag, bit_and-pow}

abbrev pub CtrlStat : Type 0
CtrlStat = ℕ

unfoldable pub orundetect : CtrlStat → Bool
orundetect = get_flag (2 ^ 0)

unfoldable pub stickyorun : CtrlStat → Bool
stickyorun = get_flag (2 ^ 1)

unfoldable pub trnmode : CtrlStat → ℕ
trnmode = get_field 0b11 2

unfoldable pub stickycmp : CtrlStat → Bool
stickycmp = get_flag (2 ^ 4)

unfoldable pub stickyerr : CtrlStat → Bool
stickyerr = get_flag (2 ^ 5)

unfoldable pub readok : CtrlStat → Bool
readok = get_flag (2 ^ 6)

unfoldable pub wdataerr : CtrlStat → Bool
wdataerr = get_flag (2 ^ 7)

unfoldable pub masklane : CtrlStat → ℕ
masklane = get_field 0b1111 8

unfoldable pub trncnt : CtrlStat → ℕ
trncnt = get_field 0b1111_1111_1111 12

unfoldable pub cdbgrstreq : CtrlStat → Bool
cdbgrstreq = get_flag (2 ^ 26)

unfoldable pub cdbgrstack : CtrlStat → Bool
cdbgrstack = get_flag (2 ^ 27)

unfoldable pub cdbgpwrupreq : CtrlStat → Bool
cdbgpwrupreq = get_flag (2 ^ 28)

unfoldable pub cdbgpwrupack : CtrlStat → Bool
cdbgpwrupack = get_flag (2 ^ 29)

unfoldable pub csyspwrupreq : CtrlStat → Bool
csyspwrupreq = get_flag (2 ^ 30)

unfoldable pub csyspwrupack : CtrlStat → Bool
csyspwrupack = get_flag (2 ^ 31)

-- STICKYORUN is tested twice in the source.
unfoldable pub has_errors : CtrlStat → Bool
unfolding stickyorun stickycmp stickyerr wdataerr
has_errors v = stickyorun v || stickycmp v || stickyerr v || wdataerr v || stickyorun v

unfoldable pub set_cdbgrstreq : CtrlStat → Bool → CtrlStat
set_cdbgrstreq v enable = set_flag (2 ^ 26) v enable

unfoldable pub set_cdbgpwrupreq : CtrlStat → Bool → CtrlStat
set_cdbgpwrupreq v enable = set_flag (2 ^ 28) v enable

unfoldable pub set_csyspwrupreq : CtrlStat → Bool → CtrlStat
set_csyspwrupreq v enable = set_flag (2 ^ 30) v enable

abbrev pub Abort : Type 0
Abort = ℕ

unfoldable pub set_stkcmpclr : Abort → Bool → Abort
set_stkcmpclr v enable = set_flag (2 ^ 1) v enable

unfoldable pub set_stkerrclr : Abort → Bool → Abort
set_stkerrclr v enable = set_flag (2 ^ 2) v enable

unfoldable pub set_wderrclr : Abort → Bool → Abort
set_wderrclr v enable = set_flag (2 ^ 3) v enable

unfoldable pub set_orunerrclr : Abort → Bool → Abort
set_orunerrclr v enable = set_flag (2 ^ 4) v enable

-- The status register shows errors exactly when one of its bits 1, 4, 5 and 7 is set.
has_errors_iff :
    (v : CtrlStat)
    → (has_errors v ≡ false)
      ↔ ((v / 2 % 2 ≡ 0) × (v / 16 % 2 ≡ 0) × (v / 32 % 2 ≡ 0) × (v / 128 % 2 ≡ 0))
unfolding has_errors
has_errors_iff v =
    ground (arith, bit_and-pow 1 v, bit_and-pow 4 v, bit_and-pow 5 v, bit_and-pow 7 v)
