-- ===== src/Core/Cortex.antt =====
-- `Cortex` of airfrog-core/src/arm/mod.rs: the cores that are told apart by their IDCODE; and the
-- IDR values of airfrog-core/src/arm/ap.rs.
use airfrog.Prelude.{ℕ, ◌≡◌, ◌↔◌, ◌⊎◌, arith, ◌||◌, ◌==◌, if◌then◌else◌, Option, none, some}

pub data Cortex : Type 0 where
  m0 m3 m4 m33 : Cortex

abbrev pub idcode_m0 : ℕ
idcode_m0 = 0x0bc12477

abbrev pub idcode_m0_plus : ℕ
idcode_m0_plus = 0x0bc11477

abbrev pub idcode_m3 : ℕ
idcode_m3 = 0x1ba01477

abbrev pub idcode_m4 : ℕ
idcode_m4 = 0x2ba01477

abbrev pub idcode_m33 : ℕ
idcode_m33 = 0x4c013477

unfoldable pub idcode : Cortex → ℕ
idcode Cortex.m0 = idcode_m0
idcode Cortex.m3 = idcode_m3
idcode Cortex.m4 = idcode_m4
idcode Cortex.m33 = idcode_m33

unfoldable pub from_idcode : ℕ → Option Cortex
from_idcode code =
    if code == idcode_m0 || code == idcode_m0_plus
    then some Cortex.m0
    else if code == idcode_m3
    then some Cortex.m3
    else if code == idcode_m4
    then some Cortex.m4
    else if code == idcode_m33
    then some Cortex.m33
    else none

abbrev pub idr_cortex_m0 : ℕ
idr_cortex_m0 = 0x04770031

abbrev pub idr_cortex_m3 : ℕ
idr_cortex_m3 = 0x24770011

abbrev pub idr_cortex_m4 : ℕ
idr_cortex_m4 = 0x24770011

abbrev pub idr_cortex_m33 : ℕ
idr_cortex_m33 = 0x24770011

-- A core is recognised by its IDCODE, and the M0 by that of the M0+ as well.
pub from_idcode_iff :
    (code : ℕ) (c : Cortex)
    → (from_idcode code ≡ some c)
      ↔ ((code ≡ idcode c) ⊎ ((code ≡ idcode_m0_plus) × (c ≡ Cortex.m0)))
unfolding from_idcode idcode
from_idcode_iff code c = ground arith
