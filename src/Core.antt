-- ===== src/Core.antt =====
-- The crate airfrog-core: the debug registers of src/arm, Debug Port (Select and CtrlStat, dp.rs)
-- and MEM-AP (Csw, map.rs), each a newtype over `u32` there and a number below 2 ^ 32 here; the core
-- types (Cortex, arm/mod.rs); and the chips (Stm, stm.rs; Rp, rp.rs; Mcu, lib.rs).
pub mod Fields
pub mod Select
pub mod CtrlStat
pub mod Csw
pub mod Cortex
pub mod Stm
pub mod Rp
pub mod Mcu
pub mod Examples
