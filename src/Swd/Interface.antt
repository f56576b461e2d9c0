-- ===== src/Swd/Interface.antt =====
-- `SwdInterface` of airfrog-swd/src/interface.rs, over the single transfers of Swd/Transfer.
pub mod State
pub mod Steps
pub mod Access
pub mod Banks
pub mod Coherent
pub mod Routed
pub mod Bulk
pub mod Memory
pub mod Raw
pub mod Written
pub mod Identify
pub mod Reset
pub mod Line
pub mod Logged
pub mod Wired
pub mod Target
mod Examples
