-- ===== src/Swd/Wire.antt =====
-- The wire protocol of airfrog-swd/src/protocol.rs. The pins and the timer belong to esp_hal, riscv
-- and embassy, so each call of theirs is an event of a trace (Hal); the operations of `SwdProtocol`
-- append to it (Protocol, Reset), and what they read is the target's answer to the trace so far
-- (Read). The proofs follow the driven levels (Driven), the sampled ones (Sampled) and the
-- sequences that wake a target (Entry).
pub mod Hal
pub mod Protocol
pub mod Reset
pub mod Read
pub mod Driven
pub mod Sampled
pub mod Entry
