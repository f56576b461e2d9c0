-- ===== src/Swd.antt =====
-- The SWD crate, airfrog-swd/src: errors (Error, lib.rs), operations and their command bytes
-- (Command, interface.rs), the wire protocol (Wire and Parity, protocol.rs), single transfers
-- (Transfer, interface.rs), the interface that makes them (Interface, interface.rs), the binary
-- API server that serves it (Server, bin.rs), and the debug interface (Debug, debug.rs).
pub mod Error
pub mod Parity
pub mod Command
pub mod Wire
pub mod Transfer
pub mod Interface
pub mod Server
pub mod Debug
mod Examples
