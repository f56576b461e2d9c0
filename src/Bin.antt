-- ===== src/Bin.antt =====
-- The binary API shared by server and client, airfrog-bin/src/lib.rs: command bytes and speeds
-- (Command), the operations of a request (Op), the reading of a request from a byte stream (Recv),
-- and the request format of docs/BINARY-API.md (Format) with the proofs that the two agree.
pub mod Error
pub mod Command
pub mod Speed
pub mod Op
pub mod Parse
pub mod Reader
pub mod Response
pub mod Recv
pub mod Drains
pub mod Format
pub mod RoundTrip
mod Examples
