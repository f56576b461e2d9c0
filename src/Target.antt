-- ===== src/Target.antt =====
-- The task that owns the SWD interface: airfrog/src/target/mod.rs, request.rs and response.rs.
pub mod HexText
pub mod Types
pub mod State
pub mod Rest
pub mod Requests
pub mod Path
pub mod Api
pub mod Loop
mod Examples
