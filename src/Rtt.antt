-- ===== src/Rtt.antt =====
-- The RTT task of airfrog/src/firmware/rtt.rs.
pub mod Local
pub mod Queue
pub mod Task
pub mod Reads
pub mod Fetch
pub mod Asks
pub mod Requests
pub mod Fetched
mod Examples
