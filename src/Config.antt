-- ===== src/Config.antt =====
-- The stored configuration: airfrog/src/config.rs and airfrog/src/flash.rs.
pub mod Layout
pub mod Netmask
pub mod Net
pub mod Partition
pub mod Store
pub mod Text
pub mod Wifi
pub mod NetKey
pub mod Json
pub mod Accepted
mod Examples
