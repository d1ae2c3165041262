-- ===== src/Ble.antt =====
-- The Bluetooth mesh link layer: native/conest_native/src/ble/core.rs and ble/mod.rs.
pub mod Packet
pub mod Reassembler
pub mod LinkId
pub mod Link
pub mod Backoff
pub mod Core
pub mod DropGuard
mod Tests
