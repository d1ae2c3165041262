-- ===== src/Relay.antt =====
-- The relay: native/conest_relay/src/main.rs.
pub mod Table
pub mod Windows
pub mod Budget
pub mod Peers
pub mod Store
pub mod Fetch
pub mod History
pub mod Wait
mod Tests
mod LimitTests
