-- ===== src/Ws.antt =====
-- The websocket client: rust/sideswap_common/src/ws/auto.rs, with the constants of ws.rs.
pub mod Auto
pub mod Protocol
pub mod Silence
pub mod Queue
pub mod Delays
mod Tests
