-- ===== src/Dealer.antt =====
-- The dealer: rust/sideswap_dealer/src/dealer.rs.
pub mod Types
pub mod Prices
pub mod Psets
pub mod Own
pub mod State
pub mod Reload
pub mod Timer
pub mod Worker
pub mod Replies
pub mod Trades
pub mod OwnOrders
pub mod Safety
pub mod Messages
pub mod Runs
pub mod Taking
pub mod Funding
pub mod Signing
mod Tests
