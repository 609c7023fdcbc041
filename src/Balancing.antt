-- ===== src/Balancing.antt =====
-- The transfers between the dealer's wallet and the exchange: storage.rs, balancing.rs and the
-- start of a transfer in main.rs, all of rust/sideswap_dealer_bitfinex/src.
pub mod Types
pub mod Decide
pub mod Process
pub mod Runs
pub mod Diagram
pub mod Spending
pub mod Safety
pub mod Evidence
mod Tests
