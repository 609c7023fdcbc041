-- ===== src/Payjoin.antt =====
-- Payjoin transactions: rust/sideswap_payjoin/src/lib.rs, network_fee.rs and pset.rs.
pub mod Types
pub mod Plan
pub mod Funding
pub mod Assets
pub mod Fees
pub mod Balance
pub mod Pset
pub mod Signing
mod Tests
