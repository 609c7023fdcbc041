-- ===== src/Headless.antt =====
-- The headless server: its order worker, rust/sideswap_headless_server/src/worker.rs, and its
-- wallet's thread, wallet.rs.
pub mod Types
pub mod Requests
pub mod Submit
pub mod Worker
pub mod Reserved
pub mod Exclusive
pub mod Isolation
pub mod Ledger
pub mod Outage
pub mod Answers
pub mod Wallet
mod Quiet
mod Steady
pub mod System
mod Moves
pub mod Counting
pub mod Signing
pub mod Guarded
pub mod Approval
mod Tests
