-- ===== src/Auction.antt =====
-- The auction contract (contracts/auction).
pub mod Types
pub mod Windows
pub mod Deposit
pub mod Pool
pub mod Lock
pub mod Locks
pub mod Migrate
pub mod Admin
pub mod Execute
pub mod Totals
mod Tests
