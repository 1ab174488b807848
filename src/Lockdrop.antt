-- ===== src/Lockdrop.antt =====
-- The lockdrop contract (contracts/lockdrop).
pub mod Types
pub mod Chain
pub mod Storage
pub mod Amounts
pub mod Rewards
pub mod Lockups
pub mod Admin
pub mod Staking
pub mod Claim
pub mod Queries
pub mod Migration
pub mod Execute
pub mod Authority
pub mod Totals
pub mod Limits
pub mod Unlock
pub mod RoundTrip
mod Samples
mod Tests
