-- ===== src/Vesting.antt =====
-- The vesting library (packages/vesting-base) that the vesting contracts are built from.
pub mod Types
pub mod Amounts
pub mod Register
pub mod Claim
pub mod Managed
pub mod Managers
pub mod Execute
pub mod Invariant
pub mod Flow
pub mod Runs
pub mod Queries
mod Tests
pub mod Authority
