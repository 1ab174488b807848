-- ===== src/Credits.antt =====
-- The credits contract (contracts/credits): cNTRN, a token that is exchanged for untrn.
pub mod Types
pub mod Token
pub mod Schedules
pub mod Handlers
pub mod Execute
pub mod Backing
pub mod Withdrawals
pub mod Allocations
pub mod Runs
mod Tests
