-- ===== src/Airdrop.antt =====
-- The airdrop contract (contracts/cw20-merkle-airdrop).
pub mod Types
pub mod Execute
pub mod Steps
pub mod Runs
pub mod Tree
mod Tests
