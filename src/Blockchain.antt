-- ===== src/Blockchain.antt =====
-- rig/blockchain.py: blocks, the token-state transition and the scheduled version.
pub mod Version
pub mod Types
pub mod Ledger
pub mod Commit
pub mod Checks
pub mod Validate
pub mod Tree
pub mod Build
pub mod Replay
pub mod Accepted
pub mod Supply
pub mod Chain
