-- ===== src/Token.antt =====
-- rig/token.py: the token ledger, its block rewards, transfers, data lane and bonds.
pub mod Types
pub mod Txs
pub mod Emission
pub mod Account
pub mod Transfer
pub mod Bonds
pub mod Shares
pub mod Challenges
pub mod DataLane
pub mod Conservation
pub mod Nonces
pub mod Reward
pub mod Commit
pub mod Minting
