-- ===== src/Tests.antt =====
-- Runs of the model on small inputs, and the theorems at inputs that meet their hypotheses.
mod Ledger
mod Blocks
mod Model
mod Pages
mod Weights
mod Chains
mod Frauds
mod Nodes
