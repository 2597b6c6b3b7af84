-- ===== src/Tests.antt =====
-- Runs of the model on small inputs, and the theorems at them.
mod Data
mod Formats
mod Money
mod Blocks
mod Forum
mod Peers
mod Stores
mod ServiceData
mod Services
mod Restarts
mod Digests
