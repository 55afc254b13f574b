-- ===== src/ConnectionManager.antt =====
-- packages/libp2p/src/connection-manager: which connections are closed when there are too many
pub mod Pruner
mod Runs
