-- ===== src/Indexer.antt =====
-- packages/indexer/internal/indexer/indexer.go.
pub mod Abi
pub mod Recording
pub mod Transfers
pub mod Assets
pub mod Wallets
pub mod Protocol
pub mod Quiet
pub mod Dispatch
pub mod Replay
pub mod Sync
