-- ===== src/Store.antt =====
-- packages/indexer/internal/store/store.go.
pub mod Keys
pub mod Records
pub mod Values
pub mod Tokens
pub mod Events
pub mod Assets
pub mod Identities
pub mod Freezes
pub mod Cursor
pub mod Ledger
pub mod Quiet
