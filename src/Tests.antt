-- ===== src/Tests.antt =====
-- Concrete runs.
pub mod Fixtures
pub mod Ledger
pub mod Rows
pub mod Replay
pub mod Backfill
pub mod Graph
pub mod Handlers
pub mod Sync
