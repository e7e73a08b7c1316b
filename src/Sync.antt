-- ===== src/Sync.antt =====
-- core/notesnook-sync-coordinator.ts and core/notesnook-sync-state-store.ts: the queue of local
-- changes that wait to be synchronised, and the drain that hands them to an executor.
pub mod Types
pub mod Store
pub mod PersistentStore
pub mod Queue
pub mod Approvals
pub mod Drain
pub mod SingleFlight
pub mod RecoveryJournal
mod Tests
