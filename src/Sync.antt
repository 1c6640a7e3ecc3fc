-- ===== src/Sync.antt =====
-- The sync engine: zallet-core/src/components/sync.rs and its folder.
pub mod Status
pub mod Ledger
pub mod Locator
pub mod Fork
pub mod Recovery
pub mod Range
pub mod Tests
pub mod StoreTests
pub mod Scanner
pub mod Steady
pub mod History
