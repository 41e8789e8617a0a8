-- ===== src/Sync.antt =====
-- internal/sync: the debouncer and the locks by key.
pub mod Debounce
pub mod Lock
