-- ===== src/Cachestore.antt =====
-- internal/cachestore: the durable cache of layer indexes and image records.
pub mod State
pub mod Layout
pub mod Lru
pub mod Txn
pub mod Put
pub mod Commit
pub mod Records
pub mod Rewrite
pub mod Steps
pub mod Sweep
