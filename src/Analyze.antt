-- ===== src/Analyze.antt =====
-- The pure algorithms of internal/analyze.
pub mod Fields
pub mod Changeset
pub mod Diff
pub mod Sanitize
pub mod Trunk
pub mod Edges
pub mod History
pub mod Indexer
pub mod Squash
