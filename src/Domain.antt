-- ===== src/Domain.antt =====
-- The pure core types of internal/domain.
pub mod Digest
pub mod Entry
pub mod Image
pub mod Tree
