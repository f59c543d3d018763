-- ===== src/Server.antt =====
-- internal/server: what the handlers compute on a comparison.
pub mod Paging
pub mod Comparisons
pub mod Rows
