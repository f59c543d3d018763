-- ===== src/Base/Sort.antt =====
-- Sorting by a Boolean order.
mod Defs
mod Order
pub use Defs.*
pub use Order.*
unfoldable pub use Defs.{sort_insert, sort}
