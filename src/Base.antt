-- ===== src/Base.antt =====
-- The names that the other modules share: the libraries', passed on, and those of the children.
mod Tests
mod Lists
mod Text
mod Sort
mod Keys
mod Outcome
mod Int64
mod Paths
pub mod Dict
mod Integer
pub use Tests.*
pub use Lists.*
pub use Text.*
pub use Sort.*
pub use Keys.*
pub use Outcome.*
pub use Int64.*
pub use Paths.*
pub use Integer.*
pub use Prim.Native.Nat.{ℕ, zero, suc, ◌+◌, ◌-◌, ◌*◌, ◌/◌, ◌%◌, ◌^◌, ◌≤◌, ◌<◌, min}
pub use Prim.Native.String.{String}
pub use mathlib.Core.Path.{◌≡◌, refl, sym, ap, ◌∙◌}
pub use mathlib.Core.Logic.{◌≢◌, ◌↔◌, ◌⊎◌, inl, inr}
pub use mathlib.Core.Bool.{Bool, true, false, not, ◌&&◌, ◌||◌}
pub use mathlib.Core.Option.{Option, none, some}
pub use mathlib.Core.List.{List, [], ◌∷◌, ◌++◌, map}
pub use native.Mathlib.Omega.{arith}
unfoldable pub use Text.{bytes_eq, bytes_lt, has_prefix}
unfoldable pub use Keys.{contains}
unfoldable pub use Sort.{sort_insert, sort}
unfoldable pub use Paths.{put_head, split_on, trim_left, trim_right, path_split}
