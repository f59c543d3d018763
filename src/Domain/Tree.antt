-- ===== src/Domain/Tree.antt =====
-- internal/domain/tree.go: the cumulative tree, and the tree of a comparison.
pub mod Induction
use layerlens.Base.{
  ℕ, Bool, Option, none, some, List, [], ◌∷◌, Bytes, codes, if◌then◌else◌, bytes_eq,
}
use layerlens.Domain.Entry.{EntryKind, Xattrs}

-- The fields of a Node, but for its name and its children.
pub record Attrs : Type 0 where
  pub kind : EntryKind
  pub mode : ℕ
  pub size : ℕ
  pub uid : ℕ
  pub gid : ℕ
  pub uname : Bytes
  pub gname : Bytes
  pub devmajor : ℕ
  pub devminor : ℕ
  pub xattrs : Xattrs
  pub mtime_unix : ℕ
  pub link_target : Bytes
  pub content_sha : Bytes
  pub implicit : Bool

-- A child map is an association list. A nil map reads like an empty one.
mutual
  pub data Node : Type 0 where
    node : Bytes → Attrs → Children → Node

  pub data Children : Type 0 where
    no_children : Children
    child : Bytes → Node → Children → Children

abbrev pub node_name : Node → Bytes
node_name (node n a cs) = n

abbrev pub attrs : Node → Attrs
attrs (node n a cs) = a

abbrev pub children : Node → Children
children (node n a cs) = cs

-- `m[k]`, `m[k] = n` and `delete(m, k)`.
unfoldable pub get_child : Bytes → Children → Option Node
get_child k no_children = none
get_child k (child j n cs) = if bytes_eq j k then some n else get_child k cs

unfoldable pub put_child : Bytes → Node → Children → Children
put_child k n no_children = child k n no_children
put_child k n (child j m cs) =
    let rest = put_child k n cs in if bytes_eq j k then child k n cs else child j m rest

unfoldable pub delete_child : Bytes → Children → Children
delete_child k no_children = no_children
delete_child k (child j m cs) =
    let rest = delete_child k cs in if bytes_eq j k then rest else child j m rest

pub data DiffStatus : Type 0 where
  unchanged added removed modified : DiffStatus

abbrev pub status_eq : DiffStatus → DiffStatus → Bool
status_eq unchanged unchanged = Bool.true
status_eq added added = Bool.true
status_eq removed removed = Bool.true
status_eq modified modified = Bool.true
status_eq _ _ = Bool.false

unfoldable pub status_string : DiffStatus → Bytes
status_string unchanged = codes "unchanged"
status_string added = codes "added"
status_string removed = codes "removed"
status_string modified = codes "modified"

pub record SideMeta : Type 0 where
  pub kind : EntryKind
  pub mode : ℕ
  pub size : ℕ
  pub uid : ℕ
  pub gid : ℕ
  pub uname : Bytes
  pub gname : Bytes
  pub devmajor : ℕ
  pub devminor : ℕ
  pub xattrs : Xattrs
  pub link_target : Bytes
  pub content_sha : Bytes
  pub implicit : Bool

pub record Agg : Type 0 where
  pub left_bytes : ℕ
  pub right_bytes : ℕ
  pub left_files : ℕ
  pub right_files : ℕ
  pub added_bytes : ℕ
  pub removed_bytes : ℕ
  pub modified_bytes_left : ℕ
  pub modified_bytes_right : ℕ
  pub added_files : ℕ
  pub removed_files : ℕ
  pub modified_files : ℕ

-- The fields are name, status, left side, right side, aggregate and children.
mutual
  pub data DiffNode : Type 0 where
    diff_node : Bytes → DiffStatus → Option SideMeta → Option SideMeta → Agg → Rows → DiffNode

  pub data Rows : Type 0 where
    no_rows : Rows
    row : DiffNode → Rows → Rows

abbrev pub row_name : DiffNode → Bytes
row_name (diff_node n s l r a cs) = n

abbrev pub row_status : DiffNode → DiffStatus
row_status (diff_node n s l r a cs) = s

abbrev pub row_left : DiffNode → Option SideMeta
row_left (diff_node n s l r a cs) = l

abbrev pub row_right : DiffNode → Option SideMeta
row_right (diff_node n s l r a cs) = r

abbrev pub row_agg : DiffNode → Agg
row_agg (diff_node n s l r a cs) = a

abbrev pub row_children : DiffNode → Rows
row_children (diff_node n s l r a cs) = cs

-- A slice of rows, as a list and back.
abbrev pub list_of : Rows → List DiffNode
list_of no_rows = []
list_of (row d rs) = d ∷ list_of rs

abbrev pub rows_of : List DiffNode → Rows
rows_of [] = no_rows
rows_of (d ∷ ds) = row d (rows_of ds)
