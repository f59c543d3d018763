-- ===== src/Server/Rows.antt =====
-- internal/server/handlers_diff.go: the walk to a directory of a comparison, and what is said of its rows.
pub mod Find
use layerlens.Base.{
  ℕ, suc, zero, ◌+◌, ◌*◌, ◌-◌, Bool, true, false, Option, none, some, List, [], ◌∷◌, ◌++◌, Bytes,
  codes, ◌&&◌, ◌||◌, if◌then◌else◌, bytes_eq, split_on, trim_left, trim_right, add64, lt64, ◌==◌,
  ltb, length,
}
use layerlens.Domain.Tree.{DiffNode, Rows, no_rows, row, row_name, row_agg, row_children, list_of}

-- The first row of a name.
unfoldable pub find_row : Bytes → List DiffNode → Option DiffNode
find_row segment [] = none
find_row segment (d ∷ ds) =
    let rest = find_row segment ds in if bytes_eq (row_name d) segment then some d else rest

unfoldable pub find_segments : List Bytes → DiffNode → Option DiffNode
unfolding find_row bytes_eq
find_segments [] node = some node
find_segments (s ∷ ss) node =
    let here = find_segments ss node in
    if bytes_eq s [] then here else elim (find_row s (list_of (row_children node))) [
      | none ↦ none
      | some next ↦ find_segments ss next
    ]

unfoldable pub find_node : Option DiffNode → Bytes → Option DiffNode
unfolding find_segments
find_node none p = none
find_node (some root) p = find_segments (split_on b'/' (trim_left b'/' (trim_right b'/' p))) root

-- joinPath.
unfoldable pub join_row_path : Bytes → Bytes → Bytes
unfolding bytes_eq
join_row_path parent name =
    if bytes_eq parent (codes "/") then b'/' ∷ name else parent ++ b'/' ∷ name

-- The loop of maxSiblingBytes, from the maximum so far.
unfoldable pub max_loop : ℕ → List DiffNode → ℕ
max_loop maximum [] = maximum
max_loop maximum (d ∷ ds) =
    let total = add64 (row_agg d).left_bytes (row_agg d).right_bytes in
    max_loop (if lt64 maximum total then total else maximum) ds

unfoldable pub max_sibling_bytes : List DiffNode → ℕ
unfolding max_loop
max_sibling_bytes rows = max_loop 0 rows
