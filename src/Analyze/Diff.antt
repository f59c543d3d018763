-- ===== src/Analyze/Diff.antt =====
-- internal/analyze/diff.go and sort.go: two cumulative trees compared.
pub mod Filling
pub mod Totals
pub mod Balance
pub mod Metadata
pub mod Siblings
pub mod Squashed
pub mod Names
pub mod Unchanged
use layerlens.Base.{
  ℕ, Bool, true, false, Option, none, some, List, [], ◌∷◌, ◌++◌, Bytes, ◌&&◌, ◌||◌, not,
  if◌then◌else◌, bytes_eq, bytes_lt, sort, add64,
}
use layerlens.Domain.Entry.{file, dir, kind_eq}
use layerlens.Domain.Tree.{
  Attrs, Node, Children, node, no_children, child, get_child, DiffStatus, unchanged, added, removed,
  modified, status_eq, SideMeta, Agg, DiffNode, diff_node, row_name, row_status, row_agg, rows_of,
}
use layerlens.Analyze.Fields.{mask_mode, fields_of_node, fields_equal}

abbrev pub meta_of : Attrs → SideMeta
meta_of a = record {
  kind = a.kind;
  mode = mask_mode a.mode;
  size = a.size;
  uid = a.uid;
  gid = a.gid;
  uname = a.uname;
  gname = a.gname;
  devmajor = a.devmajor;
  devminor = a.devminor;
  xattrs = a.xattrs;
  link_target = a.link_target;
  content_sha = a.content_sha;
  implicit = a.implicit;
}

unfoldable pub meta_differs : Attrs → Attrs → Bool
meta_differs l r =
    if not (kind_eq l.kind r.kind)
    then true
    else if kind_eq l.kind dir && (l.implicit || r.implicit)
    then false
    else not (fields_equal (fields_of_node l) (fields_of_node r))

-- sort.go.
unfoldable pub is_dir_row : DiffNode → Bool
is_dir_row (diff_node _ _ _ (some r) _ _) = kind_eq r.kind dir
is_dir_row (diff_node _ _ (some l) none _ _) = kind_eq l.kind dir
is_dir_row (diff_node _ _ none none _ _) = false

abbrev same_bool : Bool → Bool → Bool
same_bool true b = b
same_bool false b = not b

unfoldable pub row_less : DiffNode → DiffNode → Bool
row_less x y =
    if not (same_bool (is_dir_row x) (is_dir_row y))
    then is_dir_row x
    else bytes_lt (row_name x) (row_name y)

unfoldable pub sort_diff_children : List DiffNode → List DiffNode
sort_diff_children rows = sort row_less rows

-- The aggregates of a fresh row are zero.
unfoldable pub add_agg : Agg → Agg → Agg
add_agg dst src = record {
  left_bytes = add64 dst.left_bytes src.left_bytes;
  right_bytes = add64 dst.right_bytes src.right_bytes;
  left_files = add64 dst.left_files src.left_files;
  right_files = add64 dst.right_files src.right_files;
  added_bytes = add64 dst.added_bytes src.added_bytes;
  removed_bytes = add64 dst.removed_bytes src.removed_bytes;
  modified_bytes_left = add64 dst.modified_bytes_left src.modified_bytes_left;
  modified_bytes_right = add64 dst.modified_bytes_right src.modified_bytes_right;
  added_files = add64 dst.added_files src.added_files;
  removed_files = add64 dst.removed_files src.removed_files;
  modified_files = add64 dst.modified_files src.modified_files;
}

abbrev pub is_file : Option SideMeta → Bool
is_file none = false
is_file (some m) = kind_eq m.kind file

-- The size of a regular file, and zero for what is not counted.
abbrev pub file_size : Option SideMeta → ℕ
file_size none = 0
file_size (some m) = if kind_eq m.kind file then m.size else 0

abbrev count_if : Bool → ℕ
count_if b = if b then 1 else 0

-- fillAgg before its loop: what the node contributes of its own.
unfoldable pub own_agg : DiffStatus → Option SideMeta → Option SideMeta → Agg
own_agg s l r =
    let is_added = status_eq s added in
    let is_removed = status_eq s removed in
    let is_modified = status_eq s modified in
    record {
      left_bytes = file_size l;
      right_bytes = file_size r;
      left_files = count_if (is_file l);
      right_files = count_if (is_file r);
      added_bytes = if is_added then file_size r else 0;
      removed_bytes = if is_removed then file_size l else 0;
      modified_bytes_left = if is_modified then file_size l else 0;
      modified_bytes_right = if is_modified then file_size r else 0;
      added_files = if is_added then count_if (is_file r) else 0;
      removed_files = if is_removed then count_if (is_file l) else 0;
      modified_files = if is_modified then count_if (is_file l || is_file r) else 0;
    }

unfoldable pub add_rows : Agg → List DiffNode → Agg
add_rows a [] = a
add_rows a (c ∷ cs) = add_rows (add_agg a (row_agg c)) cs

-- A row of the final children, with fillAgg run on it.
unfoldable pub filled :
    Bytes → DiffStatus → Option SideMeta → Option SideMeta → List DiffNode → DiffNode
unfolding add_rows own_agg
filled name s l r rows = diff_node name s l r (add_rows (own_agg s l r) rows) (rows_of rows)

-- The sides of a one-sided row.
abbrev pub marked : DiffStatus → Bytes → Attrs → List DiffNode → DiffNode
marked s name a rows =
    if status_eq s added
    then filled name s none (some (meta_of a)) (sort_diff_children rows)
    else filled name s (some (meta_of a)) none (sort_diff_children rows)

unfoldable mutual
  pub mark_subtree : DiffStatus → Node → DiffNode
  mark_subtree s (node n a cs) = marked s n a (mark_children s cs)

  pub mark_children : DiffStatus → Children → List DiffNode
  mark_children s no_children = []
  mark_children s (child _ c cs) = mark_subtree s c ∷ mark_children s cs

unfoldable pub child_names : Children → List Bytes
child_names no_children = []
child_names (child k _ cs) = k ∷ child_names cs

-- The names in `r` that `l` lacks.
unfoldable pub new_names : Children → Children → List Bytes
new_names l no_children = []
new_names l (child k _ cs) =
    let rest = new_names l cs in elim (get_child k l) [ none ↦ k ∷ rest | some _ ↦ rest ]

unfoldable pub sorted_union : Children → Children → List Bytes
unfolding child_names new_names
sorted_union l r = sort bytes_lt (child_names l ++ new_names l r)

-- A comparison that there is goes with the rows.
abbrev pub keep_row : Option DiffNode → List DiffNode → List DiffNode
keep_row none rows = rows
keep_row (some c) rows = c ∷ rows

-- The loop over the names, of which `f` compares the two children.
unfoldable pub child_rows : (Bytes → Option DiffNode) → List Bytes → List DiffNode
child_rows f [] = []
child_rows f (k ∷ ks) = keep_row (f k) (child_rows f ks)

unfoldable pub some_changed : List DiffNode → Bool
some_changed [] = false
some_changed (c ∷ cs) = not (status_eq (row_status c) unchanged) || some_changed cs

abbrev pub status_of : Bool → DiffStatus
status_of changed = if changed then modified else unchanged

-- The part of Diff behind its switch; `f` compares the children of one name.
unfoldable pub diff_both : Bytes → Attrs → Attrs → (Bytes → Option DiffNode) → List Bytes → DiffNode
diff_both name la ra f names =
    if kind_eq la.kind dir && kind_eq ra.kind dir
    then filled name (status_of (some_changed (child_rows f names) || meta_differs la ra))
        (some (meta_of la)) (some (meta_of ra)) (sort_diff_children (child_rows f names))
    else filled name (status_of (meta_differs la ra)) (some (meta_of la)) (some (meta_of ra)) []

-- Diff(nil, r).
unfoldable pub diff_nil : Option Node → Option DiffNode
unfolding mark_subtree
diff_nil none = none
diff_nil (some r) = some (mark_subtree added r)

-- Diff(l, r) for a left node, and Diff(cs[name], r) for a child map.
unfoldable mutual
  pub diff_node_with : Node → Option Node → Option DiffNode
  diff_node_with l none = some (mark_subtree removed l)
  diff_node_with (node n la lcs) (some (node m ra rcs)) =
      some (diff_both n la ra (λ k. diff_child_with lcs k (get_child k rcs)) (sorted_union lcs rcs))

  pub diff_child_with : Children → Bytes → Option Node → Option DiffNode
  diff_child_with no_children name r = diff_nil r
  diff_child_with (child k c cs) name r =
      let rest = diff_child_with cs name r in if bytes_eq k name then diff_node_with c r else rest

unfoldable pub diff : Option Node → Option Node → Option DiffNode
unfolding diff_node_with
diff none r = diff_nil r
diff (some l) r = diff_node_with l r
