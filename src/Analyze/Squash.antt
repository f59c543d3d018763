-- ===== src/Analyze/Squash.antt =====
-- internal/analyze/squash.go: layers folded into the cumulative tree. A pointer into the tree is
-- the list of the segments that lead to the node; what is written through it is a function.
pub mod Segments
pub mod View
pub mod Upsert
pub mod Trees
pub mod Entries
pub mod Markers
pub mod Overlay
pub mod Layers
use layerlens.Base.{
  ℕ, Bool, true, false, Option, none, some, List, [], ◌∷◌, Bytes, codes, ◌&&◌, ◌||◌, if◌then◌else◌,
  bytes_eq, split_on, trim_left, trim_right, path_split,
}
use layerlens.Domain.Entry.{EntryKind, Entry, LayerIndex, dir, whiteout, opaque, kind_eq}
use layerlens.Domain.Tree.{
  Attrs, Node, Children, node, no_children, attrs, children, get_child, put_child, delete_child,
}
use layerlens.Analyze.Fields.{mask_mode}

abbrev pub root_path : Bytes
root_path = codes "/"

abbrev pub implicit_dir_mode : ℕ
implicit_dir_mode = 0o755

-- The attributes that newDir gives, with the flag that its callers set.
abbrev pub dir_attrs : Bool → Attrs
dir_attrs implicit = record {
  kind = dir;
  mode = implicit_dir_mode;
  size = 0;
  uid = 0;
  gid = 0;
  uname = [];
  gname = [];
  devmajor = 0;
  devminor = 0;
  xattrs = [];
  mtime_unix = 0;
  link_target = [];
  content_sha = [];
  implicit = implicit;
}

-- newDir, and `Implicit = true`.
abbrev pub implicit_dir : Bytes → Node
implicit_dir name = node name (dir_attrs true) no_children

-- nodeFrom, but for the name and the children.
abbrev pub entry_attrs : Entry → Attrs
entry_attrs e = record {
  kind = e.kind;
  mode = mask_mode e.mode;
  size = e.size;
  uid = e.uid;
  gid = e.gid;
  uname = e.uname;
  gname = e.gname;
  devmajor = e.devmajor;
  devminor = e.devminor;
  xattrs = e.xattrs;
  mtime_unix = e.mtime_unix;
  link_target = e.link_target;
  content_sha = e.content_sha;
  implicit = false;
}

unfoldable pub segments : Bytes → List Bytes
unfolding bytes_eq
segments p =
    let p' = trim_left b'/' (trim_right b'/' p) in if bytes_eq p' [] then [] else split_on b'/' p'

abbrev pub is_dir : Node → Bool
is_dir n = kind_eq (attrs n).kind dir

-- lookup, from the segments of the path.
unfoldable pub walk : List Bytes → Node → Option Node
walk [] t = some t
walk (s ∷ ss) (node n a cs) = elim (get_child s cs) [ none ↦ none | some c ↦ walk ss c ]

unfoldable pub lookup : Node → Bytes → Option Node
unfolding walk segments
lookup root p = walk (segments p) root

-- A write through the pointer that a walk yields; no node, no write.
unfoldable pub modify_at : List Bytes → (Node → Node) → Node → Node
modify_at [] f t = f t
modify_at (s ∷ ss) f (node n a cs) = elim (get_child s cs) [
  | none ↦ node n a cs
  | some c ↦ node n a (put_child s (modify_at ss f c) cs)
]

-- ensureDirs, and the write of its caller into the child map of the node that it returns.
unfoldable pub ensure_dir : Bytes → Children → Node
ensure_dir s cs = elim (get_child s cs) [
  | none ↦ implicit_dir s
  | some c ↦ if is_dir c then c else implicit_dir s
]

unfoldable pub ensure_dirs : List Bytes → (Children → Children) → Node → Node
ensure_dirs [] write (node n a cs) = node n a (write cs)
ensure_dirs (s ∷ ss) write (node n a cs) =
    node n a (put_child s (ensure_dirs ss write (ensure_dir s cs)) cs)

-- The child map of the node that replaces `old`.
unfoldable pub kept_children : Entry → Option Node → Children
kept_children e none = no_children
kept_children e (some old) =
    if kind_eq e.kind dir then (if is_dir old then children old else no_children) else no_children

unfoldable pub put_entry : Entry → Bytes → Children → Children
unfolding kept_children
put_entry e name cs =
    put_child name (node name (entry_attrs e) (kept_children e (get_child name cs))) cs

unfoldable pub upsert : Node → Entry → Node
unfolding bytes_eq
upsert root e =
    let (parent, name) = path_split e.path in
    if bytes_eq name [] then root else ensure_dirs (segments parent) (put_entry e name) root

abbrev pub clear_children : Node → Node
clear_children (node n a cs) = if kind_eq a.kind dir then node n a no_children else node n a cs

abbrev pub delete_at : Bytes → Node → Node
delete_at s (node n a cs) = node n a (delete_child s cs)

-- `segs[:len(segs)-1]` and `segs[len(segs)-1]` of a slice that begins with `s`.
unfoldable pub split_last : Bytes → List Bytes → List Bytes × Bytes
split_last s [] = ([], s)
split_last s (t ∷ ts) = let (init, last) = split_last t ts in (s ∷ init, last)

unfoldable pub remove_at : List Bytes → Node → Node
remove_at [] root = root
remove_at (s ∷ ss) root = let (init, last) = split_last s ss in modify_at init (delete_at last) root

unfoldable pub remove_subtree : Node → Bytes → Node
unfolding remove_at
remove_subtree root p = remove_at (segments p) root

-- The three loops of applyLayer.
unfoldable pub apply_opaques : Node → List Entry → Node
apply_opaques root [] = root
apply_opaques root (e ∷ es) =
    apply_opaques
      (if kind_eq e.kind opaque then modify_at (segments e.path) clear_children root else root) es

unfoldable pub apply_whiteouts : Node → List Entry → Node
apply_whiteouts root [] = root
apply_whiteouts root (e ∷ es) =
    apply_whiteouts (if kind_eq e.kind whiteout then remove_subtree root e.path else root) es

abbrev pub is_marker : Entry → Bool
is_marker e = kind_eq e.kind whiteout || kind_eq e.kind opaque

unfoldable pub apply_objects : Node → List Entry → Node
apply_objects root [] = root
apply_objects root (e ∷ es) = apply_objects (if is_marker e then root else upsert root e) es

unfoldable pub apply_layer : Node → List Entry → Node
apply_layer root entries =
    apply_objects (apply_whiteouts (apply_opaques root entries) entries) entries

-- NewSquasher.
abbrev pub new_squasher : Node
new_squasher = implicit_dir root_path

unfoldable pub squash_onto : Node → List LayerIndex → Node
squash_onto root [] = root
squash_onto root (i ∷ is) = squash_onto (apply_layer root i.entries) is

unfoldable pub squash : List LayerIndex → Node
unfolding squash_onto
squash indexes = squash_onto new_squasher indexes
