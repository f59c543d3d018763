-- ===== src/Analyze/Diff/Filling.antt =====
-- What each comparison has that is filled in from rows which have it.
use layerlens.Base.{
  ◌⊎◌, ◌≡◌, refl, true, false, Option, none, some, List, [], ◌∷◌, Bytes, arith, ◌&&◌, All, Bool,
  Bool-cases, inl, inr, sort-All, add64, bytes_eq,
}
use layerlens.Domain.Entry.{kind_eq, dir}
use layerlens.Domain.Tree.{
  Attrs, Node, Children, node, no_children, child, get_child, DiffStatus, added, removed, SideMeta,
  Agg, DiffNode,
}
use layerlens.Domain.Tree.Induction.{Every, node_induction}
use layerlens.Analyze.Fields.{fields_equal, fields_of_node, project_dir}
use layerlens.Analyze.Diff.{
  meta_of, meta_differs, row_less, sort_diff_children, file_size, own_agg, filled, marked,
  mark_subtree, mark_children, keep_row, child_rows, status_of, diff_both, diff_nil, diff_node_with,
  diff_child_with, diff,
}

-- What the right side has, with what was removed and the old size of what was modified, is what the
-- left side has, with what was added and the new size of what was modified.
abbrev pub Balanced : Agg → Type 0
Balanced a =
    add64 (add64 a.right_bytes a.removed_bytes) a.modified_bytes_left
    ≡ add64 (add64 a.left_bytes a.added_bytes) a.modified_bytes_right

same_size :
    (l r : Attrs)
    → meta_differs l r ≡ false
    → file_size (some (meta_of l)) ≡ file_size (some (meta_of r))
unfolding meta_differs fields_equal fields_of_node project_dir
same_size l r h = ground arith

own_agg-Balanced :
    (changed : Bool) (l r : Attrs)
    → (changed ≡ false → meta_differs l r ≡ false)
    → Balanced (own_agg (status_of changed) (some (meta_of l)) (some (meta_of r)))
unfolding own_agg
own_agg-Balanced true l r h = omega arith
own_agg-Balanced false l r h = ground (arith, same_size l r (h refl))

-- One-sided rows: `s` is one of the two statuses that markSubtree is called with.
abbrev OneSided : DiffStatus → Type 0
OneSided s = (s ≡ added) ⊎ (s ≡ removed)

-- A predicate of rows that fillAgg establishes, when what the row contributes of its own is balanced
-- and its children have it.
module _ (P : DiffNode → Type 0)
    (closed : (n : Bytes) (s : DiffStatus) (l r : Option SideMeta) (rows : List DiffNode)
      → Balanced (own_agg s l r)
      → All P rows
      → P (filled n s l r rows)) where
  sort_diff_children-holds : (rows : List DiffNode) → All P rows → All P (sort_diff_children rows)
  unfolding sort_diff_children
  sort_diff_children-holds rows h = sort-All row_less P rows h

  marked-holds :
      (s : DiffStatus) (n : Bytes) (a : Attrs) (rows : List DiffNode)
      → OneSided s
      → All P rows
      → P (marked s n a rows)
  marked-holds s n a rows (inl e) h = rw e (
      closed n added none (some (meta_of a)) _ (unfold own_agg in omega arith)
        (sort_diff_children-holds rows h))
  marked-holds s n a rows (inr e) h = rw e (
      closed n removed (some (meta_of a)) none _ (unfold own_agg in omega arith)
        (sort_diff_children-holds rows h))

  module _ (s : DiffStatus) (one : OneSided s) where
    mark_children-holds :
        (cs : Children) → Every (λ c. P (mark_subtree s c)) cs → All P (mark_children s cs)
    unfolding mark_children
    mark_children-holds no_children h = tt
    mark_children-holds (child k c cs) h = (h.0, mark_children-holds cs h.1)

    mark_subtree-holds : (t : Node) → P (mark_subtree s t)
    mark_subtree-holds =
        node_induction (λ c. P (mark_subtree s c))
          (λ n a cs h.
            unfold mark_subtree in
            (marked-holds s n a (mark_children s cs) one (mark_children-holds cs h)))

  -- Every comparison with the left side that was found holds.
  abbrev OptionHolds : Option DiffNode → Type 0
  OptionHolds none = Unit
  OptionHolds (some d) = P d

  keep_row-holds :
      (o : Option DiffNode) (rows : List DiffNode)
      → OptionHolds o
      → All P rows
      → All P (keep_row o rows)
  keep_row-holds none rows h k = k
  keep_row-holds (some d) rows h k = (h, k)

  child_rows-holds :
      (f : Bytes → Option DiffNode) (names : List Bytes)
      → ((k : Bytes) → OptionHolds (f k))
      → All P (child_rows f names)
  unfolding child_rows
  child_rows-holds f [] h = tt
  child_rows-holds f (k ∷ ks) h =
      keep_row-holds (f k) (child_rows f ks) (h k) (child_rows-holds f ks h)

  diff_both-holds :
      (n : Bytes) (l r : Attrs) (f : Bytes → Option DiffNode) (names : List Bytes)
      → ((k : Bytes) → OptionHolds (f k))
      → P (diff_both n l r f names)
  unfolding diff_both
  diff_both-holds n l r f names h = elim (Bool-cases (kind_eq l.kind dir && kind_eq r.kind dir)) [
    | inl p ↦ rw p (
        closed n _ _ _ _ (own_agg-Balanced _ l r (λ e. ground arith))
          (sort_diff_children-holds _ (child_rows-holds f names h)))
    | inr p ↦ rw p (closed n _ _ _ [] (own_agg-Balanced _ l r (λ e. e)) tt)
  ]

  diff_nil-holds : (r : Option Node) → OptionHolds (diff_nil r)
  unfolding diff_nil
  diff_nil-holds none = tt
  diff_nil-holds (some r) = mark_subtree-holds added (inl refl) r

  abbrev LeftHolds : Node → Type 0
  LeftHolds l = (r : Option Node) → OptionHolds (diff_node_with l r)

  diff_child_with-holds :
      (cs : Children) (k : Bytes) (r : Option Node)
      → Every LeftHolds cs
      → OptionHolds (diff_child_with cs k r)
  unfolding diff_child_with
  diff_child_with-holds no_children k r h = diff_nil-holds r
  diff_child_with-holds (child j c cs) k r h = elim (Bool-cases (bytes_eq j k)) [
    | inl p ↦ rw p (h.0 r)
    | inr p ↦ rw p (diff_child_with-holds cs k r h.1)
  ]

  pair-holds :
      (n : Bytes) (a : Attrs) (cs : Children) → Every LeftHolds cs → LeftHolds (node n a cs)
  unfolding diff_node_with
  pair-holds n a cs h none = mark_subtree-holds removed (inr refl) (node n a cs)
  pair-holds n a cs h (some (node m ra rcs)) =
      diff_both-holds n a ra _ _ (λ k. diff_child_with-holds cs k (get_child k rcs) h)

  diff-OptionHolds : (l r : Option Node) → OptionHolds (diff l r)
  unfolding diff
  diff-OptionHolds none r = diff_nil-holds r
  diff-OptionHolds (some l) r = node_induction LeftHolds pair-holds l r

  pub diff-holds : (l r : Option Node) (d : DiffNode) → diff l r ≡ some d → P d
  diff-holds l r d e = rw e at (diff-OptionHolds l r)
