-- ===== src/Analyze/Diff/Unchanged.antt =====
-- When a comparison finds nothing: against the paths of the two trees.
use layerlens.Base.{
  ◌≡◌, refl, ap, ◌∙◌, sym, Bool, true, false, Option, none, some, List, [], ◌∷◌, Bytes, arith, ◌||◌,
  ◌&&◌, Bool-cases, Option-cases, inl, inr, contains, ◌↔◌,
}
use layerlens.Domain.Entry.{kind_eq, dir}
use layerlens.Domain.Tree.{Attrs, Node, Children, node, get_child}
use layerlens.Domain.Tree.Induction.{Every, get-Every, node_induction}
use layerlens.Analyze.Squash.View.{view}
use layerlens.Analyze.Squash.Upsert.{IsTidy, IsTidy-child, view-child, view-no_child}
use layerlens.Analyze.Diff.{
  meta_differs, sorted_union, child_rows, some_changed, filled, mark_subtree, diff_both, diff_nil,
  diff_node_with, diff_child_with, diff,
}
use layerlens.Analyze.Diff.Names.{
  changed_of, sorted_union-none, child_rows-quiet, quiet-child_rows, diff_child_with-diff,
}

-- What both sides have at a path: nothing, or objects that the comparison does not tell apart.
abbrev pub Agree : Option Attrs → Option Attrs → Type 0
Agree none none = Unit
Agree (some a) (some b) = meta_differs a b ≡ false
Agree none (some b) = ⊥
Agree (some a) none = ⊥

-- What is at a path of a tree, where there is a tree.
abbrev pub view_in : List Bytes → Option Node → Option Attrs
view_in q none = none
view_in q (some t) = view q t

abbrev pub SameTree : Option Node → Option Node → Type 0
SameTree l r = (q : List Bytes) → Agree (view_in q l) (view_in q r)

abbrev pub TidyOption : Option Node → Type 0
TidyOption none = Unit
TidyOption (some t) = IsTidy t

view-cons :
    (n : Bytes) (a : Attrs) (cs : Children) (k : Bytes) (q : List Bytes)
    → view (k ∷ q) (node n a cs) ≡ view_in q (get_child k cs)
view-cons n a cs k q = elim (Option-cases (get_child k cs)) [
  | inl e ↦ view-no_child n a cs k q e ∙ ap (view_in q) (sym e)
  | inr (c, e) ↦ view-child n a cs k c q e ∙ ap (view_in q) (sym e)
]

child-TidyOption :
    (n : Bytes) (a : Attrs) (cs : Children) (k : Bytes)
    → IsTidy (node n a cs)
    → TidyOption (get_child k cs)
child-TidyOption n a cs k h = elim (Option-cases (get_child k cs)) [
  | inl e ↦ rw e tt
  | inr (c, e) ↦ rw e (IsTidy-child n a cs k c h e)
]

-- The comparison of `l` with `r` finds a change exactly when they differ somewhere.
abbrev Decides : Option Node → Option Node → Type 0
Decides l r = (changed_of (diff l r) ≡ false) ↔ SameTree l r

abbrev DecidesLeft : Node → Type 0
DecidesLeft l = (r : Option Node) → IsTidy l → TidyOption r → Decides (some l) r

view-root : (t : Node) → (a : Attrs) × (view [] t ≡ some a)
unfolding view
view-root (node n a cs) = (a, refl)

changed-marked : (t : Node) → changed_of (diff none (some t)) ≡ true
unfolding diff diff_nil mark_subtree filled
changed-marked (node n a cs) = refl

changed-removed : (t : Node) → changed_of (diff (some t) none) ≡ true
unfolding diff diff_node_with mark_subtree filled
changed-removed (node n a cs) = refl

none-Decides : (r : Option Node) → Decides none r
none-Decides none = (λ e q. tt, λ h. unfold diff diff_nil in refl)
none-Decides (some t) =
    let (a, root) = view-root t in
    (λ e. absurd (ground (arith, changed-marked t)), λ h. absurd (rw root at (h [])))

removed-Decides : (t : Node) → Decides (some t) none
removed-Decides t =
    let (a, root) = view-root t in
    (λ e. absurd (ground (arith, changed-removed t)), λ h. absurd (rw root at (h [])))

changed-both :
    (n m : Bytes) (la ra : Attrs) (lcs rcs : Children)
    → changed_of (diff (some (node n la lcs)) (some (node m ra rcs))) ≡ (
        (kind_eq la.kind dir
          && kind_eq ra.kind dir
          && some_changed
              (child_rows (λ k. diff_child_with lcs k (get_child k rcs)) (sorted_union lcs rcs)))
        || meta_differs la ra)
unfolding diff diff_node_with diff_both filled
changed-both n m la ra lcs rcs = ground arith

no_child :
    (n : Bytes) (a : Attrs) (cs : Children) (k : Bytes)
    → IsTidy (node n a cs)
    → kind_eq a.kind dir ≡ false
    → (q : List Bytes) → view (k ∷ q) (node n a cs) ≡ none
no_child n a cs k tidy h q = tidy [] k q (unfold view in h)

meta_differs-kind :
    (l r : Attrs) → meta_differs l r ≡ false → kind_eq l.kind dir ≡ kind_eq r.kind dir
unfolding meta_differs
meta_differs-kind l r h = ground arith

-- One step of the induction, for the two trees that it is on.
module _ (n m : Bytes) (la ra : Attrs) (lcs rcs : Children) (ih : Every DecidesLeft lcs)
    (lt : IsTidy (node n la lcs)) (rt : IsTidy (node m ra rcs)) where
  child-Decides : (k : Bytes) → Decides (get_child k lcs) (get_child k rcs)
  child-Decides k = elim (Option-cases (get_child k lcs)) [
    | inl e ↦ rw e (none-Decides (get_child k rcs))
    | inr (c, e) ↦ rw e (
        get-Every DecidesLeft lcs k c ih e (get_child k rcs) (IsTidy-child n la lcs k c lt e)
          (child-TidyOption m ra rcs k rt))
  ]

  rows_changed : Bool
  rows_changed =
      some_changed
        (child_rows (λ k. diff_child_with lcs k (get_child k rcs)) (sorted_union lcs rcs))

  quiet_children : rows_changed ≡ false → (k : Bytes) → SameTree (get_child k lcs) (get_child k rcs)
  unfolding rows_changed
  quiet_children h k = elim (Bool-cases (contains k (sorted_union lcs rcs))) [
    | inl p ↦ (child-Decides k).0 (
        ap changed_of (sym (diff_child_with-diff lcs k (get_child k rcs)))
        ∙ child_rows-quiet (λ j. diff_child_with lcs j (get_child j rcs)) (sorted_union lcs rcs) k h
            p)
    | inr p ↦ let (left, right) = sorted_union-none k lcs rcs p in rw (left, right) (λ q. tt)
  ]

  children_quiet :
      ((k : Bytes) → SameTree (get_child k lcs) (get_child k rcs)) → rows_changed ≡ false
  unfolding rows_changed
  children_quiet h =
      quiet-child_rows (λ k. diff_child_with lcs k (get_child k rcs)) (sorted_union lcs rcs)
        (λ k.
          ap changed_of (diff_child_with-diff lcs k (get_child k rcs)) ∙ (child-Decides k).1 (h k))

  -- The children agree when the rows are quiet, and when neither side can have any.
  same_children :
      (kind_eq la.kind dir && kind_eq ra.kind dir && rows_changed) ≡ false
      → kind_eq la.kind dir ≡ kind_eq ra.kind dir
      → (k : Bytes) (q : List Bytes)
      → Agree (view (k ∷ q) (node n la lcs)) (view (k ∷ q) (node m ra rcs))
  same_children h e k q = elim (Bool-cases (kind_eq la.kind dir)) [
    | inl p ↦
        rw (view-cons n la lcs k q, view-cons m ra rcs k q) (quiet_children (ground arith) k q)
    | inr p ↦ rw (no_child n la lcs k lt p q, no_child m ra rcs k rt (sym e ∙ p) q) tt
  ]

  same_nodes :
      (kind_eq la.kind dir && kind_eq ra.kind dir && rows_changed) ≡ false
      → meta_differs la ra ≡ false
      → SameTree (some (node n la lcs)) (some (node m ra rcs))
  unfolding view
  same_nodes h e [] = e
  same_nodes h e (k ∷ q) = same_children h (meta_differs-kind la ra e) k q

  same_rows :
      SameTree (some (node n la lcs)) (some (node m ra rcs))
      → (rows_changed ≡ false) × (meta_differs la ra ≡ false)
  same_rows h = (
    children_quiet (λ k q. rw (view-cons n la lcs k q, view-cons m ra rcs k q) at (h (k ∷ q))),
    unfold view in h [],
  )

  nodes-Decides : Decides (some (node n la lcs)) (some (node m ra rcs))
  unfolding rows_changed
  nodes-Decides =
      let split = changed-both n m la ra lcs rcs in
      (
        λ e. same_nodes (ground arith) (ground arith),
        λ h. let (rows, meta) = same_rows h in split ∙ rw (rows, meta) (ground arith),
      )

node-Decides :
    (n : Bytes) (a : Attrs) (cs : Children) → Every DecidesLeft cs → DecidesLeft (node n a cs)
node-Decides n a cs ih none lt rt = removed-Decides (node n a cs)
node-Decides n a cs ih (some (node m ra rcs)) lt rt = nodes-Decides n m a ra cs rcs ih lt rt

-- For trees that have nothing below what is not a directory: the comparison is unchanged exactly when
-- at every path both have nothing, or objects that `metaDiffers` does not tell apart. One tree alone is
-- a change, and no trees are none.
pub diff-SameTree :
    (l r : Option Node)
    → TidyOption l
    → TidyOption r
    → (changed_of (diff l r) ≡ false) ↔ SameTree l r
diff-SameTree none r lt rt = none-Decides r
diff-SameTree (some l) r lt rt = node_induction DecidesLeft node-Decides l r lt rt
