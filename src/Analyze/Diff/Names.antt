-- ===== src/Analyze/Diff/Names.antt =====
-- The names that a comparison visits, and what their rows show.
use layerlens.Base.{
  ◌≡◌, refl, ap, ◌∙◌, Bool, true, false, Option, none, some, List, [], ◌∷◌, ◌++◌, Bytes, arith,
  ◌||◌, not, bytes_eq, bytes_eq→eq, bytes_eq_iff, Bool-cases, inl, inr, contains, contains-sort,
  bytes_lt, sym,
}
use layerlens.Domain.Tree.{
  Node, Children, no_children, child, get_child, unchanged, status_eq, DiffNode, row_status,
}
use layerlens.Analyze.Diff.{
  child_names, new_names, sorted_union, keep_row, child_rows, some_changed, diff_child_with, diff,
}

contains-append :
    (k : Bytes) (xs ys : List Bytes) → contains k (xs ++ ys) ≡ (contains k xs || contains k ys)
unfolding contains
contains-append k [] ys = refl
contains-append k (x ∷ xs) ys = ground (arith, contains-append k xs ys)

child_names-none :
    (k : Bytes) (cs : Children) → contains k (child_names cs) ≡ false → get_child k cs ≡ none
unfolding contains child_names get_child
child_names-none k no_children h = refl
child_names-none k (child j c cs) h = ground (arith, child_names-none k cs)

new_names-none :
    (k : Bytes) (l r : Children)
    → get_child k l ≡ none
    → contains k (new_names l r) ≡ false
    → get_child k r ≡ none
unfolding contains new_names get_child
new_names-none k l no_children e h = refl
new_names-none k l (child j c cs) e h = ground (arith, bytes_eq_iff j k, new_names-none k l cs e)

-- A name that is not visited is on neither side.
pub sorted_union-none :
    (k : Bytes) (l r : Children)
    → contains k (sorted_union l r) ≡ false
    → (get_child k l ≡ none) × (get_child k r ≡ none)
unfolding sorted_union
sorted_union-none k l r h =
    let apart : contains k (child_names l ++ new_names l r) ≡ false =
      sym (contains-sort k bytes_lt (child_names l ++ new_names l r)) ∙ h in
    let left =
      child_names-none k l (ground (arith, contains-append k (child_names l) (new_names l r))) in
    (
      left,
      new_names-none k l r left (ground (arith, contains-append k (child_names l) (new_names l r))),
    )

-- Whether a comparison found a change.
abbrev pub changed_of : Option DiffNode → Bool
changed_of none = false
changed_of (some d) = not (status_eq (row_status d) unchanged)

some_changed-keep_row :
    (o : Option DiffNode) (rows : List DiffNode)
    → some_changed (keep_row o rows) ≡ (changed_of o || some_changed rows)
unfolding some_changed
some_changed-keep_row none rows = refl
some_changed-keep_row (some d) rows = refl

pub child_rows-quiet :
    (f : Bytes → Option DiffNode) (ks : List Bytes) (k : Bytes)
    → some_changed (child_rows f ks) ≡ false
    → contains k ks ≡ true
    → changed_of (f k) ≡ false
unfolding child_rows contains
child_rows-quiet f [] k h m = absurd (ground arith)
child_rows-quiet f (j ∷ ks) k h m =
    let split = some_changed-keep_row (f j) (child_rows f ks) in
    elim (Bool-cases (bytes_eq j k)) [
      | inl p ↦ ap (λ i. changed_of (f i)) (sym (bytes_eq→eq j k p)) ∙ ground arith
      | inr p ↦ child_rows-quiet f ks k (ground arith) (ground arith)
    ]

pub quiet-child_rows :
    (f : Bytes → Option DiffNode) (ks : List Bytes)
    → ((k : Bytes) → changed_of (f k) ≡ false)
    → some_changed (child_rows f ks) ≡ false
unfolding child_rows
quiet-child_rows f [] h = unfold some_changed in refl
quiet-child_rows f (k ∷ ks) h =
    ground (arith, some_changed-keep_row (f k) (child_rows f ks), h k, quiet-child_rows f ks h)

-- The table of the left children is Diff on the child of the name.
pub diff_child_with-diff :
    (cs : Children) (k : Bytes) (r : Option Node) → diff_child_with cs k r ≡ diff (get_child k cs) r
unfolding diff_child_with get_child diff
diff_child_with-diff no_children k r = refl
diff_child_with-diff (child j c cs) k r = elim (Bool-cases (bytes_eq j k)) [
  | inl p ↦ rw p refl
  | inr p ↦ rw p (diff_child_with-diff cs k r)
]
