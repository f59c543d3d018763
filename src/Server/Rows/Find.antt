-- ===== src/Server/Rows/Find.antt =====
-- A row of a compared directory is the comparison of the two children of its name.
use layerlens.Base.{
  ◌≡◌, refl, ap, ◌∙◌, sym, Bool, true, false, Option, none, some, List, [], ◌∷◌, Bytes, arith, ◌&&◌,
  bytes_eq, bytes_eq_iff, bytes_eq→eq, All, Bool-cases, Option-cases, inl, inr, contains, sort,
  sort_insert, sort-All, sort-AllPairs, if◌then◌else◌,
}
use layerlens.Domain.Entry.{kind_eq, dir}
use layerlens.Domain.Tree.{
  Attrs, Node, Children, node, node_name, get_child, DiffNode, row_name, row_children, list_of,
  rows_of,
}
use layerlens.Analyze.Diff.{
  sorted_union, keep_row, child_rows, row_less, sort_diff_children, filled, mark_subtree, diff_both,
  diff_nil, diff_node_with, diff_child_with, diff,
}
use layerlens.Analyze.Diff.Names.{diff_child_with-diff, sorted_union-none}
use layerlens.Analyze.Diff.Siblings.{
  IsMap, HasName, DistinctNames, child_rows-DistinctNames, sorted_union-Distinct,
}
use layerlens.Server.Rows.{find_row}

find_row-sort_insert :
    (k : Bytes) (x : DiffNode) (rows : List DiffNode)
    → All (λ y. bytes_eq (row_name x) (row_name y) ≡ false) rows
    → find_row k (sort_insert row_less x rows) ≡ find_row k (x ∷ rows)
unfolding find_row sort_insert
find_row-sort_insert k x [] h = refl
find_row-sort_insert k x (y ∷ rows) h = ground (
  arith,
  h.0,
  bytes_eq_iff (row_name x) (row_name y),
  bytes_eq_iff (row_name x) k,
  bytes_eq_iff (row_name y) k,
  find_row-sort_insert k x rows h.1,
)

find_row-sort :
    (k : Bytes) (rows : List DiffNode)
    → DistinctNames rows
    → find_row k (sort row_less rows) ≡ find_row k rows
unfolding sort find_row
find_row-sort k [] d = refl
find_row-sort k (x ∷ rows) d =
    find_row-sort_insert k x (sort row_less rows) (sort-All row_less _ rows d.0)
    ∙ ap (λ o. if bytes_eq (row_name x) k then some x else o) (find_row-sort k rows d.1)

find_row-keep_row :
    (k j : Bytes) (o : Option DiffNode) (rows : List DiffNode)
    → HasName j o
    → find_row k (keep_row o rows) ≡ (
        if bytes_eq j k
        then (elim o [ none ↦ find_row k rows | some d ↦ some d ])
        else find_row k rows)
unfolding find_row
find_row-keep_row k j none rows n = ground arith
find_row-keep_row k j (some d) rows n = ap (λ t. if bytes_eq t k then some d else find_row k rows) n

find_row-same_name :
    (k : Bytes) (o : Option DiffNode) (rows : List DiffNode) (b : Bool)
    → HasName k o
    → find_row k rows ≡ (if b then o else none)
    → find_row k (keep_row o rows) ≡ o
unfolding find_row
find_row-same_name k none rows b n h = ground arith
find_row-same_name k (some d) rows b n h = ground (arith, bytes_eq_iff (row_name d) k)

find_row-child_rows :
    (k : Bytes) (f : Bytes → Option DiffNode) (ks : List Bytes)
    → ((j : Bytes) → HasName j (f j))
    → find_row k (child_rows f ks) ≡ (if contains k ks then f k else none)
unfolding child_rows contains
find_row-child_rows k f [] n = unfold find_row in refl
find_row-child_rows k f (j ∷ ks) n = elim (Bool-cases (bytes_eq j k)) [
  | inl p ↦
      ap (λ i. find_row k (keep_row (f i) (child_rows f ks))) (bytes_eq→eq j k p)
      ∙ (find_row-same_name k (f k) (child_rows f ks) (contains k ks) (n k)
            (find_row-child_rows k f ks n)
          ∙ rw p refl)
  | inr p ↦
      find_row-keep_row k j (f j) (child_rows f ks) (n j) ∙ rw p (find_row-child_rows k f ks n)
]

-- The nodes of a child map have the names that they are under.
abbrev pub AreNamed : Children → Type 0
AreNamed cs = (k : Bytes) (c : Node) → get_child k cs ≡ some c → node_name c ≡ k

abbrev NamedOption : Bytes → Option Node → Type 0
NamedOption k none = Unit
NamedOption k (some t) = node_name t ≡ k

diff-HasName :
    (k : Bytes) (l r : Option Node) → NamedOption k l → NamedOption k r → HasName k (diff l r)
unfolding diff diff_nil diff_node_with mark_subtree filled diff_both
diff-HasName k none none hl hr = tt
diff-HasName k none (some (node n a cs)) hl hr = hr
diff-HasName k (some (node n a cs)) none hl hr = hl
diff-HasName k (some (node n la lcs)) (some (node m ra rcs)) hl hr =
    elim (Bool-cases (kind_eq la.kind dir && kind_eq ra.kind dir)) [
      | inl p ↦ rw p hl
      | inr p ↦ rw p hl
    ]

get_child-NamedOption : (k : Bytes) (cs : Children) → AreNamed cs → NamedOption k (get_child k cs)
get_child-NamedOption k cs h = elim (Option-cases (get_child k cs)) [
  | inl e ↦ rw e tt
  | inr (c, e) ↦ rw e (h k c e)
]

list_of-rows_of : (rows : List DiffNode) → list_of (rows_of rows) ≡ rows
list_of-rows_of [] = refl
list_of-rows_of (d ∷ rows) = ap (λ l. d ∷ l) (list_of-rows_of rows)

abbrev shown_by : Option DiffNode → List DiffNode
shown_by none = []
shown_by (some d) = list_of (row_children d)

module _ (n m : Bytes) (la ra : Attrs) (lcs rcs : Children) (ml : IsMap lcs) (mr : IsMap rcs)
    (nl : AreNamed lcs) (nr : AreNamed rcs)
    (dirs : (kind_eq la.kind dir && kind_eq ra.kind dir) ≡ true) where
  compare : Bytes → Option DiffNode
  compare k = diff_child_with lcs k (get_child k rcs)

  compare-HasName : (k : Bytes) → HasName k (compare k)
  unfolding compare
  compare-HasName k = rw (diff_child_with-diff lcs k (get_child k rcs)) (
      diff-HasName k (get_child k lcs) (get_child k rcs) (get_child-NamedOption k lcs nl)
        (get_child-NamedOption k rcs nr))

  siblings : DistinctNames (child_rows compare (sorted_union lcs rcs))
  siblings =
      child_rows-DistinctNames compare (sorted_union lcs rcs) compare-HasName
        (sorted_union-Distinct lcs rcs ml mr)

  diff_rows :
      (d : DiffNode)
      → diff (some (node n la lcs)) (some (node m ra rcs)) ≡ some d
      → list_of (row_children d) ≡ sort row_less (child_rows compare (sorted_union lcs rcs))
  unfolding diff diff_node_with diff_both filled sort_diff_children compare
  diff_rows d e = ap shown_by (sym e) ∙ rw dirs (list_of-rows_of _)

  compare_absent : (k : Bytes) → contains k (sorted_union lcs rcs) ≡ false → compare k ≡ none
  unfolding compare diff diff_nil
  compare_absent k h =
      let (left, right) = sorted_union-none k lcs rcs h in
      diff_child_with-diff lcs k (get_child k rcs) ∙ rw (left, right, diff) refl

  found :
      (k : Bytes)
      → (if contains k (sorted_union lcs rcs) then compare k else none)
        ≡ diff (get_child k lcs) (get_child k rcs)
  unfolding compare
  found k =
      let same = diff_child_with-diff lcs k (get_child k rcs) in
      elim (Bool-cases (contains k (sorted_union lcs rcs))) [
        | inl p ↦ rw p same
        | inr p ↦ rw p (sym (compare_absent k p) ∙ same)
      ]

  -- In the comparison of two directories whose child maps have each key once and name their nodes by
  -- it: looking a name up among the rows gives the comparison of the two children of that name, none
  -- where neither side has one, and no two rows have one name.
  pub find_row-diff :
      (d : DiffNode)
      → diff (some (node n la lcs)) (some (node m ra rcs)) ≡ some d
      → DistinctNames (list_of (row_children d))
        × ((k : Bytes)
            → find_row k (list_of (row_children d)) ≡ diff (get_child k lcs) (get_child k rcs))
  find_row-diff d e =
      let rows = child_rows compare (sorted_union lcs rcs) in
      rw (diff_rows d e) (
        sort-AllPairs row_less (λ x y. bytes_eq (row_name x) (row_name y) ≡ false)
            (λ x y h. ground (
              arith,
              bytes_eq_iff (row_name x) (row_name y),
              bytes_eq_iff (row_name y) (row_name x),
            ))
            rows siblings,
        λ k.
            find_row-sort k rows siblings
            ∙ (find_row-child_rows k compare (sorted_union lcs rcs) compare-HasName ∙ found k),
      )
