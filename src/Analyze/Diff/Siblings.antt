-- ===== src/Analyze/Diff/Siblings.antt =====
-- The rows of a compared directory: one for each name, with the name that it is under.
use layerlens.Base.{
  ◌≡◌, refl, ap, true, false, Option, none, some, List, [], ◌∷◌, ◌++◌, Bytes, arith, bytes_eq,
  bytes_eq_refl, bytes_eq_iff, All, AllPairs, All-append, All-imp, contains, sort-AllPairs,
  bytes_lt, Distinct,
}
use layerlens.Domain.Tree.{Node, Children, no_children, child, get_child, DiffNode, row_name}
use layerlens.Analyze.Diff.{child_names, new_names, sorted_union, keep_row, child_rows}

contains-All :
    (k : Bytes) (l : List Bytes) → contains k l ≡ false → All (λ j. bytes_eq k j ≡ false) l
unfolding contains
contains-All k [] h = tt
contains-All k (j ∷ l) h =
    (ground (arith, bytes_eq_iff j k, bytes_eq_iff k j), contains-All k l (ground arith))

AllPairs-append :
    (a b : List Bytes)
    → Distinct a
    → Distinct b
    → All (λ k. contains k b ≡ false) a
    → Distinct (a ++ b)
AllPairs-append [] b ha hb h = hb
AllPairs-append (k ∷ a) b ha hb h = (
  All-append (λ j. bytes_eq k j ≡ false) a b ha.0 (contains-All k b h.0),
  AllPairs-append a b ha.1 hb h.1,
)

get_child-names :
    (k : Bytes) (cs : Children) → get_child k cs ≡ none → contains k (child_names cs) ≡ false
unfolding contains child_names get_child
get_child-names k no_children h = refl
get_child-names k (child j c cs) h = ground (arith, get_child-names k cs)

new_names-absent :
    (l r : Children) (k : Bytes)
    → contains k (child_names l) ≡ true
    → contains k (new_names l r) ≡ false
unfolding contains new_names
new_names-absent l no_children k h = refl
new_names-absent l (child j c cs) k h =
    ground (arith, get_child-names j l, bytes_eq_iff j k, new_names-absent l cs k h)

-- A map has each key once.
abbrev pub IsMap : Children → Type 0
IsMap cs = Distinct (child_names cs)

new_names-fresh :
    (l r : Children) (k : Bytes)
    → contains k (child_names r) ≡ false
    → contains k (new_names l r) ≡ false
unfolding contains new_names child_names
new_names-fresh l no_children k h = refl
new_names-fresh l (child j c cs) k h = ground (arith, new_names-fresh l cs k)

kept_name :
    (o : Option Node) (j : Bytes) (rest : List Bytes)
    → All (λ k. bytes_eq j k ≡ false) rest
    → Distinct rest
    → Distinct (elim o [ none ↦ j ∷ rest | some _ ↦ rest ])
kept_name none j rest h k = (h, k)
kept_name (some _) j rest h k = k

All-contains :
    (k : Bytes) (l : List Bytes) → All (λ j. bytes_eq k j ≡ false) l → contains k l ≡ false
unfolding contains
All-contains k [] h = refl
All-contains k (j ∷ l) h =
    ground (arith, h.0, bytes_eq_iff j k, bytes_eq_iff k j, All-contains k l h.1)

new_names-Distinct : (l r : Children) → IsMap r → Distinct (new_names l r)
unfolding new_names child_names
new_names-Distinct l no_children h = tt
new_names-Distinct l (child j c cs) h =
    kept_name (get_child j l) j (new_names l cs)
      (contains-All j (new_names l cs)
        (new_names-fresh l cs j (All-contains j (child_names cs) h.0)))
      (new_names-Distinct l cs h.1)

names_apart :
    (l r : Children) (ks : List Bytes)
    → ((k : Bytes) → contains k ks ≡ true → contains k (child_names l) ≡ true)
    → All (λ k. contains k (new_names l r) ≡ false) ks
unfolding contains
names_apart l r [] h = tt
names_apart l r (k ∷ ks) h = (
  new_names-absent l r k (h k (ground (arith, bytes_eq_refl k))),
  names_apart l r ks (λ j m. h j (ground arith)),
)

-- Each name is visited once.
pub sorted_union-Distinct : (l r : Children) → IsMap l → IsMap r → Distinct (sorted_union l r)
unfolding sorted_union
sorted_union-Distinct l r hl hr =
    sort-AllPairs bytes_lt (λ j k. bytes_eq j k ≡ false)
      (λ j k e. ground (arith, bytes_eq_iff j k, bytes_eq_iff k j)) (child_names l ++ new_names l r)
      (AllPairs-append (child_names l) (new_names l r) hl (new_names-Distinct l r hr)
        (names_apart l r (child_names l) (λ k m. m)))

-- Each row that the comparison of a name makes has that name.
abbrev pub HasName : Bytes → Option DiffNode → Type 0
HasName k none = Unit
HasName k (some d) = row_name d ≡ k

keep_row-All :
    (k : Bytes) (o : Option DiffNode) (rows : List DiffNode) (ks : List Bytes)
    → HasName k o
    → All (λ d. contains (row_name d) ks ≡ true) rows
    → All (λ d. contains (row_name d) (k ∷ ks) ≡ true) (keep_row o rows)
unfolding contains
keep_row-All k none rows ks n h = All-imp rows (λ d e. ground arith) h
keep_row-All k (some d) rows ks n h =
    (ground (arith, bytes_eq_iff k (row_name d)), All-imp rows (λ d e. ground arith) h)

child_rows-names :
    (f : Bytes → Option DiffNode) (ks : List Bytes)
    → ((k : Bytes) → HasName k (f k))
    → All (λ d. contains (row_name d) ks ≡ true) (child_rows f ks)
unfolding child_rows
child_rows-names f [] h = tt
child_rows-names f (k ∷ ks) h =
    keep_row-All k (f k) (child_rows f ks) ks (h k) (child_rows-names f ks h)

-- Siblings have different names.
abbrev pub DistinctNames : List DiffNode → Type 0
DistinctNames = AllPairs (λ x y. bytes_eq (row_name x) (row_name y) ≡ false)

keep_row-Distinct :
    (k : Bytes) (o : Option DiffNode) (rows : List DiffNode) (ks : List Bytes)
    → HasName k o
    → contains k ks ≡ false
    → All (λ d. contains (row_name d) ks ≡ true) rows
    → DistinctNames rows
    → DistinctNames (keep_row o rows)
keep_row-Distinct k none rows ks n f h d = d
keep_row-Distinct k (some x) rows ks n f h d = (
  All-imp rows
      (λ y e. ground (arith, bytes_eq_iff (row_name x) (row_name y), ap (λ j. contains j ks) n)) h,
  d,
)

pub child_rows-DistinctNames :
    (f : Bytes → Option DiffNode) (ks : List Bytes)
    → ((k : Bytes) → HasName k (f k))
    → Distinct ks
    → DistinctNames (child_rows f ks)
unfolding child_rows
child_rows-DistinctNames f [] h d = tt
child_rows-DistinctNames f (k ∷ ks) h d =
    keep_row-Distinct k (f k) (child_rows f ks) ks (h k) (All-contains k ks d.0)
      (child_rows-names f ks h) (child_rows-DistinctNames f ks h d.1)
