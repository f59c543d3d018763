-- ===== src/Tests/Compare.antt =====
-- Two squashed images compared.
use layerlens.Base.{◌≡◌, ◌↔◌, refl, false, some, none, List, [], ◌∷◌, Bytes, codes, sort}
use layerlens.Domain.Tree.{DiffNode, row_agg, Node, node, child, no_children, added}
use layerlens.Analyze.Squash.{squash, entry_attrs}
use layerlens.Analyze.Squash.Layers.{only_root, layers_over, new_squasher-IsTree}
use layerlens.Analyze.Squash.{new_squasher}
use layerlens.Analyze.Diff.{
  diff, diff_nil, mark_subtree, filled, own_agg, add_rows, add_agg, sort_diff_children,
  meta_differs,
}
use layerlens.Analyze.Diff.Names.{changed_of}
use layerlens.Analyze.Diff.Balance.{AddsUp, Throughout, diff-AddsUp}
use layerlens.Analyze.Diff.Metadata.{SameObject, meta_differs_iff}
use layerlens.Analyze.Diff.Squashed.{diff-squash}
use layerlens.Analyze.Diff.Unchanged.{Agree, SameTree, diff-SameTree}
use layerlens.Tests.Samples.{etc_hosts, etc_dir}
use layerlens.Tests.Tree.{stack, lower, index_of, lower-HasPaths, upper-HasPaths}

diff-squash_example :
    (changed_of (diff (some (squash stack)) (some (squash (index_of lower ∷ [])))) ≡ false) ↔ (
      (q : List Bytes)
      → Agree (layers_over stack only_root q) (layers_over (index_of lower ∷ []) only_root q))
diff-squash_example =
    diff-squash stack (index_of lower ∷ []) (lower-HasPaths, (upper-HasPaths, tt))
      (lower-HasPaths, tt)

diff-SameTree_example :
    (changed_of (diff (some new_squasher) (some new_squasher)) ≡ false)
    ↔ SameTree (some new_squasher) (some new_squasher)
diff-SameTree_example =
    diff-SameTree (some new_squasher) (some new_squasher) new_squasher-IsTree.tidy
      new_squasher-IsTree.tidy

-- A directory with a file in it, which only the right side has.
abbrev new_dir : Node
new_dir =
    node (codes "etc") (entry_attrs etc_dir)
      (child (codes "hosts") (node (codes "hosts") (entry_attrs etc_hosts) no_children) no_children)

abbrev new_row : DiffNode
new_row = mark_subtree added new_dir

diff-AddsUp_example : Throughout AddsUp new_row
diff-AddsUp_example = diff-AddsUp none (some new_dir) new_row (unfold diff diff_nil in refl)

seven_added : (row_agg new_row).added_bytes ≡ 7
unfolding mark_subtree filled own_agg add_rows add_agg sort_diff_children sort
seven_added = refl

meta_differs_iff_example :
    (meta_differs (entry_attrs etc_hosts) (entry_attrs etc_dir) ≡ false)
    ↔ SameObject (entry_attrs etc_hosts) (entry_attrs etc_dir)
meta_differs_iff_example = meta_differs_iff (entry_attrs etc_hosts) (entry_attrs etc_dir) tt
