-- ===== src/Analyze/Diff/Balance.antt =====
-- The aggregates of a comparison are the sums over its rows, and the bytes of the two sides add up.
use layerlens.Analyze.Diff.Totals.{IsTotalled, filled-IsTotalled}
use layerlens.Base.{◌≡◌, Option, some, List, [], ◌∷◌, Bytes, arith, All, All-imp}
use layerlens.Domain.Tree.{
  Node, DiffStatus, SideMeta, Agg, DiffNode, diff_node, Rows, no_rows, row, row_agg, rows_of,
}
use layerlens.Analyze.Diff.{add_agg, own_agg, add_rows, filled, diff}
use layerlens.Analyze.Diff.Filling.{Balanced, diff-holds}

-- A predicate of a row and of all rows below it.
mutual
  pub Throughout : (DiffNode → Type 0) → DiffNode → Type 0
  Throughout P (diff_node n s l r a rs) = P (diff_node n s l r a rs) × ThroughoutRows P rs

  pub ThroughoutRows : (DiffNode → Type 0) → Rows → Type 0
  ThroughoutRows P no_rows = Unit
  ThroughoutRows P (row d rs) = Throughout P d × ThroughoutRows P rs

rows-Throughout :
    (P : DiffNode → Type 0) (rows : List DiffNode)
    → All (Throughout P) rows
    → ThroughoutRows P (rows_of rows)
unfolding ThroughoutRows
rows-Throughout P [] h = tt
rows-Throughout P (d ∷ rows) h = (h.0, rows-Throughout P rows h.1)

Throughout-here : (P : DiffNode → Type 0) (d : DiffNode) → Throughout P d → P d
unfolding Throughout
Throughout-here P (diff_node n s l r a rs) h = h.0

add_agg-Balanced : (a b : Agg) → Balanced a → Balanced b → Balanced (add_agg a b)
unfolding add_agg
add_agg-Balanced a b h k = omega arith

add_rows-Balanced :
    (a : Agg) (rows : List DiffNode)
    → Balanced a
    → All (λ d. Balanced (row_agg d)) rows
    → Balanced (add_rows a rows)
unfolding add_rows
add_rows-Balanced a [] h k = h
add_rows-Balanced a (d ∷ rows) h k =
    add_rows-Balanced (add_agg a (row_agg d)) rows (add_agg-Balanced a (row_agg d) h k.0) k.1

-- The sums, and the balance of the two sides.
abbrev pub AddsUp : DiffNode → Type 0
AddsUp d = IsTotalled d × Balanced (row_agg d)

filled-AddsUp :
    (n : Bytes) (s : DiffStatus) (l r : Option SideMeta) (rows : List DiffNode)
    → Balanced (own_agg s l r)
    → All (Throughout AddsUp) rows
    → Throughout AddsUp (filled n s l r rows)
unfolding filled Throughout
filled-AddsUp n s l r rows b h =
    let each = All-imp rows (Throughout-here AddsUp) h in
    (
      (
        filled-IsTotalled n s l r rows (All-imp rows (λ d k. k.0) each),
        add_rows-Balanced (own_agg s l r) rows b (All-imp rows (λ d k. k.1) each),
      ),
      rows-Throughout AddsUp rows h,
    )

-- In the comparison of two trees, whatever they are, at every row: each number of the aggregate is,
-- modulo 2 ^ 64, the sum over the row and all rows below it of the bytes or the files of a side, all
-- of them or those of the rows added, removed or modified. The bytes of the right side, of what was
-- removed and of the old versions of what was modified make up those of the left side, of what was
-- added and of the new versions.
pub diff-AddsUp : (l r : Option Node) (d : DiffNode) → diff l r ≡ some d → Throughout AddsUp d
diff-AddsUp = diff-holds (Throughout AddsUp) filled-AddsUp
