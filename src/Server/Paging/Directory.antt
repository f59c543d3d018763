-- ===== src/Server/Paging/Directory.antt =====
-- The walk over a directory of a comparison, filtered or not.
use layerlens.Base.{
  ℕ, ◌≤◌, ◌<◌, ◌≡◌, true, false, some, List, [], ◌∷◌, Bytes, length, select, All, Bool, Bool-cases,
  inl, inr, ok, sort-All,
}
use layerlens.Domain.Tree.{DiffNode}
use layerlens.Analyze.Diff.{sort_diff_children, row_less}
use layerlens.Analyze.Diff.Siblings.{DistinctNames}
use layerlens.Server.Paging.{CursorCodec, payload_of, filter_rows, walk_pages, is_changed}
use layerlens.Server.Paging.Order.{Ascending, sort_diff_children-Ascending}
use layerlens.Server.Paging.Cursor.{CodecLaws, Marshals}
use layerlens.Server.Paging.Walk.{walk_pages-rows}

select-All {κ} :
    (P : DiffNode → Type κ) (p : DiffNode → Bool) (rows : List DiffNode)
    → All P rows
    → All P (select p rows)
select-All P p [] h = tt
select-All P p (x ∷ rows) h = elim (Bool-cases (p x)) [
  | inl e ↦ rw e (h.0, select-All P p rows h.1)
  | inr e ↦ rw e (select-All P p rows h.1)
]

select-Ascending :
    (p : DiffNode → Bool) (rows : List DiffNode) → Ascending rows → Ascending (select p rows)
select-Ascending p [] h = tt
select-Ascending p (x ∷ rows) h = elim (Bool-cases (p x)) [
  | inl e ↦ rw e (select-All (λ y. row_less x y ≡ true) p rows h.0, select-Ascending p rows h.1)
  | inr e ↦ rw e (select-Ascending p rows h.1)
]

filter_rows-All {κ} :
    (P : DiffNode → Type κ) (changed : Bool) (rows : List DiffNode)
    → All P rows
    → All P (filter_rows changed rows)
unfolding filter_rows
filter_rows-All P true rows h = select-All P is_changed rows h
filter_rows-All P false rows h = h

filter_rows-Ascending :
    (changed : Bool) (rows : List DiffNode) → Ascending rows → Ascending (filter_rows changed rows)
unfolding filter_rows
filter_rows-Ascending true rows h = select-Ascending is_changed rows h
filter_rows-Ascending false rows h = h

-- Over the sorted rows of a directory with distinct names that JSON carries, filtered or not, with a
-- limit of one at least: a client that starts without a cursor and follows the cursors it is given ends
-- within one request more than there are rows, and has been shown each row once, in order.
pub walk_pages-directory :
    (codec : CursorCodec)
    → CodecLaws codec
    → (query : Bytes) (limit : ℕ) (changed : Bool) (rows : List DiffNode) (fuel : ℕ) → 1 ≤ limit
    → DistinctNames rows
    → All (λ x. Marshals codec (payload_of query x)) rows
    → length (filter_rows changed (sort_diff_children rows)) < fuel
    → walk_pages fuel codec query limit (filter_rows changed (sort_diff_children rows)) []
      ≡ ok (some (filter_rows changed (sort_diff_children rows)))
walk_pages-directory codec laws query limit changed rows fuel positive names carried f =
    let sorted = sort_diff_children rows in
    let carried' : All (λ x. Marshals codec (payload_of query x)) sorted =
      unfold sort_diff_children in sort-All row_less _ rows carried in
    walk_pages-rows codec laws query (filter_rows changed sorted)
      (filter_rows-Ascending changed sorted (sort_diff_children-Ascending rows names))
      (filter_rows-All _ changed sorted carried') limit positive fuel f
