-- ===== src/Server/Paging/Order.antt =====
-- The canonical order of the rows, and where a page starts in it.
use layerlens.Base.{
  suc, ◌≡◌, ◌∙◌, sym, ap, refl, true, false, some, List, [], ◌∷◌, ◌++◌, Bytes, arith, length,
  length-append, All, AllPairs, AllPairs-imp, All-imp, Bool-cases, inl, inr, bytes_eq, bytes_eq_iff,
  bytes_lt_asymm, bytes_lt_irrefl,
}
use mathlib.Core.List.{append_assoc}
use layerlens.Base.{
  IsSorted, All-zip, sort-AllPairs, bytes_lt_total, IsWeakOrder, Apart, Apart-symm, sort-IsSorted,
  bytes_lt-IsWeakOrder, sort,
}
use layerlens.Domain.Tree.{DiffNode, row_name}
use layerlens.Analyze.Diff.{is_dir_row, row_less, sort_diff_children}
use layerlens.Server.Paging.{section_rank, payload_of, is_after, test_at, page_start, search}
use layerlens.Server.Paging.Search.{search-test_at}

is_after-payload_of :
    (query : Bytes) (x y : DiffNode) → is_after (payload_of query x) y ≡ row_less x y
unfolding is_after row_less section_rank bytes_eq
is_after-payload_of query x y = elim (Bool-cases (is_dir_row x)) [
  | inl p ↦ elim (Bool-cases (is_dir_row y)) [ inl q ↦ rw (p, q) refl | inr q ↦ rw (p, q) refl ]
  | inr p ↦ elim (Bool-cases (is_dir_row y)) [ inl q ↦ rw (p, q) refl | inr q ↦ rw (p, q) refl ]
]

row_less_irrefl : (x : DiffNode) → row_less x x ≡ false
unfolding row_less
row_less_irrefl x = ground (arith, bytes_lt_irrefl (row_name x))

pub row_less_asymm : (x y : DiffNode) → row_less x y ≡ true → row_less y x ≡ false
unfolding row_less
row_less_asymm x y h = ground (arith, bytes_lt_asymm (row_name x) (row_name y))

-- Rows in the canonical order, no two at one place of it.
abbrev pub Ascending : List DiffNode → Type 0
Ascending = AllPairs (λ x y. row_less x y ≡ true)

pub All-middle {κ} :
    (P : DiffNode → Type κ) (pre : List DiffNode) (x : DiffNode) (suf : List DiffNode)
    → All P (pre ++ x ∷ suf)
    → P x
All-middle P [] x suf h = h.0
All-middle P (y ∷ pre) x suf h = All-middle P pre x suf h.1

-- What surrounds a row in ascending rows.
around :
    (pre : List DiffNode) (x : DiffNode) (suf : List DiffNode)
    → Ascending (pre ++ x ∷ suf)
    → All (λ y. row_less x y ≡ false) (pre ++ x ∷ []) × All (λ y. row_less x y ≡ true) suf
around [] x suf h = ((row_less_irrefl x, tt), h.0)
around (y ∷ pre) x suf h =
    let (before, after) = around pre x suf h.1 in
    ((row_less_asymm y x (All-middle (λ z. row_less y z ≡ true) pre x suf h.0), before), after)

row_less-IsWeakOrder : IsWeakOrder row_less
unfolding row_less
row_less-IsWeakOrder = record {
  asymm = row_less_asymm;
  chain = λ x y z h k.
      ground (arith, bytes_lt-IsWeakOrder.chain (row_name x) (row_name y) (row_name z));
}

names-Apart : (x y : DiffNode) → bytes_eq (row_name x) (row_name y) ≡ false → Apart row_less x y
unfolding row_less
names-Apart x y h = elim (Bool-cases (row_less x y)) [
  | inl p ↦ inl p
  | inr p ↦ inr (
      ground
        (arith, bytes_eq_iff (row_name x) (row_name y), bytes_lt_total (row_name x) (row_name y)))
]

one_way : (x y : DiffNode) → row_less y x ≡ false → Apart row_less x y → row_less x y ≡ true
one_way x y p (inl q) = q
one_way x y p (inr q) = absurd (ground arith)

strictly :
    (rows : List DiffNode)
    → IsSorted row_less rows
    → AllPairs (Apart row_less) rows
    → Ascending rows
strictly [] s a = tt
strictly (x ∷ rows) s a = (
  All-zip rows (λ y (p : row_less y x ≡ false) (q : Apart row_less x y). one_way x y p q) s.0 a.0,
  strictly rows s.1 a.1,
)

pub sort_diff_children-Ascending :
    (rows : List DiffNode)
    → AllPairs (λ x y. bytes_eq (row_name x) (row_name y) ≡ false) rows
    → Ascending (sort_diff_children rows)
unfolding sort_diff_children
sort_diff_children-Ascending rows d =
    strictly (sort row_less rows) (sort-IsSorted row_less row_less-IsWeakOrder rows) (
      sort-AllPairs row_less (Apart row_less) (Apart-symm row_less) rows
        (AllPairs-imp rows names-Apart d))

pub page_start-payload_of :
    (query : Bytes) (pre : List DiffNode) (x : DiffNode) (suf : List DiffNode)
    → Ascending (pre ++ x ∷ suf)
    → page_start (pre ++ x ∷ suf) (some (payload_of query x)) ≡ suc (length pre)
unfolding page_start
page_start-payload_of query pre x suf h =
    let cur = payload_of query x in
    let (before, after) = around pre x suf h in
    let same = is_after-payload_of query x in
    let found : search (length ((pre ++ x ∷ []) ++ suf))
          (test_at (is_after cur) ((pre ++ x ∷ []) ++ suf))
        ≡ length (pre ++ x ∷ []) =
      search-test_at (is_after cur) (pre ++ x ∷ []) suf (All-imp _ (λ y e. same y ∙ e) before)
        (All-imp suf (λ y e. same y ∙ e) after) in
    ap (λ l. search (length l) (test_at (is_after cur) l)) (sym (append_assoc pre (x ∷ []) suf))
    ∙ (found ∙ omega (arith, length-append pre (x ∷ [])))
