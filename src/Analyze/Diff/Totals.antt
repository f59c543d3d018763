-- ===== src/Analyze/Diff/Totals.antt =====
-- internal/analyze/diff.go: the sums that the aggregate of a row stands for.
use layerlens.Base.{
  ◌≡◌, refl, ap, ℕ, ◌+◌, ◌%◌, ◌^◌, Option, none, some, List, [], ◌∷◌, Bytes, arith, All, All-imp,
  add64, if◌then◌else◌, ◌||◌, ◌==◌,
}
use layerlens.Domain.Entry.{file}
use layerlens.Domain.Tree.{
  DiffStatus, unchanged, added, removed, modified, SideMeta, Agg, DiffNode, diff_node, Rows,
  no_rows, row, row_agg, rows_of,
}
use layerlens.Analyze.Diff.{add_agg, own_agg, add_rows, filled, file_size, is_file}

-- What a row adds to a sum, by its status and its two sides.
abbrev pub Measure : Type 0
Measure = DiffStatus → Option SideMeta → Option SideMeta → ℕ

mutual
  pub total : Measure → DiffNode → ℕ
  total m (diff_node n s l r a rs) = m s l r + total_rows m rs

  pub total_rows : Measure → Rows → ℕ
  total_rows m no_rows = 0
  total_rows m (row d rs) = total m d + total_rows m rs

-- Only regular files count, with their sizes and one by one.
abbrev pub bytes_on : Option SideMeta → ℕ
bytes_on none = 0
bytes_on (some m) = elim m.kind [ file ↦ m.size | _ ↦ 0 ]

abbrev pub files_on : Option SideMeta → ℕ
files_on none = 0
files_on (some m) = elim m.kind [ file ↦ 1 | _ ↦ 0 ]

-- A modified row counts as one file if one of its sides is a file.
abbrev pub either_file : Option SideMeta → Option SideMeta → ℕ
either_file l r = if files_on l == 0 then files_on r else 1

abbrev added_bytes_of : Measure
added_bytes_of added l r = bytes_on r
added_bytes_of _ l r = 0

abbrev removed_bytes_of : Measure
removed_bytes_of removed l r = bytes_on l
removed_bytes_of _ l r = 0

abbrev modified_bytes_left_of : Measure
modified_bytes_left_of modified l r = bytes_on l
modified_bytes_left_of _ l r = 0

abbrev modified_bytes_right_of : Measure
modified_bytes_right_of modified l r = bytes_on r
modified_bytes_right_of _ l r = 0

abbrev added_files_of : Measure
added_files_of added l r = files_on r
added_files_of _ l r = 0

abbrev removed_files_of : Measure
removed_files_of removed l r = files_on l
removed_files_of _ l r = 0

abbrev modified_files_of : Measure
modified_files_of modified l r = either_file l r
modified_files_of _ l r = 0

-- Each number of a row's aggregate is, modulo 2 ^ 64, the sum over the row and all rows below it: of the
-- bytes or the files of one side, or of that on the rows of one status.
pub record IsTotalled (d : DiffNode) : Type 0 where
  pub left_bytes : (row_agg d).left_bytes % 2 ^ 64 ≡ total (λ s l r. bytes_on l) d % 2 ^ 64
  pub right_bytes : (row_agg d).right_bytes % 2 ^ 64 ≡ total (λ s l r. bytes_on r) d % 2 ^ 64
  pub left_files : (row_agg d).left_files % 2 ^ 64 ≡ total (λ s l r. files_on l) d % 2 ^ 64
  pub right_files : (row_agg d).right_files % 2 ^ 64 ≡ total (λ s l r. files_on r) d % 2 ^ 64
  pub added_bytes : (row_agg d).added_bytes % 2 ^ 64 ≡ total added_bytes_of d % 2 ^ 64
  pub removed_bytes : (row_agg d).removed_bytes % 2 ^ 64 ≡ total removed_bytes_of d % 2 ^ 64
  pub modified_bytes_left :
      (row_agg d).modified_bytes_left % 2 ^ 64 ≡ total modified_bytes_left_of d % 2 ^ 64
  pub modified_bytes_right :
      (row_agg d).modified_bytes_right % 2 ^ 64 ≡ total modified_bytes_right_of d % 2 ^ 64
  pub added_files : (row_agg d).added_files % 2 ^ 64 ≡ total added_files_of d % 2 ^ 64
  pub removed_files : (row_agg d).removed_files % 2 ^ 64 ≡ total removed_files_of d % 2 ^ 64
  pub modified_files : (row_agg d).modified_files % 2 ^ 64 ≡ total modified_files_of d % 2 ^ 64

file_size-bytes_on : (o : Option SideMeta) → file_size o ≡ bytes_on o
file_size-bytes_on none = refl
file_size-bytes_on (some m) = ground arith

count-files_on : (o : Option SideMeta) → (if is_file o then 1 else 0) ≡ files_on o
count-files_on none = refl
count-files_on (some m) = ground arith

count-either_file :
    (l r : Option SideMeta) → (if is_file l || is_file r then 1 else 0) ≡ either_file l r
count-either_file none none = refl
count-either_file none (some m) = ground arith
count-either_file (some m) none = ground arith
count-either_file (some m) (some n) = ground arith

added_bytes-own :
    (s : DiffStatus) (l r : Option SideMeta) → (own_agg s l r).added_bytes ≡ added_bytes_of s l r
unfolding own_agg
added_bytes-own unchanged l r = refl
added_bytes-own added l r = file_size-bytes_on r
added_bytes-own removed l r = refl
added_bytes-own modified l r = refl

removed_bytes-own :
    (s : DiffStatus) (l r : Option SideMeta)
    → (own_agg s l r).removed_bytes ≡ removed_bytes_of s l r
unfolding own_agg
removed_bytes-own unchanged l r = refl
removed_bytes-own added l r = refl
removed_bytes-own removed l r = file_size-bytes_on l
removed_bytes-own modified l r = refl

modified_bytes_left-own :
    (s : DiffStatus) (l r : Option SideMeta)
    → (own_agg s l r).modified_bytes_left ≡ modified_bytes_left_of s l r
unfolding own_agg
modified_bytes_left-own unchanged l r = refl
modified_bytes_left-own added l r = refl
modified_bytes_left-own removed l r = refl
modified_bytes_left-own modified l r = file_size-bytes_on l

modified_bytes_right-own :
    (s : DiffStatus) (l r : Option SideMeta)
    → (own_agg s l r).modified_bytes_right ≡ modified_bytes_right_of s l r
unfolding own_agg
modified_bytes_right-own unchanged l r = refl
modified_bytes_right-own added l r = refl
modified_bytes_right-own removed l r = refl
modified_bytes_right-own modified l r = file_size-bytes_on r

added_files-own :
    (s : DiffStatus) (l r : Option SideMeta) → (own_agg s l r).added_files ≡ added_files_of s l r
unfolding own_agg
added_files-own unchanged l r = refl
added_files-own added l r = count-files_on r
added_files-own removed l r = refl
added_files-own modified l r = refl

removed_files-own :
    (s : DiffStatus) (l r : Option SideMeta)
    → (own_agg s l r).removed_files ≡ removed_files_of s l r
unfolding own_agg
removed_files-own unchanged l r = refl
removed_files-own added l r = refl
removed_files-own removed l r = count-files_on l
removed_files-own modified l r = refl

modified_files-own :
    (s : DiffStatus) (l r : Option SideMeta)
    → (own_agg s l r).modified_files ≡ modified_files_of s l r
unfolding own_agg
modified_files-own unchanged l r = refl
modified_files-own added l r = refl
modified_files-own removed l r = refl
modified_files-own modified l r = count-either_file l r

module _ (f : Agg → ℕ) (m : Measure) (adds : (a b : Agg) → f (add_agg a b) ≡ add64 (f a) (f b))
    (owns : (s : DiffStatus) (l r : Option SideMeta) → f (own_agg s l r) ≡ m s l r) where
  add_rows-total :
      (a : Agg) (rows : List DiffNode)
      → All (λ d. f (row_agg d) % 2 ^ 64 ≡ total m d % 2 ^ 64) rows
      → f (add_rows a rows) % 2 ^ 64 ≡ (f a + total_rows m (rows_of rows)) % 2 ^ 64
  unfolding add_rows total_rows
  add_rows-total a [] h = ap (λ n. n % 2 ^ 64) (omega arith)
  add_rows-total a (d ∷ rows) h =
      let rest = add_rows-total (add_agg a (row_agg d)) rows h.1 in
      let here = h.0 in let sum = adds a (row_agg d) in omega arith

  filled-total :
      (n : Bytes) (s : DiffStatus) (l r : Option SideMeta) (rows : List DiffNode)
      → All (λ d. f (row_agg d) % 2 ^ 64 ≡ total m d % 2 ^ 64) rows
      → f (row_agg (filled n s l r rows)) % 2 ^ 64 ≡ total m (filled n s l r rows) % 2 ^ 64
  unfolding filled total
  filled-total n s l r rows h =
      let all = add_rows-total (own_agg s l r) rows h in let own = owns s l r in omega arith

pub filled-IsTotalled :
    (n : Bytes) (s : DiffStatus) (l r : Option SideMeta) (rows : List DiffNode)
    → All IsTotalled rows
    → IsTotalled (filled n s l r rows)
unfolding add_agg own_agg
filled-IsTotalled n s l r rows h = record {
  left_bytes =
      filled-total (λ a. a.left_bytes) (λ s l r. bytes_on l) (λ a b. refl)
        (λ s l r. file_size-bytes_on l) n s l r rows (All-imp rows (λ d k. k.left_bytes) h);
  right_bytes =
      filled-total (λ a. a.right_bytes) (λ s l r. bytes_on r) (λ a b. refl)
        (λ s l r. file_size-bytes_on r) n s l r rows (All-imp rows (λ d k. k.right_bytes) h);
  left_files =
      filled-total (λ a. a.left_files) (λ s l r. files_on l) (λ a b. refl)
        (λ s l r. count-files_on l) n s l r rows (All-imp rows (λ d k. k.left_files) h);
  right_files =
      filled-total (λ a. a.right_files) (λ s l r. files_on r) (λ a b. refl)
        (λ s l r. count-files_on r) n s l r rows (All-imp rows (λ d k. k.right_files) h);
  added_bytes =
      filled-total (λ a. a.added_bytes) added_bytes_of (λ a b. refl) added_bytes-own n s l r rows
        (All-imp rows (λ d k. k.added_bytes) h);
  removed_bytes =
      filled-total (λ a. a.removed_bytes) removed_bytes_of (λ a b. refl) removed_bytes-own n s l r
        rows (All-imp rows (λ d k. k.removed_bytes) h);
  modified_bytes_left =
      filled-total (λ a. a.modified_bytes_left) modified_bytes_left_of (λ a b. refl)
        modified_bytes_left-own n s l r rows (All-imp rows (λ d k. k.modified_bytes_left) h);
  modified_bytes_right =
      filled-total (λ a. a.modified_bytes_right) modified_bytes_right_of (λ a b. refl)
        modified_bytes_right-own n s l r rows (All-imp rows (λ d k. k.modified_bytes_right) h);
  added_files =
      filled-total (λ a. a.added_files) added_files_of (λ a b. refl) added_files-own n s l r rows
        (All-imp rows (λ d k. k.added_files) h);
  removed_files =
      filled-total (λ a. a.removed_files) removed_files_of (λ a b. refl) removed_files-own n s l r
        rows (All-imp rows (λ d k. k.removed_files) h);
  modified_files =
      filled-total (λ a. a.modified_files) modified_files_of (λ a b. refl) modified_files-own n s l
        r rows (All-imp rows (λ d k. k.modified_files) h);
}
