-- ===== src/Analyze/Edges.antt =====
-- internal/analyze/edges.go: the could-be-shared edges between two branches.
pub mod Reference
use layerlens.Base.{
  ℕ, zero, suc, Bool, true, false, Option, none, some, List, [], ◌∷◌, ◌++◌, map, Bytes, ℤ, pos,
  negsuc, ltb, leb, ◌&&◌, ◌||◌, if◌then◌else◌, length, drop, get_elem?, bytes_eq,
}
use layerlens.Domain.Digest.{is_valid}
use layerlens.Domain.Image.{Layer}

pub record CouldBeSharedEdge : Type 0 where
  pub left_index : ℕ
  pub right_index : ℕ
  pub diff_id_equal : Bool
  pub changeset_digest : Bytes

unfoldable pub eligible : Layer → Bool
eligible l = ltb 0 l.entry_count && is_valid l.changeset_digest

-- `map[domain.Digest][]int`; a missing key reads as no indexes.
abbrev pub MultiMap : Type 0
MultiMap = List (Bytes × List ℕ)

unfoldable pub indexes_at : Bytes → MultiMap → List ℕ
indexes_at d [] = []
indexes_at d ((k, is) ∷ m) = if bytes_eq k d then is else indexes_at d m

-- `m[d] = append(m[d], i)`
unfoldable pub append_index : Bytes → ℕ → MultiMap → MultiMap
append_index d i [] = (d, i ∷ []) ∷ []
append_index d i ((k, is) ∷ m) =
    if bytes_eq k d then (k, is ++ i ∷ []) ∷ m else (k, is) ∷ append_index d i m

-- The first loop at index `i`, over `a[i:]`.
unfoldable pub collect : ℕ → List Layer → MultiMap → MultiMap
collect i [] m = m
collect i (x ∷ xs) m =
    collect (suc i) xs (if eligible x then append_index x.changeset_digest i m else m)

-- `a[i].DiffID.IsValid() && a[i].DiffID == b[j].DiffID`
unfoldable pub same_diff_id : List Layer → ℕ → Layer → Bool
same_diff_id a i y = elim (get_elem? a i) [
  | none ↦ false
  | some x ↦ is_valid x.diff_id && bytes_eq x.diff_id y.diff_id
]

abbrev pub edge_to : List Layer → ℕ → Layer → ℕ → CouldBeSharedEdge
edge_to a j y i = record {
  left_index = i;
  right_index = j;
  diff_id_equal = same_diff_id a i y;
  changeset_digest = y.changeset_digest;
}

-- The second loop at index `j`, over `b[j:]`.
unfoldable pub connect : List Layer → MultiMap → ℕ → List Layer → List CouldBeSharedEdge
connect a m j [] = []
connect a m j (y ∷ ys) =
    (if eligible y then map (edge_to a j y) (indexes_at y.changeset_digest m) else [])
    ++ connect a m (suc j) ys

abbrev pub clamp : ℤ → ℕ
clamp (pos k) = k
clamp (negsuc _) = 0

abbrev is_empty : MultiMap → Bool
is_empty [] = true
is_empty (_ ∷ _) = false

unfoldable pub could_be_shared_edges : List Layer → List Layer → ℤ → List CouldBeSharedEdge
could_be_shared_edges a b k' =
    let k = clamp k' in
    if leb (length a) k || leb (length b) k
    then []
    else (let by_digest = collect k (drop k a) [] in
        if is_empty by_digest then [] else connect a by_digest k (drop k b))
