-- ===== src/Analyze/Edges/Reference.antt =====
-- The edges against every pair of branch layers, tested one by one.
use layerlens.Base.{
  ℕ, suc, sym, drop_all, ◌≡◌, refl, ap, ◌∙◌, Bool, true, false, List, [], ◌∷◌, ◌++◌, map, Bytes,
  arith, ℤ, leb, ◌&&◌, ◌||◌, if◌then◌else◌, length, drop, bytes_eq, bytes_eq_iff, Bool-cases, inl,
  inr,
}
use mathlib.Core.List.{append-nil, append_assoc}
use layerlens.Domain.Image.{Layer}
use layerlens.Analyze.Edges.{
  CouldBeSharedEdge, eligible, MultiMap, indexes_at, append_index, collect, edge_to, connect, clamp,
  is_empty, could_be_shared_edges,
}

-- Both layers may take part, and their changeset digests are equal.
abbrev pub matches : Layer → Layer → Bool
matches x y = eligible x && eligible y && bytes_eq x.changeset_digest y.changeset_digest

-- The indexes of the left layers, from `i` on, that match `y`, in order.
pub matching : Layer → ℕ → List Layer → List ℕ
matching y i [] = []
matching y i (x ∷ xs) = let rest = matching y (suc i) xs in if matches x y then i ∷ rest else rest

-- For each right layer in order, an edge to each match.
pub all_edges : List Layer → ℕ → ℕ → List Layer → List CouldBeSharedEdge
unfolding matching
all_edges a k j [] = []
all_edges a k j (y ∷ ys) = map (edge_to a j y) (matching y k (drop k a)) ++ all_edges a k (suc j) ys

indexes_at-append_index :
    (d e : Bytes) (i : ℕ) (m : MultiMap)
    → indexes_at d (append_index e i m)
      ≡ (if bytes_eq e d then indexes_at d m ++ i ∷ [] else indexes_at d m)
unfolding indexes_at append_index
indexes_at-append_index d e i [] = ground arith
indexes_at-append_index d e i ((k, is) ∷ m) =
    ground
      (arith, bytes_eq_iff k e, bytes_eq_iff k d, bytes_eq_iff e d, indexes_at-append_index d e i m)

indexes_at-collect :
    (y : Layer) (i : ℕ) (xs : List Layer) (m : MultiMap)
    → eligible y ≡ true
    → indexes_at y.changeset_digest (collect i xs m)
      ≡ indexes_at y.changeset_digest m ++ matching y i xs
unfolding collect matching
indexes_at-collect y i [] m h = sym (append-nil _)
indexes_at-collect y i (x ∷ xs) m h =
    let m' = if eligible x then append_index x.changeset_digest i m else m in
    let idx = indexes_at y.changeset_digest m in
    indexes_at-collect y (suc i) xs m' h
    ∙ ground (
      arith,
      indexes_at-append_index y.changeset_digest x.changeset_digest i m,
      append_assoc idx (i ∷ []) (matching y (suc i) xs),
      h,
    )

matching_ineligible :
    (y : Layer) (i : ℕ) (xs : List Layer) → eligible y ≡ false → matching y i xs ≡ []
unfolding matching
matching_ineligible y i [] h = refl
matching_ineligible y i (x ∷ xs) h = ground (arith, matching_ineligible y (suc i) xs h)

connect-all_edges :
    (a : List Layer) (k j : ℕ) (ys : List Layer)
    → connect a (collect k (drop k a) []) j ys ≡ all_edges a k j ys
unfolding connect all_edges indexes_at
connect-all_edges a k j [] = refl
connect-all_edges a k j (y ∷ ys) = elim (Bool-cases (eligible y)) [
  | inl p ↦
      rw (p, indexes_at-collect y k (drop k a) [] p)
        (ap (λ es. map (edge_to a j y) (matching y k (drop k a)) ++ es)
          (connect-all_edges a k (suc j) ys))
  | inr p ↦ rw (p, matching_ineligible y k (drop k a) p) (connect-all_edges a k (suc j) ys)
]

all_edges_none :
    (a : List Layer) (k j : ℕ) (ys : List Layer) → drop k a ≡ [] → all_edges a k j ys ≡ []
unfolding all_edges
all_edges_none a k j [] h = refl
all_edges_none a k j (y ∷ ys) h = rw (h, matching) (all_edges_none a k (suc j) ys h)

connect_none : (a : List Layer) (j : ℕ) (ys : List Layer) → connect a [] j ys ≡ []
unfolding connect indexes_at
connect_none a j [] = refl
connect_none a j (y ∷ ys) = ground (arith, connect_none a (suc j) ys)

empty_map : (m : MultiMap) → is_empty m ≡ true → m ≡ []
empty_map [] h = refl
empty_map (p ∷ m) h = absurd (ground arith)

-- The edges are those between every left and every right layer beyond the trunk that match, ordered
-- by the right and then the left index; a negative trunk length counts as zero.
pub could_be_shared_edges-eq :
    (a b : List Layer) (k : ℤ)
    → could_be_shared_edges a b k ≡ all_edges a (clamp k) (clamp k) (drop (clamp k) b)
unfolding could_be_shared_edges
could_be_shared_edges-eq a b k' =
    let k = clamp k' in
    elim (Bool-cases (leb (length a) k || leb (length b) k)) [
      | inl short ↦ rw short (elim (Bool-cases (leb (length a) k)) [
        | inl p ↦ sym (all_edges_none a k k (drop k b) (drop_all k a (ground arith)))
        | inr p ↦ rw (drop_all k b (ground arith)) (unfold all_edges in refl)
      ])
      | inr long ↦ rw long (elim (Bool-cases (is_empty (collect k (drop k a) []))) [
        | inl p ↦ rw p (
            sym (connect_none a k (drop k b))
            ∙ (ap (λ m. connect a m k (drop k b)) (sym (empty_map _ p))
                ∙ connect-all_edges a k k (drop k b)))
        | inr p ↦ rw p (connect-all_edges a k k (drop k b))
      ])
    ]
