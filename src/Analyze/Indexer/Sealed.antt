-- ===== src/Analyze/Indexer/Sealed.antt =====
-- internal/analyze/indexer.go: the index that finish makes of the state of a layer, and its seal.
use layerlens.Analyze.Squash.{is_marker}
use layerlens.Analyze.Sanitize.Clean.{IsCleanPath}
use layerlens.Analyze.Indexer.Origin.{IsFrom, Occurs}
use layerlens.Base.{
  In, false, Result, All, List, [], ◌∷◌, ◌≡◌, refl, ◌⊎◌, inl, inr, ℕ, ◌+◌, ◌%◌, ◌^◌, ◌≤◌, [], ◌∷◌,
  map, Bytes, length, ltb, arith, IsSorted, sort-IsSorted, bytes_eq, bytes_eq→eq, Gives,
  length-append, length-map, Bool-cases,
}
use layerlens.Domain.Entry.{Entry, LayerIndex}
use layerlens.Analyze.Changeset.{entry_less, changeset_digest}
use layerlens.Analyze.Changeset.Order.{DistinctKeys, entry_less-IsWeakOrder}
use layerlens.Analyze.Squash.Overlay.{HasPaths}
use layerlens.Analyze.Indexer.{IndexState, Warning, max_warnings, Member, IndexError}
use layerlens.Analyze.Indexer.Covers.{Covers}
use layerlens.Analyze.Indexer.Present.{IsObjectMember}
use layerlens.Analyze.Indexer.Accepts.{IsIndexing}
use layerlens.Analyze.Indexer.Finish.{
  listed-Present, file_bytes, listed, listed-HasPaths, listed-objects, listed-DistinctKeys,
  listed_bytes,
}
use layerlens.Analyze.Indexer.Layer.{empty_state, all_warnings, finish_index, sealed}

pub empty-IsIndexing : (O : Entry → Type 0) (cap : ℕ) → IsIndexing O cap (empty_state cap)
empty-IsIndexing O cap = record {
  cap_kept = refl;
  entry_keys = tt;
  marker_keys = tt;
  objects = tt;
  all_markers = tt;
  counted = refl;
  capped = λ _. omega arith;
  warned = omega arith;
}

-- The entry comes from one of what the tar yields.
abbrev pub IsRead : (Bytes → Bytes) → List (Result IndexError Member) → Entry → Type 0
IsRead sha256 rs e = (m : Member) × Occurs m rs × IsFrom sha256 m e

-- Each member that stands for an object has an entry under its path.
abbrev pub IsListed : List (Result IndexError Member) → List Entry → Type 0
IsListed rs es =
    (m : Member) (p : Bytes)
    → Occurs m rs
    → IsObjectMember m p
    → (e : Entry) × In e es × (e.path ≡ p) × (is_marker e ≡ false)

-- What the loop over the members has gathered.
abbrev pub Gathers : (Bytes → Bytes) → List (Result IndexError Member) → ℕ → IndexState → Type 0
Gathers sha256 rs cap s = IsIndexing (IsRead sha256 rs) cap s × Covers sha256 rs (empty_state cap) s

pub record IsIndex (sha256 : Bytes → Bytes) (rs : List (Result IndexError Member))
    (idx : LayerIndex) : Type 0 where
  pub objects : All (λ e. is_marker e ≡ false → IsCleanPath e.path × IsRead sha256 rs e) idx.entries
  pub complete : IsListed rs idx.entries
  pub paths : HasPaths idx.entries
  pub distinct : DistinctKeys idx.entries
  pub ascending : IsSorted entry_less idx.entries
  pub sized : idx.content_bytes ≡ file_bytes idx.entries % 2 ^ 64
  pub digested : idx.changeset_digest ≡ changeset_digest sha256 idx.entries

-- The declared diff_id is none, or the digest.
abbrev pub IsVerified : Bytes → Bytes → Type 0
IsVerified declared computed = (declared ≡ []) ⊎ (computed ≡ declared)

module _ (sha256 : Bytes → Bytes) (render : Warning → Bytes) (render_suppressed : ℕ → Bytes) where
  pub finish_index-IsIndex :
      (rs : List (Result IndexError Member)) (cap : ℕ) (d : Bytes) (s : IndexState)
      → Gathers sha256 rs cap s
      → IsIndex sha256 rs (finish_index sha256 render render_suppressed d s)
  unfolding finish_index
  finish_index-IsIndex rs cap d s (h, c) = record {
    objects = listed-objects (IsRead sha256 rs) cap s h;
    complete = λ m p o i. listed-Present (IsRead sha256 rs) cap s h p (c.1 m p o i);
    paths = listed-HasPaths (IsRead sha256 rs) cap s h;
    distinct = listed-DistinctKeys (IsRead sha256 rs) cap s h;
    ascending = sort-IsSorted entry_less entry_less-IsWeakOrder (listed s);
    sized = listed_bytes (IsRead sha256 rs) cap s h;
    digested = refl;
  }

  pub all_warnings_bound :
      (s : IndexState)
      → length s.warnings ≤ max_warnings
      → length (all_warnings sha256 render render_suppressed s) ≤ max_warnings + 1
  unfolding all_warnings
  all_warnings_bound s h = elim (Bool-cases (ltb 0 s.suppressed)) [
    | inl p ↦ rw p (
        let a = length-append (map render s.warnings) (render_suppressed s.suppressed ∷ []) in
        let b = length-map render s.warnings in omega arith)
    | inr p ↦ rw p (
        let a = length-append (map render s.warnings) [] in
        let b = length-map render s.warnings in omega arith)
  ]

  -- What a sealed index comes from; `S` is what is known of the state.
  abbrev pub IsSealed : (IndexState → Type 0) → Bytes → Bytes → LayerIndex → Type 0
  IsSealed S declared computed idx =
      (s : IndexState) × S s
      × (idx ≡ finish_index sha256 render render_suppressed computed s)
      × IsVerified declared computed

  pub sealed-IsSealed :
      (S : IndexState → Type 0) (declared computed : Bytes) (s : IndexState)
      → S s
      → Gives
          (IsSealed S declared computed)
          (sealed sha256 render render_suppressed declared computed s)
  unfolding sealed
  sealed-IsSealed S declared computed s h = elim (Bool-cases (bytes_eq declared [])) [
    | inl p ↦ rw p (s, h, refl, inl (bytes_eq→eq declared [] p))
    | inr p ↦ elim (Bool-cases (bytes_eq computed declared)) [
      | inl q ↦ rw (p, q) (s, h, refl, inr (bytes_eq→eq computed declared q))
      | inr q ↦ rw (p, q) tt
    ]
  ]
