-- ===== src/Analyze/Indexer/Finish.antt =====
-- internal/analyze/indexer.go: the entries that finish makes of the state of a layer.
use layerlens.Base.{
  if◌then◌else◌, In, In-append, sort-In, Option-cases, some, bytes_eq, ◌≡◌, refl, ap, sym, ◌∙◌, ℕ,
  ◌+◌, ◌%◌, ◌^◌, true, false, List, [], ◌∷◌, ◌++◌, map, Bytes, length, arith, All, All-append,
  All-map, All-imp, AllPairs-zip, AllPairs-map, AllPairs-append, All-pairs, sort, sort_insert,
  sort-All, sort-AllPairs, length-sort, length-append, length-map, Bool-cases, inl, inr, ◌||◌,
}
use layerlens.Base.Dict.{find, find-All, Dict, total, IsDict-AllPairs}
use layerlens.Domain.Entry.{EntryKind, kind_eq, file, whiteout, opaque, Entry}
use layerlens.Analyze.Changeset.{entry_less}
use layerlens.Analyze.Changeset.Order.{SameKey, DistinctKeys}
use layerlens.Analyze.Squash.{is_marker}
use layerlens.Analyze.Squash.Entries.{HasPath}
use layerlens.Analyze.Squash.Overlay.{HasPaths}
use layerlens.Analyze.Indexer.{IndexState, counted_size}
use layerlens.Analyze.Sanitize.Clean.{IsCleanPath}
use layerlens.Analyze.Indexer.Present.{Present}
use layerlens.Analyze.Indexer.Accepts.{IsObject, IsMarker, IsIndexing, IsCapped}

-- The bytes of the files among the entries.
abbrev pub bytes_in : EntryKind → ℕ → ℕ
bytes_in file n = n
bytes_in _ n = 0

abbrev pub file_bytes : List Entry → ℕ
file_bytes [] = 0
file_bytes (e ∷ es) = bytes_in e.kind e.size + file_bytes es

counted_size-bytes_in : (k : EntryKind) (n : ℕ) → bytes_in k n ≡ (if kind_eq k file then n else 0)
counted_size-bytes_in k n = ground arith

abbrev pub values : Dict Entry → List Entry
values d = map (λ p. p.1) d

-- What finish sorts.
abbrev pub listed : IndexState → List Entry
listed s = values s.entries ++ values s.markers

object-HasPath : (O : Entry → Type 0) (k : Bytes) (e : Entry) → IsObject O k e → HasPath e
object-HasPath O k e h = record {
  parent = h.clean.parent;
  name = h.clean.name;
  names = All-imp (h.clean.parent ++ h.clean.name ∷ []) (λ x c. c.0) h.clean.segments;
  joined = h.clean.joined;
}

marker-HasPath : (k : Bytes) (e : Entry) → IsMarker k e → is_marker e ≡ false → HasPath e
marker-HasPath k e h n = absurd (ground (arith, h.marker))

module _ (O : Entry → Type 0) (cap : ℕ) (s : IndexState) (h : IsIndexing O cap s) where
  pub listed-HasPaths : HasPaths (sort entry_less (listed s))
  listed-HasPaths =
      sort-All entry_less (λ e. is_marker e ≡ false → HasPath e) (listed s)
        (All-append (λ e. is_marker e ≡ false → HasPath e) (values s.entries) (values s.markers)
          (All-map (λ e. is_marker e ≡ false → HasPath e) (λ p. p.1) s.entries
            (All-imp s.entries (λ p o _. object-HasPath O p.0 p.1 o) h.objects))
          (All-map (λ e. is_marker e ≡ false → HasPath e) (λ p. p.1) s.markers
            (All-imp s.markers (λ p o. marker-HasPath p.0 p.1 o) h.all_markers)))

  -- An object has a clean path, and is what is known of it.
  pub listed-objects :
      All (λ e. is_marker e ≡ false → IsCleanPath e.path × O e) (sort entry_less (listed s))
  listed-objects =
      sort-All entry_less (λ e. is_marker e ≡ false → IsCleanPath e.path × O e) (listed s)
        (All-append (λ e. is_marker e ≡ false → IsCleanPath e.path × O e) (values s.entries)
          (values s.markers)
          (All-map (λ e. is_marker e ≡ false → IsCleanPath e.path × O e) (λ p. p.1) s.entries
            (All-imp s.entries (λ p o _. (o.clean, o.origin)) h.objects))
          (All-map (λ e. is_marker e ≡ false → IsCleanPath e.path × O e) (λ p. p.1) s.markers
            (All-imp s.markers (λ p o n. absurd (ground (arith, o.marker, n))) h.all_markers)))

  objects-DistinctKeys : DistinctKeys (values s.entries)
  objects-DistinctKeys =
      AllPairs-map (λ x y. ¬ SameKey x y) (λ p. p.1) s.entries
        (AllPairs-zip s.entries (λ p q a b n same. n (sym a.under ∙ (same.0 ∙ b.under))) h.objects
          (IsDict-AllPairs s.entries h.entry_keys))

  markers-DistinctKeys : DistinctKeys (values s.markers)
  markers-DistinctKeys =
      AllPairs-map (λ x y. ¬ SameKey x y) (λ p. p.1) s.markers
        (AllPairs-zip s.markers
          (λ p q a b n same. n (sym a.under ∙ (cc (same.0, same.1) ∙ b.under))) h.all_markers
          (IsDict-AllPairs s.markers h.marker_keys))

  apart : (x y : Entry) → is_marker x ≡ false → is_marker y ≡ true → ¬ SameKey x y
  apart x y a b same =
      absurd
        (ground (arith, ap (λ k. kind_eq k whiteout) same.1, ap (λ k. kind_eq k opaque) same.1))

  pub listed-DistinctKeys : DistinctKeys (sort entry_less (listed s))
  listed-DistinctKeys =
      sort-AllPairs entry_less (λ x y. ¬ SameKey x y) (λ x y n same. n (sym same.0, sym same.1))
        (listed s)
        (AllPairs-append (λ x y. ¬ SameKey x y) (values s.entries) (values s.markers)
          objects-DistinctKeys markers-DistinctKeys
          (All-pairs (λ x y. ¬ SameKey x y) (values s.entries) (values s.markers) apart
            (All-map (λ e. is_marker e ≡ false) (λ p. p.1) s.entries
              (All-imp s.entries (λ p o. o.object) h.objects))
            (All-map (λ e. is_marker e ≡ true) (λ p. p.1) s.markers
              (All-imp s.markers (λ p o. o.marker) h.all_markers))))

file_bytes-sort_insert :
    (e : Entry) (l : List Entry)
    → file_bytes (sort_insert entry_less e l) ≡ bytes_in e.kind e.size + file_bytes l
unfolding sort_insert
file_bytes-sort_insert e [] = refl
file_bytes-sort_insert e (x ∷ l) = elim (Bool-cases (entry_less x e)) [
  | inl p ↦ rw p (let i = file_bytes-sort_insert e l in omega arith)
  | inr p ↦ rw p refl
]

file_bytes-sort : (l : List Entry) → file_bytes (sort entry_less l) ≡ file_bytes l
unfolding sort
file_bytes-sort [] = refl
file_bytes-sort (x ∷ l) =
    file_bytes-sort_insert x (sort entry_less l)
    ∙ ap (λ n. bytes_in x.kind x.size + n) (file_bytes-sort l)

file_bytes-append : (l m : List Entry) → file_bytes (l ++ m) ≡ file_bytes l + file_bytes m
file_bytes-append [] m = omega arith
file_bytes-append (x ∷ l) m = let i = file_bytes-append l m in omega arith

file_bytes-values : (d : Dict Entry) → file_bytes (values d) ≡ total counted_size d
file_bytes-values [] = refl
file_bytes-values ((k, e) ∷ d) =
    let c = counted_size-bytes_in e.kind e.size in
    let i = file_bytes-values d in rw c (ap (λ n. counted_size e + n) i)

marks-free :
    (k : EntryKind) → (kind_eq k whiteout || kind_eq k opaque) ≡ true → kind_eq k file ≡ false
marks-free k h = ground arith

markers_free : (l : List Entry) → All (λ e. is_marker e ≡ true) l → file_bytes l ≡ 0
markers_free [] h = refl
markers_free (e ∷ l) h =
    rw (counted_size-bytes_in e.kind e.size, marks-free e.kind h.0)
      (let i = markers_free l h.1 in omega arith)

module _ (O : Entry → Type 0) (cap : ℕ) (s : IndexState) (h : IsIndexing O cap s) where
  pub listed_bytes : s.content_bytes ≡ file_bytes (sort entry_less (listed s)) % 2 ^ 64
  listed_bytes =
      let a = file_bytes-sort (listed s) in
      let b = file_bytes-append (values s.entries) (values s.markers) in
      let c = file_bytes-values s.entries in
      let d = markers_free (values s.markers) (
        All-map (λ e. is_marker e ≡ true) (λ p. p.1) s.markers
          (All-imp s.markers (λ p o. o.marker) h.all_markers)) in
      let e = h.counted in e ∙ ap (λ n. n % 2 ^ 64) (omega arith)

  pub listed_count : IsCapped cap (length (sort entry_less (listed s)))
  listed_count = λ p.
      let a = length-sort entry_less (listed s) in
      let b = length-append (values s.entries) (values s.markers) in
      let c = length-map (λ q. q.1) s.entries in
      let d = length-map (λ q. q.1) s.markers in let e = h.capped p in omega arith

find-values : (k : Bytes) (e : Entry) (d : Dict Entry) → find k d ≡ some e → In e (values d)
unfolding find
find-values k e [] h = absurd (ground (arith, h))
find-values k e ((j, v) ∷ d) h = elim (Bool-cases (bytes_eq j k)) [
  | inl p ↦ inl (ground (arith, h, p))
  | inr p ↦ inr (find-values k e d (rw p at h))
]

module _ (O : Entry → Type 0) (cap : ℕ) (s : IndexState) (h : IsIndexing O cap s) where
  -- The object that is present under a path is among what finish sorts.
  pub listed-Present :
      (p : Bytes)
      → Present p s
      → (e : Entry) × In e (sort entry_less (listed s)) × (e.path ≡ p) × (is_marker e ≡ false)
  listed-Present p present = elim (Option-cases (find p s.entries)) [
    | inl f ↦ absurd (present f)
    | inr (e, f) ↦
        let o = find-All (λ k v. IsObject O k v) p e s.entries h.objects f in
        (
          e,
          sort-In entry_less e (listed s)
              (In-append e (values s.entries) (values s.markers) (find-values p e s.entries f)),
          o.under,
          o.object,
        )
  ]
