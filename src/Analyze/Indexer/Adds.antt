-- ===== src/Analyze/Indexer/Adds.antt =====
-- internal/analyze/indexer.go: what add keeps of the state of a layer, whatever the member.
use layerlens.Base.{
  inl, inr, ◌≡◌, refl, ℕ, true, ◌||◌, Option, none, some, List, [], ◌∷◌, Bytes, codes, length, ◌==◌,
  bytes_eq, has_prefix, drop, Result, ok, Bool-cases, if_holds, Gives-intro, Gives, Gives->>,
  Gives->>=,
}
use layerlens.Base.Dict.{find}
use layerlens.Domain.Entry.{EntryKind, whiteout, opaque, kind_eq, Entry}
use layerlens.Analyze.Sanitize.{sanitize_path, is_root_name}
use layerlens.Analyze.Sanitize.Clean.{sanitize_path-IsCleanPath}
use layerlens.Analyze.Indexer.{
  Header, Member, IndexState, IndexError, reserve_new, warn, kind_of, entry_from, path_base,
  path_dir, put, path_join, put_marker, marker_of, whiteout_prefix, whiteout_opaque_dir,
  whiteout_meta_prefix,
}
use layerlens.Analyze.Indexer.Warning.{
  unsafe_name, aufs_metadata, malformed_whiteout, unsupported_type,
}
use layerlens.Analyze.Indexer.Origin.{IsFrom, Occurs}
use layerlens.Analyze.Indexer.Filled.{IsFilled, fill_entry-IsFilled, entry_from-IsDraft}
use layerlens.Analyze.Indexer.Accepts.{
  IsIndexing, warn-IsIndexing, put_marker-IsIndexing, put-IsIndexing,
}
use layerlens.Analyze.Indexer.Layer.{
  add_whiteout, fill_entry, put_filled, put_object, add_object, add_path, add, add_all,
}

module _ (sha256 : Bytes → Bytes) (O : Entry → Type 0) (cap : ℕ) where
  -- What is known of an entry that comes from the member.
  abbrev Knows : Member → Type 0
  Knows m = (e : Entry) → IsFrom sha256 m e → O e

  put_object-IsIndexing :
      (m : Member) (p : Bytes) (k : EntryKind) (s : IndexState)
      → Knows m
      → kind_of m.header.typeflag ≡ some k
      → sanitize_path m.header.name ≡ some p
      → IsIndexing O cap s
      → Gives (IsIndexing O cap) (put_object sha256 m p k s)
  unfolding put_object put_filled entry_from
  put_object-IsIndexing m p k s known t n h =
      let e = entry_from m.header p k in
      Gives->> (IsIndexing O cap) (reserve_new (find p s.entries) s) _ (λ _.
        Gives->>= (IsFilled sha256 O cap m p) (IsIndexing O cap) (fill_entry sha256 m e s) _
          (fill_entry-IsFilled sha256 O cap m e s (entry_from-IsDraft m p k n t) h)
          (λ r f. Gives-intro (IsIndexing O cap) (put r.0 r.1) (λ s' q.
            put-IsIndexing O cap r.0 r.1 s' f.state
              (record {
                under = refl;
                object = f.object;
                clean = rw f.same_path (sanitize_path-IsCleanPath m.header.name p n);
                sized = f.sized;
                origin = known r.0 f.from;
              })
              q)))

  marker-IsIndexing :
      (p : Bytes) (k : EntryKind) (s : IndexState)
      → (kind_eq k whiteout || kind_eq k opaque) ≡ true
      → IsIndexing O cap s
      → Gives (IsIndexing O cap) (put_marker (marker_of p k) s)
  marker-IsIndexing p k s m h =
      Gives-intro (IsIndexing O cap) (put_marker (marker_of p k) s)
        (λ s' q. put_marker-IsIndexing O cap (marker_of p k) s s' h m q)

  add_whiteout-IsIndexing :
      (hdr : Header) (d base : Bytes) (s : IndexState)
      → IsIndexing O cap s
      → Gives (IsIndexing O cap) (add_whiteout hdr d base s)
  unfolding add_whiteout
  add_whiteout-IsIndexing hdr d base s h =
      let name = drop (length whiteout_prefix) base in
      if_holds (Gives (IsIndexing O cap))
        (bytes_eq name [] || (bytes_eq name (codes ".") || bytes_eq name (codes "..")))
        (ok (warn (malformed_whiteout hdr.name) s))
        (put_marker (marker_of (path_join d name) whiteout) s)
        (λ _. warn-IsIndexing O cap (malformed_whiteout hdr.name) s h)
        (λ _. marker-IsIndexing (path_join d name) whiteout s refl h)

  add_object-IsIndexing :
      (m : Member) (p : Bytes) (o : Option EntryKind) (s : IndexState)
      → Knows m
      → kind_of m.header.typeflag ≡ o
      → sanitize_path m.header.name ≡ some p
      → IsIndexing O cap s
      → Gives (IsIndexing O cap) (add_object sha256 m p o s)
  unfolding add_object
  add_object-IsIndexing m p none s known t n h =
      warn-IsIndexing O cap (unsupported_type m.header.name m.header.typeflag) s h
  add_object-IsIndexing m p (some k) s known t n h = put_object-IsIndexing m p k s known t n h

  add_path-IsIndexing :
      (m : Member) (o : Option Bytes) (s : IndexState)
      → Knows m
      → sanitize_path m.header.name ≡ o
      → IsIndexing O cap s
      → Gives (IsIndexing O cap) (add_path sha256 m o s)
  unfolding add_path
  add_path-IsIndexing m none s known e h = warn-IsIndexing O cap (unsafe_name m.header.name) s h
  add_path-IsIndexing m (some p) s known e h =
      let base = path_base p in
      elim (Bool-cases (bytes_eq base whiteout_opaque_dir)) [
        | inl a ↦ rw a (marker-IsIndexing (path_dir p) opaque s refl h)
        | inr a ↦ elim (Bool-cases (has_prefix base whiteout_meta_prefix)) [
          | inl b ↦ rw (a, b) (warn-IsIndexing O cap (aufs_metadata m.header.name) s h)
          | inr b ↦ elim (Bool-cases (has_prefix base whiteout_prefix)) [
            | inl c ↦ rw (a, b, c) (add_whiteout-IsIndexing m.header (path_dir p) base s h)
            | inr c ↦
                rw (a, b, c)
                  (add_object-IsIndexing m p (kind_of m.header.typeflag) s known refl e h)
          ]
        ]
      ]

  add-IsIndexing :
      (m : Member) (s : IndexState)
      → Knows m
      → IsIndexing O cap s
      → Gives (IsIndexing O cap) (add sha256 m s)
  unfolding add
  add-IsIndexing m s known h =
      if_holds (Gives (IsIndexing O cap))
        ((m.header.typeflag == b'g') || ((m.header.typeflag == b'x') || is_root_name m.header.name))
        (ok s) (add_path sha256 m (sanitize_path m.header.name) s) (λ _. h)
        (λ _. add_path-IsIndexing m (sanitize_path m.header.name) s known refl h)

  pub add_all-IsIndexing :
      (rs : List (Result IndexError Member)) (s : IndexState)
      → ((m : Member) → Occurs m rs → Knows m)
      → IsIndexing O cap s
      → Gives (IsIndexing O cap) (add_all sha256 rs s)
  unfolding add_all
  add_all-IsIndexing [] s known h = h
  add_all-IsIndexing (r ∷ rs) s known h =
      Gives->>= (λ m. r ≡ ok m) (IsIndexing O cap) r _ (Gives-intro (λ m. r ≡ ok m) r (λ _ e. e))
        (λ m e.
          Gives->>= (IsIndexing O cap) (IsIndexing O cap) (add sha256 m s) _
            (add-IsIndexing m s (known m (inl e)) h)
            (λ s' h'. add_all-IsIndexing rs s' (λ n o. known n (inr o)) h'))
