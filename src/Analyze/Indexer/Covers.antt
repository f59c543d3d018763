-- ===== src/Analyze/Indexer/Covers.antt =====
-- internal/analyze/indexer.go: no object that add is given is lost.
use layerlens.Analyze.Indexer.Present.{
  Present, Keeps, IsObjectMember, has_prefix-append, warn-Keeps, put_marker-Keeps,
  put_object-Present,
}
use layerlens.Base.{
  ◌≡◌, refl, sym, ap, ◌∙◌, ◌⊎◌, inl, inr, ℕ, true, false, ◌||◌, Option, none, some, List, [], ◌∷◌,
  Bytes, codes, length, drop, arith, ◌==◌, bytes_eq, bytes_eq→eq, has_prefix, Result, ok,
  Bool-cases, if_holds, Gives, Gives-ok, Gives-intro, Gives->>=,
}
use layerlens.Domain.Entry.{
  EntryKind, file, dir, symlink, hardlink, device, fifo, whiteout, opaque, Entry,
}
use layerlens.Analyze.Sanitize.{sanitize_path, is_root_name}
use layerlens.Analyze.Indexer.{
  Member, IndexState, IndexError, warn, kind_of, path_base, path_dir, put_marker, path_join,
  marker_of, whiteout_prefix, whiteout_opaque_dir, whiteout_meta_prefix,
}
use layerlens.Analyze.Indexer.Warning.{
  unsafe_name, aufs_metadata, malformed_whiteout, unsupported_type,
}
use layerlens.Analyze.Indexer.Origin.{HasType, Occurs}
use layerlens.Analyze.Indexer.Layer.{add_whiteout, put_object, add_object, add_path, add, add_all}

module _ (sha256 : Bytes → Bytes) where
  -- What one member does: it keeps the objects, and leaves its own, if it stands for one.
  abbrev Adds : Member → IndexState → IndexState → Type 0
  Adds m s s' = Keeps s s' × ((p : Bytes) → IsObjectMember m p → Present p s')

  typed_known : (t : ℕ) (k : EntryKind) → HasType k t → ¬ (kind_of t ≡ none)
  unfolding kind_of
  typed_known t file h n = absurd (ground (arith, n, h))
  typed_known t dir h n = absurd (ground (arith, n, h))
  typed_known t symlink h n = absurd (ground (arith, n, h))
  typed_known t hardlink h n = absurd (ground (arith, n, h))
  typed_known t device h n = absurd (ground (arith, n, h))
  typed_known t fifo h n = absurd (ground (arith, n, h))
  typed_known t whiteout h n = h
  typed_known t opaque h n = h

  add_object-Adds :
      (m : Member) (p : Bytes) (o : Option EntryKind) (s : IndexState)
      → kind_of m.header.typeflag ≡ o
      → sanitize_path m.header.name ≡ some p
      → Gives (Adds m s) (add_object sha256 m p o s)
  unfolding add_object
  add_object-Adds m p none s e n = (
    warn-Keeps (unsupported_type m.header.name m.header.typeflag) s,
    λ q i. absurd (typed_known m.header.typeflag i.typed.0 i.typed.1 e),
  )
  add_object-Adds m p (some k) s e n = Gives-intro (Adds m s) (put_object sha256 m p k s) (λ s' g.
      let (keeps, here) =
        Gives-ok (λ t. Keeps s t × Present p t) (put_object sha256 m p k s) s'
          (put_object-Present sha256 m p k s) g in
      (keeps, λ q i. let same : p ≡ q = cc (n, i.named) in rw (← same) here))

  -- A whiteout of any form has the prefix of whiteouts.
  no_whiteout :
      (m : Member) (p : Bytes)
      → (bytes_eq (path_base p) whiteout_opaque_dir ≡ true)
        ⊎ ((has_prefix (path_base p) whiteout_meta_prefix ≡ true)
            ⊎ (has_prefix (path_base p) whiteout_prefix ≡ true))
      → ¬ IsObjectMember m p
  unfolding has_prefix
  no_whiteout m p (inl e) i =
      let f : has_prefix whiteout_opaque_dir (codes ".wh.") ≡ false =
        ap (λ b. has_prefix b (codes ".wh."))
          (sym (bytes_eq→eq (path_base p) whiteout_opaque_dir e))
        ∙ i.plain in
      absurd (cc f)
  no_whiteout m p (inr (inl e)) i =
      absurd (cc (has_prefix-append (path_base p) (codes ".wh.") (codes ".wh.") e, i.plain))
  no_whiteout m p (inr (inr e)) i = absurd (cc (e, i.plain))

  only_path :
      (m : Member) (p : Bytes)
      → sanitize_path m.header.name ≡ some p
      → ¬ IsObjectMember m p
      → (q : Bytes) → ¬ IsObjectMember m q
  only_path m p n h q i = let same : q ≡ p = cc (n, i.named) in h (rw same at i)

  marker-Adds :
      (m : Member) (p : Bytes) (e : Entry) (s : IndexState)
      → sanitize_path m.header.name ≡ some p
      → ¬ IsObjectMember m p
      → Gives (Adds m s) (put_marker e s)
  marker-Adds m p e s n h = Gives-intro (Adds m s) (put_marker e s) (λ s' g. (
    Gives-ok (Keeps s) (put_marker e s) s' (put_marker-Keeps e s) g,
    λ q i. absurd (only_path m p n h q i),
  ))

  add_whiteout-Adds :
      (m : Member) (p d base : Bytes) (s : IndexState)
      → sanitize_path m.header.name ≡ some p
      → ¬ IsObjectMember m p
      → Gives (Adds m s) (add_whiteout m.header d base s)
  unfolding add_whiteout
  add_whiteout-Adds m p d base s n h =
      let name = drop (length whiteout_prefix) base in
      if_holds (Gives (Adds m s))
        (bytes_eq name [] || (bytes_eq name (codes ".") || bytes_eq name (codes "..")))
        (ok (warn (malformed_whiteout m.header.name) s))
        (put_marker (marker_of (path_join d name) whiteout) s)
        (λ _.
          (warn-Keeps (malformed_whiteout m.header.name) s, λ q i. absurd (only_path m p n h q i)))
        (λ _. marker-Adds m p (marker_of (path_join d name) whiteout) s n h)

  add_path-Adds :
      (m : Member) (o : Option Bytes) (s : IndexState)
      → sanitize_path m.header.name ≡ o
      → Gives (Adds m s) (add_path sha256 m o s)
  unfolding add_path
  add_path-Adds m none s e =
      (warn-Keeps (unsafe_name m.header.name) s, λ q i. absurd (cc (e, i.named)))
  add_path-Adds m (some p) s e =
      let base = path_base p in
      elim (Bool-cases (bytes_eq base whiteout_opaque_dir)) [
        | inl a ↦
            rw a (marker-Adds m p (marker_of (path_dir p) opaque) s e (no_whiteout m p (inl a)))
        | inr a ↦ elim (Bool-cases (has_prefix base whiteout_meta_prefix)) [
          | inl b ↦
              rw (a, b)
                (
                  warn-Keeps (aufs_metadata m.header.name) s,
                  λ q i. absurd (only_path m p e (no_whiteout m p (inr (inl b))) q i),
                )
          | inr b ↦ elim (Bool-cases (has_prefix base whiteout_prefix)) [
            | inl c ↦
                rw (a, b, c)
                  (add_whiteout-Adds m p (path_dir p) base s e (no_whiteout m p (inr (inr c))))
            | inr c ↦ rw (a, b, c) (add_object-Adds m p (kind_of m.header.typeflag) s refl e)
          ]
        ]
      ]

  -- A type flag of PAX metadata is of no kind.
  pax_untyped : (k : EntryKind) (t : ℕ) → HasType k t → ((t == b'g') || (t == b'x')) ≡ false
  pax_untyped file t h = ground arith
  pax_untyped dir t h = ground arith
  pax_untyped symlink t h = ground arith
  pax_untyped hardlink t h = ground arith
  pax_untyped device t h = ground arith
  pax_untyped fifo t h = ground arith
  pax_untyped whiteout t h = absurd h
  pax_untyped opaque t h = absurd h

  add-Adds : (m : Member) (s : IndexState) → Gives (Adds m s) (add sha256 m s)
  unfolding add
  add-Adds m s =
      if_holds (Gives (Adds m s))
        ((m.header.typeflag == b'g') || ((m.header.typeflag == b'x') || is_root_name m.header.name))
        (ok s) (add_path sha256 m (sanitize_path m.header.name) s)
        (λ b. (
          λ q h. h,
          λ q i.
              let t = pax_untyped i.typed.0 m.header.typeflag i.typed.1 in
              absurd (ground (arith, b, t, i.not_root)),
        ))
        (λ _. add_path-Adds m (sanitize_path m.header.name) s refl)

  -- What the loop does: it keeps the objects, and each member that stands for one has left one.
  abbrev pub Covers : List (Result IndexError Member) → IndexState → IndexState → Type 0
  Covers rs s s' =
      Keeps s s' × ((m : Member) (p : Bytes) → Occurs m rs → IsObjectMember m p → Present p s')

  Covers-step :
      (m : Member) (r : Result IndexError Member) (rs : List (Result IndexError Member))
      (s s₁ s' : IndexState)
      → r ≡ ok m
      → Adds m s s₁
      → Covers rs s₁ s'
      → Covers (r ∷ rs) s s'
  Covers-step m r rs s s₁ s' e a c = (
    λ q h. c.0 q (a.0 q h),
    λ n p o i. elim o [
      | inl f ↦ let same : m ≡ n = cc (e, f) in c.0 p (a.1 p (rw same i))
      | inr f ↦ c.1 n p f i
    ],
  )

  pub add_all-Covers :
      (rs : List (Result IndexError Member)) (s : IndexState)
      → Gives (Covers rs s) (add_all sha256 rs s)
  unfolding add_all
  add_all-Covers [] s = (λ q h. h, λ m p o i. absurd o)
  add_all-Covers (r ∷ rs) s =
      Gives->>= (λ m. r ≡ ok m) (Covers (r ∷ rs) s) r _ (Gives-intro (λ m. r ≡ ok m) r (λ _ e. e))
        (λ m e. Gives->>= (Adds m s) (Covers (r ∷ rs) s) (add sha256 m s) _ (add-Adds m s) (λ s₁ a.
          Gives-intro (Covers (r ∷ rs) s) (add_all sha256 rs s₁) (λ s' g.
            Covers-step m r rs s s₁ s' e a
              (Gives-ok (Covers rs s₁) (add_all sha256 rs s₁) s' (add_all-Covers rs s₁) g))))
