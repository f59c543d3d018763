-- ===== src/Analyze/Indexer/Present.antt =====
-- internal/analyze/indexer.go: the objects that are present stay, and what is put is present.
use layerlens.Base.{
  ◌≡◌, refl, inl, inr, true, false, Option, none, some, [], ◌∷◌, ◌++◌, Bytes, codes, length, arith,
  bytes_eq, bytes_eq_refl, leb, has_prefix, Result, ok, err, Bool-cases, if_holds, Gives, Gives->>,
  Gives->>=,
}
use layerlens.Base.Dict.{Dict, find, insert, find-insert}
use layerlens.Domain.Entry.{EntryKind, file, hardlink, kind_eq, Entry}
use layerlens.Analyze.Sanitize.{sanitize_path, is_root_name}
use layerlens.Analyze.Indexer.{
  Header, Member, IndexState, Warning, max_warnings, reserve_new, warn, entry_from, path_base,
  put_marker, put,
}
use layerlens.Analyze.Indexer.Warning.{unsafe_target}
use layerlens.Analyze.Indexer.Origin.{HasType}
use layerlens.Analyze.Indexer.Layer.{link_to, hashed, fill_entry, put_filled, put_object}

-- There is an object under the path.
abbrev pub Present : Bytes → IndexState → Type 0
Present p s = ¬ (find p s.entries ≡ none)

-- No object goes away.
abbrev pub Keeps : IndexState → IndexState → Type 0
Keeps s s' = (q : Bytes) → Present q s → Present q s'

-- A member that stands for an object at the path: neither the root nor a whiteout of any form.
pub record IsObjectMember (m : Member) (p : Bytes) : Type 0 where
  pub not_root : is_root_name m.header.name ≡ false
  pub named : sanitize_path m.header.name ≡ some p
  pub plain : has_prefix (path_base p) (codes ".wh.") ≡ false
  pub typed : (k : EntryKind) × HasType k m.header.typeflag

insert-has : (k : Bytes) (e : Entry) (d : Dict Entry) → ¬ (find k (insert k e d) ≡ none)
insert-has k e d h = let f = find-insert k k e d in absurd (ground (arith, f, h, bytes_eq_refl k))

insert-keeps :
    (q k : Bytes) (e : Entry) (d : Dict Entry)
    → ¬ (find q d ≡ none)
    → ¬ (find q (insert k e d) ≡ none)
insert-keeps q k e d h n = elim (Bool-cases (bytes_eq k q)) [
  | inl p ↦ let f = find-insert k q e d in absurd (ground (arith, f, n, p))
  | inr p ↦ let f = find-insert k q e d in h (ground (arith, f, n, p))
]

pub has_prefix-append : (s p q : Bytes) → has_prefix s (p ++ q) ≡ true → has_prefix s p ≡ true
unfolding has_prefix
has_prefix-append s [] q h = refl
has_prefix-append [] (c ∷ p) q h = absurd (cc h)
has_prefix-append (d ∷ s) (c ∷ p) q h = ground (arith, has_prefix-append s p q)

warn-entries : (w : Warning) (s : IndexState) → (warn w s).entries ≡ s.entries
unfolding warn
warn-entries w s = elim (Bool-cases (leb max_warnings (length s.warnings))) [
  | inl p ↦ rw p refl
  | inr p ↦ rw p refl
]

pub warn-Keeps : (w : Warning) (s : IndexState) → Keeps s (warn w s)
warn-Keeps w s q h = rw (warn-entries w s) h

pub put_marker-Keeps : (e : Entry) (s : IndexState) → Gives (Keeps s) (put_marker e s)
unfolding put_marker
put_marker-Keeps e s = Gives->> (Keeps s) (reserve_new (find _ s.markers) s) _ (λ _ q h. h)

-- After `put` there is an object under the entry's path, and none is gone.
put-Present :
    (p : Bytes) (e : Entry) (s s₀ : IndexState)
    → e.path ≡ p
    → s.entries ≡ s₀.entries
    → Gives (λ s'. Keeps s₀ s' × Present p s') (put e s)
unfolding put
put-Present p e s s₀ n same =
    Gives->> (λ s'. Keeps s₀ s' × Present p s') (reserve_new (find e.path s.entries) s) _
      (λ _. (
        λ q h. insert-keeps q e.path e s.entries (rw same h),
        rw (← n) (insert-has e.path e s.entries),
      ))

module _ (sha256 : Bytes → Bytes) where
  -- Filling an entry leaves its path and the objects alone.
  abbrev IsSame : Entry → IndexState → Entry × IndexState → Type 0
  IsSame e s r = (r.0.path ≡ e.path) × (r.1.entries ≡ s.entries)

  hashed-IsSame :
      (o : Result Bytes Bytes) (e : Entry) (s : IndexState)
      → Gives (IsSame e s) (hashed sha256 o e s)
  unfolding hashed
  hashed-IsSame (err x) e s = tt
  hashed-IsSame (ok c) e s = (refl, refl)

  link_to-IsSame :
      (hdr : Header) (o : Option Bytes) (e : Entry) (s : IndexState)
      → IsSame e s (link_to hdr o e s)
  unfolding link_to
  link_to-IsSame hdr none e s = (refl, warn-entries (unsafe_target hdr.name hdr.linkname) s)
  link_to-IsSame hdr (some t) e s = (refl, refl)

  fill_entry-IsSame :
      (m : Member) (e : Entry) (s : IndexState) → Gives (IsSame e s) (fill_entry sha256 m e s)
  unfolding fill_entry
  fill_entry-IsSame m e s =
      if_holds (Gives (IsSame e s)) (kind_eq e.kind file) _ _ (λ _. hashed-IsSame m.body e s)
        (λ _.
          if_holds (Gives (IsSame e s)) (kind_eq e.kind hardlink) _ _
            (λ _. link_to-IsSame m.header (sanitize_path m.header.linkname) e s)
            (λ _. (refl, refl)))

  pub put_object-Present :
      (m : Member) (p : Bytes) (k : EntryKind) (s : IndexState)
      → Gives (λ s'. Keeps s s' × Present p s') (put_object sha256 m p k s)
  unfolding put_object put_filled entry_from
  put_object-Present m p k s =
      let e = entry_from m.header p k in
      Gives->> (λ s'. Keeps s s' × Present p s') (reserve_new (find p s.entries) s) _
        (λ _.
          Gives->>= (IsSame e s) (λ s'. Keeps s s' × Present p s') (fill_entry sha256 m e s) _
            (fill_entry-IsSame m e s) (λ r f. put-Present p r.0 r.1 s f.0 f.1))
