-- ===== src/Analyze/Indexer/Accepts.antt =====
-- internal/analyze/indexer.go: what put, putMarker and warn keep of the state of a layer.
use layerlens.Base.{
  inl, inr, ◌≡◌, refl, ap, ◌∙◌, ℕ, ◌+◌, ◌%◌, ◌^◌, ◌<◌, ◌≤◌, Bool, true, false, Option, none, some,
  List, [], ◌∷◌, ◌++◌, Bytes, length, leb, if◌then◌else◌, ok, >>-ok, ok_inj, All, arith, lt64,
  add64, sub64, Bool-cases, length-append,
}
use layerlens.Base.Dict.{
  Dict, find, insert, total, IsDict, insert-IsDict, insert-All, total-insert_new, total-insert_old,
  length-insert_new, length-insert_old,
}
use layerlens.Domain.Entry.{kind_eq, file, Entry}
use layerlens.Analyze.Squash.{is_marker}
use layerlens.Analyze.Sanitize.Clean.{IsCleanPath}
use layerlens.Analyze.Indexer.{
  IndexState, reserve_entry, reserve_new, Warning, warn, max_warnings, marker_key, put_marker,
  counted_size, count, uncount, put,
}

pub record IsMarker (k : Bytes) (e : Entry) : Type 0 where
  pub under : marker_key e ≡ k
  pub marker : is_marker e ≡ true

-- The entries and markers fit in the cap, where there is one.
abbrev pub IsCapped : ℕ → ℕ → Type 0
IsCapped cap n = lt64 0 cap ≡ true → n ≤ cap

reserve_below :
    (s : IndexState)
    → reserve_entry s ≡ ok tt
    → lt64 0 s.max_entries ≡ true
    → length s.entries + length s.markers < s.max_entries
unfolding reserve_entry
reserve_below s h p = elim (Bool-cases (leb s.max_entries (length s.entries + length s.markers))) [
  | inl q ↦ absurd (ground arith)
  | inr q ↦ ground arith
]

-- The running sum, where the key is new and where it is known; `b` and `a` say which are files.
new_sum :
    (b : Bool) (size t t' n : ℕ)
    → t' ≡ t + (if b then size else 0)
    → n ≡ t % 2 ^ 64
    → (if b then add64 n size else n) ≡ t' % 2 ^ 64
new_sum true size t t' n h k = omega arith
new_sum false size t t' n h k = omega arith

old_sum :
    (a b : Bool) (old size t t' n : ℕ)
    → t' + (if a then old else 0) ≡ t + (if b then size else 0)
    → n ≡ t % 2 ^ 64
    → (if b then add64 (if a then sub64 n old else n) size else if a then sub64 n old else n)
      ≡ t' % 2 ^ 64
old_sum true true old size t t' n h k = omega arith
old_sum true false old size t t' n h k = omega arith
old_sum false true old size t t' n h k = omega arith
old_sum false false old size t t' n h k = omega arith

counted_sum :
    (o : Option Entry) (k : Bytes) (e : Entry) (d : Dict Entry) (n : ℕ)
    → find k d ≡ o
    → n ≡ total counted_size d % 2 ^ 64
    → count e (uncount o n) ≡ total counted_size (insert k e d) % 2 ^ 64
counted_sum none k e d n f h =
    new_sum (kind_eq e.kind file) e.size (total counted_size d) (total counted_size (insert k e d))
      n (total-insert_new counted_size k e d f) h
counted_sum (some u) k e d n f h =
    old_sum (kind_eq u.kind file) (kind_eq e.kind file) u.size e.size (total counted_size d)
      (total counted_size (insert k e d)) n (total-insert_old counted_size k u e d f) h

-- `O` is what is known of where an object comes from.
module _ (O : Entry → Type 0) where
  -- An object under the key of its path.
  pub record IsObject (k : Bytes) (e : Entry) : Type 0 where
    pub under : e.path ≡ k
    pub object : is_marker e ≡ false
    pub clean : IsCleanPath e.path
    pub sized : e.size < 2 ^ 64
    pub origin : O e

  pub record IsIndexing (cap : ℕ) (s : IndexState) : Type 0 where
    pub cap_kept : s.max_entries ≡ cap
    pub entry_keys : IsDict s.entries
    pub marker_keys : IsDict s.markers
    pub objects : All (λ (p : Bytes × Entry). IsObject p.0 p.1) s.entries
    pub all_markers : All (λ (p : Bytes × Entry). IsMarker p.0 p.1) s.markers
    pub counted : s.content_bytes ≡ total counted_size s.entries % 2 ^ 64
    pub capped : IsCapped cap (length s.entries + length s.markers)
    pub warned : length s.warnings ≤ max_warnings

  with_warnings :
      (cap : ℕ) (s : IndexState) (ws : List Warning) (n : ℕ)
      → IsIndexing cap s
      → length ws ≤ max_warnings
      → IsIndexing cap (record s { warnings = ws; suppressed = n })
  with_warnings cap s ws n h w = record {
    cap_kept = h.cap_kept;
    entry_keys = h.entry_keys;
    marker_keys = h.marker_keys;
    objects = h.objects;
    all_markers = h.all_markers;
    counted = h.counted;
    capped = h.capped;
    warned = w;
  }

  pub warn-IsIndexing :
      (cap : ℕ) (w : Warning) (s : IndexState) → IsIndexing cap s → IsIndexing cap (warn w s)
  unfolding warn
  warn-IsIndexing cap w s h = elim (Bool-cases (leb max_warnings (length s.warnings))) [
    | inl p ↦ rw p (with_warnings cap s s.warnings (s.suppressed + 1) h h.warned)
    | inr p ↦ rw p (
        with_warnings cap s (s.warnings ++ w ∷ []) s.suppressed h
          (ground (arith, length-append s.warnings (w ∷ []))))
  ]

  -- What a new key costs: a place, and a known one nothing.
  reserve_grows :
      (o : Option Entry) (s : IndexState) (cap n : ℕ)
      → IsIndexing cap s
      → reserve_new o s ≡ ok tt
      → (o ≡ none → n ≡ length s.entries + length s.markers + 1)
      → ((e : Entry) → o ≡ some e → n ≡ length s.entries + length s.markers)
      → IsCapped cap n
  unfolding reserve_new
  reserve_grows none s cap n h r f g = λ p.
      let below = reserve_below s r (ap (lt64 0) h.cap_kept ∙ p) in
      let kept = h.cap_kept in let grown = f refl in omega arith
  reserve_grows (some e) s cap n h r f g =
      λ p. let old = h.capped p in let same = g e refl in omega arith

  pub put_marker-IsIndexing :
      (cap : ℕ) (e : Entry) (s s' : IndexState)
      → IsIndexing cap s
      → is_marker e ≡ true
      → put_marker e s ≡ ok s'
      → IsIndexing cap s'
  unfolding put_marker
  put_marker-IsIndexing cap e s s' h m r =
      let k = marker_key e in
      let (reserved, done) = >>-ok (reserve_new (find k s.markers) s) _ s' r in
      let t = record s { markers = insert k e s.markers } in
      rw (← ok_inj t s' done) (record {
        cap_kept = h.cap_kept;
        entry_keys = h.entry_keys;
        marker_keys = insert-IsDict k e s.markers h.marker_keys;
        objects = h.objects;
        all_markers =
            insert-All (λ p. IsMarker p.0 p.1) k e s.markers (record { under = refl; marker = m })
              h.all_markers;
        counted = h.counted;
        capped =
            reserve_grows (find k s.markers) s cap (length s.entries + length t.markers) h reserved
              (λ n. let l = length-insert_new k e s.markers n in omega arith)
              (λ u o. let l = length-insert_old k u e s.markers o in omega arith);
        warned = h.warned;
      })

  pub put-IsIndexing :
      (cap : ℕ) (e : Entry) (s s' : IndexState)
      → IsIndexing cap s
      → IsObject e.path e
      → put e s ≡ ok s'
      → IsIndexing cap s'
  unfolding put
  put-IsIndexing cap e s s' h m r =
      let k = e.path in
      let o = find k s.entries in
      let (reserved, done) = >>-ok (reserve_new o s) _ s' r in
      let t = record s {
        entries = insert k e s.entries;
        content_bytes = count e (uncount o s.content_bytes);
      } in
      rw (← ok_inj t s' done) (record {
        cap_kept = h.cap_kept;
        entry_keys = insert-IsDict k e s.entries h.entry_keys;
        marker_keys = h.marker_keys;
        objects = insert-All (λ p. IsObject p.0 p.1) k e s.entries m h.objects;
        all_markers = h.all_markers;
        counted = counted_sum o k e s.entries s.content_bytes refl h.counted;
        capped =
            reserve_grows o s cap (length t.entries + length s.markers) h reserved
              (λ n. let l = length-insert_new k e s.entries n in omega arith)
              (λ u f. let l = length-insert_old k u e s.entries f in omega arith);
        warned = h.warned;
      })
