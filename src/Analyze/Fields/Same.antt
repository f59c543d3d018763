-- ===== src/Analyze/Fields/Same.antt =====
-- `tarsumFields.equal` decides the sameness that the hashed encoding shows.
use layerlens.Base.{
  contains-sort, All-zip, All-unmap, All-map, every→All, All→every, map-congr, AllPairs-imp,
  &&-split, ◌==◌, sort-All, ◌≡◌, refl, sym, ap, ◌∙◌, ◌↔◌, true, false, Option, none, some, List, [],
  ◌∷◌, map, Bytes, arith, length, if◌then◌else◌, bytes_eq, bytes_eq_iff, bytes_eq→eq, bytes_eq_refl,
  bytes_lt, sort, every, contains, Distinct, All, perm_of_subset, sort-Permᴰ, bytes_lt-IsWeakOrder,
  bytes-Apart, length-map, All-imp, ==_iff,
}
use layerlens.Domain.Entry.{Xattrs, kind_eq, EntryKind}
use layerlens.Analyze.Fields.{
  TarsumFields, get_xattr, has_xattr, xattrs_equal, fields_equal, xattr_pair, sorted_xattrs,
}
use layerlens.Analyze.Fields.Encoding.{SameFields, length-sorted_xattrs}

abbrev pub keys : Xattrs → List Bytes
keys = map (λ p. p.0)

-- What `xattr_pair` reads for a key.
abbrev value : Xattrs → Bytes → Bytes
value m k = elim (get_xattr k m) [ none ↦ [] | some v ↦ v ]

get_xattr-map :
    (k : Bytes) (m : Xattrs) (ks : List Bytes)
    → get_xattr k (map (xattr_pair m) ks) ≡ (if contains k ks then some (value m k) else none)
unfolding get_xattr contains xattr_pair
get_xattr-map k m [] = refl
get_xattr-map k m (j ∷ ks) = ground (arith, get_xattr-map k m ks, bytes_eq_iff j k)

get_xattr-keys :
    (k : Bytes) (m : Xattrs)
    → get_xattr k m ≡ (if contains k (keys m) then some (value m k) else none)
unfolding get_xattr contains
get_xattr-keys k [] = refl
get_xattr-keys k (p ∷ m) = ground (arith, get_xattr-keys k m)

-- The sorted pairs answer every key as the map does.
get_xattr-sorted_xattrs : (k : Bytes) (m : Xattrs) → get_xattr k (sorted_xattrs m) ≡ get_xattr k m
unfolding sorted_xattrs
get_xattr-sorted_xattrs k m =
    get_xattr-map k m (sort bytes_lt (keys m)) ∙ (rw contains-sort refl ∙ sym (get_xattr-keys k m))

-- In a map, each pair is what its key reads.
pairs_read : (m : Xattrs) → Distinct (keys m) → All (λ p. get_xattr p.0 m ≡ some p.1) m
unfolding get_xattr
pairs_read [] d = tt
pairs_read (q ∷ m) d = (
  rw (bytes_eq_refl q.0) refl,
  All-zip m (λ p (apart : bytes_eq q.0 p.0 ≡ false) (e : get_xattr p.0 m ≡ some p.1). rw apart e)
      (All-unmap (λ k. bytes_eq q.0 k ≡ false) (λ p. p.0) m d.0) (pairs_read m d.1),
)

some_of_test :
    (o : Option Bytes) (v : Bytes)
    → (elim o [ none ↦ false | some w ↦ bytes_eq v w ]) ≡ true
    → o ≡ some v
some_of_test none v h = cc
some_of_test (some w) v h = ap some (sym (bytes_eq→eq v w h))

has_xattr-some :
    (b : Xattrs) (p : Bytes × Bytes) → has_xattr b p ≡ true → get_xattr p.0 b ≡ some p.1
unfolding has_xattr
has_xattr-some b p h = some_of_test (get_xattr p.0 b) p.1 h

some-has_xattr :
    (b : Xattrs) (p : Bytes × Bytes) → get_xattr p.0 b ≡ some p.1 → has_xattr b p ≡ true
unfolding has_xattr
some-has_xattr b p h = rw (h, has_xattr) (bytes_eq_refl p.1)

contains_of_some :
    (k : Bytes) (m : Xattrs) {v : Bytes} → get_xattr k m ≡ some v → contains k (keys m) ≡ true
contains_of_some k m h = ground (arith, get_xattr-keys k m)

xattr_pair_read :
    (m : Xattrs) (p : Bytes × Bytes) → get_xattr p.0 m ≡ some p.1 → xattr_pair m p.0 ≡ (p.0, p.1)
unfolding xattr_pair
xattr_pair_read m p h = rw h

-- Equal counts and every pair of the one in the other: then the maps are one map.
xattrs_equal→sorted :
    (a b : Xattrs) → Distinct (keys a) → xattrs_equal a b ≡ true → sorted_xattrs a ≡ sorted_xattrs b
unfolding xattrs_equal sorted_xattrs
xattrs_equal→sorted a b d h =
    let (count, all) = &&-split (length a == length b) (every (has_xattr b) a) h in
    let found : All (λ p. get_xattr p.0 b ≡ some p.1) a =
      All-imp a (has_xattr-some b) (every→All (has_xattr b) a all) in
    let inside : All (λ k. contains k (keys b) ≡ true) (keys a) =
      All-map _ _ a (All-imp a (λ p e. contains_of_some p.0 b e) found) in
    let perm = perm_of_subset (keys a) (keys b) d inside (
      length-map (λ p. p.0) a
      ∙ ((==_iff (length a) (length b)).0 count ∙ sym (length-map (λ p. p.0) b))) in
    let sorted : sort bytes_lt (keys a) ≡ sort bytes_lt (keys b) =
      sort-Permᴰ bytes_lt bytes_lt-IsWeakOrder perm (AllPairs-imp (keys a) bytes-Apart d) in
    let agree : All (λ k. xattr_pair a k ≡ xattr_pair b k) (keys a) = All-map _ _ a (
      All-zip a
        (λ p (here : get_xattr p.0 a ≡ some p.1) there.
          xattr_pair_read a p here ∙ sym (xattr_pair_read b p there))
        (pairs_read a d) found) in
    map-congr (xattr_pair a) (xattr_pair b) (sort bytes_lt (keys a))
      (sort-All bytes_lt _ (keys a) agree)
    ∙ ap (map (xattr_pair b)) sorted

sorted→xattrs_equal :
    (a b : Xattrs) → Distinct (keys a) → sorted_xattrs a ≡ sorted_xattrs b → xattrs_equal a b ≡ true
unfolding xattrs_equal
sorted→xattrs_equal a b d e =
    let count : length a ≡ length b =
      sym (length-sorted_xattrs a) ∙ (ap length e ∙ length-sorted_xattrs b) in
    let read : All (λ p. has_xattr b p ≡ true) a =
      All-imp a
        (λ p (here : get_xattr p.0 a ≡ some p.1). some-has_xattr b p (
          sym (get_xattr-sorted_xattrs p.0 b)
          ∙ (ap (get_xattr p.0) (sym e) ∙ (get_xattr-sorted_xattrs p.0 a ∙ here))))
        (pairs_read a d) in
    rw ((==_iff (length a) (length b)).1 count) (All→every (has_xattr b) a read)

pub kind_eq_iff : (j k : EntryKind) → (kind_eq j k ≡ true) ↔ (j ≡ k)
kind_eq_iff j k = (λ e. ground arith, λ e. ground arith)

-- When the left selection has each extended attribute once: two field selections are equal by the
-- code's test exactly when they agree in every field, the extended attributes as maps.
pub fields_equal_iff :
    (f g : TarsumFields) → Distinct (keys f.xattrs) → (fields_equal f g ≡ true) ↔ SameFields f g
unfolding fields_equal
fields_equal_iff f g d = (
  λ h. record {
    kind = ground (arith, kind_eq_iff f.kind g.kind);
    mode = ground arith;
    uid = ground arith;
    gid = ground arith;
    uname = ground (arith, bytes_eq_iff f.uname g.uname);
    gname = ground (arith, bytes_eq_iff f.gname g.gname);
    size = ground arith;
    link_target = ground (arith, bytes_eq_iff f.link_target g.link_target);
    devmajor = ground arith;
    devminor = ground arith;
    xattrs = xattrs_equal→sorted f.xattrs g.xattrs d (ground arith);
    content_sha = ground (arith, bytes_eq_iff f.content_sha g.content_sha);
  },
  λ s. ground (
    arith,
    kind_eq_iff f.kind g.kind,
    bytes_eq_iff f.uname g.uname,
    bytes_eq_iff f.gname g.gname,
    bytes_eq_iff f.link_target g.link_target,
    bytes_eq_iff f.content_sha g.content_sha,
    sorted→xattrs_equal f.xattrs g.xattrs d s.xattrs,
    s.kind,
    s.mode,
    s.uid,
    s.gid,
    s.uname,
    s.gname,
    s.size,
    s.link_target,
    s.devmajor,
    s.devminor,
    s.content_sha,
  ),
)
