-- ===== src/Analyze/Sanitize/Clean.antt =====
-- What SanitizePath accepts comes out as a clean path.
use layerlens.Base.{
  ◌⊎◌, ℕ, ◌≡◌, refl, sym, ap, ◌∙◌, Bool, true, false, none, some, List, [], ◌∷◌, ◌++◌, Bytes, codes,
  arith, ◌||◌, if◌then◌else◌, bytes_eq, bytes_eq_refl, has_prefix, ◌==◌, split_on, put_head, All,
  All-append, Bool-cases, inl, inr,
}
use mathlib.Core.List.{append_assoc, append-nil}
use layerlens.Analyze.Squash.Segments.{IsName, join_path}
use layerlens.Analyze.Sanitize.{
  contains_byte, strip_root_prefixes, dot, dot_dot, pop, clean_segments, join_onto, join_kept,
  or_dot, path_clean, sanitize_path,
}

-- A segment of a clean path.
abbrev pub IsClean : Bytes → Type 0
IsClean s = IsName s × (bytes_eq s dot ≡ false) × (bytes_eq s dot_dot ≡ false)

-- Without a slash.
abbrev NoSlash : Bytes → Type 0
NoSlash s = All (λ c. (c == b'/') ≡ false) s

put_head-NoSlash :
    (c : ℕ) (ss : List Bytes) → (c == b'/') ≡ false → All NoSlash ss → All NoSlash (put_head c ss)
unfolding put_head
put_head-NoSlash c [] h k = ((h, tt), tt)
put_head-NoSlash c (s ∷ ss) h k = ((h, k.0), k.1)

split_on-NoSlash : (s : Bytes) → All NoSlash (split_on b'/' s)
unfolding split_on
split_on-NoSlash [] = (tt, tt)
split_on-NoSlash (c ∷ s) = elim (Bool-cases (c == b'/')) [
  | inl p ↦ rw p (tt, split_on-NoSlash s)
  | inr p ↦ rw p (put_head-NoSlash c (split_on b'/' s) p (split_on-NoSlash s))
]

-- A kept segment: clean, or "..", which then has nothing else below it.
abbrev IsKept : Bytes → List Bytes → Type 0
IsKept s below = IsClean s ⊎ ((s ≡ dot_dot) × All (λ t. t ≡ dot_dot) below)

abbrev Kept : List Bytes → Type 0
Kept [] = Unit
Kept (s ∷ out) = IsKept s out × Kept out

pop-Kept : (out : List Bytes) → Kept out → Kept (pop false out)
pop-Kept [] h = (inr (refl, tt), tt)
pop-Kept (top ∷ out) (inl c, h) = rw (c.2) h
pop-Kept (top ∷ out) (inr (e, d), h) =
    let up : bytes_eq top dot_dot ≡ true = ap (λ t. bytes_eq t dot_dot) e ∙ bytes_eq_refl dot_dot in
    rw up (inr (refl, (e, d)), (inr (e, d), h))

clean_segments-Kept :
    (out ss : List Bytes) → Kept out → All NoSlash ss → Kept (clean_segments false out ss)
unfolding clean_segments
clean_segments-Kept out [] h k = h
clean_segments-Kept out (s ∷ ss) h k = elim (Bool-cases (bytes_eq s [] || bytes_eq s dot)) [
  | inl p ↦ rw p (clean_segments-Kept out ss h k.1)
  | inr p ↦ rw p (elim (Bool-cases (bytes_eq s dot_dot)) [
    | inl q ↦ rw q (clean_segments-Kept (pop false out) ss (pop-Kept out h) k.1)
    | inr q ↦
        rw q (clean_segments-Kept (s ∷ out) ss (inl ((ground arith, k.0), ground arith, q), h) k.1)
  ])
]

-- A path that leaves the archive.
abbrev goes_up : Bytes → Bool
goes_up s = bytes_eq s dot_dot || has_prefix s (codes "../")

goes_up-dot_dot : (x : Bytes) → goes_up (dot_dot ++ b'/' ∷ x) ≡ true
unfolding bytes_eq has_prefix
goes_up-dot_dot x = refl

join_onto-goes_up :
    (out : List Bytes) (x : Bytes)
    → All (λ t. t ≡ dot_dot) out
    → goes_up x ≡ true
    → goes_up (join_onto out x) ≡ true
unfolding join_onto
join_onto-goes_up [] x h e = e
join_onto-goes_up (t ∷ out) x h e =
    join_onto-goes_up out (t ++ b'/' ∷ x) h.1
      (ap (λ u. goes_up (u ++ b'/' ∷ x)) h.0 ∙ goes_up-dot_dot x)

kept_clean :
    (out : List Bytes) (x : Bytes) → Kept out → goes_up (join_onto out x) ≡ false → All IsClean out
unfolding join_onto
kept_clean [] x h e = tt
kept_clean (t ∷ out) x (inl c, h) e = (c, kept_clean out (t ++ b'/' ∷ x) h e)
kept_clean (t ∷ out) x (inr (u, d), h) e = absurd (
    ground (
      arith,
      join_onto-goes_up out (t ++ b'/' ∷ x) d
          (ap (λ v. goes_up (v ++ b'/' ∷ x)) u ∙ goes_up-dot_dot x),
    ))

-- The kept segments, the first first.
upwards : List Bytes → List Bytes
upwards [] = []
upwards (t ∷ out) = upwards out ++ t ∷ []

upwards-All : (out : List Bytes) → All IsClean out → All IsClean (upwards out)
unfolding upwards
upwards-All [] h = tt
upwards-All (t ∷ out) h = All-append IsClean (upwards out) (t ∷ []) (upwards-All out h.1) (h.0, tt)

join_path-append : (a b : List Bytes) → join_path (a ++ b) ≡ join_path a ++ join_path b
join_path-append [] b = refl
join_path-append (s ∷ a) b =
    ap (λ t. b'/' ∷ (s ++ t)) (join_path-append a b)
    ∙ ap (λ t. b'/' ∷ t) (sym (append_assoc s (join_path a) (join_path b)))

join_path_last : (a : List Bytes) (s : Bytes) → join_path (a ++ s ∷ []) ≡ join_path a ++ b'/' ∷ s
join_path_last a s = join_path-append a (s ∷ []) ∙ ap (λ t. join_path a ++ b'/' ∷ t) (append-nil s)

join_onto-join_path :
    (out : List Bytes) (x : Bytes) → b'/' ∷ join_onto out x ≡ join_path (upwards out) ++ b'/' ∷ x
unfolding join_onto upwards
join_onto-join_path [] x = refl
join_onto-join_path (t ∷ out) x =
    join_onto-join_path out (t ++ b'/' ∷ x)
    ∙ (sym (append_assoc (join_path (upwards out)) (b'/' ∷ t) (b'/' ∷ x))
        ∙ ap (λ u. u ++ b'/' ∷ x) (sym (join_path_last (upwards out) t)))

strip_root_prefixes-rest :
    (s : Bytes) (c : ℕ) (rest : Bytes) → strip_root_prefixes s ≡ c ∷ rest → (c == b'/') ≡ false
unfolding strip_root_prefixes
strip_root_prefixes-rest [] c rest h = absurd (ground arith)
strip_root_prefixes-rest (b ∷ []) c rest h = ground arith
strip_root_prefixes-rest (b ∷ d ∷ s) c rest h =
    ground (arith, strip_root_prefixes-rest (d ∷ s) c rest, strip_root_prefixes-rest s c rest)

-- A name that is not empty and does not begin with a slash is cleaned as a relative path.
relative_clean :
    (s : Bytes)
    → bytes_eq s [] ≡ false
    → ((c : ℕ) (rest : Bytes) → s ≡ c ∷ rest → (c == b'/') ≡ false)
    → path_clean s ≡ or_dot (join_kept (clean_segments false [] (split_on b'/' s)))
unfolding path_clean
relative_clean [] n h = absurd (ground (arith, bytes_eq_refl []))
relative_clean (c ∷ s) n h = rw (h c s refl) refl

-- A clean path: segments that are neither "." nor "..", each behind a slash, one at least.
pub record IsCleanPath (p : Bytes) : Type 0 where
  pub parent : List Bytes
  pub name : Bytes
  pub segments : All IsClean (parent ++ name ∷ [])
  pub joined : p ≡ join_path (parent ++ name ∷ [])

joined-IsCleanPath :
    (out : List Bytes)
    → Kept out
    → bytes_eq (join_kept out) [] ≡ false
    → goes_up (join_kept out) ≡ false
    → IsCleanPath (b'/' ∷ join_kept out)
joined-IsCleanPath [] h n u = absurd (ground (arith, bytes_eq_refl []))
joined-IsCleanPath (s ∷ out) (inr (e, d), h) n u = absurd (
    ground
      (arith, join_onto-goes_up out s d (ap goes_up e ∙ ground (arith, bytes_eq_refl dot_dot))))
joined-IsCleanPath (s ∷ out) (inl c, h) n u = record {
  parent = upwards out;
  name = s;
  segments =
      All-append IsClean (upwards out) (s ∷ []) (upwards-All out (kept_clean out s h u)) (c, tt);
  joined = join_onto-join_path out s ∙ sym (join_path_last (upwards out) s);
}

or_dot-IsCleanPath :
    (out : List Bytes)
    → Kept out
    → bytes_eq (or_dot (join_kept out)) dot ≡ false
    → goes_up (or_dot (join_kept out)) ≡ false
    → IsCleanPath (b'/' ∷ or_dot (join_kept out))
or_dot-IsCleanPath out k n u = elim (Bool-cases (bytes_eq (join_kept out) [])) [
  | inl p ↦ absurd (ground (arith, bytes_eq_refl dot))
  | inr p ↦ rw p (joined-IsCleanPath out k p (rw p at u))
]

either-false : (a b : Bool) → (a || b) ≡ false → (a ≡ false) × (b ≡ false)
either-false a b h = (ground arith, ground arith)

accepted :
    (a b c d : Bool) (r p : Bytes)
    → (if a then none else if b then none else if c then none else if d then none else some r)
      ≡ some p
    → (b ≡ false) × (c ≡ false) × (d ≡ false) × (r ≡ p)
accepted a b c d r p h = (ground arith, ground arith, ground arith, ground arith)

-- What SanitizePath accepts becomes a clean path: whatever the name, no segment of the result is empty,
-- "." or "..", and none has a slash in it.
pub sanitize_path-IsCleanPath : (name p : Bytes) → sanitize_path name ≡ some p → IsCleanPath p
unfolding sanitize_path
sanitize_path-IsCleanPath name p h =
    let s = strip_root_prefixes name in
    let out = clean_segments false [] (split_on b'/' s) in
    let kept = clean_segments-Kept [] (split_on b'/' s) tt (split_on-NoSlash s) in
    let (filled, left, inside, result) =
      accepted (contains_byte 0 name) (bytes_eq s [] || bytes_eq s dot)
        (bytes_eq (path_clean s) [] || bytes_eq (path_clean s) dot) (goes_up (path_clean s))
        (b'/' ∷ path_clean s) p h in
    let relative =
      relative_clean s (either-false (bytes_eq s []) (bytes_eq s dot) filled).0
        (strip_root_prefixes-rest name) in
    rw (sym result, relative)
      (or_dot-IsCleanPath out kept
        (ap (λ t. bytes_eq t dot) (sym relative)
          ∙ (either-false (bytes_eq (path_clean s) []) (bytes_eq (path_clean s) dot) left).1)
        (ap goes_up (sym relative) ∙ inside))
