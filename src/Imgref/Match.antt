-- ===== src/Imgref/Match.antt =====
-- internal/imgref/imgref.go: what the patterns of the allowlist let through.
use layerlens.Base.{
  ◌≡◌, ◌↔◌, ◌⊎◌, inl, inr, refl, ap, sym, ◌∙◌, Bool, true, false, Option, none, some, List, [], ◌∷◌,
  ◌++◌, Bytes, bytes_eq, bytes_eq→eq, bytes_eq_refl, bytes_eq_iff, AllTwo, Bool-cases, split_on,
  arith,
}
use layerlens.Imgref.{
  star, any_split, starts_with, match_labels, some_matches, allows, normalize_registry,
}

-- A star stands for some labels, one at least, and any other label for itself.
pub record Fits (p : Bytes) (group : List Bytes) : Type 0 where
  pub wild : p ≡ star → (l : Bytes) × (rest : List Bytes) × (group ≡ l ∷ rest)
  pub literal : ¬ (p ≡ star) → group ≡ p ∷ []

abbrev pub joined : List (List Bytes) → List Bytes
joined [] = []
joined (g ∷ gs) = g ++ joined gs

-- The labels fall into groups, one for each label of the pattern.
abbrev pub IsMatch : List Bytes → List Bytes → Type 0
IsMatch pattern labels = (gs : List (List Bytes)) × AllTwo Fits pattern gs × (joined gs ≡ labels)

any_split_only :
    (f : List Bytes → Bool) (labels : List Bytes)
    → any_split f labels ≡ true
    → (l : Bytes) × (taken rest : List Bytes) × ((l ∷ taken) ++ rest ≡ labels) × (f rest ≡ true)
unfolding any_split
any_split_only f [] h = absurd (ground arith)
any_split_only f (l ∷ labels) h = elim (Bool-cases (f labels)) [
  | inl p ↦ (l, [], labels, refl, p)
  | inr p ↦
      let (m, taken, rest, e, q) = any_split_only f labels (rw p at h) in
      (l, m ∷ taken, rest, ap (λ t. l ∷ t) e, q)
]

any_split_if :
    (f : List Bytes → Bool) (l : Bytes) (taken rest : List Bytes)
    → f rest ≡ true
    → any_split f ((l ∷ taken) ++ rest) ≡ true
unfolding any_split
any_split_if f l [] rest h = ground arith
any_split_if f l (m ∷ taken) rest h = ground (arith, any_split_if f m taken rest h)

starts_with_only :
    (head : Bytes) (f : List Bytes → Bool) (labels : List Bytes)
    → starts_with head f labels ≡ true
    → (rest : List Bytes) × (head ∷ rest ≡ labels) × (f rest ≡ true)
unfolding starts_with
starts_with_only head f [] h = absurd (ground arith)
starts_with_only head f (l ∷ labels) h =
    let same : bytes_eq l head ≡ true = ground arith in
    (labels, ap (λ x. x ∷ labels) (sym (bytes_eq→eq l head same)), ground arith)

match_labels_only :
    (pattern labels : List Bytes) → match_labels pattern labels ≡ true → IsMatch pattern labels
unfolding match_labels
match_labels_only [] [] h = ([], tt, refl)
match_labels_only [] (l ∷ labels) h = absurd (ground arith)
match_labels_only (p ∷ pattern) labels h = elim (Bool-cases (bytes_eq p star)) [
  | inl q ↦
      let (l, taken, rest, e, r) = any_split_only (match_labels pattern) labels (rw q at h) in
      let (gs, fits, j) = match_labels_only pattern rest r in
      let fit : Fits p (l ∷ taken) = record {
        wild = λ _. (l, taken, refl);
        literal = λ n. absurd (n (bytes_eq→eq p star q));
      } in
      ((l ∷ taken) ∷ gs, (fit, fits), ap (λ t. (l ∷ taken) ++ t) j ∙ e)
  | inr q ↦
      let (rest, e, r) = starts_with_only p (match_labels pattern) labels (rw q at h) in
      let (gs, fits, j) = match_labels_only pattern rest r in
      let fit : Fits p (p ∷ []) = record {
        wild = λ s. absurd (ground (arith, bytes_eq_iff p star, s));
        literal = λ _. refl;
      } in
      ((p ∷ []) ∷ gs, (fit, fits), ap (λ t. p ∷ t) j ∙ e)
]

match_labels_if :
    (pattern : List Bytes) (gs : List (List Bytes))
    → AllTwo Fits pattern gs
    → match_labels pattern (joined gs) ≡ true
unfolding match_labels starts_with
match_labels_if [] [] h = refl
match_labels_if [] (g ∷ gs) h = absurd h
match_labels_if (p ∷ pattern) [] h = absurd h
match_labels_if (p ∷ pattern) (g ∷ gs) h = elim (Bool-cases (bytes_eq p star)) [
  | inl q ↦
      let (l, taken, e) = h.0.wild (bytes_eq→eq p star q) in
      rw (q, e)
        (any_split_if (match_labels pattern) l taken (joined gs) (match_labels_if pattern gs h.1))
  | inr q ↦
      let e = h.0.literal (λ s. absurd (ground (arith, bytes_eq_iff p star, s))) in
      rw (q, e) (ground (arith, bytes_eq_refl p, match_labels_if pattern gs h.1))
]

-- One of the patterns matches.
abbrev pub SomeMatch : List Bytes → List Bytes → Type 0
SomeMatch [] labels = ⊥
SomeMatch (p ∷ patterns) labels = IsMatch (split_on b'.' p) labels ⊎ SomeMatch patterns labels

some_matches_only :
    (patterns labels : List Bytes) → some_matches patterns labels ≡ true → SomeMatch patterns labels
unfolding some_matches
some_matches_only [] labels h = absurd (ground arith)
some_matches_only (p ∷ patterns) labels h =
    elim (Bool-cases (match_labels (split_on b'.' p) labels)) [
      | inl q ↦ inl (match_labels_only (split_on b'.' p) labels q)
      | inr q ↦ inr (some_matches_only patterns labels (rw q at h))
    ]

some_matches_if :
    (patterns labels : List Bytes) → SomeMatch patterns labels → some_matches patterns labels ≡ true
unfolding some_matches
some_matches_if [] labels h = absurd h
some_matches_if (p ∷ patterns) labels (inl (gs, fits, j)) =
    let m = match_labels_if (split_on b'.' p) gs fits in rw (rw j at m) refl
some_matches_if (p ∷ patterns) labels (inr h) = ground (arith, some_matches_if patterns labels h)

allows_lem :
    (patterns : List Bytes) (o : Option Bytes)
    → (elim o [ none ↦ false | some h ↦ some_matches patterns (split_on b'.' h) ] ≡ true)
      ↔ ((h : Bytes) × (o ≡ some h) × SomeMatch patterns (split_on b'.' h))
allows_lem patterns none = (λ e. absurd (ground arith), λ m. absurd (cc (m.1)))
allows_lem patterns (some h) = (
  λ e. (h, refl, some_matches_only patterns (split_on b'.' h) e),
  λ m.
      let (k, same, found) = m in
      let e : k ≡ h = cc same in some_matches_if patterns (split_on b'.' h) (rw e at found),
)

-- Whatever lower-casing and trimming do, a host is allowed exactly when it is normalised to a name whose
-- labels fall into groups for the labels of one of the patterns: for a star one label or more, for
-- any other label itself alone.
pub allows_iff :
    (to_lower trim_space : Bytes → Bytes) (patterns : List Bytes) (host : Bytes)
    → (allows to_lower trim_space patterns host ≡ true) ↔ (
        (h : Bytes) × (normalize_registry to_lower trim_space host ≡ some h)
        × SomeMatch patterns (split_on b'.' h))
unfolding allows
allows_iff to_lower trim_space patterns host =
    allows_lem patterns (normalize_registry to_lower trim_space host)
