-- ===== src/Analyze/Squash/Segments.antt =====
-- A clean path and its segments: `segments` undoes the joining, and `path.Split` cuts off the last.
use layerlens.Base.{
  ℕ, ◌≡◌, refl, sym, ap, ◌∙◌, false, List, [], ◌∷◌, ◌++◌, Bytes, arith, ◌==◌, bytes_eq, All,
  split_on, trim_left, trim_right, path_split,
}
use mathlib.Core.List.{append-nil, append_assoc}
use layerlens.Analyze.Squash.{segments}

abbrev slash : ℕ
slash = b'/'

-- A name is not empty and has no slash.
abbrev pub IsName : Bytes → Type 0
IsName s = (bytes_eq s [] ≡ false) × All (λ c. (c == b'/') ≡ false) s

-- The "/"-rooted path of the segments.
abbrev pub join_path : List Bytes → Bytes
join_path [] = []
join_path (s ∷ ss) = slash ∷ (s ++ join_path ss)

append-nonempty : (a b : Bytes) → bytes_eq b [] ≡ false → bytes_eq (a ++ b) [] ≡ false
unfolding bytes_eq
append-nonempty [] b h = h
append-nonempty (c ∷ a) b h = refl

append-nonempty_left : (a b : Bytes) → bytes_eq a [] ≡ false → bytes_eq (a ++ b) [] ≡ false
unfolding bytes_eq
append-nonempty_left [] b h = absurd (ground arith)
append-nonempty_left (c ∷ a) b h = refl

cons-nonempty : (c : ℕ) (s : Bytes) → bytes_eq (c ∷ s) [] ≡ false
unfolding bytes_eq
cons-nonempty c s = refl

trim_right-append :
    (a b : Bytes)
    → bytes_eq (trim_right slash b) [] ≡ false
    → trim_right slash (a ++ b) ≡ a ++ trim_right slash b
unfolding trim_right
trim_right-append [] b h = refl
trim_right-append (c ∷ a) b h =
    rw (trim_right-append a b h, append-nonempty a (trim_right slash b) h) (ground arith)

trim_right-name : (s : Bytes) → All (λ c. (c == slash) ≡ false) s → trim_right slash s ≡ s
unfolding trim_right
trim_right-name [] h = refl
trim_right-name (c ∷ s) h = ground (arith, trim_right-name s h.1, h.0)

trim_right-slash : (s : Bytes) → trim_right slash (s ++ slash ∷ []) ≡ trim_right slash s
unfolding trim_right
trim_right-slash [] = refl
trim_right-slash (c ∷ s) = rw (trim_right-slash s) refl

trim_right-join :
    (s : Bytes) (ss : List Bytes)
    → All IsName (s ∷ ss)
    → trim_right slash (join_path (s ∷ ss)) ≡ join_path (s ∷ ss)
trim_right-join s [] h = rw (append-nil s) (
    trim_right-append (slash ∷ []) s (rw (trim_right-name s h.0.1) h.0.0)
    ∙ ap (◌∷◌ slash) (trim_right-name s h.0.1))
trim_right-join s (t ∷ ss) h =
    trim_right-append (slash ∷ s) (join_path (t ∷ ss))
      (rw (trim_right-join t ss h.1) (cons-nonempty slash _))
    ∙ ap (λ r. slash ∷ (s ++ r)) (trim_right-join t ss h.1)

trim_left-name : (s r : Bytes) → IsName s → trim_left slash (slash ∷ (s ++ r)) ≡ s ++ r
unfolding trim_left bytes_eq
trim_left-name [] r h = absurd (ground (arith, h.0))
trim_left-name (c ∷ s) r h = rw (h.1.0) refl

split_on-name : (s : Bytes) → All (λ c. (c == slash) ≡ false) s → split_on slash s ≡ s ∷ []
unfolding split_on
split_on-name [] h = refl
split_on-name (c ∷ s) h = ground (arith, split_on-name s h.1, h.0)

split_on-slash :
    (s r : Bytes)
    → All (λ c. (c == slash) ≡ false) s
    → split_on slash (s ++ slash ∷ r) ≡ s ∷ split_on slash r
unfolding split_on
split_on-slash [] r h = refl
split_on-slash (c ∷ s) r h = ground (arith, split_on-slash s r h.1, h.0)

split_on-join :
    (s : Bytes) (ss : List Bytes)
    → All IsName (s ∷ ss)
    → split_on slash (s ++ join_path ss) ≡ s ∷ ss
split_on-join s [] h = rw append-nil (split_on-name s h.0.1)
split_on-join s (t ∷ ss) h =
    split_on-slash s (t ++ join_path ss) h.0.1 ∙ ap (◌∷◌ s) (split_on-join t ss h.1)

-- The segments of a clean path are the segments that were joined, a slash behind them or not.
pub segments-join_path : (ss : List Bytes) → All IsName ss → segments (join_path ss) ≡ ss
unfolding segments
segments-join_path [] h = unfold trim_left trim_right in refl
segments-join_path (s ∷ ss) h =
    rw (trim_right-join s ss h, trim_left-name s (join_path ss) h.0)
      (rw (append-nonempty_left s (join_path ss) h.0.0) (split_on-join s ss h))

pub segments-slash : (p : Bytes) → segments (p ++ slash ∷ []) ≡ segments p
unfolding segments
segments-slash p = rw (trim_right-slash p) refl

path_split-name : (s : Bytes) → All (λ c. (c == slash) ≡ false) s → path_split s ≡ ([], s)
unfolding path_split
path_split-name [] h = refl
path_split-name (c ∷ s) h = rw (path_split-name s h.1) (rw (h.0) refl)

path_split-slash :
    (a s : Bytes)
    → All (λ c. (c == slash) ≡ false) s
    → path_split (a ++ slash ∷ s) ≡ (a ++ slash ∷ [], s)
unfolding path_split
path_split-slash [] s h = rw (path_split-name s h) refl
path_split-slash (c ∷ a) s h =
    rw (path_split-slash a s h) (rw (append-nonempty a (slash ∷ []) (cons-nonempty slash [])) refl)

join_path-append : (ss ts : List Bytes) → join_path (ss ++ ts) ≡ join_path ss ++ join_path ts
join_path-append [] ts = refl
join_path-append (s ∷ ss) ts =
    ap (λ r. slash ∷ (s ++ r)) (join_path-append ss ts)
    ∙ ap (◌∷◌ slash) (sym (append_assoc s (join_path ss) (join_path ts)))

-- `path.Split` cuts a clean path behind its last slash.
pub path_split-join_path :
    (ss : List Bytes) (name : Bytes)
    → IsName name
    → path_split (join_path (ss ++ name ∷ [])) ≡ (join_path ss ++ slash ∷ [], name)
path_split-join_path ss name h =
    rw (join_path-append, append-nil) (path_split-slash (join_path ss) name h.1)
