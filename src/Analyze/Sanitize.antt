-- ===== src/Analyze/Sanitize.antt =====
-- internal/analyze/sanitize.go: names of tar entries made into paths.
pub mod Clean
use layerlens.Base.{
  ℕ, Bool, true, false, Option, none, some, List, [], ◌∷◌, ◌++◌, Bytes, codes, ◌&&◌, ◌||◌,
  if◌then◌else◌, bytes_eq, has_prefix, ◌==◌, split_on, trim_right,
}

-- strings.ContainsRune for a rune of one byte.
unfoldable pub contains_byte : ℕ → Bytes → Bool
contains_byte c [] = false
contains_byte c (b ∷ s) = (b == c) || contains_byte c s

unfoldable pub strip_root_prefixes : Bytes → Bytes
strip_root_prefixes [] = []
strip_root_prefixes (c ∷ []) = if c == b'/' then [] else c ∷ []
strip_root_prefixes (c ∷ d ∷ s) =
    let slash = strip_root_prefixes (d ∷ s) in
    let past = strip_root_prefixes s in
    if c == b'/' then slash else if (c == b'.') && (d == b'/') then past else c ∷ d ∷ s

abbrev pub dot : Bytes
dot = codes "."

abbrev pub dot_dot : Bytes
dot_dot = codes ".."

-- path.Clean by its segments: `out` is what is kept so far, the last first.
abbrev pub pop : Bool → List Bytes → List Bytes
pop rooted [] = if rooted then [] else dot_dot ∷ []
pop rooted (top ∷ out) = if bytes_eq top dot_dot then dot_dot ∷ top ∷ out else out

unfoldable pub clean_segments : Bool → List Bytes → List Bytes → List Bytes
clean_segments rooted out [] = out
clean_segments rooted out (s ∷ ss) =
    clean_segments rooted
      (if bytes_eq s [] || bytes_eq s dot
        then out
        else if bytes_eq s dot_dot
        then pop rooted out
        else s ∷ out)
      ss

-- The kept segments, the last first, with slashes between them, before what follows.
unfoldable pub join_onto : List Bytes → Bytes → Bytes
join_onto [] s = s
join_onto (t ∷ out) s = join_onto out (t ++ b'/' ∷ s)

abbrev pub join_kept : List Bytes → Bytes
join_kept [] = []
join_kept (s ∷ out) = join_onto out s

abbrev pub or_dot : Bytes → Bytes
or_dot s = if bytes_eq s [] then dot else s

unfoldable pub path_clean : Bytes → Bytes
unfolding clean_segments join_onto bytes_eq
path_clean [] = dot
path_clean (c ∷ s) =
    if c == b'/'
    then b'/' ∷ join_kept (clean_segments true [] (split_on b'/' (c ∷ s)))
    else or_dot (join_kept (clean_segments false [] (split_on b'/' (c ∷ s))))

unfoldable pub sanitize_path : Bytes → Option Bytes
unfolding contains_byte strip_root_prefixes path_clean bytes_eq
sanitize_path name =
    let s = strip_root_prefixes name in
    let clean = path_clean s in
    if contains_byte 0 name
    then none
    else if bytes_eq s [] || bytes_eq s dot
    then none
    else if bytes_eq clean [] || bytes_eq clean dot
    then none
    else if bytes_eq clean dot_dot || has_prefix clean (codes "../")
    then none
    else some (b'/' ∷ clean)

-- `strings.TrimSuffix(name, "/")`.
abbrev pub trim_slash : Bytes → Bytes
trim_slash [] = []
trim_slash (c ∷ []) = if c == b'/' then [] else c ∷ []
trim_slash (c ∷ d ∷ s) = c ∷ trim_slash (d ∷ s)

unfoldable pub is_root_name : Bytes → Bool
unfolding contains_byte strip_root_prefixes bytes_eq
is_root_name name =
    let s = strip_root_prefixes (trim_slash name) in
    if contains_byte 0 name then false else bytes_eq s [] || bytes_eq s dot
