-- ===== src/Imgref.antt =====
-- internal/imgref/imgref.go: the allowlist of registries, and the references that it lets through.
-- strings.ToLower, strings.TrimSpace and the parser of go-containerregistry are parameters.
pub mod Match
use layerlens.Base.{
  ℕ, Bool, true, false, ◌&&◌, ◌||◌, not, Option, none, some, List, [], ◌∷◌, ◌++◌, map, Bytes,
  String, codes, ◌==◌, if◌then◌else◌, bytes_eq, split_on, every, Result, ok, err, ◌>>=◌, ◌>>◌,
}
use layerlens.Domain.Digest.{parse_digest}
use layerlens.Domain.Image.{ImageRef}

-- The first four wrap ErrInvalidReference, with the text that they name.
pub data RefError : Type 0 where
  empty_reference : RefError
  invalid_reference explicit_port unsupported_digest : Bytes → RefError
  not_over_https : Bytes → Bytes → RefError
  registry_not_allowed : Bytes → RefError

abbrev pub default_patterns : List Bytes
default_patterns =
    codes "docker.io"
    ∷ codes "index.docker.io"
    ∷ codes "registry-1.docker.io"
    ∷ codes "ghcr.io"
    ∷ codes "gcr.io"
    ∷ codes "*.gcr.io"
    ∷ codes "*.pkg.dev"
    ∷ codes "public.ecr.aws"
    ∷ codes "*.dkr.ecr.*.amazonaws.com"
    ∷ codes "*.azurecr.io"
    ∷ []

abbrev pub star : Bytes
star = codes "*"

-- The split points, one label taken at least.
unfoldable pub any_split : (List Bytes → Bool) → List Bytes → Bool
any_split f [] = false
any_split f (l ∷ labels) = f labels || any_split f labels

unfoldable pub starts_with : Bytes → (List Bytes → Bool) → List Bytes → Bool
unfolding bytes_eq
starts_with head f [] = false
starts_with head f (l ∷ labels) = bytes_eq l head && f labels

unfoldable pub match_labels : List Bytes → List Bytes → Bool
unfolding any_split starts_with
match_labels [] [] = true
match_labels [] (_ ∷ _) = false
match_labels (head ∷ pattern) labels =
    if bytes_eq head star
    then any_split (match_labels pattern) labels
    else starts_with head (match_labels pattern) labels

-- `strings.TrimSuffix(host, ".")`
unfoldable pub trim_dot : Bytes → Bytes
trim_dot [] = []
trim_dot (c ∷ []) = if c == b'.' then [] else c ∷ []
trim_dot (c ∷ d ∷ s) = c ∷ trim_dot (d ∷ s)

-- The last colon, and what is before and behind it.
unfoldable pub split_port : Bytes → Option (Bytes × Bytes)
split_port [] = none
split_port (c ∷ s) = elim (split_port s) [
  | some (host, port) ↦ some (c ∷ host, port)
  | none ↦ if c == b':' then some ([], s) else none
]

abbrev pub bad_segment : Bytes → Bool
bad_segment s = bytes_eq s (codes ".") || (bytes_eq s (codes "..") || bytes_eq s [])

unfoldable pub validate_path_segments : Bytes → Result RefError (Unit {0})
validate_path_segments reference =
    if every (λ s. not (bad_segment s)) (split_on b'/' reference)
    then ok tt
    else err (invalid_reference reference)

unfoldable pub canonical : ImageRef → Bytes
unfolding bytes_eq
canonical ref =
    let base = ref.registry ++ b'/' ∷ ref.repository in
    if not (bytes_eq ref.digest [])
    then base ++ b'@' ∷ ref.digest
    else if not (bytes_eq ref.tag [])
    then base ++ b':' ∷ ref.tag
    else base ++ codes ":latest"

-- What name.ParseReference returns: a name.Tag or a name.Digest.
pub data Pointer : Type 0 where
  tagged digested : Bytes → Pointer

pub record ParsedReference : Type 0 where
  pub registry_str : Bytes
  pub repository_str : Bytes
  pub scheme : Bytes
  pub pointer : Pointer

abbrev pub parsed : Bytes → Option ParsedReference → Result RefError ParsedReference
parsed trimmed none = err (invalid_reference trimmed)
parsed trimmed (some ref) = ok ref

unfoldable pub with_pointer : ImageRef → Pointer → Result RefError ImageRef
unfolding parse_digest
with_pointer out (tagged t) = ok (record out { tag = t })
with_pointer out (digested d) = elim (parse_digest d) [
  | ok digest ↦ ok (record out { digest = digest })
  | err _ ↦ err (unsupported_digest out.raw)
]

abbrev pub well_formed_host : Bytes → Option Bytes
well_formed_host host =
    if bytes_eq host []
    then none
    else if every (λ l. not (bytes_eq l [])) (split_on b'.' host)
    then some host
    else none

unfoldable pub some_matches : List Bytes → List Bytes → Bool
unfolding match_labels
some_matches [] labels = false
some_matches (p ∷ patterns) labels =
    match_labels (split_on b'.' p) labels || some_matches patterns labels

module _ (to_lower trim_space : Bytes → Bytes) where
  unfoldable pub normalize_registry : Bytes → Option Bytes
  unfolding trim_dot bytes_eq split_on
  normalize_registry host = well_formed_host (trim_dot (to_lower (trim_space host)))

  unfoldable pub new_allowlist : List Bytes → List Bytes
  unfolding bytes_eq
  new_allowlist [] = []
  new_allowlist (p ∷ patterns) =
      let q = to_lower (trim_space p) in
      let rest = new_allowlist patterns in if bytes_eq q [] then rest else q ∷ rest

  unfoldable pub allows : List Bytes → Bytes → Bool
  unfolding normalize_registry some_matches
  allows patterns host = elim (normalize_registry host) [
    | none ↦ false
    | some h ↦ some_matches patterns (split_on b'.' h)
  ]

  abbrev pub registry_of : Bytes → Option Bytes → Result RefError Bytes
  registry_of trimmed none = err (invalid_reference trimmed)
  registry_of trimmed (some registry) = ok registry

  abbrev pub without_port : Bytes → Option (Bytes × Bytes) → Result RefError (Unit {0})
  without_port trimmed none = ok tt
  without_port trimmed (some _) = err (explicit_port trimmed)

  unfoldable pub parse :
      (Bytes → Option ParsedReference) → List Bytes → Bytes → Result RefError ImageRef
  unfolding validate_path_segments normalize_registry split_port allows with_pointer bytes_eq
  parse parse_reference patterns raw =
      let trimmed = trim_space raw in
      do
        (if bytes_eq trimmed [] then err empty_reference else ok tt)
        ref ← parsed trimmed (parse_reference trimmed)
        validate_path_segments trimmed
        registry ← registry_of trimmed (normalize_registry ref.registry_str)
        without_port trimmed (split_port registry)
        (if allows patterns registry then ok tt else err (registry_not_allowed registry))
        (if bytes_eq ref.scheme (codes "https")
            then ok tt
            else err (not_over_https trimmed ref.scheme))
        with_pointer
            (record {
              raw = trimmed;
              registry = registry;
              repository = ref.repository_str;
              tag = [];
              digest = [];
            })
            ref.pointer
