-- ===== src/Cachestore/Layout.antt =====
-- internal/cachestore/layout.go: the paths of layers and records under the root.
use layerlens.Base.{
  Bool, ◌&&◌, Option, none, some, List, [], ◌∷◌, ◌++◌, Bytes, codes, length, every, not, ◌==◌,
  if◌then◌else◌, bytes_eq, Result, ok, err, ◌>>=◌,
}
use layerlens.Domain.Digest.{DigestError, digest_prefix, validate, hex, is_bad_hex}
use layerlens.Analyze.Sanitize.{path_clean}

-- `ErrInvalidDigest`, with the cause where there is one.
pub data LayoutError : Type 0 where
  invalid : DigestError → LayoutError
  no_hex : LayoutError

unfoldable pub path_component : Bytes → Result LayoutError Bytes
unfolding bytes_eq
path_component d = elim (validate d) [
  | some e ↦ err (invalid e)
  | none ↦ let h = hex d in if bytes_eq h [] then err no_hex else ok h
]

-- `filepath.Join`: empty elements are left out, and the rest is joined by `/`.
join_elements : List Bytes → Bytes
unfolding bytes_eq
join_elements [] = []
join_elements (e ∷ es) =
    let rest = join_elements es in
    if bytes_eq e [] then rest else (if bytes_eq rest [] then e else e ++ b'/' ∷ rest)

unfoldable pub file_join : List Bytes → Bytes
unfolding join_elements path_clean bytes_eq
file_join es = let s = join_elements es in if bytes_eq s [] then [] else path_clean s

abbrev pub record_file_ext : Bytes
record_file_ext = codes ".json"

unfoldable pub layer_dir_for : Bytes → Bytes → Result LayoutError Bytes
unfolding path_component
layer_dir_for base diff_id = do
  h ← path_component diff_id
  ok (file_join (base ∷ codes "v1" ∷ codes "layers" ∷ codes "sha256" ∷ h ∷ []))

unfoldable pub image_path_for : Bytes → Bytes → Result LayoutError Bytes
unfolding path_component
image_path_for base id = do
  h ← path_component id
  ok (file_join (base ∷ codes "v1" ∷ codes "images" ∷ codes "sha256" ∷ (h ++ record_file_ext) ∷ []))

unfoldable pub is_hex_name : Bytes → Bool
is_hex_name name = length name == 64 && every (λ c. not (is_bad_hex c)) name

unfoldable pub digest_from_hex_name : Bytes → Option Bytes
unfolding is_hex_name
digest_from_hex_name name = if is_hex_name name then some (digest_prefix ++ name) else none
