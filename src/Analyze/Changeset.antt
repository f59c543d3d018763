-- ===== src/Analyze/Changeset.antt =====
-- internal/analyze/changeset.go: the normalized changeset digest, and the filter of the extended
-- attributes. SHA-256 is a parameter.
pub mod Order
pub mod Meaning
use layerlens.Base.{
  ℕ, Bool, true, false, Option, none, some, List, [], ◌∷◌, ◌++◌, Bytes, codes, ltb, ◌&&◌, ◌||◌, not,
  if◌then◌else◌, length, drop, bytes_eq, bytes_lt, has_prefix, sort,
}
use layerlens.Domain.Digest.{digest_from_bytes}
use layerlens.Domain.Entry.{kind_code, Entry, Xattrs}
use layerlens.Analyze.Fields.{write_uint, write_entry}

abbrev pub changeset_scheme_version : ℕ
changeset_scheme_version = 1

-- By path, then by kind.
unfoldable pub entry_less : Entry → Entry → Bool
entry_less x y =
    if bytes_eq x.path y.path
    then ltb (kind_code x.kind) (kind_code y.kind)
    else bytes_lt x.path y.path

unfoldable pub write_entries : List Entry → Bytes
write_entries [] = []
write_entries (e ∷ es) = write_entry e ++ write_entries es

-- The bytes that are hashed.
unfoldable pub changeset_stream : ℕ → List Entry → Bytes
changeset_stream version entries =
    version ∷ (write_uint (length entries) ++ write_entries (sort entry_less entries))

module _ (sha256 : Bytes → Bytes) where
  unfoldable pub changeset_digest_at : ℕ → List Entry → Bytes
  changeset_digest_at version entries =
      digest_from_bytes (sha256 (changeset_stream version entries))

  unfoldable pub changeset_digest : List Entry → Bytes
  unfolding changeset_digest_at
  changeset_digest entries = changeset_digest_at changeset_scheme_version entries

abbrev pub xattr_prefix : Bytes
xattr_prefix = codes "SCHILY.xattr."

unfoldable pub keep_xattr : Bytes → Bool
keep_xattr name =
    if bytes_eq name (codes "security.capability")
    then true
    else not (has_prefix name (codes "security.")) && not (has_prefix name (codes "system."))

-- The body of the loop: the pair that a PAX record contributes, if any.
unfoldable pub filter_record : Bytes × Bytes → Option (Bytes × Bytes)
unfolding keep_xattr
filter_record (k, v) =
    if has_prefix k xattr_prefix
    then (let name = drop (length xattr_prefix) k in
        if bytes_eq name [] || not (keep_xattr name) then none else some (name, v))
    else none

unfoldable pub filter_xattrs : Xattrs → Xattrs
filter_xattrs [] = []
filter_xattrs (r ∷ pax) =
    let rest = filter_xattrs pax in elim (filter_record r) [ none ↦ rest | some p ↦ p ∷ rest ]
