-- ===== src/Analyze/Indexer/Origin.antt =====
-- internal/analyze/indexer.go: the member of a tar that an entry of the index comes from.
use layerlens.Base.{◌≡◌, ◌⊎◌, ◌%◌, ◌^◌, ℕ, none, some, List, [], ◌∷◌, Bytes, length, Result, ok}
use layerlens.Domain.Digest.{digest_from_bytes}
use layerlens.Domain.Entry.{
  EntryKind, file, dir, symlink, hardlink, device, fifo, whiteout, opaque, Entry,
}
use layerlens.Analyze.Sanitize.{sanitize_path}
use layerlens.Analyze.Indexer.{Member, IndexError}

-- The type flags of tar for a kind.
abbrev pub HasType : EntryKind → ℕ → Type 0
HasType file t = t ≡ b'0'
HasType hardlink t = t ≡ b'1'
HasType symlink t = t ≡ b'2'
HasType device t = (t ≡ b'3') ⊎ (t ≡ b'4')
HasType dir t = t ≡ b'5'
HasType fifo t = t ≡ b'6'
HasType whiteout t = ⊥
HasType opaque t = ⊥

-- Among what a tar yields.
abbrev pub Occurs : Member → List (Result IndexError Member) → Type 0
Occurs m [] = ⊥
Occurs m (r ∷ rs) = (r ≡ ok m) ⊎ Occurs m rs

-- The entry has the name, the kind and the owner that the member's header says, the twelve low bits of
-- its mode, and if it is a file the length and the hash of the member's whole body. The target of a
-- symbolic link is as it is in the header, that of a hard link a sanitised path or nothing.
pub record IsFrom (sha256 : Bytes → Bytes) (m : Member) (e : Entry) : Type 0 where
  pub named : sanitize_path m.header.name ≡ some e.path
  pub typed : HasType e.kind m.header.typeflag
  pub mode : e.mode ≡ m.header.mode % 2 ^ 12
  pub owner : (e.uid ≡ m.header.uid) × (e.gid ≡ m.header.gid)
  pub names : (e.uname ≡ m.header.uname) × (e.gname ≡ m.header.gname)
  pub content :
      e.kind ≡ file
      → (c : Bytes) × (m.body ≡ ok c)
        × (e.size ≡ length c % 2 ^ 64)
        × (e.content_sha ≡ digest_from_bytes (sha256 c))
  pub no_content : ¬ (e.kind ≡ file) → (e.size ≡ 0) × (e.content_sha ≡ [])
  pub link : e.kind ≡ symlink → e.link_target ≡ m.header.linkname
  pub hard_link :
      e.kind ≡ hardlink
      → (sanitize_path m.header.linkname ≡ some e.link_target)
        ⊎ ((sanitize_path m.header.linkname ≡ none) × (e.link_target ≡ []))
