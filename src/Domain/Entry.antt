-- ===== src/Domain/Entry.antt =====
-- internal/domain/entry.go: one path of a layer's changeset, and the changeset of a layer.
use layerlens.Base.{ℕ, Bool, true, false, List, Bytes, codes}

pub data EntryKind : Type 0 where
  file dir symlink hardlink device fifo whiteout opaque : EntryKind

-- The numeric values are part of the index format and of the changeset digest.
abbrev pub kind_code : EntryKind → ℕ
kind_code file = 0
kind_code dir = 1
kind_code symlink = 2
kind_code hardlink = 3
kind_code device = 4
kind_code fifo = 5
kind_code whiteout = 6
kind_code opaque = 7

unfoldable pub kind_string : EntryKind → Bytes
kind_string file = codes "file"
kind_string dir = codes "dir"
kind_string symlink = codes "symlink"
kind_string hardlink = codes "hardlink"
kind_string device = codes "device"
kind_string fifo = codes "fifo"
kind_string whiteout = codes "whiteout"
kind_string opaque = codes "opaque"

-- `k == KindX`, as the code compares kinds.
abbrev pub kind_eq : EntryKind → EntryKind → Bool
kind_eq file file = true
kind_eq dir dir = true
kind_eq symlink symlink = true
kind_eq hardlink hardlink = true
kind_eq device device = true
kind_eq fifo fifo = true
kind_eq whiteout whiteout = true
kind_eq opaque opaque = true
kind_eq _ _ = false

abbrev pub mode_perm_mask : ℕ
mode_perm_mask = 0o7777

-- A `map[string]string`: one pair for each key.
abbrev pub Xattrs : Type 0
Xattrs = List (Bytes × Bytes)

pub record Entry : Type 0 where
  pub path : Bytes
  pub kind : EntryKind
  pub mode : ℕ
  pub uid : ℕ
  pub gid : ℕ
  pub uname : Bytes
  pub gname : Bytes
  pub devmajor : ℕ
  pub devminor : ℕ
  pub xattrs : Xattrs
  pub size : ℕ
  pub mtime_unix : ℕ
  pub link_target : Bytes
  pub content_sha : Bytes

abbrev pub layer_index_schema_version : ℕ
layer_index_schema_version = 1

pub record LayerIndex : Type 0 where
  pub schema_version : ℕ
  pub diff_id : Bytes
  pub changeset_digest : Bytes
  pub content_bytes : ℕ
  pub entries : List Entry
  pub warnings : List Bytes
