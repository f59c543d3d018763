-- ===== src/Analyze/Fields.antt =====
-- internal/analyze/fields.go, and the writers of internal/analyze/changeset.go: what makes two
-- paths the same, and how it is hashed. A hash is fed bytes; here they are the bytes fed.
pub mod Encoding
pub mod Same
use layerlens.Base.{
  ℕ, zero, suc, ◌+◌, ◌/◌, ◌%◌, ◌^◌, Bool, true, false, Option, none, some, List, [], ◌∷◌, ◌++◌, map,
  Bytes, ◌==◌, ◌&&◌, if◌then◌else◌, length, bytes_eq, bytes_lt, sort, every,
}
use layerlens.Domain.Entry.{EntryKind, dir, kind_code, kind_eq, mode_perm_mask, Xattrs, Entry}
use layerlens.Domain.Tree.{Attrs}

pub record TarsumFields : Type 0 where
  pub kind : EntryKind
  pub mode : ℕ
  pub uid : ℕ
  pub gid : ℕ
  pub uname : Bytes
  pub gname : Bytes
  pub size : ℕ
  pub link_target : Bytes
  pub devmajor : ℕ
  pub devminor : ℕ
  pub xattrs : Xattrs
  pub content_sha : Bytes

-- `m & 0o7777` keeps the twelve low bits.
abbrev pub mask_mode : ℕ → ℕ
mask_mode m = m % (mode_perm_mask + 1)

unfoldable pub project_dir : TarsumFields → TarsumFields
project_dir f = if kind_eq f.kind dir then record f { size = 0; content_sha = [] } else f

unfoldable pub fields_of_entry : Entry → TarsumFields
unfolding project_dir
fields_of_entry e = project_dir (record {
  kind = e.kind;
  mode = mask_mode e.mode;
  uid = e.uid;
  gid = e.gid;
  uname = e.uname;
  gname = e.gname;
  size = e.size;
  link_target = e.link_target;
  devmajor = e.devmajor;
  devminor = e.devminor;
  xattrs = e.xattrs;
  content_sha = e.content_sha;
})

unfoldable pub fields_of_node : Attrs → TarsumFields
unfolding project_dir
fields_of_node n = project_dir (record {
  kind = n.kind;
  mode = mask_mode n.mode;
  uid = n.uid;
  gid = n.gid;
  uname = n.uname;
  gname = n.gname;
  size = n.size;
  link_target = n.link_target;
  devmajor = n.devmajor;
  devminor = n.devminor;
  xattrs = n.xattrs;
  content_sha = n.content_sha;
})

-- `m[k]` of a `map[string]string`.
unfoldable pub get_xattr : Bytes → Xattrs → Option Bytes
get_xattr k [] = none
get_xattr k ((j, v) ∷ m) = if bytes_eq j k then some v else get_xattr k m

-- The test of one pair in the loop: `w, ok := b[k]; ok && v == w`.
unfoldable pub has_xattr : Xattrs → Bytes × Bytes → Bool
has_xattr b (k, v) = elim (get_xattr k b) [ none ↦ false | some w ↦ bytes_eq v w ]

unfoldable pub xattrs_equal : Xattrs → Xattrs → Bool
unfolding has_xattr
xattrs_equal a b = length a == length b && every (has_xattr b) a

unfoldable pub fields_equal : TarsumFields → TarsumFields → Bool
fields_equal f g =
    (kind_eq f.kind g.kind
      && f.mode == g.mode
      && f.uid == g.uid
      && f.gid == g.gid
      && bytes_eq f.uname g.uname
      && bytes_eq f.gname g.gname
      && f.size == g.size
      && bytes_eq f.link_target g.link_target
      && f.devmajor == g.devmajor
      && f.devminor == g.devminor
      && bytes_eq f.content_sha g.content_sha)
    && xattrs_equal f.xattrs g.xattrs

-- The `n` low bytes of `v`, the high byte first.
unfoldable pub put_be : ℕ → ℕ → Bytes
put_be zero v = []
put_be (suc n) v = put_be n (v / 256) ++ v % 256 ∷ []

unfoldable pub write_uint : ℕ → Bytes
unfolding put_be
write_uint v = put_be 8 v

unfoldable pub write_str : Bytes → Bytes
unfolding write_uint
write_str s = write_uint (length s) ++ s

-- The pair that the loop over the sorted keys writes for one key.
unfoldable pub xattr_pair : Xattrs → Bytes → Bytes × Bytes
unfolding get_xattr
xattr_pair m k = (k, elim (get_xattr k m) [ none ↦ [] | some v ↦ v ])

unfoldable pub sorted_xattrs : Xattrs → Xattrs
unfolding xattr_pair
sorted_xattrs m = map (xattr_pair m) (sort bytes_lt (map (λ p. p.0) m))

unfoldable pub write_pairs : Xattrs → Bytes
unfolding write_str
write_pairs [] = []
write_pairs ((k, v) ∷ m) = write_str k ++ (write_str v ++ write_pairs m)

unfoldable pub write_fields : Bytes → TarsumFields → Bytes
write_fields path f =
    write_str path
    ++ (write_uint (kind_code f.kind)
        ++ (write_uint f.mode
            ++ (write_uint f.uid
                ++ (write_uint f.gid
                    ++ (write_str f.uname
                        ++ (write_str f.gname
                            ++ (write_uint f.size
                                ++ (write_str f.link_target
                                    ++ (write_uint f.devmajor
                                        ++ (write_uint f.devminor
                                            ++ (write_uint (length f.xattrs)
                                                ++ (write_pairs (sorted_xattrs f.xattrs)
                                                    ++ write_str f.content_sha))))))))))))

unfoldable pub write_entry : Entry → Bytes
write_entry e = write_fields e.path (fields_of_entry e)
