-- ===== src/Analyze/Indexer.antt =====
-- internal/analyze/indexer.go: the stream of a layer's tar members made into its index. Reading the
-- tar and decompressing it come in as arguments, and so do SHA-256 and the rendering of warnings.
pub mod Layer
pub mod Origin
pub mod Accepts
pub mod Filled
pub mod Adds
pub mod Present
pub mod Covers
pub mod Finish
pub mod Sealed
pub mod Sound
pub mod Media
use layerlens.Base.{
  ℕ, ◌+◌, ◌%◌, ◌^◌, Bool, true, false, ◌&&◌, ◌||◌, not, Option, none, some, List, [], ◌∷◌, ◌++◌,
  map, Bytes, codes, length, drop, ltb, leb, ◌==◌, if◌then◌else◌, bytes_eq, has_prefix, trim_right,
  path_split, sort, Result, ok, err, ◌>>=◌, ◌>>◌, add64, sub64, lt64,
}
use layerlens.Base.Dict.{Dict, find, insert}
use layerlens.Domain.Digest.{DigestError, validate, digest_from_bytes}
use layerlens.Domain.Entry.{
  EntryKind, file, dir, symlink, hardlink, device, fifo, whiteout, opaque, kind_code, kind_eq,
  Xattrs, Entry, LayerIndex, layer_index_schema_version,
}
use layerlens.Analyze.Changeset.{entry_less, filter_xattrs, changeset_digest}
use layerlens.Analyze.Sanitize.{path_clean, sanitize_path, is_root_name}

-- A `tar.Header`, the fields that the code reads; the numbers are int64 patterns.
pub record Header : Type 0 where
  pub name : Bytes
  pub linkname : Bytes
  pub typeflag : ℕ
  pub mode : ℕ
  pub uid : ℕ
  pub gid : ℕ
  pub uname : Bytes
  pub gname : Bytes
  pub pax_records : Xattrs
  pub mod_time_unix : ℕ
  pub mod_time_is_zero : Bool
  pub devmajor : ℕ
  pub devminor : ℕ

-- A member of the archive: its header, and what reading its body to the end gives.
pub record Member : Type 0 where
  pub header : Header
  pub body : Result Bytes Bytes

pub data Warning : Type 0 where
  unsafe_name aufs_metadata malformed_whiteout : Bytes → Warning
  unsupported_type : Bytes → ℕ → Warning
  unsafe_target : Bytes → Bytes → Warning

pub data IndexError : Type 0 where
  nil_reader too_many_entries unknown_media_type : IndexError
  bad_diff_id : DigestError → IndexError
  diff_id_mismatch : Bytes → Bytes → IndexError
  failed : Bytes → IndexError

-- What an io.Reader yields: its bytes, and the error behind them, if it is not io.EOF.
pub record Stream : Type 0 where
  pub bytes : Bytes
  pub fails : Option Bytes

-- What archive/tar makes of a stream: its members or the error that ends them, and how many bytes it has
-- read when it reports io.EOF.
pub record TarRead : Type 0 where
  pub members : List (Result IndexError Member)
  pub consumed : ℕ

-- A marker's key is its kind and its path, written as one string.
pub record IndexState : Type 0 where
  pub entries : Dict Entry
  pub markers : Dict Entry
  pub max_entries : ℕ
  pub warnings : List Warning
  pub suppressed : ℕ
  pub content_bytes : ℕ

abbrev pub max_warnings : ℕ
max_warnings = 64

unfoldable pub reserve_entry : IndexState → Result IndexError (Unit {0})
reserve_entry s =
    if lt64 0 s.max_entries && leb s.max_entries (length s.entries + length s.markers)
    then err too_many_entries
    else ok tt

unfoldable pub warn : Warning → IndexState → IndexState
warn w s =
    if leb max_warnings (length s.warnings)
    then record s { suppressed = s.suppressed + 1 }
    else record s { warnings = s.warnings ++ w ∷ [] }

abbrev pub marker_key : Entry → Bytes
marker_key e = kind_code e.kind ∷ e.path

-- A new key needs a place.
unfoldable pub reserve_new : Option Entry → IndexState → Result IndexError (Unit {0})
unfolding reserve_entry
reserve_new (some _) s = ok tt
reserve_new none s = reserve_entry s

unfoldable pub put_marker : Entry → IndexState → Result IndexError IndexState
unfolding reserve_new
put_marker e s = do
  reserve_new (find (marker_key e) s.markers) s
  ok (record s { markers = insert (marker_key e) e s.markers })

abbrev pub counted_size : Entry → ℕ
counted_size e = if kind_eq e.kind file then e.size else 0

-- The bytes of the entry that a path had, taken off.
abbrev pub uncount : Option Entry → ℕ → ℕ
uncount none n = n
uncount (some e) n = if kind_eq e.kind file then sub64 n e.size else n

abbrev pub count : Entry → ℕ → ℕ
count e n = if kind_eq e.kind file then add64 n e.size else n

unfoldable pub put : Entry → IndexState → Result IndexError IndexState
unfolding reserve_new
put e s = do
  reserve_new (find e.path s.entries) s
  ok (record s {
    entries = insert e.path e s.entries;
    content_bytes = count e (uncount (find e.path s.entries) s.content_bytes);
  })

unfoldable pub kind_of : ℕ → Option EntryKind
kind_of t =
    if t == b'0'
    then some file
    else if t == b'5'
    then some dir
    else if t == b'2'
    then some symlink
    else if t == b'1'
    then some hardlink
    else if (t == b'3') || (t == b'4')
    then some device
    else if t == b'6'
    then some fifo
    else none

unfoldable pub entry_from : Header → Bytes → EntryKind → Entry
entry_from hdr p kind = record {
  path = p;
  kind = kind;
  mode = hdr.mode % 2 ^ 12;
  uid = hdr.uid;
  gid = hdr.gid;
  uname = hdr.uname;
  gname = hdr.gname;
  devmajor = if kind_eq kind device then hdr.devmajor else 0;
  devminor = if kind_eq kind device then hdr.devminor else 0;
  xattrs = filter_xattrs hdr.pax_records;
  size = 0;
  mtime_unix = if hdr.mod_time_is_zero then 0 else hdr.mod_time_unix;
  link_target = if kind_eq kind symlink then hdr.linkname else [];
  content_sha = [];
}

-- `path.Base` and `path.Dir`.
unfoldable pub path_base : Bytes → Bytes
unfolding bytes_eq trim_right path_split
path_base p =
    let base = (path_split (trim_right b'/' p)).1 in
    if bytes_eq p [] then codes "." else if bytes_eq base [] then codes "/" else base

unfoldable pub path_dir : Bytes → Bytes
unfolding path_split path_clean
path_dir p = path_clean (path_split p).0

-- `path.Join` of a directory that is not empty and a name that is not.
unfoldable pub path_join : Bytes → Bytes → Bytes
unfolding path_clean
path_join d name = path_clean (d ++ b'/' ∷ name)

abbrev pub whiteout_prefix : Bytes
whiteout_prefix = codes ".wh."

abbrev pub whiteout_opaque_dir : Bytes
whiteout_opaque_dir = codes ".wh..wh..opq"

abbrev pub whiteout_meta_prefix : Bytes
whiteout_meta_prefix = codes ".wh..wh."

abbrev pub marker_of : Bytes → EntryKind → Entry
marker_of p kind = record {
  path = p;
  kind = kind;
  mode = 0;
  uid = 0;
  gid = 0;
  uname = [];
  gname = [];
  devmajor = 0;
  devminor = 0;
  xattrs = [];
  size = 0;
  mtime_unix = 0;
  link_target = [];
  content_sha = [];
}
