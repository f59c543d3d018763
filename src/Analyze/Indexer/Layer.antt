-- ===== src/Analyze/Indexer/Layer.antt =====
-- internal/analyze/indexer.go: add for one member, the loop of IndexLayer, and finish.
use layerlens.Base.{
  ℕ, ◌%◌, ◌^◌, ◌&&◌, ◌||◌, not, Option, none, some, List, [], ◌∷◌, ◌++◌, map, Bytes, codes, length,
  drop, take, ltb, ◌==◌, if◌then◌else◌, bytes_eq, has_prefix, sort, Result, ok, err, ◌>>=◌, ◌>>◌,
}
use layerlens.Base.Dict.{find}
use layerlens.Domain.Digest.{validate, digest_from_bytes}
use layerlens.Domain.Entry.{
  EntryKind, file, hardlink, whiteout, opaque, kind_eq, Entry, LayerIndex,
  layer_index_schema_version,
}
use layerlens.Analyze.Changeset.{entry_less, changeset_digest}
use layerlens.Analyze.Sanitize.{sanitize_path, is_root_name}
use layerlens.Analyze.Indexer.{
  Stream, TarRead, Header, Member, Warning, IndexError, IndexState, reserve_new, warn, put_marker,
  put, kind_of, entry_from, path_base, path_dir, path_join, whiteout_prefix, whiteout_opaque_dir,
  whiteout_meta_prefix, marker_of,
}
use layerlens.Analyze.Indexer.Media.{Readers, decompressor}
use layerlens.Analyze.Indexer.Warning.{
  unsafe_name, aufs_metadata, malformed_whiteout, unsupported_type, unsafe_target,
}
use layerlens.Analyze.Indexer.IndexError.{nil_reader, bad_diff_id, diff_id_mismatch, failed}

unfoldable pub add_whiteout : Header → Bytes → Bytes → IndexState → Result IndexError IndexState
unfolding bytes_eq path_join
add_whiteout hdr d base s =
    let name = drop (length whiteout_prefix) base in
    if bytes_eq name [] || (bytes_eq name (codes ".") || bytes_eq name (codes ".."))
    then ok (warn (malformed_whiteout hdr.name) s)
    else put_marker (marker_of (path_join d name) whiteout) s

unfoldable pub link_to : Header → Option Bytes → Entry → IndexState → Entry × IndexState
link_to hdr (some target) e s = (record e { size = 0; link_target = target }, s)
link_to hdr none e s = (record e { size = 0 }, warn (unsafe_target hdr.name hdr.linkname) s)

-- The progress counter is left out.
pub record LayerSource : Type 0 where
  pub reader : Option Stream
  pub media_type : Bytes
  pub diff_id : Bytes
  pub max_entries : ℕ

abbrev pub default_max_entries : ℕ
default_max_entries = 2000000

abbrev pub max_entries_of : ℕ → ℕ
max_entries_of n = if n == 0 then default_max_entries else n

abbrev pub empty_state : ℕ → IndexState
empty_state n = record {
  entries = [];
  markers = [];
  max_entries = n;
  warnings = [];
  suppressed = 0;
  content_bytes = 0;
}

unfoldable pub declared_diff_id : Bytes → Result IndexError (Unit {0})
unfolding bytes_eq
declared_diff_id d =
    if bytes_eq d []
    then ok tt
    else elim (validate d) [ none ↦ ok tt | some e ↦ err (bad_diff_id e) ]

abbrev pub reader_of : Option Stream → Result IndexError Stream
reader_of none = err nil_reader
reader_of (some r) = ok r

-- io.Copy of what is left of the stream: the hash behind the tee, fed so far with the bytes that
-- archive/tar has read, is fed the rest.
unfoldable pub drain : Stream → ℕ → Bytes → Result IndexError Bytes
drain stream consumed fed = elim stream.fails [
  | none ↦ ok (fed ++ drop consumed stream.bytes)
  | some e ↦ err (failed e)
]

module _ (sha256 : Bytes → Bytes) where
  unfoldable pub hashed :
      Result Bytes Bytes → Entry → IndexState → Result IndexError (Entry × IndexState)
  hashed (err x) e s = err (failed x)
  hashed (ok content) e s = ok (
    record e { size = length content % 2 ^ 64; content_sha = digest_from_bytes (sha256 content) },
    s,
  )

  -- What the body gives a file, and the link's target a hard link.
  unfoldable pub fill_entry : Member → Entry → IndexState → Result IndexError (Entry × IndexState)
  unfolding hashed link_to
  fill_entry m e s =
      if kind_eq e.kind file
      then hashed m.body e s
      else if kind_eq e.kind hardlink
      then ok (link_to m.header (sanitize_path m.header.linkname) e s)
      else ok (e, s)

  unfoldable pub put_filled : Entry × IndexState → Result IndexError IndexState
  put_filled (e, s) = put e s

  unfoldable pub put_object : Member → Bytes → EntryKind → IndexState → Result IndexError IndexState
  unfolding fill_entry put_filled
  put_object m p kind s = do
    reserve_new (find p s.entries) s
    filled ← fill_entry m (entry_from m.header p kind) s
    put_filled filled

  unfoldable pub add_object :
      Member → Bytes → Option EntryKind → IndexState → Result IndexError IndexState
  unfolding put_object
  add_object m p none s = ok (warn (unsupported_type m.header.name m.header.typeflag) s)
  add_object m p (some kind) s = put_object m p kind s

  unfoldable pub add_path : Member → Option Bytes → IndexState → Result IndexError IndexState
  unfolding add_object add_whiteout bytes_eq has_prefix
  add_path m none s = ok (warn (unsafe_name m.header.name) s)
  add_path m (some p) s =
      let base = path_base p in
      if bytes_eq base whiteout_opaque_dir
      then put_marker (marker_of (path_dir p) opaque) s
      else if has_prefix base whiteout_meta_prefix
      then ok (warn (aufs_metadata m.header.name) s)
      else if has_prefix base whiteout_prefix
      then add_whiteout m.header (path_dir p) base s
      else add_object m p (kind_of m.header.typeflag) s

  unfoldable pub add : Member → IndexState → Result IndexError IndexState
  unfolding add_path
  add m s =
      if (m.header.typeflag == b'g') || ((m.header.typeflag == b'x') || is_root_name m.header.name)
      then ok s
      else add_path m (sanitize_path m.header.name) s

  -- Each round meets a member, or an error of the context or of the archive; at the end is io.EOF.
  unfoldable pub add_all :
      List (Result IndexError Member) → IndexState → Result IndexError IndexState
  unfolding add
  add_all [] s = ok s
  add_all (r ∷ rs) s = do m ← r; s' ← add m s; add_all rs s'

  module _ (render : Warning → Bytes) (render_suppressed : ℕ → Bytes) where
    unfoldable pub all_warnings : IndexState → List Bytes
    all_warnings s =
        map render s.warnings
        ++ (if ltb 0 s.suppressed then render_suppressed s.suppressed ∷ [] else [])

    unfoldable pub finish_index : Bytes → IndexState → LayerIndex
    unfolding all_warnings
    finish_index diff_id s =
        let entries = sort entry_less (map (λ p. p.1) s.entries ++ map (λ p. p.1) s.markers) in
        record {
          schema_version = layer_index_schema_version;
          diff_id = diff_id;
          changeset_digest = changeset_digest sha256 entries;
          content_bytes = s.content_bytes;
          entries = entries;
          warnings = all_warnings s;
        }

    -- The computed digest must be the declared one, if one is declared.
    unfoldable pub sealed : Bytes → Bytes → IndexState → Result IndexError LayerIndex
    unfolding finish_index bytes_eq
    sealed declared computed s =
        if not (bytes_eq declared []) && not (bytes_eq computed declared)
        then err (diff_id_mismatch declared computed)
        else ok (finish_index computed s)

    module _ (to_lower trim_space : Bytes → Bytes) (readers : Readers)
        (read_tar : Stream → TarRead) where
      unfoldable pub index_layer : LayerSource → Result IndexError LayerIndex
      unfolding declared_diff_id decompressor sealed add_all drain
      index_layer src = do
        r ← reader_of src.reader
        declared_diff_id src.diff_id
        stream ← decompressor to_lower trim_space readers src.media_type r
        s ← add_all (read_tar stream).members (empty_state (max_entries_of src.max_entries))
        let consumed = (read_tar stream).consumed
        fed ← drain stream consumed (take consumed stream.bytes)
        sealed src.diff_id (digest_from_bytes (sha256 fed)) s
