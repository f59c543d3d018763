-- ===== src/Tests/Index.antt =====
-- A small layer, indexed: a directory, a file in it, a whiteout, and a name that leads out.
use layerlens.Base.{
  ℕ, ◌≡◌, ◌%◌, refl, false, none, some, List, [], ◌∷◌, Bytes, String, codes, length, replicate,
  Result, ok, err, ◌≤◌, ◌+◌, bytes_eq, bytes_lt, has_prefix, trim_right, path_split, split_on, sort,
}
use layerlens.Base.Dict.{find, insert}
use layerlens.Domain.Digest.{digest_from_bytes, validate}
use layerlens.Domain.Entry.{Entry, file, dir, whiteout, LayerIndex, layer_index_schema_version}
use layerlens.Analyze.Changeset.{changeset_digest, entry_less, filter_xattrs}
use layerlens.Analyze.Sanitize.{sanitize_path, path_clean, is_root_name}
use layerlens.Analyze.Indexer.{
  Member, Warning, IndexError, Stream, TarRead, max_warnings, reserve_new, put_marker, put, warn,
  kind_of, entry_from, path_base, path_dir, path_join,
}
use layerlens.Analyze.Indexer.Media.{Readers}
use layerlens.Analyze.Indexer.Layer.{LayerSource, max_entries_of, index_layer}
use layerlens.Analyze.Indexer.Accepts.{IsCapped}
use layerlens.Analyze.Indexer.Sealed.{IsVerified}
use layerlens.Analyze.Indexer.Sound.{IsStreamOf, index_layer-IsCapped, index_layer-IsVerified}
use layerlens.Tests.Samples.{entry_at}

abbrev member : String → ℕ → Bytes → Result IndexError Member
member name type content = ok (record {
  header = record {
    name = codes name;
    linkname = [];
    typeflag = type;
    mode = 0o100644;
    uid = 0;
    gid = 0;
    uname = [];
    gname = [];
    pax_records = [];
    mod_time_unix = 10;
    mod_time_is_zero = false;
    devmajor = 0;
    devminor = 0;
  };
  body = ok content;
})

abbrev members : List (Result IndexError Member)
members =
    member "etc/" b'5' []
    ∷ member "./etc/hosts" b'0' (codes "first")
    ∷ member "etc/.wh.gone" b'0' []
    ∷ member "../out" b'0' []
    ∷ member "etc/hosts" b'0' (codes "hi")
    ∷ []

-- The tar reader stops before the padding behind the archive.
abbrev stops_early : Stream → TarRead
stops_early stream = record { members = members; consumed = 3 }

abbrev blob : Stream
blob = record { bytes = codes "tar and padding"; fails = none }

-- No blob is compressed.
abbrev only_plain : Readers
only_plain = record { gunzip = λ _. err (codes "gzip"); unzstd = λ _. err (codes "zstd") }

-- The length, 32 times.
abbrev hash : Bytes → Bytes
hash s = replicate 32 (length s % 256)

abbrev digest_at : ℕ → Bytes
digest_at n = digest_from_bytes (replicate 32 n)

abbrev listed : List Entry
listed =
    record (entry_at "/etc" dir 0 10) { mode = 0o644 }
    ∷ record (entry_at "/etc/gone" whiteout 0 0) { mode = 0 }
    ∷ record (entry_at "/etc/hosts" file 2 10) { content_sha = digest_at 2 }
    ∷ []

abbrev source : LayerSource
source = record { reader = some blob; media_type = []; diff_id = digest_at 15; max_entries = 3 }

abbrev quiet : Warning → Bytes
quiet _ = []

abbrev suppressed : ℕ → Bytes
suppressed _ = []

abbrev same : Bytes → Bytes
same b = b

abbrev index : LayerIndex
index = record {
  schema_version = layer_index_schema_version;
  diff_id = digest_at 15;
  changeset_digest = changeset_digest hash listed;
  content_bytes = 2;
  entries = listed;
  warnings = [] ∷ [];
}

source-indexed :
    index_layer hash quiet suppressed same same only_plain stops_early source ≡ ok index
unfolding index_layer validate is_root_name sanitize_path split_on path_base path_dir path_join
    kind_of reserve_new find entry_from put insert put_marker warn digest_from_bytes
    changeset_digest sort entry_less filter_xattrs bytes_eq has_prefix path_clean path_split
    trim_right bytes_lt
source-indexed = refl

index_layer-IsCapped_example :
    IsCapped (max_entries_of 3) (length index.entries) × (length index.warnings ≤ max_warnings + 1)
index_layer-IsCapped_example =
    index_layer-IsCapped hash quiet suppressed same same only_plain stops_early source index
      source-indexed

index_layer-IsVerified_example :
    (stream : Stream) × IsStreamOf hash quiet suppressed same same only_plain stops_early source
      stream
    × (index.diff_id ≡ digest_from_bytes (hash stream.bytes))
    × IsVerified (digest_at 15) index.diff_id
index_layer-IsVerified_example =
    index_layer-IsVerified hash quiet suppressed same same only_plain stops_early source index
      source-indexed
