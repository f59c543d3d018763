-- ===== src/Cachestore/Put.antt =====
-- internal/cachestore/store.go: PutLayer and commitLayer.
pub mod Refusal
use layerlens.Base.{
  ℕ, Bool, true, false, Option, none, some, List, Bytes, length, if◌then◌else◌, Result, ok, err,
  add64, sub64,
}
use layerlens.Base.Dict.{find, insert}
use layerlens.Domain.Entry.{LayerIndex}
use layerlens.Cachestore.State.{CacheError, LayerSummary, LayerEntry, Store, get_txn}
use layerlens.Cachestore.State.CacheError.{finished, no_index, invalid_digest}
use layerlens.Cachestore.Layout.{path_component, layer_dir_for}
use layerlens.Cachestore.Lru.{Disk, reserve, reserve_ceiling, release}
use layerlens.Cachestore.Txn.{Staging, checked, write_staged_limit, declare, use_layer, over_budget}

pub record LayerDoc : Type 0 where
  pub v : ℕ
  pub diff_id : Bytes
  pub changeset_digest : Bytes
  pub content_bytes : ℕ
  pub entry_count : ℕ
  pub index_bytes : ℕ
  pub warnings : List Bytes

abbrev pub record_schema_version : ℕ
record_schema_version = 1

unfoldable pub layer_doc : LayerIndex → ℕ → LayerDoc
layer_doc idx index_bytes = record {
  v = record_schema_version;
  diff_id = idx.diff_id;
  changeset_digest = idx.changeset_digest;
  content_bytes = idx.content_bytes;
  entry_count = length idx.entries;
  index_bytes = index_bytes;
  warnings = idx.warnings;
}

unfoldable pub layer_summary_of : LayerDoc → ℕ → LayerSummary
layer_summary_of doc bytes = record {
  diff_id = doc.diff_id;
  changeset_digest = doc.changeset_digest;
  content_bytes = doc.content_bytes;
  entry_count = doc.entry_count;
  index_bytes = bytes;
  warnings = doc.warnings;
}

-- What a put meets: the writes of the two files, and an error of making the directory, of the
-- renames or of opening a directory to sync it.
pub record PutIo : Type 0 where
  pub index_file : Staging
  pub doc_file : LayerDoc → Staging
  pub publish_error : Option Bytes

unfoldable pub commit_layer : Bytes → Bytes → Option Bytes → Result CacheError (Unit {0})
commit_layer root d e = elim (layer_dir_for root d) [
  | err _ ↦ err invalid_digest
  | ok _ ↦ checked e
]

-- The last section of a put, under the store's lock, and whether the layer was there already.
unfoldable pub install_layer : ℕ → LayerSummary → ℕ → Store → Store × Bool
install_layer h summary bytes s =
    let d = summary.diff_id in
    let entry : LayerEntry = record { summary = summary; bytes = bytes } in
    elim (find d s.layers) [
      | some _ ↦ (declare h d s, true)
      | none ↦ (declare h d (record s { layers = insert d entry s.layers }), false)
    ]

unfoldable pub put_committed :
    ℕ → LayerDoc → ℕ → Result CacheError (Unit {0}) → Store → Store × Result CacheError (Unit {0})
unfolding layer_summary_of install_layer
put_committed h doc bytes (err e) s = (release (some h) bytes s, err e)
put_committed h doc bytes (ok _) s =
    let (s', dup) = install_layer h (layer_summary_of doc bytes) bytes s in
    if dup then (release (some h) bytes s', ok tt) else (s', ok tt)

unfoldable pub put_reserved :
    ℕ
    → PutIo
    → LayerDoc
    → ℕ
    → Store × Result CacheError (Unit {0})
    → Store × Result CacheError (Unit {0})
unfolding put_committed commit_layer
put_reserved h io doc bytes (s, err e) = (s, err e)
put_reserved h io doc bytes (s, ok _) =
    put_committed h doc bytes (commit_layer s.root doc.diff_id io.publish_error) s

unfoldable pub put_staged :
    Disk → ℕ → PutIo → LayerDoc → Result CacheError ℕ → Store → Store × Result CacheError (Unit {0})
unfolding put_reserved over_budget
put_staged disk h io doc (err e) s = over_budget disk h e s
put_staged disk h io doc (ok doc_bytes) s =
    let bytes = add64 doc.index_bytes doc_bytes in
    put_reserved h io doc bytes (reserve disk (some h) bytes s)

unfoldable pub put_indexed :
    Disk
    → ℕ
    → PutIo
    → LayerIndex
    → ℕ
    → Result CacheError ℕ
    → Store
    → Store × Result CacheError (Unit {0})
unfolding put_staged layer_doc write_staged_limit
put_indexed disk h io idx ceiling (err e) s = over_budget disk h e s
put_indexed disk h io idx ceiling (ok index_bytes) s =
    let doc = layer_doc idx index_bytes in
    put_staged disk h io doc (write_staged_limit (sub64 ceiling index_bytes) (io.doc_file doc)) s

unfoldable pub put_new :
    Disk → ℕ → PutIo → LayerIndex → Store → Store × Result CacheError (Unit {0})
unfolding put_indexed
put_new disk h io idx s =
    let ceiling = reserve_ceiling h s in
    put_indexed disk h io idx ceiling (write_staged_limit ceiling io.index_file) s

unfoldable pub put_unless_used :
    Disk
    → ℕ
    → PutIo
    → LayerIndex
    → Store × Option LayerSummary
    → Store × Result CacheError (Unit {0})
unfolding put_new
put_unless_used disk h io idx (s, some _) = (s, ok tt)
put_unless_used disk h io idx (s, none) = put_new disk h io idx s

-- The digest of the index, if it can be a path component.
unfoldable pub put_index :
    Disk → ℕ → PutIo → Option LayerIndex → Store → Store × Result CacheError (Unit {0})
unfolding put_unless_used
put_index disk h io none s = (s, err no_index)
put_index disk h io (some idx) s = elim (path_component idx.diff_id) [
  | err _ ↦ (s, err invalid_digest)
  | ok _ ↦ put_unless_used disk h io idx (use_layer h idx.diff_id s)
]

unfoldable pub put_layer :
    Disk → ℕ → PutIo → Option LayerIndex → Store → Store × Result CacheError (Unit {0})
unfolding put_index
put_layer disk h io idx s =
    if (get_txn s.txns h).done then (s, err finished) else put_index disk h io idx s
