-- ===== src/Cachestore/Rewrite.antt =====
-- internal/cachestore/store.go: writeRecord, and the two operations that change a record that is
-- stored. They change the table first and rewrite the file outside of the lock.
pub mod Merge
pub mod Again
use layerlens.Base.{
  ℕ, ◌+◌, Bool, true, false, ◌&&◌, ◌||◌, not, Option, none, some, List, [], ◌∷◌, ◌++◌, Bytes, ltb,
  if◌then◌else◌, bytes_eq, contains, Result, ok, err, ◌>>=◌, ◌>>◌, add64, sub64,
}
use layerlens.Base.Dict.{find, insert}
use layerlens.Domain.Image.{ImageRecord}
use layerlens.Cachestore.State.{CacheError, ImageEntry, Store}
use layerlens.Cachestore.State.CacheError.{invalid_digest, not_found}
use layerlens.Cachestore.Layout.{image_path_for}
use layerlens.Cachestore.Txn.{Staging, checked, write_staged_limit}

-- What the rewriting of a record meets: the write of the file, and an error of its rename.
pub record RewriteIo : Type 0 where
  pub record_file : ImageRecord → Staging
  pub publish_error : Option Bytes

-- The last section of writeRecord, under the store's lock.
unfoldable pub resize_record : Bytes → ℕ → Store → Store
resize_record id size s = elim (find id s.images) [
  | none ↦ s
  | some e ↦ record s {
    images = insert id (record e { bytes = size }) s.images;
    accounted = add64 s.accounted (sub64 size e.bytes);
  }
]

abbrev no_limit : ℕ
no_limit = sub64 0 1

unfoldable pub rewrite : RewriteIo → ImageRecord → Result CacheError ℕ
rewrite io rec = do
  size ← write_staged_limit no_limit (io.record_file rec)
  checked io.publish_error
  ok size

unfoldable pub write_record : RewriteIo → ImageRecord → Store → Store × Result CacheError (Unit {0})
unfolding resize_record rewrite
write_record io rec s = elim (image_path_for s.root rec.id) [
  | err _ ↦ (s, err invalid_digest)
  | ok _ ↦ elim (rewrite io rec) [
    | err e ↦ (s, err e)
    | ok size ↦ (resize_record rec.id size s, ok tt)
  ]
]

pub record Provenance : Type 0 where
  pub ref_names : List Bytes
  pub source : Bytes
  pub pinned : Bool

-- The references that are new and not empty, appended; and whether anything has changed.
unfoldable pub merge_refs : List Bytes → List Bytes × Bool → List Bytes × Bool
unfolding bytes_eq
merge_refs [] acc = acc
merge_refs (r ∷ rs) (names, changed) =
    merge_refs rs
      (if bytes_eq r [] || contains r names then (names, changed) else (names ++ r ∷ [], true))

unfoldable pub merge_source : Bytes → ImageRecord → ImageRecord × Bool
unfolding bytes_eq
merge_source source r =
    if not (bytes_eq source []) && not (bytes_eq source r.source)
    then (record r { source = source }, true)
    else (r, false)

unfoldable pub merge_pin : Bool → ImageRecord × Bool → ImageRecord × Bool
merge_pin pinned (r, changed) =
    if pinned && not r.pinned then (record r { pinned = true }, true) else (r, changed)

unfoldable pub merged : Provenance → ImageRecord → ImageRecord × Bool
unfolding merge_refs merge_source merge_pin
merged p r =
    let (r', changed) = merge_pin p.pinned (merge_source p.source r) in
    let (names, changed') = merge_refs p.ref_names (r'.ref_names, changed) in
    (record r' { ref_names = names }, changed')

-- A new record for an image in the table, under the store's lock.
unfoldable pub set_record : Bytes → ImageEntry → ImageRecord → Store → Store
set_record id e rec s = record s { images = insert id (record e { rec = rec }) s.images }

unfoldable pub returning :
    ImageRecord → Store × Result CacheError (Unit {0}) → Store × Result CacheError ImageRecord
returning rec (s, err e) = (s, err e)
returning rec (s, ok _) = (s, ok rec)

unfoldable pub upgrade_entry :
    RewriteIo
    → Bytes
    → ImageEntry
    → ImageRecord × Bool
    → Store
    → Store × Result CacheError ImageRecord
unfolding set_record write_record returning
upgrade_entry io id e (rec, changed) s =
    if changed then returning rec (write_record io rec (set_record id e rec s)) else (s, ok e.rec)

-- The first argument is the error of the caller's context, if it is done.
unfoldable pub upgrade_provenance :
    Option CacheError
    → RewriteIo
    → Bytes
    → Provenance
    → Store
    → Store × Result CacheError ImageRecord
unfolding upgrade_entry merged
upgrade_provenance (some e) io id p s = (s, err e)
upgrade_provenance none io id p s = elim (find id s.images) [
  | none ↦ (s, err not_found)
  | some e ↦ upgrade_entry io id e (merged p e.rec) s
]

unfoldable pub touch_entry :
    RewriteIo → ℕ → Bytes → ImageEntry → Store → Store × Result CacheError (Unit {0})
unfolding set_record write_record
touch_entry io now id e s =
    let rec = record e.rec { last_used_at = now } in
    if ltb now (e.rec.last_used_at + s.debounce)
    then (s, ok tt)
    else write_record io rec (set_record id e rec s)

unfoldable pub touch :
    Option CacheError → RewriteIo → ℕ → Bytes → Store → Store × Result CacheError (Unit {0})
unfolding touch_entry
touch (some e) io now id s = (s, err e)
touch none io now id s = elim (find id s.images) [
  | none ↦ (s, err not_found)
  | some e ↦ touch_entry io now id e s
]
