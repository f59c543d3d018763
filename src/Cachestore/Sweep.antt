-- ===== src/Cachestore/Sweep.antt =====
-- internal/cachestore/store.go: Open, and the sweep that rebuilds the tables and the accounting from
-- what a crash has left. What the directories hold comes in as an argument.
pub mod Loads
pub mod Sound
use layerlens.Base.{
  ℕ, ◌-◌, Bool, true, ◌&&◌, not, Option, none, some, List, [], ◌∷◌, Bytes, codes, length, take,
  drop, ◌==◌, if◌then◌else◌, bytes_eq, Result, ok, err, ◌>>=◌, ◌>>◌, add64, lt64,
}
use layerlens.Base.Dict.{insert}
use layerlens.Domain.Image.{Layer, ImageRecord}
use layerlens.Cachestore.State.{CacheError, LayerSummary, Store}
use layerlens.Cachestore.State.CacheError.{other}
use layerlens.Cachestore.Layout.{digest_from_hex_name, record_file_ext}
use layerlens.Cachestore.Records.{has_layer}
use layerlens.Cachestore.Txn.{checked}
use layerlens.Cachestore.Put.{LayerDoc, record_schema_version}

-- A file of a directory, and what measuring it gives.
pub record DirFile : Type 0 where
  pub size : ℕ
  pub info_error : Option Bytes

unfoldable pub dir_bytes : ℕ → List DirFile → Result CacheError ℕ
dir_bytes total [] = ok total
dir_bytes total (f ∷ fs) = do checked f.info_error; dir_bytes (add64 total f.size) fs

-- An entry of the layer store: what reading and decoding its `layer.json` gives, an error of
-- finding its index file, its files, and an error of removing it.
pub record LayerDir : Type 0 where
  pub name : Bytes
  pub is_dir : Bool
  pub doc : Result CacheError LayerDoc
  pub index_error : Option Bytes
  pub listing : Result CacheError (List DirFile)
  pub remove_error : Option Bytes

-- The errors that the code makes itself are told apart by their first words.
abbrev pub reject : Bool → Result CacheError (Unit {0})
reject b = if b then err (other (codes "unusable")) else ok tt

unfoldable pub read_layer_dir : LayerDir → Bytes → Result CacheError (LayerSummary × ℕ)
unfolding dir_bytes bytes_eq
read_layer_dir e diff_id = do
  doc ← e.doc
  reject (not (doc.v == record_schema_version))
  reject (not (bytes_eq doc.diff_id diff_id))
  checked e.index_error
  files ← e.listing
  size ← dir_bytes 0 files
  ok (
    record {
      diff_id = doc.diff_id;
      changeset_digest = doc.changeset_digest;
      content_bytes = doc.content_bytes;
      entry_count = doc.entry_count;
      index_bytes = size;
      warnings = doc.warnings;
    },
    size,
  )

unfoldable pub install_swept : Bytes → LayerSummary × ℕ → Store → Store
install_swept d (summary, size) s = record s {
  layers = insert d (record { summary = summary; bytes = size }) s.layers;
  accounted = add64 s.accounted size;
}

-- What is not usable is removed; an error of removing it ends the sweep.
abbrev pub discard : Option Bytes → Store → Result CacheError Store
discard none s = ok s
discard (some e) s = err (other e)

unfoldable pub sweep_read :
    LayerDir → Bytes → Result CacheError (LayerSummary × ℕ) → Store → Result CacheError Store
unfolding install_swept
sweep_read e d (err _) s = discard e.remove_error s
sweep_read e d (ok r) s = ok (install_swept d r s)

unfoldable pub sweep_layer : LayerDir → Store → Result CacheError Store
unfolding sweep_read read_layer_dir
sweep_layer e s = elim (digest_from_hex_name e.name) [
  | none ↦ discard e.remove_error s
  | some d ↦ if e.is_dir then sweep_read e d (read_layer_dir e d) s else discard e.remove_error s
]

unfoldable pub sweep_layers : List LayerDir → Store → Result CacheError Store
unfolding sweep_layer
sweep_layers [] s = ok s
sweep_layers (e ∷ es) s = sweep_layer e s >>= λ s'. sweep_layers es s'

pub record ImageDoc : Type 0 where
  pub v : ℕ
  pub rec : ImageRecord

-- An entry of the image store.
pub record ImageFile : Type 0 where
  pub name : Bytes
  pub is_dir : Bool
  pub size : Result CacheError ℕ
  pub doc : Result CacheError ImageDoc
  pub remove_error : Option Bytes

-- The part of a name before its extension `.json`.
unfoldable pub record_stem : Bytes → Option Bytes
unfolding bytes_eq
record_stem name =
    let n = length name - length record_file_ext in
    if bytes_eq (drop n name) record_file_ext then some (take n name) else none

unfoldable pub record_file_id : Bytes → Option Bytes
unfolding record_stem
record_file_id name = elim (record_stem name) [
  | none ↦ none
  | some stem ↦ digest_from_hex_name stem
]

unfoldable pub has_layers : Store → List Layer → Bool
has_layers s [] = true
has_layers s (l ∷ ls) = has_layer s l.diff_id && has_layers s ls

unfoldable pub read_image_doc : ImageFile → Bytes → Store → Result CacheError (ImageRecord × ℕ)
unfolding has_layers bytes_eq
read_image_doc e id s = do
  size ← e.size
  doc ← e.doc
  reject (not (doc.v == record_schema_version))
  reject (not (bytes_eq doc.rec.id id))
  reject (not (has_layers s doc.rec.layers))
  ok (doc.rec, size)

unfoldable pub read_image_file : ImageFile → Store → Result CacheError (ImageRecord × ℕ)
unfolding record_file_id read_image_doc
read_image_file e s = do
  reject e.is_dir
  elim (record_file_id e.name) [
    | none ↦ err (other (codes "unusable"))
    | some id ↦ read_image_doc e id s
  ]

unfoldable pub install_record : ImageRecord × ℕ → Store → Store
install_record (rec, size) s = record s {
  images = insert rec.id (record { rec = rec; bytes = size }) s.images;
  accounted = add64 s.accounted size;
}

unfoldable pub sweep_record :
    ImageFile → Result CacheError (ImageRecord × ℕ) → Store → Result CacheError Store
unfolding install_record
sweep_record e (err _) s = discard e.remove_error s
sweep_record e (ok r) s = ok (install_record r s)

unfoldable pub sweep_images : List ImageFile → Store → Result CacheError Store
unfolding sweep_record read_image_file
sweep_images [] s = ok s
sweep_images (e ∷ es) s = sweep_record e (read_image_file e s) s >>= λ s'. sweep_images es s'

-- `staging_error` is an error of emptying the staging area, and a listing may fail.
pub record DataDir : Type 0 where
  pub staging_error : Option Bytes
  pub layer_dirs : Result CacheError (List LayerDir)
  pub image_files : Result CacheError (List ImageFile)

unfoldable pub sweep : DataDir → Store → Result CacheError Store
unfolding sweep_layers sweep_images
sweep dir s = do
  checked dir.staging_error
  layer_dirs ← dir.layer_dirs
  s' ← sweep_layers layer_dirs s
  image_files ← dir.image_files
  sweep_images image_files s'

-- `resolved` is the absolute form of the root, and `prepare_error` one of making the directories or
-- of taking the lock. A debounce of zero or less stands for the default, a minute.
pub record Options : Type 0 where
  pub root : Bytes
  pub max_bytes : ℕ
  pub touch_debounce : ℕ

abbrev pub default_touch_debounce : ℕ
default_touch_debounce = 60000000000

unfoldable pub open_store :
    Options → Result CacheError Bytes → Option Bytes → DataDir → Result CacheError Store
unfolding sweep bytes_eq
open_store opts resolved prepare_error dir = do
  reject (bytes_eq opts.root [])
  reject (not (lt64 0 opts.max_bytes))
  root ← resolved
  checked prepare_error
  sweep dir (record {
    root = root;
    max = opts.max_bytes;
    debounce = if lt64 0 opts.touch_debounce then opts.touch_debounce else default_touch_debounce;
    layers = [];
    images = [];
    accounted = 0;
    txns = [];
    trash_seq = 0;
  })
