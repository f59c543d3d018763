-- ===== src/Cachestore/Records.antt =====
-- internal/cachestore/store.go: what is read from the tables, and the rewriting of records.
use layerlens.Base.{
  Bool, true, false, Option, none, some, List, [], ◌∷◌, map, Bytes, if◌then◌else◌, bytes_eq,
  bytes_lt, sort, Result, ok, err,
}
use layerlens.Base.Dict.{find}
use layerlens.Domain.Entry.{LayerIndex}
use layerlens.Domain.Image.{ImageRecord}
use layerlens.Cachestore.State.{CacheError, LayerSummary, Store}
use layerlens.Cachestore.State.CacheError.{invalid_digest, not_indexed, not_found, other}
use layerlens.Cachestore.Layout.{layer_dir_for}

unfoldable pub has_layer : Store → Bytes → Bool
has_layer s d = elim (find d s.layers) [ none ↦ false | some _ ↦ true ]

unfoldable pub layer_summary : Store → Bytes → Option LayerSummary
layer_summary s d = elim (find d s.layers) [ none ↦ none | some e ↦ some e.summary ]

-- What opening and decoding an index file gives.
pub data IndexFile : Type 0 where
  absent : IndexFile
  unreadable : Bytes → IndexFile
  decoded : LayerIndex → IndexFile

read_index : IndexFile → Result CacheError LayerIndex
read_index IndexFile.absent = err not_indexed
read_index (IndexFile.unreadable e) = err (other e)
read_index (IndexFile.decoded idx) = ok idx

unfoldable pub layer_index :
    Option CacheError → IndexFile → Store → Bytes → Result CacheError LayerIndex
unfolding read_index has_layer
layer_index (some e) file s d = err e
layer_index none file s d = elim (layer_dir_for s.root d) [
  | err _ ↦ err invalid_digest
  | ok _ ↦ if has_layer s d then read_index file else err not_indexed
]

unfoldable pub first_ref : ImageRecord → Bytes
first_ref r = elim r.ref_names [ [] ↦ [] | ref ∷ _ ↦ ref ]

-- The order of the picker.
unfoldable pub record_less : ImageRecord → ImageRecord → Bool
unfolding first_ref bytes_eq bytes_lt
record_less a b =
    if bytes_eq (first_ref a) (first_ref b)
    then bytes_lt a.id b.id
    else bytes_lt (first_ref a) (first_ref b)

unfoldable pub images : Option CacheError → Store → Result CacheError (List ImageRecord)
unfolding record_less sort
images (some e) s = err e
images none s = ok (sort record_less (map (λ p. p.1.rec) s.images))

unfoldable pub image : Option CacheError → Store → Bytes → Result CacheError ImageRecord
image (some e) s id = err e
image none s id = elim (find id s.images) [ none ↦ err not_found | some e ↦ ok e.rec ]
