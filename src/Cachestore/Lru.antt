-- ===== src/Cachestore/Lru.antt =====
-- internal/cachestore/lru.go: the byte budget, and eviction of the least recently used image. Each
-- function runs in one hold of the store's lock.
pub mod Victim
pub mod Rule
pub mod Accounts
pub mod Closed
pub mod Evicts
pub mod Pinned
use layerlens.Base.{
  ℕ, zero, suc, ◌+◌, ◌^◌, Bool, true, false, ◌&&◌, ◌||◌, not, Option, none, some, List, [], ◌∷◌,
  Bytes, length, set, ltb, ◌==◌, if◌then◌else◌, bytes_eq, bytes_lt, contains, Result, ok, err,
  add64, sub64, lt64,
}
use layerlens.Base.Dict.{Dict, find, erase}
use layerlens.Domain.Image.{Layer, ImageRecord}
use layerlens.Cachestore.State.{CacheError, ImageEntry, Store, Txn, get_txn}
use layerlens.Cachestore.State.CacheError.{cache_full}
use layerlens.Cachestore.Layout.{LayoutError, image_path_for, layer_dir_for}

-- What the file system answers: `true` where `os.Remove` of a record, or `os.Rename` of a layer's
-- directory into the trash, succeeds or finds nothing there. The answer may depend on the store.
pub record Disk : Type 0 where
  pub removes_record : Store → Bytes → Bool
  pub unlinks_layer : Store → Bytes → Bool

-- `e.rec.Layers` names the layer.
unfoldable pub names_layer : Bytes → List Layer → Bool
unfolding bytes_eq
names_layer d [] = false
names_layer d (l ∷ ls) = bytes_eq l.diff_id d || names_layer d ls

layer_bytes : Store → Bytes → ℕ
layer_bytes s d = elim (find d s.layers) [ none ↦ 0 | some e ↦ e.bytes ]

-- The layers that are not counted yet, added to the bytes so far.
unfoldable pub count_layers : Store → List Layer → List Bytes × ℕ → List Bytes × ℕ
unfolding layer_bytes
count_layers s [] acc = acc
count_layers s (l ∷ ls) (counted, bytes) = count_layers s ls (
    if contains l.diff_id counted
    then (counted, bytes)
    else (l.diff_id ∷ counted, add64 bytes (layer_bytes s l.diff_id)))

unfoldable pub pinned_loop : Store → Dict ImageEntry → List Bytes × ℕ → List Bytes × ℕ
unfolding count_layers
pinned_loop s [] acc = acc
pinned_loop s ((_, e) ∷ d) (counted, bytes) = pinned_loop s d (
    if e.rec.pinned
    then count_layers s e.rec.layers (counted, add64 bytes e.bytes)
    else (counted, bytes))

unfoldable pub pinned_bytes : Store → ℕ
unfolding pinned_loop
pinned_bytes s = (pinned_loop s s.images ([], 0)).1

-- The first is the better victim: used before the other, or at the same time and of a lesser id.
abbrev pub evicts_before : ImageEntry → ImageEntry → Bool
evicts_before e v =
    ltb e.rec.last_used_at v.rec.last_used_at
    || ((e.rec.last_used_at == v.rec.last_used_at) && bytes_lt e.rec.id v.rec.id)

unfoldable pub better_victim : ImageEntry → Option ImageEntry → Option ImageEntry
better_victim e none = some e
better_victim e (some v) = if evicts_before e v then some e else some v

unfoldable pub victim : Dict ImageEntry → Option ImageEntry → Option ImageEntry
unfolding better_victim
victim [] best = best
victim ((_, e) ∷ d) best = victim d (if e.rec.pinned then best else better_victim e best)

unfoldable pub any_image_names : Bytes → Dict ImageEntry → Bool
unfolding names_layer
any_image_names d [] = false
any_image_names d ((_, e) ∷ es) = names_layer d e.rec.layers || any_image_names d es

unfoldable pub any_txn_holds : Bytes → List Txn → Bool
any_txn_holds d [] = false
any_txn_holds d (t ∷ ts) = (not t.done && contains d t.layers) || any_txn_holds d ts

unfoldable pub layer_referenced : Store → Bytes → Bool
unfolding any_image_names any_txn_holds
layer_referenced s d = any_image_names d s.images || any_txn_holds d s.txns

unfoldable pub forget_layer : Bytes → ℕ → Store → Store
forget_layer d bytes s = record s { layers = erase d s.layers; accounted = sub64 s.accounted bytes }

unfoldable pub unlink_layer : Disk → Bytes → ℕ → Result LayoutError Bytes → Store → Store
unfolding forget_layer
unlink_layer disk d bytes (err _) s = forget_layer d bytes s
unlink_layer disk d bytes (ok dir) s =
    let s' = record s { trash_seq = s.trash_seq + 1 } in
    if disk.unlinks_layer s' dir then forget_layer d bytes s' else s'

unfoldable pub drop_layer : Disk → Bytes → Store → Store
unfolding unlink_layer
drop_layer disk d s = elim (find d s.layers) [
  | none ↦ s
  | some e ↦ unlink_layer disk d e.bytes (layer_dir_for s.root d) s
]

-- The loop over the victim's layers.
unfoldable pub drop_layers : Disk → List Layer → Store → Store
unfolding drop_layer layer_referenced
drop_layers disk [] s = s
drop_layers disk (l ∷ ls) s =
    drop_layers disk ls (if layer_referenced s l.diff_id then s else drop_layer disk l.diff_id s)

unfoldable pub forget_image : ImageEntry → Store → Store
forget_image v s = record s {
  images = erase v.rec.id s.images;
  accounted = sub64 s.accounted v.bytes;
}

unfoldable pub remove_image : Disk → ImageEntry → Result LayoutError Bytes → Store → Store × Bool
unfolding drop_layers forget_image
remove_image disk v (err _) s = (forget_image v s, true)
remove_image disk v (ok path) s =
    if disk.removes_record s path
    then (drop_layers disk v.rec.layers (forget_image v s), true)
    else (s, false)

unfoldable pub evict_victim : Disk → Option ImageEntry → Store → Store × Bool
unfolding remove_image
evict_victim disk none s = (s, false)
evict_victim disk (some v) s = remove_image disk v (image_path_for s.root v.rec.id) s

unfoldable pub evict_lru : Disk → Store → Store × Bool
unfolding victim evict_victim
evict_lru disk s = evict_victim disk (victim s.images none) s

-- `for s.accounted+n > s.max`, with fuel for the rounds.
unfoldable pub make_room : Disk → ℕ → ℕ → Store → Store
unfolding evict_lru
make_room disk zero n s = s
make_room disk (suc fuel) n s = elim (lt64 s.max (add64 s.accounted n)) [
  | false ↦ s
  | true ↦
      let (s', evicted) = evict_lru disk s in
      let rest = make_room disk fuel n s' in if evicted then rest else s'
]

abbrev pub update_txn : ℕ → (Txn → Txn) → Store → Store
update_txn h f s = record s { txns = set s.txns h (f (get_txn s.txns h)) }

-- `if t != nil` on the transaction's own bytes.
abbrev pub own : Option ℕ → (ℕ → ℕ) → Store → Store
own none f s = s
own (some h) f s = update_txn h (λ t. record t { own_bytes = f t.own_bytes }) s

-- The refusal test: what the ingest itself needs against what could ever be freed.
unfoldable pub refused : Option ℕ → ℕ → Store → Bool
unfolding pinned_bytes
refused none n s = false
refused (some h) n s = lt64 (sub64 s.max (pinned_bytes s)) (add64 (get_txn s.txns h).own_bytes n)

-- `n <= 0`
abbrev pub is_not_positive : ℕ → Bool
is_not_positive n = not (lt64 0 n)

unfoldable pub charge : Option ℕ → ℕ → Store → Store
charge t n s = own t (λ b. add64 b n) (record s { accounted = add64 s.accounted n })

unfoldable pub reserve : Disk → Option ℕ → ℕ → Store → Store × Result CacheError (Unit {0})
unfolding refused make_room charge
reserve disk t n s =
    let s' = make_room disk (length s.images) n s in
    if is_not_positive n
    then (s, ok tt)
    else if refused t n s
    then (s, err cache_full)
    else if lt64 s'.max (add64 s'.accounted n)
    then (s', err cache_full)
    else (charge t n s', ok tt)

unfoldable pub reserve_ceiling : ℕ → Store → ℕ
unfolding pinned_bytes
reserve_ceiling h s =
    let ceiling = sub64 (sub64 s.max (pinned_bytes s)) (get_txn s.txns h).own_bytes in
    if lt64 ceiling 0 then 0 else ceiling

unfoldable pub release : Option ℕ → ℕ → Store → Store
release t n s =
    if is_not_positive n
    then s
    else own t (λ b. sub64 b n) (record s { accounted = sub64 s.accounted n })
