-- ===== src/Cachestore/Steps/Closed.antt =====
-- The layers that images and open transactions depend on stay in the shared store.
use layerlens.Base.{
  ℕ, ◌≡◌, refl, sym, ap, ◌∙◌, ◌⊎◌, true, false, none, some, List, [], ◌∷◌, Bytes, arith, Bool-cases,
  Option-cases, inl, inr, bytes_eq, bytes_eq→eq, bytes_eq_iff, contains,
}
use layerlens.Base.Dict.{Dict, find, insert, find-insert}
use layerlens.Domain.Image.{Layer, ImageRecord}
use layerlens.Cachestore.State.{LayerSummary, LayerEntry, ImageEntry, Store, get_txn}
use layerlens.Cachestore.Records.{has_layer}
use layerlens.Cachestore.Lru.{names_layer, any_image_names, any_txn_holds, layer_referenced}
use layerlens.Cachestore.Lru.Accounts.{IsAccounted}
use layerlens.Cachestore.Lru.Pinned.{any_image_names-find}
use layerlens.Cachestore.Lru.Closed.{IsClosed}
use layerlens.Cachestore.Put.{install_layer}
use layerlens.Cachestore.Commit.{first_undeclared, replace_image}
use layerlens.Cachestore.Rewrite.{set_record, resize_record}
use layerlens.Cachestore.Steps.{Reached}
use layerlens.Cachestore.Steps.Reached.{
  opened, begun, used, reserved, released, installed, present, committed, finished, touched,
  upgraded, resized,
}
use layerlens.Cachestore.Steps.Held.{
  any_txn_holds-get, held_layer, begin-IsClosed, release-IsClosed, reserve-IsClosed,
  finish_txn-IsClosed, declare-IsClosed, use_layer-IsClosed,
}
use layerlens.Cachestore.Steps.Accounts.{Reached-IsAccounted}
use layerlens.Cachestore.Rewrite.Merge.{merged-layers}

pub insert-IsClosed :
    (d : Bytes) (e : LayerEntry) (s : Store)
    → IsClosed s
    → IsClosed (record s { layers = insert d e s.layers })
unfolding layer_referenced has_layer
insert-IsClosed d e s h j r = elim (Bool-cases (bytes_eq d j)) [
  | inl p ↦ rw (find-insert d j e s.layers, p, has_layer) refl
  | inr p ↦ rw (find-insert d j e s.layers, p, has_layer) (h j r)
]

install_layer-IsClosed :
    (i : ℕ) (summary : LayerSummary) (n : ℕ) (s : Store)
    → IsClosed s
    → IsClosed (install_layer i summary n s).0
unfolding install_layer has_layer
install_layer-IsClosed i summary n s h =
    let d = summary.diff_id in
    let entry : LayerEntry = record { summary = summary; bytes = n } in
    elim (Option-cases (find d s.layers)) [
      | inl f ↦
          rw (f, install_layer)
            (declare-IsClosed i d (record s { layers = insert d entry s.layers })
              (rw (find-insert d d entry s.layers, (bytes_eq_iff d d).1 refl, has_layer) refl)
              (insert-IsClosed d entry s h))
      | inr (e, f) ↦ rw (f, install_layer) (declare-IsClosed i d s (rw (f, has_layer) refl) h)
    ]

declared_head :
    (l : Layer) (declared : List Bytes) (ls : List Layer)
    → first_undeclared declared (l ∷ ls) ≡ none
    → contains l.diff_id declared ≡ true
unfolding first_undeclared
declared_head l declared ls u = ground arith

declared_tail :
    (l : Layer) (declared : List Bytes) (ls : List Layer)
    → first_undeclared declared (l ∷ ls) ≡ none
    → first_undeclared declared ls ≡ none
unfolding first_undeclared
declared_tail l declared ls u = ground arith

first_undeclared_names :
    (d : Bytes) (declared : List Bytes) (ls : List Layer)
    → first_undeclared declared ls ≡ none
    → names_layer d ls ≡ true
    → contains d declared ≡ true
unfolding first_undeclared names_layer
first_undeclared_names d declared [] u r = absurd (ground (arith, r))
first_undeclared_names d declared (l ∷ ls) u r = elim (Bool-cases (bytes_eq l.diff_id d)) [
  | inl p ↦ rw (bytes_eq→eq l.diff_id d p) at (declared_head l declared ls u)
  | inr p ↦ first_undeclared_names d declared ls (declared_tail l declared ls u) (ground arith)
]

any_image_names-insert :
    (d k : Bytes) (e : ImageEntry) (es : Dict ImageEntry)
    → any_image_names d (insert k e es) ≡ true
    → (names_layer d e.rec.layers ≡ true) ⊎ (any_image_names d es ≡ true)
unfolding any_image_names insert
any_image_names-insert d k e [] r = inl (ground arith)
any_image_names-insert d k e ((j, x) ∷ es) r = elim (Bool-cases (names_layer d e.rec.layers)) [
  | inl p ↦ inl p
  | inr p ↦ elim (Bool-cases (names_layer d x.rec.layers)) [
    | inl q ↦ inr (ground arith)
    | inr q ↦ elim (Bool-cases (bytes_eq j k)) [
      | inl b ↦ inr (ground (arith, rw (b, any_image_names) at r))
      | inr b ↦ elim (any_image_names-insert d k e es (ground (arith, rw b at r))) [
        | inl c ↦ inl c
        | inr c ↦ inr (ground arith)
      ]
    ]
  ]
]

named_layer :
    (s : Store) (d : Bytes) → IsClosed s → any_image_names d s.images ≡ true → has_layer s d ≡ true
unfolding layer_referenced
named_layer s d h r = h d (ground arith)

-- An image whose layers are there may be put into the table.
pub insert_image-IsClosed :
    (k : Bytes) (e : ImageEntry) (a : ℕ) (s : Store)
    → ((d : Bytes) → names_layer d e.rec.layers ≡ true → has_layer s d ≡ true)
    → IsClosed s
    → IsClosed (record s { images = insert k e s.images; accounted = a })
unfolding layer_referenced has_layer
insert_image-IsClosed k e a s f h d r = elim (Bool-cases (any_txn_holds d s.txns)) [
  | inl p ↦ held_layer s d h p
  | inr p ↦ elim (any_image_names-insert d k e s.images (ground (arith, r))) [
    | inl q ↦ f d q
    | inr q ↦ named_layer s d h q
  ]
]

replace_image-IsClosed :
    (i : ℕ) (rec : ImageRecord) (n : ℕ) (s : Store)
    → (get_txn s.txns i).done ≡ false
    → first_undeclared (get_txn s.txns i).layers rec.layers ≡ none
    → IsClosed s
    → IsClosed (replace_image rec n s)
unfolding replace_image
replace_image-IsClosed i rec n s o u h =
    let t = get_txn s.txns i in
    insert_image-IsClosed rec.id (record { rec = rec; bytes = n }) _ s
      (λ d r.
        let c = first_undeclared_names d t.layers rec.layers u r in
        held_layer s d h (any_txn_holds-get d s.txns i (rw (o, c) refl)))
      h

-- An image that is replaced by one of the same layers.
update_image-IsClosed :
    (k : Bytes) (old new : ImageEntry) (a : ℕ) (s : Store)
    → find k s.images ≡ some old
    → new.rec.layers ≡ old.rec.layers
    → IsClosed s
    → IsClosed (record s { images = insert k new s.images; accounted = a })
update_image-IsClosed k old new a s f l h =
    insert_image-IsClosed k new a s
      (λ d r.
        named_layer s d h
          (any_image_names-find d k old s.images f (sym (ap (names_layer d) l) ∙ r)))
      h

set_record-IsClosed :
    (id : Bytes) (e : ImageEntry) (rec : ImageRecord) (s : Store)
    → find id s.images ≡ some e
    → rec.layers ≡ e.rec.layers
    → IsClosed s
    → IsClosed (set_record id e rec s)
unfolding set_record
set_record-IsClosed id e rec s f l h =
    update_image-IsClosed id e (record e { rec = rec }) s.accounted s f l h

resize_record-IsClosed :
    (id : Bytes) (n : ℕ) (s : Store) → IsClosed s → IsClosed (resize_record id n s)
unfolding resize_record
resize_record-IsClosed id n s h = elim (Option-cases (find id s.images)) [
  | inl f ↦ rw (f, resize_record) h
  | inr (e, f) ↦
      rw (f, resize_record) (update_image-IsClosed id e (record e { bytes = n }) _ s f refl h)
]

-- From a store whose tables and accounting agree, and which holds the layers of its images and of
-- its open transactions, any sequence of sections keeps every layer that an image in the table
-- names, or that an open transaction has declared, in the table of layers.
pub Reached-IsClosed :
    {start : Store} {p : ℕ} {s : Store}
    → IsAccounted 0 start
    → IsClosed start
    → Reached start p s
    → IsClosed s
Reached-IsClosed a h opened = h
Reached-IsClosed a h (begun e r) = begin-IsClosed e _ (Reached-IsClosed a h r)
Reached-IsClosed a h (used i d r) = use_layer-IsClosed i d _ (Reached-IsClosed a h r)
Reached-IsClosed a h (reserved disk t n r) =
    reserve-IsClosed _ disk t n _ (Reached-IsAccounted a r) (Reached-IsClosed a h r)
Reached-IsClosed a h (released t n r) = release-IsClosed t n _ (Reached-IsClosed a h r)
Reached-IsClosed a h (installed i summary n _ r) =
    install_layer-IsClosed i summary n _ (Reached-IsClosed a h r)
Reached-IsClosed a h (present i summary n _ r) =
    install_layer-IsClosed i summary n _ (Reached-IsClosed a h r)
Reached-IsClosed a h (committed i rec size o u r) =
    replace_image-IsClosed i rec size _ o u (Reached-IsClosed a h r)
Reached-IsClosed a h (finished i e r) = finish_txn-IsClosed i e _ (Reached-IsClosed a h r)
Reached-IsClosed a h (touched id e now f r) =
    set_record-IsClosed id e _ _ f refl (Reached-IsClosed a h r)
Reached-IsClosed a h (upgraded id e new f r) =
    set_record-IsClosed id e _ _ f (merged-layers new e.rec) (Reached-IsClosed a h r)
Reached-IsClosed a h (resized id size r) = resize_record-IsClosed id size _ (Reached-IsClosed a h r)
