-- ===== src/Cachestore/Steps/Accounts.antt =====
-- The byte accounting of the shared store.
use layerlens.Base.{
  ℕ, ◌+◌, ◌-◌, ◌%◌, ◌^◌, ◌≡◌, refl, ◌∙◌, true, false, Option, none, some, Bytes, arith, Bool-cases,
  Option-cases, inl, inr, if_holds, Result, bytes_eq, bytes_eq→eq,
}
use layerlens.Base.Dict.{
  Dict, find, insert, total-insert_new, total-insert_old, find-insert, insert-IsDict,
}
use layerlens.Domain.Image.{ImageRecord}
use layerlens.Cachestore.State.{CacheError, LayerSummary, LayerEntry, ImageEntry, Store, get_txn}
use layerlens.Cachestore.Lru.Victim.{IsKeyed}
use layerlens.Cachestore.Lru.Accounts.{IsAccounted, reserve-IsAccounted, release-IsAccounted}
use layerlens.Cachestore.Txn.{begin, declare, use_layer}
use layerlens.Cachestore.Put.{install_layer}
use layerlens.Cachestore.Commit.{replace_image, finish_txn}
use layerlens.Cachestore.Rewrite.{set_record, resize_record}
use layerlens.Cachestore.Rewrite.Merge.{merged-id}
use layerlens.Cachestore.Steps.{Reached}
use layerlens.Cachestore.Steps.Reached.{
  opened, begun, used, reserved, released, installed, present, committed, finished, touched,
  upgraded, resized,
}

pub insert-IsKeyed :
    (k : Bytes) (v : ImageEntry) (d : Dict ImageEntry)
    → v.rec.id ≡ k
    → IsKeyed d
    → IsKeyed (insert k v d)
insert-IsKeyed k v d i h = record {
  distinct = insert-IsDict k v d h.distinct;
  keyed = λ j e f. elim (Bool-cases (bytes_eq k j)) [
    | inl q ↦
        let same = rw (find-insert k j v d, q) at f in ground (arith, same, i, bytes_eq→eq k j q)
    | inr q ↦ h.keyed j e (rw (find-insert k j v d, q) at f)
  ];
}

-- Only the transactions, or only the record of an entry, differ.
same_tables :
    (p : ℕ) (s t : Store)
    → t.layers ≡ s.layers
    → t.images ≡ s.images
    → t.accounted ≡ s.accounted
    → IsAccounted p s
    → IsAccounted p t
same_tables p s t l i a h = record {
  layers_distinct = rw l h.layers_distinct;
  images_keyed = rw i h.images_keyed;
  balance = rw (l, i, a) h.balance;
}

begin-IsAccounted :
    (p : ℕ) (e : Option Bytes) (s : Store) → IsAccounted p s → IsAccounted p (begin e s).0
unfolding begin
begin-IsAccounted p (some e) s h = h
begin-IsAccounted p none s h = same_tables p s _ refl refl refl h

declare-IsAccounted :
    (p i : ℕ) (d : Bytes) (s : Store) → IsAccounted p s → IsAccounted p (declare i d s)
declare-IsAccounted p i d s h = same_tables p s _ refl refl refl h

use_layer-IsAccounted :
    (p i : ℕ) (d : Bytes) (s : Store) → IsAccounted p s → IsAccounted p (use_layer i d s).0
unfolding use_layer
use_layer-IsAccounted p i d s h = elim (Option-cases (find d s.layers)) [
  | inl f ↦ rw (f, use_layer) h
  | inr (e, f) ↦ rw (f, use_layer) (declare-IsAccounted p i d s h)
]

finish_txn-IsAccounted :
    (p i : ℕ) (e : Option Bytes) (s : Store) → IsAccounted p s → IsAccounted p (finish_txn i e s).0
unfolding finish_txn
finish_txn-IsAccounted p i e s h =
    if_holds (λ (r : Store × Result CacheError (Unit {0})). IsAccounted p r.0)
      (get_txn s.txns i).done _ _ (λ _. h) (λ _. same_tables p s _ refl refl refl h)

insert-IsAccounted :
    (p : ℕ) (d : Bytes) (e : LayerEntry) (s : Store)
    → find d s.layers ≡ none
    → IsAccounted (p + e.bytes) s
    → IsAccounted p (record s { layers = insert d e s.layers })
insert-IsAccounted p d e s f h = record {
  layers_distinct = insert-IsDict d e s.layers h.layers_distinct;
  images_keyed = h.images_keyed;
  balance = omega (arith, total-insert_new (λ x. x.bytes) d e s.layers f, h.balance);
}

install_layer-IsAccounted :
    (p i : ℕ) (summary : LayerSummary) (n : ℕ) (s : Store)
    → (install_layer i summary n s).1 ≡ false
    → IsAccounted (p + n) s
    → IsAccounted p (install_layer i summary n s).0
unfolding install_layer
install_layer-IsAccounted p i summary n s new h =
    let d = summary.diff_id in
    let entry : LayerEntry = record { summary = summary; bytes = n } in
    elim (Option-cases (find d s.layers)) [
      | inl f ↦
          rw (f, install_layer) (declare-IsAccounted p i d _ (insert-IsAccounted p d entry s f h))
      | inr (e, f) ↦ absurd (cc (rw (f, install_layer) at new))
    ]

present-IsAccounted :
    (p i : ℕ) (summary : LayerSummary) (n : ℕ) (s : Store)
    → (install_layer i summary n s).1 ≡ true
    → IsAccounted p s
    → IsAccounted p (install_layer i summary n s).0
unfolding install_layer
present-IsAccounted p i summary n s old h =
    let d = summary.diff_id in
    elim (Option-cases (find d s.layers)) [
      | inl f ↦ absurd (cc (rw (f, install_layer) at old))
      | inr (e, f) ↦ rw (f, install_layer) (declare-IsAccounted p i d s h)
    ]

replace_image-IsAccounted :
    (p : ℕ) (rec : ImageRecord) (n : ℕ) (s : Store)
    → IsAccounted (p + n) s
    → IsAccounted p (replace_image rec n s)
unfolding replace_image
replace_image-IsAccounted p rec n s h =
    let entry : ImageEntry = record { rec = rec; bytes = n } in
    let keyed = insert-IsKeyed rec.id entry s.images refl h.images_keyed in
    elim (Option-cases (find rec.id s.images)) [
      | inl f ↦
          rw (f, replace_image)
            (record {
              layers_distinct = h.layers_distinct;
              images_keyed = keyed;
              balance =
                  omega (arith, total-insert_new (λ x. x.bytes) rec.id entry s.images f, h.balance);
            })
      | inr (prev, f) ↦
          rw (f, replace_image)
            (record {
              layers_distinct = h.layers_distinct;
              images_keyed = keyed;
              balance =
                  omega (
                    arith,
                    total-insert_old (λ x. x.bytes) rec.id prev entry s.images f,
                    h.balance,
                  );
            })
    ]

-- An entry that is replaced by another of its id, with the difference accounted.
update-IsAccounted :
    (p : ℕ) (id : Bytes) (old new : ImageEntry) (a : ℕ) (s : Store)
    → find id s.images ≡ some old
    → new.rec.id ≡ id
    → a ≡ (s.accounted + new.bytes + 2 ^ 64 - old.bytes % 2 ^ 64) % 2 ^ 64
    → IsAccounted p s
    → IsAccounted p (record s { images = insert id new s.images; accounted = a })
update-IsAccounted p id old new a s f i e h = record {
  layers_distinct = h.layers_distinct;
  images_keyed = insert-IsKeyed id new s.images i h.images_keyed;
  balance = omega (arith, total-insert_old (λ x. x.bytes) id old new s.images f, h.balance, e);
}

set_record-IsAccounted :
    (p : ℕ) (id : Bytes) (e : ImageEntry) (rec : ImageRecord) (s : Store)
    → find id s.images ≡ some e
    → rec.id ≡ e.rec.id
    → IsAccounted p s
    → IsAccounted p (set_record id e rec s)
unfolding set_record
set_record-IsAccounted p id e rec s f i h =
    update-IsAccounted p id e (record e { rec = rec }) s.accounted s f
      (i ∙ h.images_keyed.keyed id e f) (omega (arith, h.balance)) h

resize_record-IsAccounted :
    (p : ℕ) (id : Bytes) (n : ℕ) (s : Store)
    → IsAccounted p s
    → IsAccounted p (resize_record id n s)
unfolding resize_record
resize_record-IsAccounted p id n s h = elim (Option-cases (find id s.images)) [
  | inl f ↦ rw (f, resize_record) h
  | inr (e, f) ↦
      rw (f, resize_record)
        (update-IsAccounted p id e (record e { bytes = n }) _ s f (h.images_keyed.keyed id e f)
          (omega arith) h)
]

-- From a store whose tables and accounting agree, any sequence of sections keeps the accounted
-- bytes equal, as int64, to those of the images and layers in the tables and of the reservations
-- in progress; it keeps the layers without repetition and the images under their own ids.
pub Reached-IsAccounted :
    {start : Store} {p : ℕ} {s : Store} → IsAccounted 0 start → Reached start p s → IsAccounted p s
Reached-IsAccounted a opened = a
Reached-IsAccounted a (begun e r) = begin-IsAccounted _ e _ (Reached-IsAccounted a r)
Reached-IsAccounted a (used h d r) = use_layer-IsAccounted _ h d _ (Reached-IsAccounted a r)
Reached-IsAccounted a (reserved disk t n r) =
    reserve-IsAccounted _ disk t n _ (Reached-IsAccounted a r)
Reached-IsAccounted a (released t n r) = release-IsAccounted _ t n _ (Reached-IsAccounted a r)
Reached-IsAccounted a (installed h summary n new r) =
    install_layer-IsAccounted _ h summary n _ new (Reached-IsAccounted a r)
Reached-IsAccounted a (present h summary n old r) =
    present-IsAccounted _ h summary n _ old (Reached-IsAccounted a r)
Reached-IsAccounted a (committed h rec size _ _ r) =
    replace_image-IsAccounted _ rec size _ (Reached-IsAccounted a r)
Reached-IsAccounted a (finished h e r) = finish_txn-IsAccounted _ h e _ (Reached-IsAccounted a r)
Reached-IsAccounted a (touched id e now f r) =
    set_record-IsAccounted _ id e _ _ f refl (Reached-IsAccounted a r)
Reached-IsAccounted a (upgraded id e new f r) =
    set_record-IsAccounted _ id e _ _ f (merged-id new e.rec) (Reached-IsAccounted a r)
Reached-IsAccounted a (resized id size r) =
    resize_record-IsAccounted _ id size _ (Reached-IsAccounted a r)
