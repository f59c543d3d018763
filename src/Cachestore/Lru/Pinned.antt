-- ===== src/Cachestore/Lru/Pinned.antt =====
-- What no reservation evicts: pinned images with their layers, and the layers that open
-- transactions have declared.
use layerlens.Base.{
  ℕ, List, [], ◌∷◌, add64, ◌≡◌, refl, sym, ap, ◌∙◌, true, false, Option, none, some, Bytes, arith,
  length, Bool-cases, inl, inr, bytes_eq, bytes_eq→eq,
}
use layerlens.Base.Dict.{Dict, find, find-erase}
use layerlens.Cachestore.State.{LayerEntry, ImageEntry, Txn, Store}
use layerlens.Cachestore.Lru.{
  Disk, names_layer, any_image_names, any_txn_holds, layer_referenced, forget_image, forget_layer,
  make_room, own, charge, reserve,
}
use layerlens.Cachestore.Lru.Rule.{IsKept, make_room-holds}
use layerlens.Cachestore.Lru.Accounts.{IsAccounted, IsAccounted-IsKept, reserve_holds}

-- A layer that is forgotten is not one that is depended on.
find-forget_layer :
    (p : ℕ) (d j : Bytes) (n : ℕ) (s : Store)
    → IsAccounted p s
    → layer_referenced s j ≡ false
    → layer_referenced s d ≡ true
    → find d (forget_layer j n s).layers ≡ find d s.layers
unfolding forget_layer
find-forget_layer p d j n s a u r = elim (Bool-cases (bytes_eq j d)) [
  | inl e ↦ absurd (cc (rw (bytes_eq→eq j d e) at u))
  | inr e ↦ rw (find-erase j d s.layers a.layers_distinct, e) refl
]

pub any_image_names-find :
    (d k : Bytes) (e : ImageEntry) (es : Dict ImageEntry)
    → find k es ≡ some e
    → names_layer d e.rec.layers ≡ true
    → any_image_names d es ≡ true
unfolding any_image_names find
any_image_names-find d k e [] f r = absurd (ground (arith, f))
any_image_names-find d k e ((j, x) ∷ es) f r = ground (arith, any_image_names-find d k e es)

any_image_names-found :
    (d k : Bytes) (e : ImageEntry) (s : Store)
    → find k s.images ≡ some e
    → names_layer d e.rec.layers ≡ true
    → layer_referenced s d ≡ true
unfolding layer_referenced
any_image_names-found d k e s f r = ground (arith, any_image_names-find d k e s.images f r)

module _ (p : ℕ) (k : Bytes) (e : ImageEntry) (d : Bytes) (o : Option LayerEntry) where
  abbrev Keeps : Store → Type 0
  Keeps s = IsAccounted p s × (find k s.images ≡ some e) × (find d s.layers ≡ o)

  still_there :
      (v : ImageEntry) (s : Store)
      → find v.rec.id s.images ≡ some v
      → v.rec.pinned ≡ false
      → e.rec.pinned ≡ true
      → IsAccounted p s
      → find k s.images ≡ some e
      → find k (forget_image v s).images ≡ some e
  unfolding forget_image
  still_there v s l u pinned a f = elim (Bool-cases (bytes_eq v.rec.id k)) [
    | inl q ↦
        let same : v ≡ e =
          ground (arith, sym l ∙ (ap (λ i. find i s.images) (bytes_eq→eq v.rec.id k q) ∙ f)) in
        absurd (cc (ap (λ (x : ImageEntry). x.rec.pinned) same))
    | inr q ↦ rw (find-erase v.rec.id k s.images a.images_keyed.distinct, q) f
  ]

  Keeps-IsKept : e.rec.pinned ≡ true → names_layer d e.rec.layers ≡ true → IsKept Keeps
  unfolding forget_image forget_layer
  Keeps-IsKept pinned named = record {
    drops = record {
      moved = λ s n (a, f, g). ((IsAccounted-IsKept p).drops.moved s n a, f, g);
      forgets_layer = λ j x s l u (a, f, g). (
        (IsAccounted-IsKept p).drops.forgets_layer j x s l u a,
        f,
        find-forget_layer p d j x.bytes s a u (any_image_names-found d k e s f named) ∙ g,
      );
    };
    keyed = λ s (a, f, g). a.images_keyed;
    forgets_image = λ v s l u (a, f, g).
        ((IsAccounted-IsKept p).forgets_image v s l u a, still_there v s l u pinned a f, g);
  }

own-tables :
    (t : Option ℕ) (f : ℕ → ℕ) (s : Store)
    → ((own t f s).images ≡ s.images) × ((own t f s).layers ≡ s.layers)
own-tables none f s = (refl, refl)
own-tables (some i) f s = (refl, refl)

charge-tables :
    (t : Option ℕ) (n : ℕ) (s : Store)
    → ((charge t n s).images ≡ s.images) × ((charge t n s).layers ≡ s.layers)
unfolding charge
charge-tables t n s = own-tables t (λ b. add64 b n) (record s { accounted = add64 s.accounted n })

abbrev Stays : Bytes → ImageEntry → Bytes → Option LayerEntry → Store → Type 0
Stays k e d o s = (find k s.images ≡ some e) × (find d s.layers ≡ o)

-- On a store whose tables and accounting agree, no reservation, whatever it evicts and however it
-- ends, touches the entry of a pinned image or the entry of a layer that the image names.
pub reserve_keeps_pinned :
    (p : ℕ) (disk : Disk) (t : Option ℕ) (n : ℕ) (s : Store) (k d : Bytes) (e : ImageEntry)
    → IsAccounted p s
    → find k s.images ≡ some e
    → e.rec.pinned ≡ true
    → names_layer d e.rec.layers ≡ true
    → (find k (reserve disk t n s).0.images ≡ some e)
      × (find d (reserve disk t n s).0.layers ≡ find d s.layers)
reserve_keeps_pinned p disk t n s k d e a f pinned named =
    let o = find d s.layers in
    let room = make_room disk (length s.images) n s in
    let h : Keeps p k e d o room =
      make_room-holds (Keeps p k e d o) (Keeps-IsKept p k e d o pinned named) disk (length s.images)
        n s (a, f, refl) in
    let c = charge-tables t n room in
    reserve_holds (λ r. Stays k e d o r.0) disk t n s (λ _. (f, refl)) (λ _. (f, refl)) (h.1, h.2)
      (λ _ _. (ap (find k) c.0 ∙ h.1, ap (find d) c.1 ∙ h.2))

abbrev KeepsHeld : ℕ → List Txn → Bytes → Option LayerEntry → Store → Type 0
KeepsHeld p ts d o s = IsAccounted p s × (s.txns ≡ ts) × (find d s.layers ≡ o)

held_referenced :
    (ts : List Txn) (d : Bytes) (s : Store)
    → any_txn_holds d ts ≡ true
    → s.txns ≡ ts
    → layer_referenced s d ≡ true
unfolding layer_referenced
held_referenced ts d s h e = ground (arith, ap (any_txn_holds d) e, h)

KeepsHeld-IsKept :
    (p : ℕ) (ts : List Txn) (d : Bytes) (o : Option LayerEntry)
    → any_txn_holds d ts ≡ true
    → IsKept (KeepsHeld p ts d o)
unfolding forget_image forget_layer
KeepsHeld-IsKept p ts d o h = record {
  drops = record {
    moved = λ s n (a, f, g). ((IsAccounted-IsKept p).drops.moved s n a, f, g);
    forgets_layer = λ j x s l u (a, f, g). (
      (IsAccounted-IsKept p).drops.forgets_layer j x s l u a,
      f,
      find-forget_layer p d j x.bytes s a u (held_referenced ts d s h f) ∙ g,
    );
  };
  keyed = λ s (a, f, g). a.images_keyed;
  forgets_image = λ v s l u (a, f, g). ((IsAccounted-IsKept p).forgets_image v s l u a, f, g);
}

-- On a store whose tables and accounting agree, no reservation touches the entry of a layer that a
-- transaction in flight has put or used.
pub reserve_keeps_declared :
    (p : ℕ) (disk : Disk) (t : Option ℕ) (n : ℕ) (s : Store) (d : Bytes)
    → IsAccounted p s
    → any_txn_holds d s.txns ≡ true
    → find d (reserve disk t n s).0.layers ≡ find d s.layers
reserve_keeps_declared p disk t n s d a h =
    let o = find d s.layers in
    let room = make_room disk (length s.images) n s in
    let k : KeepsHeld p s.txns d o room =
      make_room-holds (KeepsHeld p s.txns d o) (KeepsHeld-IsKept p s.txns d o h) disk
        (length s.images) n s (a, refl, refl) in
    reserve_holds (λ r. find d r.0.layers ≡ o) disk t n s (λ _. refl) (λ _. refl) k.2
      (λ _ _. ap (find d) (charge-tables t n room).1 ∙ k.2)
