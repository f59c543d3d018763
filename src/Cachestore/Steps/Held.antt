-- ===== src/Cachestore/Steps/Held.antt =====
-- What open transactions hold, in the sections that only change transactions or the accounting.
use layerlens.Base.{
  ℕ, zero, suc, ◌≡◌, refl, sym, ap, ◌∙◌, ◌⊎◌, Bool, true, false, not, ◌&&◌, ◌||◌, Option, none,
  some, List, [], ◌∷◌, ◌++◌, Bytes, arith, set, length, Bool-cases, Option-cases, inl, inr,
  if◌then◌else◌, if_holds, Result, bytes_eq, bytes_eq→eq, contains,
}
use layerlens.Base.Dict.{find}
use layerlens.Cachestore.State.{CacheError, Txn, Store, get_txn}
use layerlens.Cachestore.Records.{has_layer}
use layerlens.Cachestore.Lru.{
  Disk, any_image_names, any_txn_holds, layer_referenced, own, charge, reserve, release,
  is_not_positive,
}
use layerlens.Cachestore.Lru.Accounts.{IsAccounted, reserve_holds}
use layerlens.Cachestore.Lru.Closed.{IsClosed, make_room-IsClosed}
use layerlens.Cachestore.Txn.{begin, declare, use_layer}
use layerlens.Cachestore.Commit.{finish_txn}

-- An open transaction holds a layer.
abbrev pub Holds : Bytes → Txn → Type 0
Holds d t = (not t.done && contains d t.layers) ≡ true

pub any_txn_holds-get :
    (d : Bytes) (ts : List Txn) (i : ℕ) → Holds d (get_txn ts i) → any_txn_holds d ts ≡ true
unfolding any_txn_holds
any_txn_holds-get d [] i h = absurd (ground (arith, h))
any_txn_holds-get d (t ∷ ts) zero h = ground arith
any_txn_holds-get d (t ∷ ts) (suc i) h = ground (arith, any_txn_holds-get d ts i h)

any_txn_holds-set :
    (d : Bytes) (ts : List Txn) (i : ℕ) (t : Txn)
    → any_txn_holds d (set ts i t) ≡ true
    → (any_txn_holds d ts ≡ true) ⊎ Holds d t
unfolding any_txn_holds
any_txn_holds-set d [] i t h = inl h
any_txn_holds-set d (u ∷ ts) zero t h = elim (Bool-cases (not t.done && contains d t.layers)) [
  | inl p ↦ inr p
  | inr p ↦ inl (ground arith)
]
any_txn_holds-set d (u ∷ ts) (suc i) t h = elim (Bool-cases (not u.done && contains d u.layers)) [
  | inl p ↦ inl (ground arith)
  | inr p ↦ elim (any_txn_holds-set d ts i t (ground arith)) [
    | inl q ↦ inl (ground arith)
    | inr q ↦ inr q
  ]
]

any_txn_holds-append :
    (d : Bytes) (ts : List Txn) (t : Txn)
    → t.layers ≡ []
    → any_txn_holds d (ts ++ t ∷ []) ≡ any_txn_holds d ts
unfolding any_txn_holds contains
any_txn_holds-append d [] t e = rw e (ground arith)
any_txn_holds-append d (u ∷ ts) t e =
    ap (λ b. (not u.done && contains d u.layers) || b) (any_txn_holds-append d ts t e)

-- A store whose transactions hold no more is closed if it was.
fewer_held :
    (s t : Store)
    → t.layers ≡ s.layers
    → t.images ≡ s.images
    → ((d : Bytes) → any_txn_holds d t.txns ≡ true → has_layer s d ≡ true)
    → IsClosed s
    → IsClosed t
unfolding layer_referenced has_layer
fewer_held s t l i f h d r = elim (Bool-cases (any_image_names d s.images)) [
  | inl p ↦ rw (l, has_layer) (h d (ground arith))
  | inr p ↦ rw (l, has_layer) (f d (ground (arith, rw i at r)))
]

pub held_layer :
    (s : Store) (d : Bytes) → IsClosed s → any_txn_holds d s.txns ≡ true → has_layer s d ≡ true
unfolding layer_referenced
held_layer s d h r = h d (ground arith)

pub begin-IsClosed : (e : Option Bytes) (s : Store) → IsClosed s → IsClosed (begin e s).0
unfolding begin
begin-IsClosed (some e) s h = h
begin-IsClosed none s h =
    fewer_held s _ refl refl
      (λ d r. held_layer s d h (sym (any_txn_holds-append d s.txns _ refl) ∙ r)) h

-- A transaction that changes, and then holds only what is there.
set_txn-IsClosed :
    (i : ℕ) (t : Txn) (s : Store)
    → ((d : Bytes) → Holds d t → has_layer s d ≡ true)
    → IsClosed s
    → IsClosed (record s { txns = set s.txns i t })
set_txn-IsClosed i t s f h =
    fewer_held s (record s { txns = set s.txns i t }) refl refl
      (λ d r. elim (any_txn_holds-set d s.txns i t r) [
        | inl q ↦ held_layer s d h q
        | inr q ↦ f d q
      ])
      h

own-IsClosed : (t : Option ℕ) (f : ℕ → ℕ) (s : Store) → IsClosed s → IsClosed (own t f s)
own-IsClosed none f s h = h
own-IsClosed (some i) f s h =
    let t = get_txn s.txns i in
    set_txn-IsClosed i (record t { own_bytes = f t.own_bytes }) s
      (λ d q. held_layer s d h (any_txn_holds-get d s.txns i q)) h

charge-IsClosed : (t : Option ℕ) (n : ℕ) (s : Store) → IsClosed s → IsClosed (charge t n s)
unfolding charge layer_referenced has_layer
charge-IsClosed t n s h = own-IsClosed t _ _ h

pub release-IsClosed : (t : Option ℕ) (n : ℕ) (s : Store) → IsClosed s → IsClosed (release t n s)
unfolding release layer_referenced has_layer
release-IsClosed t n s h =
    if_holds IsClosed (is_not_positive n) _ _ (λ _. h) (λ _. own-IsClosed t _ _ h)

pub reserve-IsClosed :
    (p : ℕ) (disk : Disk) (t : Option ℕ) (n : ℕ) (s : Store)
    → IsAccounted p s
    → IsClosed s
    → IsClosed (reserve disk t n s).0
reserve-IsClosed p disk t n s a h =
    let room = make_room-IsClosed p disk (length s.images) n s a h in
    reserve_holds (λ r. IsClosed r.0) disk t n s (λ _. h) (λ _. h) room
      (λ _ _. charge-IsClosed t n _ room)

pub finish_txn-IsClosed :
    (i : ℕ) (e : Option Bytes) (s : Store) → IsClosed s → IsClosed (finish_txn i e s).0
unfolding finish_txn
finish_txn-IsClosed i e s h =
    if_holds (λ (r : Store × Result CacheError (Unit {0})). IsClosed r.0) (get_txn s.txns i).done _
      _ (λ _. h)
      (λ _. set_txn-IsClosed i (record (get_txn s.txns i) { done = true }) s (λ d q. absurd (cc)) h)

declared_new :
    (b : Bool) (d j : Bytes) (ls : List Bytes)
    → (b && contains j (if contains d ls then ls else d ∷ ls)) ≡ true
    → (b && contains j ls) ≡ false
    → bytes_eq d j ≡ true
unfolding contains
declared_new b d j ls q new = ground arith

-- A layer that is there may be declared.
pub declare-IsClosed :
    (i : ℕ) (d : Bytes) (s : Store) → has_layer s d ≡ true → IsClosed s → IsClosed (declare i d s)
declare-IsClosed i d s there h =
    let t = get_txn s.txns i in
    let ls = if contains d t.layers then t.layers else d ∷ t.layers in
    set_txn-IsClosed i (record t { layers = ls }) s
      (λ j q. elim (Bool-cases (not t.done && contains j t.layers)) [
        | inl old ↦ held_layer s j h (any_txn_holds-get j s.txns i old)
        | inr new ↦ rw (← bytes_eq→eq d j (declared_new (not t.done) d j t.layers q new)) there
      ])
      h

pub use_layer-IsClosed : (i : ℕ) (d : Bytes) (s : Store) → IsClosed s → IsClosed (use_layer i d s).0
unfolding use_layer has_layer
use_layer-IsClosed i d s h = elim (Option-cases (find d s.layers)) [
  | inl f ↦ rw (f, use_layer) h
  | inr (e, f) ↦ rw (f, use_layer) (declare-IsClosed i d s (rw (f, has_layer) refl) h)
]
