-- ===== src/Cachestore/Steps/Runs.antt =====
-- The operations of the store as runs of their sections.
use layerlens.Base.{
  ℕ, zero, suc, ◌+◌, ◌^◌, ◌≤◌, ◌<◌, ◌≡◌, refl, sym, ap, ◌∙◌, Option, none, some, List, [], ◌∷◌,
  arith, set, length, Bool-cases, inl, inr, if_holds, Result, ok, err, Result-cases, add64, sub64,
}
use layerlens.Domain.Entry.{LayerIndex}
use layerlens.Cachestore.State.{CacheError, LayerSummary, Txn, Store, get_txn}
use layerlens.Cachestore.Layout.{path_component}
use layerlens.Cachestore.Lru.{
  Disk, forget_image, forget_layer, make_room, own, charge, reserve, reserve_ceiling,
}
use layerlens.Cachestore.Lru.Victim.{IsKeyed}
use layerlens.Cachestore.Lru.Rule.{IsKept, make_room-holds}
use layerlens.Cachestore.Lru.Accounts.{
  IsAccounted, erase-IsKeyed, charged, charged_size, granted, reserve_holds,
}
use layerlens.Cachestore.Txn.{use_layer, is_full, give_back, over_budget}
use layerlens.Cachestore.Txn.Limit.{HasSizes, write_staged_limit-le, reserve_ceiling-lt}
use layerlens.Cachestore.Put.{
  PutIo, LayerDoc, layer_doc, layer_summary_of, install_layer, put_committed, put_reserved,
  put_staged, put_indexed, put_new, put_unless_used, put_index, put_layer,
}
use layerlens.Cachestore.Steps.{Reached}
use layerlens.Cachestore.Steps.Reached.{used, reserved, released, installed, present}

-- Eviction leaves the transactions alone, and a reservation only counts its bytes.
abbrev HasTxns : List Txn → Store → Type 0
HasTxns ts s = IsKeyed s.images × (s.txns ≡ ts)

HasTxns-IsKept : (ts : List Txn) → IsKept (HasTxns ts)
unfolding forget_image forget_layer
HasTxns-IsKept ts = record {
  drops = record { moved = λ s n h. h; forgets_layer = λ d e s f u h. h };
  keyed = λ s h. h.0;
  forgets_image = λ v s f u h. (erase-IsKeyed v.rec.id s.images h.0, h.1);
}

-- Two transactions agree but for the bytes that they own.
abbrev pub Agrees : Txn → Txn → Type 0
Agrees t u = (t.layers ≡ u.layers) × (t.done ≡ u.done)

set_own-Agrees :
    (ts : List Txn) (i h n : ℕ)
    → Agrees (get_txn (set ts i (record (get_txn ts i) { own_bytes = n })) h) (get_txn ts h)
set_own-Agrees [] i h n = (refl, refl)
set_own-Agrees (t ∷ ts) zero zero n = (refl, refl)
set_own-Agrees (t ∷ ts) zero (suc h) n = (refl, refl)
set_own-Agrees (t ∷ ts) (suc i) zero n = (refl, refl)
set_own-Agrees (t ∷ ts) (suc i) (suc h) n = set_own-Agrees ts i h n

own-Agrees :
    (t : Option ℕ) (f : ℕ → ℕ) (s : Store) (h : ℕ)
    → Agrees (get_txn (own t f s).txns h) (get_txn s.txns h)
own-Agrees none f s h = (refl, refl)
own-Agrees (some i) f s h = set_own-Agrees s.txns i h _

charge-Agrees :
    (t : Option ℕ) (n : ℕ) (s : Store) (h : ℕ)
    → Agrees (get_txn (charge t n s).txns h) (get_txn s.txns h)
unfolding charge
charge-Agrees t n s h =
    own-Agrees t (λ b. add64 b n) (record s { accounted = add64 s.accounted n }) h

pub reserve-Agrees :
    (disk : Disk) (t : Option ℕ) (n : ℕ) (s : Store) (h : ℕ)
    → IsKeyed s.images
    → Agrees (get_txn (reserve disk t n s).0.txns h) (get_txn s.txns h)
reserve-Agrees disk t n s h k =
    let room = make_room disk (length s.images) n s in
    let same : room.txns ≡ s.txns =
      (make_room-holds (HasTxns s.txns) (HasTxns-IsKept s.txns) disk (length s.images) n s
        (k, refl)).1 in
    reserve_holds (λ r. Agrees (get_txn r.0.txns h) (get_txn s.txns h)) disk t n s
      (λ _. (refl, refl)) (λ _. (refl, refl)) (rw same (refl, refl))
      (λ _ _.
        let c = charge-Agrees t n room h in
        (c.0 ∙ ap (λ l. (get_txn l h).layers) same, c.1 ∙ ap (λ l. (get_txn l h).done) same))

-- The reservations in progress, counted in another way.
pub recount : {start : Store} (p q : ℕ) (s : Store) → p ≡ q → Reached start p s → Reached start q s
recount {start} p q s e r = rw (← e) r

abbrev pub HasPutSizes : PutIo → Type 0
HasPutSizes io = HasSizes io.index_file × ((doc : LayerDoc) → HasSizes (io.doc_file doc))

module _ {start : Store} {p : ℕ} (a : IsAccounted 0 start) (disk : Disk) (h : ℕ) where
  give_back-Reached :
      (n : ℕ) (e : CacheError) (r : Store × Result CacheError (Unit {0}))
      → Reached start (p + granted r.1 n) r.0
      → Reached start p (give_back h n e r).0
  unfolding give_back
  give_back-Reached n e (s, err x) r = recount (p + 0) p s (omega arith) r
  give_back-Reached n e (s, ok _) r = released (some h) n r

  pub over_budget-Reached :
      (e : CacheError) (s : Store) → Reached start p s → Reached start p (over_budget disk h e s).0
  unfolding over_budget
  over_budget-Reached e s r =
      let n = add64 (reserve_ceiling h s) 1 in
      if_holds (λ (r : Store × Result CacheError (Unit {0})). Reached start p r.0) (is_full e) _ _
        (λ _. give_back-Reached n e (reserve disk (some h) n s) (reserved disk (some h) n r))
        (λ _. r)

  put_committed-Reached :
      (doc : LayerDoc) (n : ℕ) (c : Result CacheError (Unit {0})) (s : Store)
      → n < 2 ^ 63
      → Reached start (p + n) s
      → Reached start p (put_committed h doc n c s).0
  unfolding put_committed
  put_committed-Reached doc n (err e) s z r =
      released (some h) n
        (recount (p + n) (p + charged n) s (ap (λ m. p + m) (sym (charged_size n z))) r)
  put_committed-Reached doc n (ok _) s z r =
      let summary = layer_summary_of doc n in
      elim (Bool-cases (install_layer h summary n s).1) [
        | inl dup ↦ rw dup (
            released (some h) n (
              recount (p + n) (p + charged n) _ (ap (λ m. p + m) (sym (charged_size n z)))
                (present h summary n dup r)))
        | inr new ↦ rw new (installed h summary n new r)
      ]

  put_reserved-Reached :
      (io : PutIo) (doc : LayerDoc) (n : ℕ) (r : Store × Result CacheError (Unit {0}))
      → n < 2 ^ 63
      → Reached start (p + granted r.1 n) r.0
      → Reached start p (put_reserved h io doc n r).0
  unfolding put_reserved
  put_reserved-Reached io doc n (s, err e) z r = recount (p + 0) p s (omega arith) r
  put_reserved-Reached io doc n (s, ok _) z r =
      put_committed-Reached doc n _ s z
        (recount (p + charged n) (p + n) s (ap (λ m. p + m) (charged_size n z)) r)

  put_staged-Reached :
      (io : PutIo) (doc : LayerDoc) (c : Result CacheError ℕ) (s : Store)
      → ((n : ℕ) → c ≡ ok n → add64 doc.index_bytes n < 2 ^ 63)
      → Reached start p s
      → Reached start p (put_staged disk h io doc c s).0
  unfolding put_staged
  put_staged-Reached io doc (err e) s z r = over_budget-Reached e s r
  put_staged-Reached io doc (ok n) s z r =
      let bytes = add64 doc.index_bytes n in
      put_reserved-Reached io doc bytes (reserve disk (some h) bytes s) (z n refl)
        (reserved disk (some h) bytes r)

  put_indexed-Reached :
      (io : PutIo) (idx : LayerIndex) (ceiling : ℕ) (c : Result CacheError ℕ) (s : Store)
      → HasPutSizes io
      → ceiling < 2 ^ 63
      → ((n : ℕ) → c ≡ ok n → n ≤ ceiling)
      → Reached start p s
      → Reached start p (put_indexed disk h io idx ceiling c s).0
  unfolding put_indexed layer_doc
  put_indexed-Reached io idx ceiling (err e) s z l b r = over_budget-Reached e s r
  put_indexed-Reached io idx ceiling (ok i) s z l b r =
      let le : i ≤ ceiling = b i refl in
      put_staged-Reached io (layer_doc idx i) _ s
        (λ n e.
          let f = io.doc_file (layer_doc idx i) in
          let rest =
            write_staged_limit-le (sub64 ceiling i) n f (z.1 (layer_doc idx i)) (omega arith) e in
          omega (arith, rest))
        r

  put_new-Reached :
      (io : PutIo) (idx : LayerIndex) (s : Store)
      → HasPutSizes io
      → Reached start p s
      → Reached start p (put_new disk h io idx s).0
  unfolding put_new
  put_new-Reached io idx s z r =
      let l = reserve_ceiling-lt h s in
      put_indexed-Reached io idx (reserve_ceiling h s) _ s z l
        (λ n e. write_staged_limit-le (reserve_ceiling h s) n io.index_file z.0 l e) r

  put_unless_used-Reached :
      (io : PutIo) (idx : LayerIndex) (u : Store × Option LayerSummary)
      → HasPutSizes io
      → Reached start p u.0
      → Reached start p (put_unless_used disk h io idx u).0
  unfolding put_unless_used
  put_unless_used-Reached io idx (s, some _) z r = r
  put_unless_used-Reached io idx (s, none) z r = put_new-Reached io idx s z r

  put_index-Reached :
      (io : PutIo) (o : Option LayerIndex) (s : Store)
      → HasPutSizes io
      → Reached start p s
      → Reached start p (put_index disk h io o s).0
  unfolding put_index
  put_index-Reached io none s z r = r
  put_index-Reached io (some idx) s z r = elim (Result-cases (path_component idx.diff_id)) [
    | inl (e, f) ↦ rw (f, put_index) r
    | inr (c, f) ↦
        rw (f, put_index)
          (put_unless_used-Reached io idx (use_layer h idx.diff_id s) z (used h idx.diff_id r))
  ]

  pub put_layer-Reached :
      (io : PutIo) (o : Option LayerIndex) (s : Store)
      → HasPutSizes io
      → Reached start p s
      → Reached start p (put_layer disk h io o s).0
  unfolding put_layer
  put_layer-Reached io o s z r =
      if_holds (λ (r : Store × Result CacheError (Unit {0})). Reached start p r.0)
        (get_txn s.txns h).done _ _ (λ _. r) (λ _. put_index-Reached io o s z r)
