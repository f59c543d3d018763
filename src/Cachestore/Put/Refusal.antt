-- ===== src/Cachestore/Put/Refusal.antt =====
-- "Refuse, don't thrash": what does not fit is refused before anything is evicted.
use layerlens.Base.{
  ℕ, ◌+◌, ◌^◌, ◌<◌, ◌≡◌, refl, leb, ap, ◌∙◌, true, false, not, none, some, Bytes, arith,
  if◌then◌else◌, ok, err, add64, sub64, lt64,
}
use layerlens.Base.Dict.{find}
use layerlens.Domain.Entry.{LayerIndex}
use layerlens.Cachestore.State.{Store, get_txn}
use layerlens.Cachestore.State.CacheError.{cache_full}
use layerlens.Cachestore.Layout.{path_component}
use layerlens.Cachestore.Lru.{Disk, pinned_bytes, refused, reserve, reserve_ceiling}
use layerlens.Cachestore.Txn.{write_staged_limit, use_layer, give_back, is_full, over_budget}
use layerlens.Cachestore.Txn.Limit.{
  IsFaultless, file_size, write_staged_limit-eq, reserve_ceiling-lt,
}
use layerlens.Cachestore.Put.{PutIo, put_indexed, put_new, put_unless_used, put_index, put_layer}

-- One byte more than the ceiling is refused.
past_ceiling :
    (e o : ℕ)
    → e + 1 < 2 ^ 63
    → o + 1 < 2 ^ 63
    → (not (lt64 0 (add64 (if lt64 (sub64 e o) 0 then 0 else sub64 e o) 1)) ≡ false)
      × (lt64 e (add64 o (add64 (if lt64 (sub64 e o) 0 then 0 else sub64 e o) 1)) ≡ true)
past_ceiling e o h k = ground arith

-- The cap less the pinned bytes, and the transaction's own bytes, are int64 that are not negative,
-- and less than the greatest.
abbrev pub IsModest : ℕ → Store → Type 0
IsModest h s =
    (sub64 s.max (pinned_bytes s) + 1 < 2 ^ 63) × ((get_txn s.txns h).own_bytes + 1 < 2 ^ 63)

over_budget-refuses :
    (disk : Disk) (h : ℕ) (s : Store)
    → IsModest h s
    → over_budget disk h cache_full s ≡ (s, err cache_full)
unfolding over_budget reserve_ceiling refused reserve is_full give_back
over_budget-refuses disk h s m =
    let a = past_ceiling (sub64 s.max (pinned_bytes s)) (get_txn s.txns h).own_bytes m.0 m.1 in
    rw (a.0, a.1) refl

longer : (size limit : ℕ) → limit < size → leb size limit ≡ false
longer size limit h = ground arith

-- An open transaction puts an index under a well-formed digest that the store does not hold, and
-- the index file meets no fault of the disk but is longer than the ceiling: the put is refused as
-- ErrCacheFull, and the store is left exactly as it was, so that nothing was evicted for it. The
-- cap less the pinned bytes, and the transaction's own bytes, are int64 that are not negative and
-- less than the greatest.
pub put_layer-refuses :
    (disk : Disk) (h : ℕ) (io : PutIo) (idx : LayerIndex) (s : Store) (name : Bytes)
    → (get_txn s.txns h).done ≡ false
    → path_component idx.diff_id ≡ ok name
    → find idx.diff_id s.layers ≡ none
    → IsModest h s
    → IsFaultless io.index_file
    → reserve_ceiling h s < file_size io.index_file.chunks
    → put_layer disk h io (some idx) s ≡ (s, err cache_full)
unfolding put_layer put_index put_new put_unless_used put_indexed use_layer
put_layer-refuses disk h io idx s name o f absent m z long =
    let limit = reserve_ceiling h s in
    let size = file_size io.index_file.chunks in
    let w : write_staged_limit limit io.index_file ≡ err cache_full =
      write_staged_limit-eq limit io.index_file (reserve_ceiling-lt h s) z
      ∙ ap (λ b. if b then ok size else err cache_full) (longer size limit long) in
    rw (o, f, absent, put_index, use_layer, w) (over_budget-refuses disk h s m)
