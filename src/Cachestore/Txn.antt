-- ===== src/Cachestore/Txn.antt =====
-- internal/cachestore/store.go: ingest transactions. A transaction stages its files, reserves their
-- bytes, renames them into place and installs the entry; a mutex per layer digest keeps two puts of
-- a layer apart. What the file system does comes in as an argument.
pub mod Limit
use layerlens.Base.{
  ℕ, zero, suc, ◌+◌, ◌-◌, ◌^◌, Bool, true, false, Option, none, some, List, [], ◌∷◌, ◌++◌, Bytes,
  length, set, ◌==◌, if◌then◌else◌, contains, Result, ok, err, ◌>>=◌, ◌>>◌, add64, sub64, lt64,
}
use layerlens.Base.Dict.{find, insert}
use layerlens.Domain.Entry.{LayerIndex}
use layerlens.Domain.Image.{Layer, ImageRecord}
use layerlens.Cachestore.State.{
  CacheError, LayerSummary, LayerEntry, ImageEntry, Txn, Store, get_txn,
}
use layerlens.Cachestore.State.CacheError.{
  cache_full, finished, no_index, no_record, invalid_digest, undeclared, other,
}
use layerlens.Cachestore.Layout.{LayoutError, path_component, layer_dir_for, image_path_for}
use layerlens.Cachestore.Lru.{Disk, update_txn, reserve, reserve_ceiling, release}

-- What a staged write meets: an error of opening the file, the lengths of the chunks that reach it
-- with the error of each, and an error of syncing or closing it.
pub record Staging : Type 0 where
  pub open_error : Option Bytes
  pub chunks : List (ℕ × Option Bytes)
  pub close_error : Option Bytes

-- An error of the operating system ends a step.
abbrev pub checked : Option Bytes → Result CacheError (Unit {0})
checked none = ok tt
checked (some e) = err (other e)

-- The chunks of a file through the budget writer, and without it.
unfoldable pub budget_write : ℕ → List (ℕ × Option Bytes) → Result CacheError ℕ
budget_write remaining [] = ok 0
budget_write remaining ((n, e) ∷ cs) =
    let rest = budget_write (sub64 remaining n) cs in
    if lt64 remaining n then err cache_full else do checked e; m ← rest; ok (n + m)

unfoldable pub plain_write : List (ℕ × Option Bytes) → Result CacheError ℕ
plain_write [] = ok 0
plain_write ((n, e) ∷ cs) = do checked e; m ← plain_write cs; ok (n + m)

-- A negative limit is none. The size is that of the file, which the write created or emptied.
unfoldable pub write_staged_limit : ℕ → Staging → Result CacheError ℕ
unfolding budget_write plain_write
write_staged_limit limit f = do
  checked f.open_error
  n ← (if lt64 limit 0 then plain_write f.chunks else budget_write limit f.chunks)
  checked f.close_error
  ok n

unfoldable pub begin : Option Bytes → Store → Store × Result CacheError ℕ
begin (some e) s = (s, err (other e))
begin none s =
    let t : Txn = record { layers = []; own_bytes = 0; done = false } in
    (record s { txns = s.txns ++ t ∷ [] }, ok (length s.txns))

-- `t.layers[d] = struct{}{}`
abbrev pub declare : ℕ → Bytes → Store → Store
declare h d s =
    update_txn h (λ t. record t { layers = if contains d t.layers then t.layers else d ∷ t.layers })
      s

unfoldable pub use_layer : ℕ → Bytes → Store → Store × Option LayerSummary
use_layer h d s = elim (find d s.layers) [
  | none ↦ (s, none)
  | some e ↦ (declare h d s, some e.summary)
]

unfoldable pub is_full : CacheError → Bool
is_full cache_full = true
is_full _ = false

-- A reservation that was granted is given back, and the first error stays.
unfoldable pub give_back :
    ℕ → ℕ → CacheError → Store × Result CacheError (Unit {0}) → Store × Result CacheError (Unit {0})
give_back h n e (s, err x) = (s, err x)
give_back h n e (s, ok _) = (release (some h) n s, err e)

unfoldable pub over_budget : Disk → ℕ → CacheError → Store → Store × Result CacheError (Unit {0})
unfolding is_full give_back
over_budget disk h e s =
    let n = add64 (reserve_ceiling h s) 1 in
    if is_full e then give_back h n e (reserve disk (some h) n s) else (s, err e)
