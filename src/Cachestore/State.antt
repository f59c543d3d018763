-- ===== src/Cachestore/State.antt =====
-- internal/cachestore/store.go and layout.go: the tables that the store keeps in memory, and the
-- open transactions. Byte counts are int64 patterns.
use layerlens.Base.{ℕ, zero, suc, ◌+◌, Bool, true, List, [], ◌∷◌, Bytes}
use layerlens.Base.Dict.{Dict, total}
use layerlens.Domain.Image.{ImageRecord}

-- The errors of the store; `other` is an error of the operating system or of a library.
pub data CacheError : Type 0 where
  cache_full finished no_index no_record invalid_digest not_indexed not_found cancelled : CacheError
  undeclared : Bytes → CacheError
  other : Bytes → CacheError

pub record LayerSummary : Type 0 where
  pub diff_id : Bytes
  pub changeset_digest : Bytes
  pub content_bytes : ℕ
  pub entry_count : ℕ
  pub index_bytes : ℕ
  pub warnings : List Bytes

pub record LayerEntry : Type 0 where
  pub summary : LayerSummary
  pub bytes : ℕ

pub record ImageEntry : Type 0 where
  pub rec : ImageRecord
  pub bytes : ℕ

-- One ingest in progress. `done` is set when the transaction leaves the set of those in flight.
pub record Txn : Type 0 where
  pub layers : List Bytes
  pub own_bytes : ℕ
  pub done : Bool

-- `txns` holds the transactions in the order of their Begin, and a transaction is named by its
-- place there; those in flight are those that are not done.
pub record Store : Type 0 where
  pub root : Bytes
  pub max : ℕ
  pub debounce : ℕ
  pub layers : Dict LayerEntry
  pub images : Dict ImageEntry
  pub accounted : ℕ
  pub txns : List Txn
  pub trash_seq : ℕ

-- A place that no Begin returned holds no transaction in flight.
abbrev pub closed_txn : Txn
closed_txn = record { layers = []; own_bytes = 0; done = true }

abbrev pub get_txn : List Txn → ℕ → Txn
get_txn [] h = closed_txn
get_txn (t ∷ ts) zero = t
get_txn (t ∷ ts) (suc h) = get_txn ts h

-- The bytes that the tables account for.
abbrev pub held : Store → ℕ
held s = total (λ e. e.bytes) s.images + total (λ e. e.bytes) s.layers
