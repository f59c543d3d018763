-- ===== src/Cachestore/Commit.antt =====
-- internal/cachestore/store.go: Commit, finish and Abort.
use layerlens.Base.{
  ℕ, true, Option, none, some, List, [], ◌∷◌, Bytes, ◌==◌, if◌then◌else◌, contains, Result, ok, err,
  sub64,
}
use layerlens.Base.Dict.{find, insert}
use layerlens.Domain.Image.{Layer, ImageRecord}
use layerlens.Cachestore.State.{CacheError, ImageEntry, Store, get_txn}
use layerlens.Cachestore.State.CacheError.{finished, no_record, invalid_digest, undeclared}
use layerlens.Cachestore.Layout.{image_path_for}
use layerlens.Cachestore.Lru.{Disk, update_txn, reserve, reserve_ceiling, release}
use layerlens.Cachestore.Txn.{Staging, checked, write_staged_limit, over_budget}

-- What a commit meets: the clock, the write of the record, an error of its rename, and an error of
-- removing the staging directory.
pub record CommitIo : Type 0 where
  pub now : ℕ
  pub record_file : ImageRecord → Staging
  pub publish_error : Option Bytes
  pub clean_error : Option Bytes

-- The first layer that the transaction has neither put nor used.
unfoldable pub first_undeclared : List Bytes → List Layer → Option Bytes
first_undeclared declared [] = none
first_undeclared declared (l ∷ ls) =
    if contains l.diff_id declared then first_undeclared declared ls else some l.diff_id

-- The zero time is 0.
unfoldable pub stored_record : ℕ → ImageRecord → ImageRecord
stored_record now rec = record rec {
  ingested_at = if rec.ingested_at == 0 then now else rec.ingested_at;
  last_used_at = now;
}

unfoldable pub finish_txn : ℕ → Option Bytes → Store → Store × Result CacheError (Unit {0})
finish_txn h e s =
    if (get_txn s.txns h).done
    then (s, ok tt)
    else (update_txn h (λ t. record t { done = true }) s, checked e)

abbrev pub abort : ℕ → Option Bytes → Store → Store × Result CacheError (Unit {0})
abort = finish_txn

-- The section of Commit under the store's lock.
unfoldable pub replace_image : ImageRecord → ℕ → Store → Store
replace_image stored size s =
    let entry : ImageEntry = record { rec = stored; bytes = size } in
    record s {
      images = insert stored.id entry s.images;
      accounted = elim (find stored.id s.images) [
        | none ↦ s.accounted
        | some prev ↦ sub64 s.accounted prev.bytes
      ];
    }

unfoldable pub commit_renamed :
    ℕ
    → CommitIo
    → ImageRecord
    → ℕ
    → Result CacheError (Unit {0})
    → Store
    → Store × Result CacheError (Unit {0})
unfolding finish_txn replace_image
commit_renamed h io stored size (err e) s = (release (some h) size s, err e)
commit_renamed h io stored size (ok _) s = finish_txn h io.clean_error (replace_image stored size s)

unfoldable pub commit_reserved :
    ℕ
    → CommitIo
    → ImageRecord
    → ℕ
    → Store × Result CacheError (Unit {0})
    → Store × Result CacheError (Unit {0})
unfolding commit_renamed
commit_reserved h io stored size (s, err e) = (s, err e)
commit_reserved h io stored size (s, ok _) =
    commit_renamed h io stored size (checked io.publish_error) s

unfoldable pub commit_staged :
    Disk
    → ℕ
    → CommitIo
    → ImageRecord
    → Result CacheError ℕ
    → Store
    → Store × Result CacheError (Unit {0})
unfolding commit_reserved
commit_staged disk h io stored (err e) s = over_budget disk h e s
commit_staged disk h io stored (ok size) s =
    commit_reserved h io stored size (reserve disk (some h) size s)

unfoldable pub commit_declared :
    Disk → ℕ → CommitIo → ImageRecord → Option Bytes → Store → Store × Result CacheError (Unit {0})
unfolding commit_staged stored_record
commit_declared disk h io rec (some d) s = (s, err (undeclared d))
commit_declared disk h io rec none s =
    let stored = stored_record io.now rec in
    commit_staged disk h io stored
      (write_staged_limit (reserve_ceiling h s) (io.record_file stored)) s

unfoldable pub commit_record :
    Disk → ℕ → CommitIo → Option ImageRecord → Store → Store × Result CacheError (Unit {0})
unfolding commit_declared first_undeclared
commit_record disk h io none s = (s, err no_record)
commit_record disk h io (some rec) s = elim (image_path_for s.root rec.id) [
  | err _ ↦ (s, err invalid_digest)
  | ok _ ↦ commit_declared disk h io rec (first_undeclared (get_txn s.txns h).layers rec.layers) s
]

unfoldable pub commit :
    Disk → ℕ → CommitIo → Option ImageRecord → Store → Store × Result CacheError (Unit {0})
unfolding commit_record
commit disk h io rec s =
    if (get_txn s.txns h).done then (s, err finished) else commit_record disk h io rec s
