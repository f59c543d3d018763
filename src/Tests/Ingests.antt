-- ===== src/Tests/Ingests.antt =====
-- An ingest of an image on the small cache, and one that is refused.
use layerlens.Base.{
  ℕ, ◌%◌, ◌^◌, ◌<◌, ◌≡◌, refl, false, none, some, List, [], ◌∷◌, arith, replicate, contains,
  bytes_eq, ok, err,
}
use layerlens.Base.Dict.{find, insert}
use layerlens.Domain.Digest.{validate, hex}
use layerlens.Cachestore.State.{Store, held}
use layerlens.Cachestore.State.CacheError.{cache_full}
use layerlens.Cachestore.Layout.{path_component}
use layerlens.Cachestore.Lru.{pinned_bytes, reserve_ceiling}
use layerlens.Cachestore.Lru.Closed.{IsClosed}
use layerlens.Cachestore.Txn.Limit.{file_size}
use layerlens.Cachestore.Put.{PutIo, put_layer}
use layerlens.Cachestore.Put.Refusal.{IsModest, put_layer-refuses}
use layerlens.Cachestore.Commit.{CommitIo}
use layerlens.Cachestore.Steps.Operations.{
  Operation, begins, puts, commits, touches, perform_all, perform_all_exact,
}
use layerlens.Tests.Samples.{digest_of}
use layerlens.Tests.Tree.{index_of}
use layerlens.Tests.Cache.{
  record_of, two_layers, stocked, obedient, file_of, rewrite_io, stocked-IsAccounted,
  stocked-IsClosed,
}

-- Two transactions' worth of calls: one ingest of one layer and its image, and a request.
abbrev put_io : ℕ → PutIo
put_io n = record { index_file = file_of n; doc_file = λ doc. file_of 5; publish_error = none }

abbrev commit_io : CommitIo
commit_io = record {
  now = 7;
  record_file = λ r. file_of 12;
  publish_error = none;
  clean_error = none;
}

abbrev some_operations : List Operation
some_operations =
    begins none
    ∷ puts obedient 0 (put_io 30) (some (index_of []))
    ∷ commits obedient 0 commit_io (some (record_of b'c' b'a' 0 false))
    ∷ touches none rewrite_io 100 (digest_of b'a')
    ∷ []

perform_all_exact_example :
    ((perform_all some_operations stocked).accounted
      ≡ held (perform_all some_operations stocked) % 2 ^ 64)
    × IsClosed (perform_all some_operations stocked)
perform_all_exact_example =
    perform_all_exact some_operations stocked stocked-IsAccounted stocked-IsClosed
      (tt, ((omega arith, λ doc. omega arith), ((λ r. omega arith), (tt, tt))))

-- An open transaction, and an index of 500 bytes where 390 could ever be freed.
abbrev ingesting : Store
ingesting = record stocked { txns = record { layers = []; own_bytes = 0; done = false } ∷ [] }

digest_named : path_component (digest_of b'a') ≡ ok (replicate 64 b'a')
unfolding path_component validate hex bytes_eq
digest_named = refl

new_layer_absent : find (digest_of b'a') two_layers ≡ none
unfolding find insert bytes_eq
new_layer_absent = refl

ingesting-IsModest : IsModest 0 ingesting
unfolding pinned_bytes insert bytes_eq find contains
ingesting-IsModest = omega arith

too_long_file : reserve_ceiling 0 ingesting < file_size (file_of 500).chunks
unfolding reserve_ceiling insert bytes_eq find file_size contains
too_long_file = omega arith

put_layer-refuses_example :
    put_layer obedient 0 (put_io 500) (some (index_of [])) ingesting ≡ (ingesting, err cache_full)
put_layer-refuses_example =
    put_layer-refuses obedient 0 (put_io 500) (index_of []) ingesting (replicate 64 b'a') refl
      digest_named new_layer_absent ingesting-IsModest (refl, refl, ((omega arith, refl), tt))
      too_long_file
