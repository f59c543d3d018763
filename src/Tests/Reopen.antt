-- ===== src/Tests/Reopen.antt =====
-- A cache that is opened after a crash.
use layerlens.Base.{
  ◌≡◌, refl, true, false, none, [], ◌∷◌, ◌++◌, codes, replicate, bytes_eq, ok, err,
}
use layerlens.Base.Dict.{find, insert}
use layerlens.Cachestore.State.{Store}
use layerlens.Cachestore.State.CacheError.{other}
use layerlens.Cachestore.Layout.{digest_from_hex_name}
use layerlens.Cachestore.Records.{has_layer}
use layerlens.Cachestore.Lru.Accounts.{IsAccounted}
use layerlens.Cachestore.Lru.Closed.{IsClosed}
use layerlens.Cachestore.Sweep.{LayerDir, ImageFile, DataDir, Options, open_store}
use layerlens.Cachestore.Sweep.Sound.{HasNames, open_store-IsSound}
use layerlens.Tests.Samples.{digest_of}
use layerlens.Tests.Cache.{pinned_image}

-- A data directory with a layer, a record that names it, and what a crash has left of another.
abbrev layer_dir : LayerDir
layer_dir = record {
  name = replicate 64 b'1';
  is_dir = true;
  doc = ok (record {
    v = 1;
    diff_id = digest_of b'1';
    changeset_digest = [];
    content_bytes = 0;
    entry_count = 0;
    index_bytes = 90;
    warnings = [];
  });
  index_error = none;
  listing =
      ok (record { size = 90; info_error = none } ∷ record { size = 10; info_error = none } ∷ []);
  remove_error = none;
}

abbrev torn_dir : LayerDir
torn_dir = record {
  name = replicate 64 b'2';
  is_dir = true;
  doc = err (other (codes "no layer.json"));
  index_error = none;
  listing = ok [];
  remove_error = none;
}

abbrev record_file : ImageFile
record_file = record {
  name = replicate 64 b'a' ++ codes ".json";
  is_dir = false;
  size = ok 10;
  doc = ok (record { v = 1; rec = pinned_image.rec });
  remove_error = none;
}

abbrev data_dir : DataDir
data_dir = record {
  staging_error = none;
  layer_dirs = ok (layer_dir ∷ torn_dir ∷ []);
  image_files = ok (record_file ∷ []);
}

abbrev options : Options
options = record { root = codes "data"; max_bytes = 400; touch_debounce = 60 }

abbrev reopened : Store
reopened = record {
  root = codes "/data";
  max = 400;
  debounce = 60;
  layers =
      (
        digest_of b'1',
        record {
          summary = record {
            diff_id = digest_of b'1';
            changeset_digest = [];
            content_bytes = 0;
            entry_count = 0;
            index_bytes = 100;
            warnings = [];
          };
          bytes = 100;
        },
      )
      ∷ [];
  images = (digest_of b'a', pinned_image) ∷ [];
  accounted = 110;
  txns = [];
  trash_seq = 0;
}

reopens : open_store options (ok (codes "/data")) none data_dir ≡ ok reopened
unfolding open_store digest_from_hex_name has_layer find insert
reopens = refl

data_dir-HasNames : HasNames data_dir
unfolding bytes_eq
data_dir-HasNames = (
  λ es e. let same : layer_dir ∷ torn_dir ∷ [] ≡ es = cc e in rw (← same) ((refl, tt), (tt, tt)),
  λ es e. let same : record_file ∷ [] ≡ es = cc e in rw (← same) (tt, tt),
)

open_store-IsSound_example : IsAccounted 0 reopened × IsClosed reopened
open_store-IsSound_example =
    open_store-IsSound options (ok (codes "/data")) none data_dir reopened data_dir-HasNames reopens
