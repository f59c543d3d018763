-- ===== src/Tests/Cache.antt =====
-- A small cache: two layers, a pinned image and one that is not, and the operations on them.
use layerlens.Base.{
  ℕ, ◌+◌, ◌%◌, ◌^◌, ◌≤◌, ◌≡◌, refl, Bool, true, false, ◌||◌, none, some, [], ◌∷◌, Bytes, codes,
  arith, length, bytes_eq, bytes_eq→eq, ok,
}
use layerlens.Base.Dict.{Dict, find, insert, erase, insert-IsDict}
use layerlens.Domain.Digest.{validate, hex}
use layerlens.Domain.Image.{ImageRecord}
use layerlens.Cachestore.State.{LayerEntry, ImageEntry, Store, held}
use layerlens.Cachestore.Layout.{image_path_for, layer_dir_for}
use layerlens.Cachestore.Records.{has_layer}
use layerlens.Cachestore.Lru.{
  Disk, names_layer, any_image_names, any_txn_holds, layer_referenced, evict_lru, make_room,
  reserve,
}
use layerlens.Cachestore.Lru.Victim.{IsKeyed}
use layerlens.Cachestore.Lru.Accounts.{IsAccounted, granted}
use layerlens.Cachestore.Lru.Closed.{IsClosed}
use layerlens.Cachestore.Lru.Evicts.{
  Evicts, evict_lru-Evicts, IsDone, make_room-IsDone, IsWithin, reserve-IsWithin,
}
use layerlens.Cachestore.Lru.Pinned.{reserve_keeps_pinned}
use layerlens.Cachestore.Txn.{Staging, begin, use_layer}
use layerlens.Cachestore.Rewrite.{RewriteIo, Provenance, merged, upgrade_provenance}
use layerlens.Cachestore.Rewrite.Again.{upgrade_provenance_again}
use layerlens.Cachestore.Steps.Reached.{opened, begun, used, reserved}
use layerlens.Cachestore.Steps.Accounts.{Reached-IsAccounted, insert-IsKeyed}
use layerlens.Cachestore.Steps.Closed.{Reached-IsClosed, insert_image-IsClosed}
use layerlens.Tests.Samples.{layer_of, digest_of}

abbrev pub entry_of : ℕ → ℕ → LayerEntry
entry_of d n = record {
  summary = record {
    diff_id = digest_of d;
    changeset_digest = [];
    content_bytes = 0;
    entry_count = 0;
    index_bytes = n;
    warnings = [];
  };
  bytes = n;
}

abbrev pub record_of : ℕ → ℕ → ℕ → Bool → ImageRecord
record_of id layer at pinned = record {
  id = digest_of id;
  manifest_digest = digest_of id;
  ref_names = [];
  source = codes "docker";
  platform = [];
  created_at = 1;
  ingested_at = 1;
  last_used_at = at;
  pinned = pinned;
  layers = layer_of layer b'c' 0 ∷ [];
  total_bytes = 0;
}

abbrev pub pinned_image : ImageEntry
pinned_image = record { rec = record_of b'a' b'1' 3 true; bytes = 10 }

abbrev pub plain_image : ImageEntry
plain_image = record { rec = record_of b'b' b'2' 5 false; bytes = 20 }

abbrev pub two_layers : Dict LayerEntry
two_layers =
    insert (digest_of b'1') (entry_of b'1' 100) (insert (digest_of b'2') (entry_of b'2' 200) [])

abbrev pub two_images : Dict ImageEntry
two_images = insert (digest_of b'a') pinned_image (insert (digest_of b'b') plain_image [])

-- 330 bytes of a cap of 400.
abbrev pub stocked : Store
stocked = record {
  root = codes "/data";
  max = 400;
  debounce = 60;
  layers = two_layers;
  images = two_images;
  accounted = 330;
  txns = [];
  trash_seq = 0;
}

none-IsKeyed : IsKeyed []
unfolding find
none-IsKeyed = record { distinct = tt; keyed = λ k e f. absurd (cc) }

two_images-IsKeyed : IsKeyed two_images
two_images-IsKeyed =
    insert-IsKeyed (digest_of b'a') pinned_image _ refl
      (insert-IsKeyed (digest_of b'b') plain_image [] refl none-IsKeyed)

stocked_balance : stocked.accounted ≡ (held stocked + 0) % 2 ^ 64
unfolding insert bytes_eq
stocked_balance = refl

pub stocked-IsAccounted : IsAccounted 0 stocked
stocked-IsAccounted = record {
  layers_distinct =
      insert-IsDict (digest_of b'1') (entry_of b'1' 100) _
        (insert-IsDict (digest_of b'2') (entry_of b'2' 200) [] tt);
  images_keyed = two_images-IsKeyed;
  balance = stocked_balance;
}

-- Every answer of the disk is that it did.
abbrev pub obedient : Disk
obedient = record { removes_record = λ s id. true; unlinks_layer = λ s d. true }

Reached-IsAccounted_example :
    IsAccounted
      (0 + granted (reserve obedient none 90 stocked).1 90)
      (reserve obedient none 90 stocked).0
Reached-IsAccounted_example =
    Reached-IsAccounted stocked-IsAccounted (reserved obedient none 90 opened)

two_images-short : length two_images ≤ 2
unfolding insert bytes_eq
two_images-short = omega arith

pinned_found : find (digest_of b'a') two_images ≡ some pinned_image
unfolding find insert bytes_eq
pinned_found = refl

plain_found : find (digest_of b'b') two_images ≡ some plain_image
unfolding find insert bytes_eq
plain_found = refl

pinned_named : names_layer (digest_of b'1') pinned_image.rec.layers ≡ true
unfolding names_layer bytes_eq
pinned_named = refl

reserved_90 : (reserve obedient none 90 stocked).1 ≡ ok tt
unfolding reserve insert bytes_eq find image_path_for validate hex erase layer_dir_for
reserved_90 = refl

stocked_unnamed : IsClosed (record stocked { images = [] })
unfolding layer_referenced any_image_names any_txn_holds
stocked_unnamed d r = absurd (cc)

or_false : (b : Bool) → (b || false) ≡ true → b ≡ true
or_false true h = h
or_false false h = h

sole_layer :
    (id n at : ℕ) (d : Bytes)
    → names_layer d (record_of id n at false).layers ≡ true
    → digest_of n ≡ d
unfolding names_layer
sole_layer id n at d r = bytes_eq→eq (digest_of n) d (or_false (bytes_eq (digest_of n) d) r)

layer_1_there : has_layer stocked (digest_of b'1') ≡ true
unfolding has_layer find insert bytes_eq
layer_1_there = refl

layer_2_there : has_layer stocked (digest_of b'2') ≡ true
unfolding has_layer find insert bytes_eq
layer_2_there = refl

pub stocked-IsClosed : IsClosed stocked
unfolding has_layer
stocked-IsClosed =
    insert_image-IsClosed (digest_of b'a') pinned_image 330
      (record stocked { images = insert (digest_of b'b') plain_image [] })
      (λ d r. rw (← sole_layer b'a' b'1' 3 d r) layer_1_there)
      (insert_image-IsClosed (digest_of b'b') plain_image 330 (record stocked { images = [] })
        (λ d r. rw (← sole_layer b'b' b'2' 5 d r) layer_2_there) stocked_unnamed)

Reached-IsClosed_example : IsClosed (use_layer 0 (digest_of b'1') (begin none stocked).0).0
Reached-IsClosed_example =
    Reached-IsClosed stocked-IsAccounted stocked-IsClosed
      (used 0 (digest_of b'1') (begun none opened))

evict_lru-Evicts_example : Evicts stocked (evict_lru obedient stocked)
evict_lru-Evicts_example = evict_lru-Evicts obedient stocked two_images-IsKeyed

make_room-IsDone_example : IsDone obedient 90 (make_room obedient 2 90 stocked)
make_room-IsDone_example =
    make_room-IsDone obedient 2 90 stocked two_images-IsKeyed two_images-short

reserve-IsWithin_example : IsWithin 400 (reserve obedient none 90 stocked).0
reserve-IsWithin_example =
    reserve-IsWithin obedient none 90 stocked two_images-IsKeyed refl reserved_90

reserve_keeps_pinned_example :
    (find (digest_of b'a') (reserve obedient none 90 stocked).0.images ≡ some pinned_image)
    × (find (digest_of b'1') (reserve obedient none 90 stocked).0.layers
        ≡ find (digest_of b'1') two_layers)
reserve_keeps_pinned_example =
    reserve_keeps_pinned 0 obedient none 90 stocked (digest_of b'a') (digest_of b'1') pinned_image
      stocked-IsAccounted pinned_found refl pinned_named

-- A file of one chunk, which meets no fault.
abbrev pub file_of : ℕ → Staging
file_of n = record { open_error = none; chunks = (n, none) ∷ []; close_error = none }

abbrev pub rewrite_io : RewriteIo
rewrite_io = record { record_file = λ r. file_of 15; publish_error = none }

abbrev pin : Provenance
pin = record { ref_names = codes "app:1" ∷ []; source = []; pinned = true }

upgrade_provenance_again_example :
    upgrade_provenance none rewrite_io
      (digest_of b'b')
      pin
      (upgrade_provenance none rewrite_io (digest_of b'b') pin stocked).0
    ≡ (
      (upgrade_provenance none rewrite_io (digest_of b'b') pin stocked).0,
      ok (merged pin plain_image.rec).0,
    )
upgrade_provenance_again_example =
    upgrade_provenance_again rewrite_io rewrite_io (digest_of b'b') pin stocked plain_image
      two_images-IsKeyed plain_found
