-- ===== src/Tests/Tree.antt =====
-- Two layers: a directory with a file, and markers over them.
use layerlens.Base.{◌≡◌, refl, List, [], ◌∷◌, ◌++◌, Bytes, codes, arith, bytes_eq}
use layerlens.Base.{some, split_on, put_head, has_prefix}
use layerlens.Analyze.Sanitize.{
  sanitize_path, contains_byte, strip_root_prefixes, path_clean, clean_segments, join_onto,
}
use layerlens.Analyze.Sanitize.Clean.{IsCleanPath, sanitize_path-IsCleanPath}
use layerlens.Domain.Entry.{Entry, LayerIndex}
use layerlens.Analyze.Squash.{squash, apply_layer, new_squasher}
use layerlens.Analyze.Squash.View.{view}
use layerlens.Analyze.Squash.Entries.{HasPath}
use layerlens.Analyze.Squash.Trees.{IsTree}
use layerlens.Analyze.Squash.Overlay.{layer_over, HasPaths, apply_layer-layer_over}
use layerlens.Analyze.Squash.Layers.{
  only_root, layers_over, new_squasher-IsTree, squash-layers_over, apply_layer-markers,
  HoldsObjects, squash-HoldsObjects,
}
use layerlens.Tests.Samples.{etc_dir, etc_hosts, etc_opaque, gone_tmp, digest_of}

dir_path : HasPath etc_dir
unfolding bytes_eq
dir_path = record { parent = []; name = codes "etc"; names = ground arith; joined = refl }

hosts_path : HasPath etc_hosts
unfolding bytes_eq
hosts_path = record {
  parent = codes "etc" ∷ [];
  name = codes "hosts";
  names = ground arith;
  joined = refl;
}

abbrev pub lower : List Entry
lower = etc_dir ∷ etc_hosts ∷ []

abbrev upper : List Entry
upper = etc_opaque ∷ gone_tmp ∷ etc_hosts ∷ []

pub lower-HasPaths : HasPaths lower
lower-HasPaths = (λ k. dir_path, (λ k. hosts_path, tt))

pub upper-HasPaths : HasPaths upper
upper-HasPaths = (λ k. absurd (ground arith), (λ k. absurd (ground arith), (λ k. hosts_path, tt)))

abbrev pub index_of : List Entry → LayerIndex
index_of es = record {
  schema_version = 1;
  diff_id = digest_of b'a';
  changeset_digest = digest_of b'b';
  content_bytes = 7;
  entries = es;
  warnings = [];
}

abbrev hosts : List Bytes
hosts = codes "etc" ∷ codes "hosts" ∷ []

apply_layer-layer_over_example :
    IsTree (apply_layer new_squasher lower)
    × ((q : List Bytes)
        → view q (apply_layer new_squasher lower) ≡ layer_over lower (λ r. view r new_squasher) q)
apply_layer-layer_over_example =
    apply_layer-layer_over lower new_squasher new_squasher-IsTree lower-HasPaths

abbrev pub stack : List LayerIndex
stack = index_of lower ∷ index_of upper ∷ []

squash-layers_over_example :
    IsTree (squash stack)
    × ((q : List Bytes) → view q (squash stack) ≡ layers_over stack only_root q)
squash-layers_over_example = squash-layers_over stack (lower-HasPaths, (upper-HasPaths, tt))

apply_layer-markers_example :
    view hosts (apply_layer new_squasher (lower ++ ((gone_tmp ∷ []) ++ [])))
    ≡ view hosts (apply_layer new_squasher ((gone_tmp ∷ []) ++ (lower ++ [])))
apply_layer-markers_example =
    apply_layer-markers new_squasher lower (gone_tmp ∷ []) [] new_squasher-IsTree (refl, tt)
      (λ k. dir_path, (λ k. hosts_path, (λ k. absurd (ground arith), tt))) hosts

squash-HoldsObjects_example : HoldsObjects (λ q. view q (squash stack))
squash-HoldsObjects_example = squash-HoldsObjects stack (lower-HasPaths, (upper-HasPaths, tt))

-- "./etc//hosts" is the path of the entry.
hosts_name : sanitize_path (codes "./etc//hosts") ≡ some (codes "/etc/hosts")
unfolding sanitize_path contains_byte strip_root_prefixes path_clean clean_segments join_onto
    split_on put_head bytes_eq has_prefix
hosts_name = refl

sanitize_path-IsCleanPath_example : IsCleanPath (codes "/etc/hosts")
sanitize_path-IsCleanPath_example =
    sanitize_path-IsCleanPath (codes "./etc//hosts") (codes "/etc/hosts") hosts_name
