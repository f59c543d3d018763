-- ===== src/Tests/Serve.antt =====
-- Pages of a small directory, and the cache of comparisons in use.
use layerlens.Base.{
  Bool-cases, inl, inr, sym, ap, ◌∙◌, bytes_eq→eq, ℕ, ◌≡◌, refl, false, true, Option, none, some,
  List, [], ◌∷◌, Bytes, codes, arith, ok, Result, bytes_eq, length, ◌<◌, sort, bytes_lt,
}
use layerlens.Domain.Entry.{LayerIndex}
use layerlens.Domain.Image.{ImageRecord}
use layerlens.Domain.Tree.{
  Children, child, node, node_name, no_children, get_child, list_of, row_children, DiffNode,
  diff_node, no_rows, modified,
}
use layerlens.Analyze.Diff.{
  diff, diff_both, diff_node_with, diff_child_with, sorted_union, child_names, sort_diff_children,
  own_agg, is_dir_row, row_less,
}
use layerlens.Analyze.Squash.{squash, entry_attrs, root_path, dir_attrs}
use layerlens.Server.Rows.{find_row}
use layerlens.Server.Rows.Find.{AreNamed, find_row-diff}
use layerlens.Server.Paging.{
  section_file, CursorCodec, CursorPayload, filter_rows, walk_pages, payload_of,
}
use layerlens.Server.Paging.Cursor.{CodecLaws, Marshals}
use layerlens.Server.Paging.Directory.{walk_pages-directory}
use layerlens.Analyze.Diff.Siblings.{DistinctNames}
use layerlens.Server.Comparisons.{
  ComparisonKey, Comparison, ComparisonCache, lookup_locked, pull, new_comparison_cache, enter,
  finish, has_key, key_eq, assemble_comparison,
}
use layerlens.Server.Comparisons.Flight.{
  Reached, start, entered, finished, IsSingle, Reached-IsSingle,
}
use layerlens.Server.Comparisons.Recent.{Recalls}
use layerlens.Server.Comparisons.Uses.{Used, opened, called, landed, noted, Used-Recalls}
use layerlens.Server.Comparisons.Assembly.{assemble_comparison_iff, made}
use layerlens.Tests.Samples.{layer_of, digest_of, etc_dir}
use layerlens.Tests.Tree.{index_of, lower}

abbrev row_named : Bytes → DiffNode
row_named name = diff_node name modified none none (own_agg modified none none) no_rows

abbrev two_rows : List DiffNode
two_rows = row_named (codes "b") ∷ row_named (codes "a") ∷ []

abbrev file_payload : Bytes → CursorPayload
file_payload name = record { section = section_file; last_name = name; query = codes "q" }

abbrev read_name : Bytes → Option CursorPayload
read_name [] = none
read_name (c ∷ name) = some (file_payload name)

-- For the files of one query the name is enough, behind one byte.
abbrev name_codec : CursorCodec
name_codec = record {
  encode = λ s. s;
  decode = λ s. some s;
  marshal = λ p. some (b'x' ∷ p.last_name);
  unmarshal = read_name;
}

name_codec-CodecLaws : CodecLaws name_codec
unfolding bytes_eq
name_codec-CodecLaws = record { round = λ s. refl; nonempty = λ c s. refl }

row-Marshals : (name : Bytes) → Marshals name_codec (payload_of (codes "q") (row_named name))
unfolding is_dir_row
row-Marshals name = (b'x', name, refl, refl)

two_rows-short : length (filter_rows true (sort_diff_children two_rows)) < 3
unfolding filter_rows sort_diff_children row_less is_dir_row sort bytes_lt
two_rows-short = omega arith

two_rows-DistinctNames : DistinctNames two_rows
unfolding bytes_eq
two_rows-DistinctNames = ((refl, tt), (tt, tt))

walk_pages-directory_example :
    walk_pages 3 name_codec (codes "q") 1 (filter_rows true (sort_diff_children two_rows)) []
    ≡ ok (some (filter_rows true (sort_diff_children two_rows)))
walk_pages-directory_example =
    walk_pages-directory name_codec name_codec-CodecLaws (codes "q") 1 true two_rows 3 (omega arith)
      two_rows-DistinctNames (row-Marshals (codes "b"), (row-Marshals (codes "a"), tt))
      two_rows-short

abbrev some_key : ComparisonKey
some_key = record {
  left = digest_of b'a';
  right = digest_of b'b';
  left_layers = 1;
  right_layers = 1;
}

abbrev some_comparison : Comparison
some_comparison = record { key = some_key; root = none }

abbrev assembled : Result ℕ Comparison
assembled = ok some_comparison

-- A caller leads, its assembly lands, and a second caller finds it.
abbrev busy : ComparisonCache
busy = (enter some_key (new_comparison_cache 2)).1

abbrev used : ComparisonCache
used = (enter some_key (finish some_key assembled busy)).1

some_key-led : has_key some_key busy.inflight ≡ true
unfolding enter lookup_locked pull has_key key_eq bytes_eq
some_key-led = refl

in_use : Reached ℕ 2 used
in_use = entered some_key (finished some_key assembled some_key-led refl (entered some_key start))

Reached-IsSingle_example : IsSingle used
Reached-IsSingle_example = Reached-IsSingle in_use

busy-Used : Used ℕ 2 [] busy
unfolding enter lookup_locked pull has_key
busy-Used = called some_key opened

-- The same with the uses: the assembly, and whatever the second caller got.
history :
    Used ℕ 2 (noted (enter some_key (finish some_key assembled busy)).0 (some_comparison ∷ [])) used
history = called some_key (landed some_key some_comparison some_key-led refl busy-Used)

Used-Recalls_example :
    Recalls 2
      (noted (enter some_key (finish some_key assembled busy)).0 (some_comparison ∷ []))
      used.entries
Used-Recalls_example = Used-Recalls history

abbrev image_of : ℕ → ImageRecord
image_of d = record {
  id = digest_of d;
  manifest_digest = [];
  ref_names = [];
  source = [];
  platform = [];
  created_at = 0;
  ingested_at = 0;
  last_used_at = 0;
  pinned = false;
  layers = layer_of d d 1 ∷ [];
  total_bytes = 0;
}

abbrev load_lower : Bytes → Result ℕ LayerIndex
load_lower d = ok (index_of lower)

abbrev never : ℕ → Option ℕ
never i = none

abbrev one_layer : List LayerIndex
one_layer = index_of lower ∷ []

assemble_comparison_iff_example :
    assemble_comparison load_lower never (image_of b'a') (image_of b'b') 1 1
    ≡ ok (made (image_of b'a') (image_of b'b') 1 1 (squash one_layer) (squash one_layer))
assemble_comparison_iff_example =
    (assemble_comparison_iff load_lower never (image_of b'a') (image_of b'b') 1 1
        (made (image_of b'a') (image_of b'b') 1 1 (squash one_layer) (squash one_layer))
        (λ i. refl)).1
      (one_layer, one_layer, (refl, tt), (refl, tt), refl)

-- The right side lacks "etc".
abbrev etc_map : Children
etc_map = child (codes "etc") (node (codes "etc") (entry_attrs etc_dir) no_children) no_children

etc_map-AreNamed : AreNamed etc_map
unfolding get_child
etc_map-AreNamed k c h = elim (Bool-cases (bytes_eq (codes "etc") k)) [
  | inl p ↦
      let same : node (codes "etc") (entry_attrs etc_dir) no_children ≡ c = ground arith in
      sym (ap node_name same) ∙ bytes_eq→eq (codes "etc") k p
  | inr p ↦ absurd (ground arith)
]

abbrev compared : DiffNode
compared =
    diff_both root_path (dir_attrs true) (dir_attrs true)
      (λ k. diff_child_with etc_map k (get_child k no_children)) (sorted_union etc_map no_children)

compared-diff :
    diff
      (some (node root_path (dir_attrs true) etc_map))
      (some (node root_path (dir_attrs true) no_children))
    ≡ some compared
unfolding diff diff_node_with
compared-diff = refl

find_row-diff_example :
    DistinctNames (list_of (row_children compared))
    × ((k : Bytes)
        → find_row k (list_of (row_children compared))
          ≡ diff (get_child k etc_map) (get_child k no_children))
find_row-diff_example =
    find_row-diff root_path root_path (dir_attrs true) (dir_attrs true) etc_map no_children
      (unfold child_names in (tt, tt)) (unfold child_names in tt) etc_map-AreNamed
      (λ k c h. absurd (unfold get_child in ground arith)) refl compared compared-diff
