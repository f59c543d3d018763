-- ===== src/Server/Comparisons.antt =====
-- internal/server/comparison.go: the cache of assembled comparisons, and their assembly. The sections
-- under the lock are functions on the state; concurrent callers are sequences of these.
pub mod Lookup
pub mod Flight
pub mod Recent
pub mod Uses
pub mod Assembly
use layerlens.Base.{
  ℕ, suc, zero, Bool, true, false, Option, none, some, List, [], ◌∷◌, Bytes, ◌&&◌, ◌||◌, not,
  if◌then◌else◌, bytes_eq, leb, ltb, ◌==◌, length, take, Result, ok, err, ◌>>=◌,
}
use layerlens.Domain.Entry.{LayerIndex}
use layerlens.Domain.Image.{Layer, ImageRecord}
use layerlens.Domain.Tree.{Node, DiffNode}
use layerlens.Analyze.Squash.{apply_layer, new_squasher}
use layerlens.Analyze.Diff.{diff}

pub record ComparisonKey : Type 0 where
  pub left : Bytes
  pub right : Bytes
  pub left_layers : ℕ
  pub right_layers : ℕ

unfoldable pub key_eq : ComparisonKey → ComparisonKey → Bool
unfolding bytes_eq
key_eq j k =
    bytes_eq j.left k.left
    && bytes_eq j.right k.right
    && (j.left_layers == k.left_layers)
    && (j.right_layers == k.right_layers)

pub record Comparison : Type 0 where
  pub key : ComparisonKey
  pub root : Option DiffNode

-- The entries are most recently used first; of an assembly in flight there is its key.
pub record ComparisonCache : Type 0 where
  pub capacity : ℕ
  pub entries : List Comparison
  pub inflight : List ComparisonKey

abbrev pub new_comparison_cache : ℕ → ComparisonCache
new_comparison_cache capacity = record { capacity = capacity; entries = []; inflight = [] }

-- The entry of a key, and the others in their order.
unfoldable pub pull : ComparisonKey → List Comparison → Option (Comparison × List Comparison)
pull key [] = none
pull key (e ∷ es) =
    let rest = pull key es in
    if key_eq e.key key
    then some (e, es)
    else elim rest [ none ↦ none | some (c, others) ↦ some (c, e ∷ others) ]

-- The two results of lookupLocked: what it returns, and the entries that it leaves.
abbrev pub promote :
    List Comparison → Option (Comparison × List Comparison) → Option Comparison × List Comparison
promote es none = (none, es)
promote es (some (c, others)) = (some c, c ∷ others)

unfoldable pub lookup_locked : ComparisonKey → List Comparison → Option Comparison × List Comparison
unfolding pull
lookup_locked key es = promote es (pull key es)

-- insertLocked on what its lookup gave.
abbrev pub insert_after : ℕ → Comparison → Option Comparison × List Comparison → List Comparison
insert_after capacity cmp (some _, es) = es
insert_after capacity cmp (none, es) =
    if ltb capacity (suc (length es)) then take capacity (cmp ∷ es) else cmp ∷ es

unfoldable pub insert_locked : ℕ → Comparison → List Comparison → List Comparison
unfolding lookup_locked
insert_locked capacity cmp es = insert_after capacity cmp (lookup_locked cmp.key es)

unfoldable pub has_key : ComparisonKey → List ComparisonKey → Bool
has_key key [] = false
has_key key (k ∷ ks) = key_eq k key || has_key key ks

unfoldable pub delete_key : ComparisonKey → List ComparisonKey → List ComparisonKey
delete_key key [] = []
delete_key key (k ∷ ks) = let rest = delete_key key ks in if key_eq k key then rest else k ∷ rest

-- What the first section under the lock makes of a caller.
pub data Entered : Type 0 where
  hit : Comparison → Entered
  waiter leader : Entered

-- The section on what its lookup gave.
abbrev pub enter_after :
    ComparisonKey
    → ComparisonCache
    → Option Comparison × List Comparison
    → Entered × ComparisonCache
enter_after key c (some cmp, es) = (hit cmp, record c { entries = es })
enter_after key c (none, es) =
    if has_key key c.inflight
    then (waiter, record c { entries = es })
    else (leader, record c { entries = es; inflight = key ∷ c.inflight })

unfoldable pub enter : ComparisonKey → ComparisonCache → Entered × ComparisonCache
unfolding lookup_locked
enter key c = enter_after key c (lookup_locked key c.entries)

-- The second section, which a leader runs when its assembly has ended.
unfoldable pub finish {ℓ} :
    {E : Type ℓ} → ComparisonKey → Result E Comparison → ComparisonCache → ComparisonCache
unfolding insert_locked delete_key
finish key (ok cmp) c = record c {
  entries = insert_locked c.capacity cmp c.entries;
  inflight = delete_key key c.inflight;
}
finish key (err e) c = record c { inflight = delete_key key c.inflight }

-- What an assembly fails with: ctx.Err(), or an imageError with the image and its layer.
pub data AssembleError {ℓ} (E : Type ℓ) : Type ℓ where
  context_error : E → AssembleError E
  image_error : Bytes → ℕ → E → AssembleError E

abbrev pub of_image {ℓ} :
    {E : Type ℓ} → Bytes → ℕ → Result E LayerIndex → Result (AssembleError E) LayerIndex
of_image id i (ok idx) = ok idx
of_image id i (err e) = err (image_error id i e)

-- The loop of Server.squash from layer `i` on: `load` reads a layer index, and `cancelled` is ctx.Err()
-- before each layer.
unfoldable pub squash_layers {ℓ} :
    {E : Type ℓ}
    → (Bytes → Result E LayerIndex)
    → (ℕ → Option E)
    → Bytes
    → ℕ
    → Node
    → List Layer
    → Result (AssembleError E) Node
squash_layers load cancelled id i tree [] = ok tree
squash_layers load cancelled id i tree (l ∷ ls) = elim (cancelled i) [
  | some e ↦ err (context_error e)
  | none ↦ of_image id i (load l.diff_id) >>= λ idx.
      squash_layers load cancelled id (suc i) (apply_layer tree idx.entries) ls
]

-- The layers `0 .. n-1` of a record; `n` is at most their number.
unfoldable pub squash_record {ℓ} :
    {E : Type ℓ}
    → (Bytes → Result E LayerIndex)
    → (ℕ → Option E)
    → ImageRecord
    → ℕ
    → Result (AssembleError E) Node
unfolding squash_layers
squash_record load cancelled rec n =
    squash_layers load cancelled rec.id 0 new_squasher (take n rec.layers)

unfoldable pub assemble_comparison {ℓ} :
    {E : Type ℓ}
    → (Bytes → Result E LayerIndex)
    → (ℕ → Option E)
    → ImageRecord
    → ImageRecord
    → ℕ
    → ℕ
    → Result (AssembleError E) Comparison
unfolding squash_record
assemble_comparison load cancelled left right left_layers right_layers =
    squash_record load cancelled left left_layers >>= λ left_tree.
    squash_record load cancelled right right_layers >>= λ right_tree. ok (record {
      key = record {
        left = left.id;
        right = right.id;
        left_layers = left_layers;
        right_layers = right_layers;
      };
      root = diff (some left_tree) (some right_tree);
    })
