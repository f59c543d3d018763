-- ===== src/Tests/Graph.antt =====
-- Layers of two small images.
use layerlens.Base.{
  map, drop, ◌%◌, All, ◌≡◌, refl, false, some, List, [], ◌∷◌, Bytes, codes, arith, ok, pos, take,
  ◌↔◌, ℕ, ◌≤◌, bytes_eq,
}
use layerlens.Domain.Digest.{validate, check_hex}
use layerlens.Domain.Image.{Layer, HistoryEntry}
use layerlens.Analyze.Trunk.{trunk_lcp, chain_ids, chain_loop, next_chain}
use layerlens.Analyze.Trunk.Prefix.{SharesPrefix, trunk_lcp-IsLongest}
use layerlens.Domain.Digest.Shape.{IsByte}
use layerlens.Analyze.Trunk.Chain.{chain_ids_iff}
use layerlens.Analyze.Edges.{could_be_shared_edges}
use layerlens.Analyze.Edges.Reference.{all_edges, could_be_shared_edges-eq}
use layerlens.Analyze.History.{map_history}
use layerlens.Analyze.History.Mapping.{map_history-instructions_for}
use layerlens.Tests.Samples.{digest_of, layer_of}

-- The images share their first layer, and the changeset of a later one.
abbrev left_layers : List Layer
left_layers = layer_of b'a' b'0' 1 ∷ layer_of b'b' b'1' 2 ∷ []

abbrev right_layers : List Layer
right_layers = layer_of b'a' b'0' 1 ∷ layer_of b'c' b'2' 1 ∷ layer_of b'd' b'1' 2 ∷ []

trunk_lcp-IsLongest_example :
    SharesPrefix (trunk_lcp left_layers right_layers) left_layers right_layers
    × ((k : ℕ) → SharesPrefix k left_layers right_layers → k ≤ trunk_lcp left_layers right_layers)
trunk_lcp-IsLongest_example = trunk_lcp-IsLongest left_layers right_layers

could_be_shared_edges-eq_example :
    could_be_shared_edges left_layers right_layers (pos 1)
    ≡ all_edges left_layers 1 1 (layer_of b'c' b'2' 1 ∷ layer_of b'd' b'1' 2 ∷ [])
could_be_shared_edges-eq_example = could_be_shared_edges-eq left_layers right_layers (pos 1)

-- A hash of 32 bytes, which collides on most strings: those that stand behind the first 100.
abbrev part : Bytes → Bytes
part s = map (λ c. c % 256) (take 32 (drop 100 s))

reduced-bytes : (s : Bytes) → All IsByte (map (λ c. c % 256) s)
reduced-bytes [] = tt
reduced-bytes (c ∷ s) = (omega arith, reduced-bytes s)

abbrev left_ids : List Bytes
left_ids = digest_of b'a' ∷ digest_of b'b' ∷ []

abbrev right_ids : List Bytes
right_ids = digest_of b'a' ∷ digest_of b'c' ∷ []

abbrev left_chain : List Bytes
left_chain = digest_of b'a' ∷ next_chain part 1 (digest_of b'a') (digest_of b'b') ∷ []

abbrev right_chain : List Bytes
right_chain = digest_of b'a' ∷ next_chain part 1 (digest_of b'a') (digest_of b'c') ∷ []

left_ids-chained : chain_ids part left_ids ≡ ok left_chain
unfolding chain_ids chain_loop validate check_hex bytes_eq next_chain
left_ids-chained = refl

right_ids-chained : chain_ids part right_ids ≡ ok right_chain
unfolding chain_ids chain_loop validate check_hex bytes_eq next_chain
right_ids-chained = refl

chain_ids_iff_example :
    (take 2 left_ids ≡ take 2 right_ids) ↔ (take 2 left_chain ≡ take 2 right_chain)
chain_ids_iff_example =
    chain_ids_iff part (λ s _. reduced-bytes (take 32 (drop 100 s))) 2 left_ids right_ids left_chain
      right_chain (λ e. absurd (ground (arith, e)), tt) left_ids-chained right_ids-chained
      (omega arith) (omega arith)

abbrev run_entry : HistoryEntry
run_entry = record { created_by = codes "RUN make"; empty_layer = false; comment = [] }

map_history-instructions_for_example :
    map_history (run_entry ∷ []) (pos 1) ≡ some (codes "RUN make" ∷ [])
map_history-instructions_for_example = map_history-instructions_for (run_entry ∷ []) (pos 1)
