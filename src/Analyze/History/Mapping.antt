-- ===== src/Analyze/History/Mapping.antt =====
-- The mapping is all or nothing.
use layerlens.Base.{
  refl, ℕ, leb, set-append, length-append, sym, zero, suc, ◌-◌, ◌+◌, ◌≡◌, ◌∙◌, Option, none, some,
  List, [], ◌∷◌, ◌++◌, map, Bytes, arith, ℤ, pos, negsuc, ◌==◌, if◌then◌else◌, length, select, set,
  replicate, not,
}
use mathlib.Core.List.{append-nil, append_assoc}
use layerlens.Domain.Image.{HistoryEntry}
use layerlens.Analyze.History.{history_loop, map_history}

-- The instructions of the entries that made a layer, oldest first.
abbrev pub layer_instructions : List HistoryEntry → List Bytes
layer_instructions hs = map (λ h. h.created_by) (select (λ h. not h.empty_layer) hs)

-- The loop fills the places behind the cursor in order, while there are places.
abbrev after_loop : List Bytes → List Bytes → ℕ → Option (ℕ × List Bytes)
after_loop done found left =
    if leb (length found) left
    then some (length done + length found, done ++ (found ++ replicate (left - length found) []))
    else none

-- One string is written at the cursor.
write_next :
    (done : List Bytes) (x : Bytes) (left : ℕ)
    → set (done ++ replicate (suc left) []) (length done) x ≡ (done ++ x ∷ []) ++ replicate left []
write_next done x left =
    set-append done (replicate left []) [] x ∙ sym (append_assoc done (x ∷ []) (replicate left []))

after_loop_cons :
    (done : List Bytes) (x : Bytes) (found : List Bytes) (left : ℕ)
    → after_loop (done ++ x ∷ []) found left ≡ after_loop done (x ∷ found) (suc left)
after_loop_cons done x found left = ground (
  arith,
  length-append done (x ∷ []),
  append_assoc done (x ∷ []) (found ++ replicate (left - length found) []),
)

history_loop_lem :
    (n : ℕ) (hs : List HistoryEntry) (done : List Bytes) (left : ℕ)
    → length done + left ≡ n
    → history_loop n (length done) hs (done ++ replicate left [])
      ≡ after_loop done (layer_instructions hs) left
unfolding history_loop
history_loop_lem n [] done left e = ground arith
history_loop_lem n (h ∷ hs) done zero e = ground (arith, history_loop_lem n hs done zero e)
history_loop_lem n (h ∷ hs) done (suc left) e =
    let next =
      history_loop_lem n hs (done ++ h.created_by ∷ []) left
        (omega (arith, length-append done (h.created_by ∷ []))) in
    ground (
      arith,
      history_loop_lem n hs done (suc left) e,
      next,
      write_next done h.created_by left,
      length-append done (h.created_by ∷ []),
      after_loop_cons done h.created_by (layer_instructions hs) left,
    )

-- The instructions, if there are `n` of them; a negative count has none.
abbrev pub instructions_for : List HistoryEntry → ℤ → Option (List Bytes)
instructions_for hs (negsuc _) = none
instructions_for hs (pos n) =
    if length (layer_instructions hs) == n then some (layer_instructions hs) else none

-- The strings come back exactly when there are as many layer-making entries as layers, and then they
-- are those entries' strings in order; a negative count of layers has none.
pub map_history-instructions_for :
    (hs : List HistoryEntry) (n : ℤ) → map_history hs n ≡ instructions_for hs n
unfolding map_history
map_history-instructions_for hs (negsuc n) = refl
map_history-instructions_for hs (pos n) =
    ground (arith, history_loop_lem n hs [] n (omega arith), append-nil (layer_instructions hs))
