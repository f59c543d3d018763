-- ===== src/Analyze/History.antt =====
-- internal/analyze/history.go: the instructions of the layers.
pub mod Mapping
use layerlens.Base.{
  ℕ, zero, suc, Bool, true, false, Option, none, some, List, [], ◌∷◌, ◌++◌, map, Bytes, ℤ, pos,
  negsuc, ◌==◌, if◌then◌else◌, set, replicate, not, length, take, drop, leb, bytes_eq, has_prefix,
  codes, ◌-◌, ◌&&◌, ◌||◌,
}
use layerlens.Domain.Image.{Layer, HistoryEntry}

-- The loop: the cursor, the history left, and the strings so far. `none` is an early return.
unfoldable pub history_loop : ℕ → ℕ → List HistoryEntry → List Bytes → Option (ℕ × List Bytes)
history_loop n cursor [] raw = some (cursor, raw)
history_loop n cursor (h ∷ hs) raw =
    let skipped = history_loop n cursor hs raw in
    let taken = history_loop n (suc cursor) hs (set raw cursor h.created_by) in
    if h.empty_layer then skipped else if cursor == n then none else taken

unfoldable pub map_history : List HistoryEntry → ℤ → Option (List Bytes)
unfolding history_loop
map_history history (negsuc _) = none
map_history history (pos n) = elim (history_loop n 0 history (replicate n [])) [
  | none ↦ none
  | some (cursor, raw) ↦ if cursor == n then some raw else none
]

abbrev pub nop_prefix : Bytes
nop_prefix = codes "/bin/sh -c #(nop)"

abbrev pub shell_prefix : Bytes
shell_prefix = codes "/bin/sh -c "

abbrev pub buildkit_suffix : Bytes
buildkit_suffix = codes "# buildkit"

abbrev pub run_shell_prefix : Bytes
run_shell_prefix = codes "RUN " ++ shell_prefix

-- `strings.TrimRight(s, " \t")`
unfoldable pub trim_blanks : Bytes → Bytes
unfolding bytes_eq
trim_blanks [] = []
trim_blanks (c ∷ s) =
    let rest = trim_blanks s in
    if ((c == b' ') || (c == 9)) && bytes_eq rest [] then [] else c ∷ rest

-- `strings.CutSuffix(s, buildkitSuffix)`, and what is left of `s`.
unfoldable pub without_buildkit : Bytes → Bytes
unfolding bytes_eq trim_blanks
without_buildkit s =
    let n = length s - length buildkit_suffix in
    if leb (length buildkit_suffix) (length s) && bytes_eq (drop n s) buildkit_suffix
    then trim_blanks (take n s)
    else s

module _ (trim_space : Bytes → Bytes) where
  unfoldable pub without_shell : Bytes → Bytes
  unfolding has_prefix
  without_shell s =
      if has_prefix s nop_prefix
      then trim_space (drop (length nop_prefix) s)
      else if has_prefix s run_shell_prefix
      then codes "RUN " ++ drop (length run_shell_prefix) s
      else if has_prefix s shell_prefix
      then drop (length shell_prefix) s
      else s

  unfoldable pub clean_instruction : Bytes → Bytes
  unfolding without_shell without_buildkit
  clean_instruction raw = trim_space (without_shell (without_buildkit (trim_space raw)))

  abbrev pub unknown_instruction : Layer → Layer
  unknown_instruction l = record l {
    instruction = [];
    instruction_raw = [];
    instruction_known = false;
  }

  -- The layers and as many strings, in step.
  unfoldable pub known_instructions : List Layer → List Bytes → List Layer
  unfolding clean_instruction
  known_instructions [] _ = []
  known_instructions (l ∷ ls) [] = l ∷ ls
  known_instructions (l ∷ ls) (raw ∷ raws) =
      record l {
        instruction_raw = raw;
        instruction = clean_instruction raw;
        instruction_known = true;
      }
      ∷ known_instructions ls raws

  unfoldable pub apply_history : List Layer → List HistoryEntry → List Layer
  unfolding map_history known_instructions
  apply_history layers history = elim (map_history history (pos (length layers))) [
    | none ↦ map unknown_instruction layers
    | some raw ↦ known_instructions layers raw
  ]
