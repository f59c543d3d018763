-- ===== src/Base/Paths.antt =====
-- The functions of Go's `strings` and `path` that the code walks paths with.
use Prim.Native.Nat.{ℕ}
use mathlib.Core.Bool.{◌&&◌}
use mathlib.Core.List.{List, [], ◌∷◌}
use layerlens.Base.Tests.{◌==◌, if◌then◌else◌}
use layerlens.Base.Text.{Bytes, bytes_eq}

-- `strings.Split(s, c)` for one byte `c`.
unfoldable pub put_head : ℕ → List Bytes → List Bytes
put_head c [] = (c ∷ []) ∷ []
put_head c (s ∷ ss) = (c ∷ s) ∷ ss

unfoldable pub split_on : ℕ → Bytes → List Bytes
unfolding put_head
split_on sep [] = [] ∷ []
split_on sep (c ∷ s) = let rest = split_on sep s in if c == sep then [] ∷ rest else put_head c rest

-- `strings.Trim(s, c)` for one byte `c`, by its two ends.
unfoldable pub trim_left : ℕ → Bytes → Bytes
trim_left sep [] = []
trim_left sep (c ∷ s) = if c == sep then trim_left sep s else c ∷ s

unfoldable pub trim_right : ℕ → Bytes → Bytes
unfolding bytes_eq
trim_right sep [] = []
trim_right sep (c ∷ s) =
    let rest = trim_right sep s in if c == sep && bytes_eq rest [] then [] else c ∷ rest

-- `path.Split`: up to the last slash and with it, and what follows.
unfoldable pub path_split : Bytes → Bytes × Bytes
unfolding bytes_eq
path_split [] = ([], [])
path_split (c ∷ s) =
    let (d, name) = path_split s in
    if bytes_eq d [] then (if c == b'/' then (c ∷ [], name) else ([], c ∷ name)) else (c ∷ d, name)
