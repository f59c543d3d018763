-- ===== src/Analyze/Diff/Squashed.antt =====
-- Two images compared: Diff on what Squash makes of their layers.
use layerlens.Base.{◌≡◌, ◌↔◌, sym, false, some, List, Bytes, All}
use layerlens.Domain.Entry.{LayerIndex}
use layerlens.Analyze.Squash.{squash}
use layerlens.Analyze.Squash.Overlay.{HasPaths}
use layerlens.Analyze.Squash.Layers.{only_root, layers_over, squash-layers_over}
use layerlens.Analyze.Diff.{diff}
use layerlens.Analyze.Diff.Names.{changed_of}
use layerlens.Analyze.Diff.Unchanged.{Agree, diff-SameTree}

-- For layers whose objects have clean paths, the comparison of the two squashed trees is unchanged
-- exactly when the layers, laid over each other, leave objects that agree at every path.
pub diff-squash :
    (ls ms : List LayerIndex)
    → All (λ l. HasPaths l.entries) ls
    → All (λ l. HasPaths l.entries) ms
    → (changed_of (diff (some (squash ls)) (some (squash ms))) ≡ false)
      ↔ ((q : List Bytes) → Agree (layers_over ls only_root q) (layers_over ms only_root q))
diff-squash ls ms hl hm =
    let (tl, vl) = squash-layers_over ls hl in
    let (tm, vm) = squash-layers_over ms hm in
    let (to, from) = diff-SameTree (some (squash ls)) (some (squash ms)) tl.tidy tm.tidy in
    (λ e q. rw (sym (vl q), sym (vm q)) (to e q), λ h. from (λ q. rw (vl q, vm q) (h q)))
