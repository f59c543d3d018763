-- ===== src/Analyze/Squash/Trees.antt =====
-- Each write keeps a tree a tree.
use layerlens.Base.{◌≡◌, refl, sym, ap, ◌∙◌, true, List, [], ◌∷◌, ◌++◌, Bytes, arith, inl, inr, ◌⊎◌}
use layerlens.Domain.Entry.{Entry}
use layerlens.Domain.Tree.{Node}
use layerlens.Analyze.Squash.{modify_at, clear_children, ensure_dirs, put_entry, remove_at, is_dir}
use layerlens.Analyze.Squash.View.{
  view, has_dir, here, above, below, beside, position, view-clear, view-remove,
}
use layerlens.Analyze.Squash.Upsert.{IsTidy, view-ensure_dirs, view-nil}

-- How a longer path stands.
position_under :
    (p q : List Bytes) (y : Bytes) (r : List Bytes)
    → (position p q ≡ here) ⊎ (position p q ≡ below)
    → position p (q ++ y ∷ r) ≡ below
position_under [] [] y r h = refl
position_under [] (z ∷ q) y r h = refl
position_under (x ∷ p) [] y r h = absurd (ground arith)
position_under (x ∷ p) (z ∷ q) y r h = ground (arith, position_under p q y r)

position_beside :
    (p q : List Bytes) (y : Bytes) (r : List Bytes)
    → position p q ≡ beside
    → position p (q ++ y ∷ r) ≡ beside
position_beside [] [] y r h = absurd (ground arith)
position_beside [] (z ∷ q) y r h = absurd (ground arith)
position_beside (x ∷ p) [] y r h = absurd (ground arith)
position_beside (x ∷ p) (z ∷ q) y r h = ground (arith, position_beside p q y r)

position_root : (p : List Bytes) → (position p [] ≡ here) ⊎ (position p [] ≡ above)
position_root [] = inl refl
position_root (x ∷ p) = inr refl

position_snoc : (ss : List Bytes) (name : Bytes) → position (ss ++ name ∷ []) [] ≡ above
position_snoc [] name = refl
position_snoc (s ∷ ss) name = refl

-- A tree that a layer can be applied to: its root is a directory and only directories have children.
pub record IsTree (t : Node) : Type 0 where
  pub root : has_dir (view [] t) ≡ true
  pub tidy : IsTidy t

pub root-is_dir : (t : Node) → has_dir (view [] t) ≡ true → is_dir t ≡ true
root-is_dir t h = sym (ap has_dir (view-nil t)) ∙ h

pub clear-IsTree : (p : List Bytes) (t : Node) → IsTree t → IsTree (modify_at p clear_children t)
clear-IsTree p t h = record {
  root = ground (arith, view-clear p t [], h.root, position_root p);
  tidy = λ q y r d. ground (
    arith,
    d,
    view-clear p t q,
    view-clear p t (q ++ y ∷ r),
    position_under p q y r,
    h.tidy q y r,
  );
}

pub remove-IsTree : (p : List Bytes) (t : Node) → IsTree t → IsTree (remove_at p t)
remove-IsTree [] t h = unfold remove_at in h
remove-IsTree (s ∷ p) t h = record {
  root = ground (arith, view-remove s p t [], h.root);
  tidy = λ q y r d. ground (
    arith,
    d,
    view-remove s p t q,
    view-remove s p t (q ++ y ∷ r),
    position_under (s ∷ p) q y r,
    h.tidy q y r,
  );
}

pub ensure-IsTree :
    (e : Entry) (ss : List Bytes) (name : Bytes) (t : Node)
    → IsTree t
    → IsTree (ensure_dirs ss (put_entry e name) t)
ensure-IsTree e ss name t h = record {
  root = ground (
    arith,
    view-ensure_dirs e ss name t [] h.tidy (root-is_dir t h.root),
    position_snoc ss name,
    h.root,
  );
  tidy = λ q y r d. ground (
    arith,
    d,
    view-ensure_dirs e ss name t q h.tidy (root-is_dir t h.root),
    view-ensure_dirs e ss name t (q ++ y ∷ r) h.tidy (root-is_dir t h.root),
    position_under (ss ++ name ∷ []) q y r,
    position_beside (ss ++ name ∷ []) q y r,
    h.tidy q y r,
  );
}
