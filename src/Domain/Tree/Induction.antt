-- ===== src/Domain/Tree/Induction.antt =====
-- What holds of a node when it holds of its children holds of every node.
use layerlens.Base.{◌≡◌, some, Bytes, arith, bytes_eq, Bool-cases, inl, inr}
use layerlens.Domain.Tree.{Attrs, Node, Children, node, no_children, child, get_child}

abbrev pub Every {ℓ} : (Node → Type ℓ) → Children → Type ℓ
Every P no_children = Unit
Every P (child _ c cs) = P c × Every P cs

pub get-Every {ℓ} :
    (P : Node → Type ℓ) (cs : Children) (k : Bytes) (c : Node)
    → Every P cs
    → get_child k cs ≡ some c
    → P c
unfolding get_child
get-Every P no_children k c h e = absurd (ground arith)
get-Every P (child j m cs) k c h e = elim (Bool-cases (bytes_eq j k)) [
  | inl p ↦ let e' : c ≡ m = ground arith in rw e' h.0
  | inr p ↦ get-Every P cs k c h.1 (ground arith)
]

module _ {ℓ} (P : Node → Type ℓ)
    (step : (n : Bytes) (a : Attrs) (cs : Children) → Every P cs → P (node n a cs)) where
  mutual
    pub node_induction : (t : Node) → P t
    node_induction (node n a cs) = step n a cs (children_induction cs)

    pub children_induction : (cs : Children) → Every P cs
    children_induction no_children = tt
    children_induction (child _ c cs) = (node_induction c, children_induction cs)
