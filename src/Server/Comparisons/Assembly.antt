-- ===== src/Server/Comparisons/Assembly.antt =====
-- An assembled comparison is Diff on the two squashed selections, or there is none.
use layerlens.Base.{
  ℕ, suc, ◌≡◌, refl, ap, ◌∙◌, sym, Option, none, some, List, [], ◌∷◌, Bytes, arith, take, Result,
  ok, err, ◌>>=◌, ◌↔◌,
}
use layerlens.Domain.Entry.{LayerIndex}
use layerlens.Domain.Image.{Layer, ImageRecord}
use layerlens.Domain.Tree.{Node}
use layerlens.Analyze.Squash.{apply_layer, new_squasher, squash, squash_onto}
use layerlens.Analyze.Diff.{diff}
use layerlens.Server.Comparisons.{
  Comparison, AssembleError, context_error, of_image, squash_layers, squash_record,
  assemble_comparison,
}

-- The indexes that the layers have in the store.
abbrev pub Loads :
    {E : Type 0} → (Bytes → Result E LayerIndex) → List Layer → List LayerIndex → Type 0
Loads load [] [] = Unit
Loads load (l ∷ ls) (i ∷ is) = (load l.diff_id ≡ ok i) × Loads load ls is
Loads load [] (i ∷ is) = ⊥
Loads load (l ∷ ls) [] = ⊥

module _ {E : Type 0} (load : Bytes → Result E LayerIndex) (cancelled : ℕ → Option E)
    (id : Bytes) where
  squash_layers-squash_onto :
      (i : ℕ) (t : Node) (ls : List Layer) (is : List LayerIndex)
      → ((j : ℕ) → cancelled j ≡ none)
      → Loads load ls is
      → squash_layers load cancelled id i t ls ≡ ok (squash_onto t is)
  unfolding squash_layers squash_onto
  squash_layers-squash_onto i t [] [] free h = refl
  squash_layers-squash_onto i t [] (x ∷ is) free h = absurd h
  squash_layers-squash_onto i t (l ∷ ls) [] free h = absurd h
  squash_layers-squash_onto i t (l ∷ ls) (x ∷ is) free h =
      rw (free i, h.0, squash_layers)
        (squash_layers-squash_onto (suc i) (apply_layer t x.entries) ls is free h.1)

  abbrev Loaded : Node → List Layer → Node → Type 0
  Loaded t ls u = (is : List LayerIndex) × Loads load ls is × (u ≡ squash_onto t is)

  step-Loaded :
      (i : ℕ) (t u : Node) (l : Layer) (ls : List Layer) (o : Option E) (r : Result E LayerIndex)
      → load l.diff_id ≡ r
      → ((x : LayerIndex)
          → squash_layers load cancelled id (suc i) (apply_layer t x.entries) ls ≡ ok u
          → Loaded (apply_layer t x.entries) ls u)
      → (elim o [
        | some e ↦ err (context_error e)
        | none ↦ of_image id i r >>= λ x.
            squash_layers load cancelled id (suc i) (apply_layer t x.entries) ls
      ])
        ≡ ok u
      → Loaded t (l ∷ ls) u
  unfolding squash_onto
  step-Loaded i t u l ls (some e) r q ih h = absurd (ground arith)
  step-Loaded i t u l ls none (err e) q ih h = absurd (ground arith)
  step-Loaded i t u l ls none (ok x) q ih h = let (is, a, b) = ih x h in (x ∷ is, (q, a), b)

  squash_layers-Loaded :
      (i : ℕ) (t u : Node) (ls : List Layer)
      → squash_layers load cancelled id i t ls ≡ ok u
      → Loaded t ls u
  unfolding squash_layers squash_onto
  squash_layers-Loaded i t u [] h = ([], tt, ground arith)
  squash_layers-Loaded i t u (l ∷ ls) h =
      step-Loaded i t u l ls (cancelled i) (load l.diff_id) refl
        (λ x. squash_layers-Loaded (suc i) (apply_layer t x.entries) u ls) h

-- The comparison of two trees, under the key of the selections.
abbrev pub made : ImageRecord → ImageRecord → ℕ → ℕ → Node → Node → Comparison
made left right m n t u = record {
  key = record { left = left.id; right = right.id; left_layers = m; right_layers = n };
  root = diff (some t) (some u);
}

module _ {E : Type 0} (load : Bytes → Result E LayerIndex) (cancelled : ℕ → Option E) where
  -- The selections are in the store, and the comparison is Diff on what Squash makes of them.
  abbrev pub Assembled : ImageRecord → ImageRecord → ℕ → ℕ → Comparison → Type 0
  Assembled left right m n cmp =
      (ls : List LayerIndex) × (rs : List LayerIndex) × Loads load (take m left.layers) ls
      × Loads load (take n right.layers) rs
      × (cmp ≡ made left right m n (squash ls) (squash rs))

  both_loaded :
      (left right : ImageRecord) (m n : ℕ) (cmp : Comparison) (a b : Result (AssembleError E) Node)
      → squash_record load cancelled left m ≡ a
      → squash_record load cancelled right n ≡ b
      → (a >>= λ left_tree. b >>= λ right_tree. ok (made left right m n left_tree right_tree))
        ≡ ok cmp
      → Assembled left right m n cmp
  unfolding squash_record squash
  both_loaded left right m n cmp (err e) b p q h = absurd (ground arith)
  both_loaded left right m n cmp (ok t) (err e) p q h = absurd (ground arith)
  both_loaded left right m n cmp (ok t) (ok u) p q h =
      let (ls, a, v) =
        squash_layers-Loaded load cancelled left.id 0 new_squasher t (take m left.layers) p in
      let (rs, b, w) =
        squash_layers-Loaded load cancelled right.id 0 new_squasher u (take n right.layers) q in
      let same : made left right m n t u ≡ cmp = cc in
      (
        ls,
        rs,
        a,
        b,
        sym same ∙ (ap (λ x. made left right m n x u) v ∙ ap (made left right m n _) w),
      )

  -- Unless it is cancelled: an assembly succeeds exactly when every index of both selections can be
  -- read, and then its comparison is the one of the two squashed selections, under their key.
  pub assemble_comparison_iff :
      (left right : ImageRecord) (m n : ℕ) (cmp : Comparison)
      → ((i : ℕ) → cancelled i ≡ none)
      → (assemble_comparison load cancelled left right m n ≡ ok cmp) ↔ Assembled left right m n cmp
  unfolding assemble_comparison squash_record squash
  assemble_comparison_iff left right m n cmp free = (
    λ h. both_loaded left right m n cmp _ _ refl refl h,
    λ (ls, rs, a, b, e).
        rw
          (
            squash_layers-squash_onto load cancelled left.id 0 new_squasher (take m left.layers) ls
                free a,
            squash_layers-squash_onto load cancelled right.id 0 new_squasher (take n right.layers)
                rs free b,
            e,
          )
          refl,
  )
