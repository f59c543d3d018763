-- ===== src/Analyze/Trunk/Chain.antt =====
-- Equal chain identities are what a shared stack of layers means.
use layerlens.Base.{
  ℕ, zero, suc, ◌≤◌, ◌≡◌, refl, sym, ap, ◌∙◌, ◌↔◌, Option, none, some, List, [], ◌∷◌, ◌++◌, Bytes,
  codes, arith, length, take, All, All-append, ok, err, Result, ◌>>=◌,
}
use mathlib.Core.Path.{subst}
use layerlens.Domain.Digest.{DigestError, validate, digest_from_bytes}
use layerlens.Domain.Digest.Shape.{
  IsByte, validate→, IsDigest-bytes, digest_from_bytes-bytes, digest_from_bytes-injective,
}
use layerlens.Analyze.Trunk.{ChainError, next_chain, chain_loop, chain_ids}

append_cancel : (a b c : Bytes) → a ++ b ≡ a ++ c → b ≡ c
append_cancel [] b c e = e
append_cancel (x ∷ a) b c e = append_cancel a b c (cc)

-- A round that ends well: the digest is well formed, and so are those behind it.
round_inv :
    (i : ℕ) (v : Option DigestError) (r : Result ChainError (List Bytes)) (c : Bytes)
    (out : List Bytes)
    → (elim v [ some e ↦ err (record { at = i; cause = e }) | none ↦ r >>= λ out. ok (c ∷ out) ])
      ≡ ok out
    → (rest : List Bytes) × (v ≡ none) × (r ≡ ok rest) × (out ≡ c ∷ rest)
round_inv i (some e) r c out h = absurd (ground arith)
round_inv i none (ok rest) c out h = (rest, refl, refl, cc)
round_inv i none (err e) c out h = absurd (ground arith)

module _ (sha256 : Bytes → Bytes) where
  -- What a successful round has read and written.
  chain_loop-inv :
      (i : ℕ) (prev d : Bytes) (ds out : List Bytes)
      → chain_loop sha256 i prev (d ∷ ds) ≡ ok out
      → (rest : List Bytes) × (validate d ≡ none)
        × (chain_loop sha256 (suc i) (next_chain sha256 i prev d) ds ≡ ok rest)
        × (out ≡ next_chain sha256 i prev d ∷ rest)
  unfolding chain_loop
  chain_loop-inv i prev d ds out h =
      round_inv i (validate d) (chain_loop sha256 (suc i) (next_chain sha256 i prev d) ds)
        (next_chain sha256 i prev d) out h

  chain_loop-take :
      (n i : ℕ) (prev : Bytes) (xs ys cs ds : List Bytes)
      → chain_loop sha256 i prev xs ≡ ok cs
      → chain_loop sha256 i prev ys ≡ ok ds
      → n ≤ length xs
      → n ≤ length ys
      → take n xs ≡ take n ys
      → take n cs ≡ take n ds
  chain_loop-take zero i prev xs ys cs ds hx hy lx ly e = refl
  chain_loop-take (suc n) i prev [] ys cs ds hx hy lx ly e = absurd (omega arith)
  chain_loop-take (suc n) i prev (x ∷ xs) [] cs ds hx hy lx ly e = absurd (omega arith)
  chain_loop-take (suc n) i prev (x ∷ xs) (y ∷ ys) cs ds hx hy lx ly e =
      let (rx, vx, tx, ox) = chain_loop-inv i prev x xs cs hx in
      let (ry, vy, ty, oy) = chain_loop-inv i prev y ys ds hy in
      let head : x ≡ y = cc in
      let tail : take n xs ≡ take n ys = cc in
      let ty' : chain_loop sha256 (suc i) (next_chain sha256 i prev x) ys ≡ ok ry =
        ap (λ d. chain_loop sha256 (suc i) (next_chain sha256 i prev d) ys) head ∙ ty in
      let ih = chain_loop-take n (suc i) _ xs ys rx ry tx ty' (omega arith) (omega arith) tail in
      rw (ox, oy) (cc (ih, ap (next_chain sha256 i prev) head))

  next_chain-suc :
      (i : ℕ) (prev d : Bytes)
      → next_chain sha256 (suc i) prev d ≡ digest_from_bytes (sha256 (prev ++ (codes " " ++ d)))
  unfolding next_chain
  next_chain-suc i prev d = ground arith

  -- What is hashed for the identities behind the first one, which is its DiffID itself.
  abbrev pub links_from : Bytes → List Bytes → List Bytes
  links_from prev [] = []
  links_from prev (d ∷ ds) =
      let link = prev ++ (codes " " ++ d) in link ∷ links_from (digest_from_bytes (sha256 link)) ds

  abbrev pub links : List Bytes → List Bytes
  links [] = []
  links (d ∷ ds) = links_from d ds

  -- The hash does not collide on two strings that stand at the same place.
  abbrev pub NoCollision : List Bytes → List Bytes → Type 0
  NoCollision [] ts = Unit
  NoCollision (s ∷ ss) [] = Unit
  NoCollision (s ∷ ss) (t ∷ ts) = (sha256 s ≡ sha256 t → s ≡ t) × NoCollision ss ts

  module _ (bytes : (s : Bytes) → All IsByte s → All IsByte (sha256 s)) where
    link_bytes :
        (prev d : Bytes) → All IsByte prev → All IsByte d → All IsByte (prev ++ (codes " " ++ d))
    link_bytes prev d hp hd = All-append IsByte prev (codes " " ++ d) hp (omega arith, hd)

    next_chain-bytes :
        (i : ℕ) (prev d : Bytes)
        → All IsByte prev
        → All IsByte d
        → All IsByte (next_chain sha256 (suc i) prev d)
    next_chain-bytes i prev d hp hd =
        rw (next_chain-suc i prev d) (digest_from_bytes-bytes _ (bytes _ (link_bytes prev d hp hd)))

    next_chain-injective :
        (i : ℕ) (prev x y : Bytes)
        → All IsByte prev
        → All IsByte x
        → All IsByte y
        → (sha256 (prev ++ (codes " " ++ x)) ≡ sha256 (prev ++ (codes " " ++ y))
            → prev ++ (codes " " ++ x) ≡ prev ++ (codes " " ++ y))
        → next_chain sha256 (suc i) prev x ≡ next_chain sha256 (suc i) prev y
        → x ≡ y
    next_chain-injective i prev x y hp hx hy free e =
        let lx = link_bytes prev x hp hx in
        let ly = link_bytes prev y hp hy in
        let e' : digest_from_bytes (sha256 (prev ++ (codes " " ++ x)))
            ≡ digest_from_bytes (sha256 (prev ++ (codes " " ++ y))) =
          sym (next_chain-suc i prev x) ∙ (e ∙ next_chain-suc i prev y) in
        let linked = free (digest_from_bytes-injective _ _ (bytes _ lx) (bytes _ ly) e') in
        append_cancel (codes " ") x y (append_cancel prev (codes " " ++ x) (codes " " ++ y) linked)

    -- Behind the first identity, the free pairs of links step with the loops.
    chain_loop-untake :
        (n i : ℕ) (prev : Bytes) (xs ys cs ds : List Bytes)
        → All IsByte prev
        → NoCollision (links_from prev xs) (links_from prev ys)
        → chain_loop sha256 (suc i) prev xs ≡ ok cs
        → chain_loop sha256 (suc i) prev ys ≡ ok ds
        → n ≤ length xs
        → n ≤ length ys
        → take n cs ≡ take n ds
        → take n xs ≡ take n ys
    chain_loop-untake zero i prev xs ys cs ds hp free hx hy lx ly e = refl
    chain_loop-untake (suc n) i prev [] ys cs ds hp free hx hy lx ly e = absurd (omega arith)
    chain_loop-untake (suc n) i prev (x ∷ xs) [] cs ds hp free hx hy lx ly e = absurd (omega arith)
    chain_loop-untake (suc n) i prev (x ∷ xs) (y ∷ ys) cs ds hp free hx hy lx ly e =
        let (rx, vx, tx, ox) = chain_loop-inv (suc i) prev x xs cs hx in
        let (ry, vy, ty, oy) = chain_loop-inv (suc i) prev y ys ds hy in
        let bx = IsDigest-bytes x (validate→ x vx) in
        let by' = IsDigest-bytes y (validate→ y vy) in
        let c = next_chain sha256 (suc i) prev x in
        let e' : c ∷ take n rx ≡ next_chain sha256 (suc i) prev y ∷ take n ry =
          ap (take (suc n)) (sym ox) ∙ (e ∙ ap (take (suc n)) oy) in
        let head : x ≡ y = next_chain-injective i prev x y hp bx by' free.0 (cc) in
        let ty' : chain_loop sha256 (suc (suc i)) c ys ≡ ok ry =
          ap (λ d. chain_loop sha256 (suc (suc i)) (next_chain sha256 (suc i) prev d) ys) head
          ∙ ty in
        let free' : NoCollision (links_from c xs) (links_from c ys) = rw (next_chain-suc i prev x) (
          subst
            (λ d.
              NoCollision (links_from (digest_from_bytes (sha256 (prev ++ (codes " " ++ x)))) xs)
                (links_from (digest_from_bytes (sha256 (prev ++ (codes " " ++ d)))) ys))
            (sym head) free.1) in
        let tail : take n xs ≡ take n ys =
          chain_loop-untake n (suc i) c xs ys rx ry (next_chain-bytes i prev x hp bx) free' tx ty'
            (omega arith) (omega arith) (cc) in
        cc

    chain_first-untake :
        (n : ℕ) (xs ys cs ds : List Bytes)
        → NoCollision (links xs) (links ys)
        → chain_loop sha256 0 [] xs ≡ ok cs
        → chain_loop sha256 0 [] ys ≡ ok ds
        → n ≤ length xs
        → n ≤ length ys
        → take n cs ≡ take n ds
        → take n xs ≡ take n ys
    unfolding next_chain
    chain_first-untake zero xs ys cs ds free hx hy lx ly e = refl
    chain_first-untake (suc n) [] ys cs ds free hx hy lx ly e = absurd (omega arith)
    chain_first-untake (suc n) (x ∷ xs) [] cs ds free hx hy lx ly e = absurd (omega arith)
    chain_first-untake (suc n) (x ∷ xs) (y ∷ ys) cs ds free hx hy lx ly e =
        let (rx, vx, tx, ox) = chain_loop-inv 0 [] x xs cs hx in
        let (ry, vy, ty, oy) = chain_loop-inv 0 [] y ys ds hy in
        let e' : x ∷ take n rx ≡ y ∷ take n ry =
          ap (take (suc n)) (sym ox) ∙ (e ∙ ap (take (suc n)) oy) in
        let head : x ≡ y = cc in
        let ty' : chain_loop sha256 1 x ys ≡ ok ry = ap (λ d. chain_loop sha256 1 d ys) head ∙ ty in
        let free' : NoCollision (links_from x xs) (links_from x ys) =
          subst (λ d. NoCollision (links_from x xs) (links_from d ys)) (sym head) free in
        let tail : take n xs ≡ take n ys =
          chain_loop-untake n 0 x xs ys rx ry (IsDigest-bytes x (validate→ x vx)) free' tx ty'
            (omega arith) (omega arith) (cc) in
        cc

    -- For two lists of n DiffIDs at least that ChainIDs accepts, with a hash of bytes to bytes that does
    -- not collide on what is hashed for the two lists at one place: the first n DiffIDs are equal
    -- exactly when the first n chain identities are.
    pub chain_ids_iff :
        (n : ℕ) (xs ys cs ds : List Bytes)
        → NoCollision (links xs) (links ys)
        → chain_ids sha256 xs ≡ ok cs
        → chain_ids sha256 ys ≡ ok ds
        → n ≤ length xs
        → n ≤ length ys
        → (take n xs ≡ take n ys) ↔ (take n cs ≡ take n ds)
    unfolding chain_ids
    chain_ids_iff n xs ys cs ds free hx hy lx ly = (
      chain_loop-take n 0 [] xs ys cs ds hx hy lx ly,
      chain_first-untake n xs ys cs ds free hx hy lx ly,
    )
