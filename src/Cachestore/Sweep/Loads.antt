-- ===== src/Cachestore/Sweep/Loads.antt =====
-- What the sweep of the layer directories leaves.
use layerlens.Base.{
  ℕ, ◌-◌, ◌≡◌, sym, ap, ◌∙◌, false, Option, none, some, List, [], ◌∷◌, ◌++◌, Bytes, arith, All,
  AllPairs, All-zip, length, take, drop, take-append-drop, Bool-cases, Option-cases, inl, inr,
  Result, ok, err, Result-cases, ◌>>=◌, bytes_eq, bytes_eq→eq, bytes_eq_iff,
}
use layerlens.Base.Dict.{find, find-insert, insert-IsDict, total-insert_new}
use layerlens.Cachestore.State.{CacheError, LayerSummary, LayerEntry, Store}
use layerlens.Cachestore.Layout.{is_hex_name, digest_from_hex_name, record_file_ext}
use layerlens.Cachestore.Lru.Accounts.{IsAccounted}
use layerlens.Cachestore.Sweep.{
  LayerDir, discard, install_swept, sweep_read, read_layer_dir, sweep_layer, sweep_layers,
  record_stem, record_file_id,
}

pub digest_from_hex_name-injective :
    (a b d : Bytes) → digest_from_hex_name a ≡ some d → digest_from_hex_name b ≡ some d → a ≡ b
unfolding digest_from_hex_name
digest_from_hex_name-injective a b d p q = elim (Bool-cases (is_hex_name a)) [
  | inl x ↦ elim (Bool-cases (is_hex_name b)) [
    | inl y ↦ cc (rw x at p, rw y at q)
    | inr y ↦ absurd (cc (rw y at q))
  ]
  | inr x ↦ absurd (cc (rw x at p))
]

pub record_stem-append :
    (name stem : Bytes) → record_stem name ≡ some stem → stem ++ record_file_ext ≡ name
unfolding record_stem
record_stem-append name stem e =
    let n = length name - length record_file_ext in
    elim (Bool-cases (bytes_eq (drop n name) record_file_ext)) [
      | inl p ↦
          let t : take n name ≡ stem = ground (arith, rw p at e) in
          rw (← t, ← bytes_eq→eq (drop n name) record_file_ext p) (take-append-drop n name)
      | inr p ↦ absurd (cc (rw p at e))
    ]

pub record_file_id-injective :
    (a b d : Bytes) → record_file_id a ≡ some d → record_file_id b ≡ some d → a ≡ b
unfolding record_file_id
record_file_id-injective a b d p q = elim (Option-cases (record_stem a)) [
  | inl x ↦ absurd (cc (rw (x, record_file_id) at p))
  | inr (s, x) ↦ elim (Option-cases (record_stem b)) [
    | inl y ↦ absurd (cc (rw (y, record_file_id) at q))
    | inr (t, y) ↦
        let same =
          digest_from_hex_name-injective s t d (rw (x, record_file_id) at p)
            (rw (y, record_file_id) at q) in
        sym (record_stem-append a s x)
        ∙ (ap (λ l. l ++ record_file_ext) same ∙ record_stem-append b t y)
  ]
]

-- What holds of the store if the sweep goes on.
abbrev pub Ends : (Store → Type 0) → Result CacheError Store → Type 0
Ends P (ok s) = P s
Ends P (err _) = Unit

pub bind-Ends :
    (P Q : Store → Type 0) (m : Result CacheError Store) (f : Store → Result CacheError Store)
    → Ends P m
    → ((s : Store) → P s → Ends Q (f s))
    → Ends Q (m >>= f)
bind-Ends P Q (ok s) f h k = k s h
bind-Ends P Q (err e) f h k = tt

pub discard-Ends : (P : Store → Type 0) (r : Option Bytes) (s : Store) → P s → Ends P (discard r s)
discard-Ends P none s h = h
discard-Ends P (some e) s h = tt

abbrev pub IsLoaded : Store → Type 0
IsLoaded s = IsAccounted 0 s × (s.images ≡ []) × (s.txns ≡ [])

-- No layer stands under the digest of the name.
abbrev pub IsFresh : Store → Bytes → Type 0
IsFresh s n = (d : Bytes) → digest_from_hex_name n ≡ some d → find d s.layers ≡ none

-- A name that was fresh is still, unless it is the one given.
abbrev pub Loads : Store → Bytes → Store → Type 0
Loads s n t = IsLoaded t × ((m : Bytes) → bytes_eq n m ≡ false → IsFresh s m → IsFresh t m)

pub install_swept-Loads :
    (n d : Bytes) (r : LayerSummary × ℕ) (s : Store)
    → digest_from_hex_name n ≡ some d
    → IsFresh s n
    → IsLoaded s
    → Loads s n (install_swept d r s)
unfolding install_swept
install_swept-Loads n d (summary, size) s f fresh (a, i, t) =
    let entry : LayerEntry = record { summary = summary; bytes = size } in
    (
      (
        record {
          layers_distinct = insert-IsDict d entry s.layers a.layers_distinct;
          images_keyed = a.images_keyed;
          balance =
              omega
                (arith, total-insert_new (λ x. x.bytes) d entry s.layers (fresh d f), a.balance);
        },
        i,
        t,
      ),
      λ m ne g j e. elim (Bool-cases (bytes_eq d j)) [
        | inl p ↦
            let same =
              digest_from_hex_name-injective n m d f
                (e ∙ ap (λ x. some x) (sym (bytes_eq→eq d j p))) in
            absurd (ground (arith, bytes_eq_iff n m, same, ne))
        | inr p ↦ rw (find-insert d j entry s.layers, p) (g j e)
      ],
    )

pub sweep_layer-Loads :
    (e : LayerDir) (s : Store)
    → IsFresh s e.name
    → IsLoaded s
    → Ends (Loads s e.name) (sweep_layer e s)
unfolding sweep_layer sweep_read
sweep_layer-Loads e s fresh h =
    let skip = discard-Ends (Loads s e.name) e.remove_error s (h, λ m ne g. g) in
    elim (Option-cases (digest_from_hex_name e.name)) [
      | inl f ↦ rw (f, sweep_layer) skip
      | inr (d, f) ↦ elim (Bool-cases e.is_dir) [
        | inr file ↦ simp (f, file, sweep_layer) skip
        | inl dir ↦ elim (Result-cases (read_layer_dir e d)) [
          | inl (x, g) ↦ simp (f, dir, g, sweep_layer, sweep_read) skip
          | inr (r, g) ↦
              simp (f, dir, g, sweep_layer, sweep_read) (install_swept-Loads e.name d r s f fresh h)
        ]
      ]
    ]

pub sweep_layers-IsLoaded :
    (es : List LayerDir) (s : Store)
    → All (λ e. IsFresh s e.name) es
    → AllPairs (λ x y. bytes_eq x.name y.name ≡ false) es
    → IsLoaded s
    → Ends IsLoaded (sweep_layers es s)
unfolding sweep_layers
sweep_layers-IsLoaded [] s f d h = h
sweep_layers-IsLoaded (e ∷ es) s f d h =
    bind-Ends (Loads s e.name) IsLoaded (sweep_layer e s) (λ t. sweep_layers es t)
      (sweep_layer-Loads e s f.0 h)
      (λ t l. sweep_layers-IsLoaded es t (All-zip es (λ x g ne. l.1 x.name ne g) f.1 d.0) d.1 l.0)
