-- ===== src/Cachestore/Sweep/Sound.antt =====
-- What Open leaves in the tables.
use layerlens.Base.{
  ℕ, ◌≡◌, refl, sym, ap, ◌∙◌, true, false, Option, none, some, List, [], ◌∷◌, Bytes, arith, All,
  AllPairs, All-zip, Bool-cases, Option-cases, inl, inr, Result, ok, err, Result-cases, ◌>>=◌,
  add64, lt64, bytes_eq, bytes_eq→eq, bytes_eq_iff, ◌==◌,
}
use layerlens.Base.Dict.{find, find-insert, total-insert_new}
use layerlens.Domain.Image.{Layer, ImageRecord}
use layerlens.Cachestore.State.{CacheError, ImageEntry, Store}
use layerlens.Cachestore.Records.{has_layer}
use layerlens.Cachestore.Lru.{names_layer, any_image_names, any_txn_holds, layer_referenced}
use layerlens.Cachestore.Lru.Accounts.{IsAccounted}
use layerlens.Cachestore.Lru.Closed.{IsClosed}
use layerlens.Cachestore.Txn.{checked}
use layerlens.Cachestore.Put.{record_schema_version}
use layerlens.Cachestore.Steps.Accounts.{insert-IsKeyed}
use layerlens.Cachestore.Steps.Closed.{insert_image-IsClosed}
use layerlens.Cachestore.Sweep.{
  LayerDir, sweep_layers, ImageFile, record_file_id, has_layers, read_image_doc, read_image_file,
  install_record, sweep_record, sweep_images, DataDir, sweep, Options, open_store,
}
use layerlens.Cachestore.Sweep.Loads.{
  record_file_id-injective, bind-Ends, discard-Ends, sweep_layers-IsLoaded, Ends, IsLoaded, IsFresh,
}

abbrev IsSound : Store → Type 0
IsSound s = IsAccounted 0 s × IsClosed s

-- No image stands under the id of the name.
abbrev IsNew : Store → Bytes → Type 0
IsNew s n = (id : Bytes) → record_file_id n ≡ some id → find id s.images ≡ none

abbrev Records : Store → Bytes → Store → Type 0
Records s n t = IsSound t × ((m : Bytes) → bytes_eq n m ≡ false → IsNew s m → IsNew t m)

has_layers_named :
    (s : Store) (ls : List Layer) (d : Bytes)
    → has_layers s ls ≡ true
    → names_layer d ls ≡ true
    → has_layer s d ≡ true
unfolding has_layers names_layer
has_layers_named s [] d h r = absurd (ground (arith, r))
has_layers_named s (l ∷ ls) d h r = elim (Bool-cases (bytes_eq l.diff_id d)) [
  | inl p ↦ rw (← bytes_eq→eq l.diff_id d p) (ground (arith, h))
  | inr p ↦ has_layers_named s ls d (ground (arith, h)) (ground (arith, r))
]

install_record-Records :
    (n : Bytes) (rec : ImageRecord) (size : ℕ) (s : Store)
    → record_file_id n ≡ some rec.id
    → has_layers s rec.layers ≡ true
    → IsNew s n
    → IsSound s
    → Records s n (install_record (rec, size) s)
unfolding install_record
install_record-Records n rec size s f layers new (a, c) =
    let entry : ImageEntry = record { rec = rec; bytes = size } in
    (
      (
        record {
          layers_distinct = a.layers_distinct;
          images_keyed = insert-IsKeyed rec.id entry s.images refl a.images_keyed;
          balance = omega (
            arith,
            total-insert_new (λ x. x.bytes) rec.id entry s.images (new rec.id f),
            a.balance,
          );
        },
        insert_image-IsClosed rec.id entry (add64 s.accounted size) s
            (λ d r. has_layers_named s rec.layers d layers r) c,
      ),
      λ m ne g j e. elim (Bool-cases (bytes_eq rec.id j)) [
        | inl p ↦
            let same =
              record_file_id-injective n m rec.id f
                (e ∙ ap (λ x. some x) (sym (bytes_eq→eq rec.id j p))) in
            absurd (ground (arith, bytes_eq_iff n m, same, ne))
        | inr p ↦ rw (find-insert rec.id j entry s.images, p) (g j e)
      ],
    )

-- What a record that is read has been checked for.
abbrev IsUsable : Store → Bytes → Result CacheError (ImageRecord × ℕ) → Type 0
IsUsable s n (ok (rec, size)) = (record_file_id n ≡ some rec.id) × (has_layers s rec.layers ≡ true)
IsUsable s n (err _) = Unit

read_image_doc-IsUsable :
    (e : ImageFile) (id : Bytes) (s : Store)
    → record_file_id e.name ≡ some id
    → IsUsable s e.name (read_image_doc e id s)
unfolding read_image_doc
read_image_doc-IsUsable e id s f = elim (Result-cases e.size) [
  | inl (x, g) ↦ simp (g) tt
  | inr (n, g) ↦ elim (Result-cases e.doc) [
    | inl (x, k) ↦ simp (g, k) tt
    | inr (doc, k) ↦ elim (Bool-cases (doc.v == record_schema_version)) [
      | inr v ↦ simp (g, k, v) tt
      | inl v ↦ elim (Bool-cases (bytes_eq doc.rec.id id)) [
        | inr i ↦ simp (g, k, v, i) tt
        | inl i ↦ elim (Bool-cases (has_layers s doc.rec.layers)) [
          | inr l ↦ simp (g, k, v, i, l) tt
          | inl l ↦
              simp (g, k, v, i, l) (f ∙ ap (λ x. some x) (sym (bytes_eq→eq doc.rec.id id i)), refl)
        ]
      ]
    ]
  ]
]

read_image_file-IsUsable : (e : ImageFile) (s : Store) → IsUsable s e.name (read_image_file e s)
unfolding read_image_file
read_image_file-IsUsable e s = elim (Bool-cases e.is_dir) [
  | inl d ↦ simp (d) tt
  | inr d ↦ elim (Option-cases (record_file_id e.name)) [
    | inl f ↦ simp (d, f, read_image_file) tt
    | inr (id, f) ↦ simp (d, f, read_image_file) (read_image_doc-IsUsable e id s f)
  ]
]

sweep_record-Records :
    (e : ImageFile) (r : Result CacheError (ImageRecord × ℕ)) (s : Store)
    → IsUsable s e.name r
    → IsNew s e.name
    → IsSound s
    → Ends (Records s e.name) (sweep_record e r s)
unfolding sweep_record
sweep_record-Records e (err x) s u new h =
    discard-Ends (Records s e.name) e.remove_error s (h, λ m ne g. g)
sweep_record-Records e (ok (rec, size)) s u new h =
    install_record-Records e.name rec size s u.0 u.1 new h

sweep_images-IsSound :
    (es : List ImageFile) (s : Store)
    → All (λ e. IsNew s e.name) es
    → AllPairs (λ x y. bytes_eq x.name y.name ≡ false) es
    → IsSound s
    → Ends IsSound (sweep_images es s)
unfolding sweep_images
sweep_images-IsSound [] s f d h = h
sweep_images-IsSound (e ∷ es) s f d h =
    bind-Ends (Records s e.name) IsSound (sweep_record e (read_image_file e s) s)
      (λ t. sweep_images es t)
      (sweep_record-Records e (read_image_file e s) s (read_image_file-IsUsable e s) f.0 h)
      (λ t l. sweep_images-IsSound es t (All-zip es (λ x g ne. l.1 x.name ne g) f.1 d.0) d.1 l.0)

-- The names in a directory differ.
abbrev pub HasNames : DataDir → Type 0
HasNames dir =
    ((es : List LayerDir)
      → dir.layer_dirs ≡ ok es
      → AllPairs (λ x y. bytes_eq x.name y.name ≡ false) es)
    × ((es : List ImageFile)
        → dir.image_files ≡ ok es
        → AllPairs (λ x y. bytes_eq x.name y.name ≡ false) es)

without_layers : (es : List LayerDir) (s : Store) → s.layers ≡ [] → All (λ e. IsFresh s e.name) es
unfolding find
without_layers [] s h = tt
without_layers (e ∷ es) s h = (λ d f. rw h refl, without_layers es s h)

without_images : (es : List ImageFile) (s : Store) → s.images ≡ [] → All (λ e. IsNew s e.name) es
unfolding find
without_images [] s h = tt
without_images (e ∷ es) s h = (λ d f. rw h refl, without_images es s h)

IsLoaded-IsSound : (s : Store) → IsLoaded s → IsSound s
unfolding layer_referenced any_image_names any_txn_holds
IsLoaded-IsSound s (a, i, t) = (a, λ d r. absurd (cc (rw (i, t) at r)))

sweep_found :
    (dir : DataDir) (ls : List LayerDir) (s : Store)
    → AllPairs (λ x y. bytes_eq x.name y.name ≡ false) ls
    → HasNames dir
    → s.layers ≡ []
    → IsLoaded s
    → Ends IsSound
        (do s' ← sweep_layers ls s; image_files ← dir.image_files; sweep_images image_files s')
sweep_found dir ls s n names e h =
    bind-Ends IsLoaded IsSound (sweep_layers ls s) _
      (sweep_layers-IsLoaded ls s (without_layers ls s e) n h)
      (λ t l. elim (Result-cases dir.image_files) [
        | inl (x, g) ↦ simp (g) tt
        | inr (fs, g) ↦ simp (g) (
            sweep_images-IsSound fs t (without_images fs t l.1) (names.1 fs g)
              (IsLoaded-IsSound t l))
      ])

sweep-IsSound :
    (dir : DataDir) (s : Store)
    → HasNames dir
    → s.layers ≡ []
    → IsLoaded s
    → Ends IsSound (sweep dir s)
unfolding sweep
sweep-IsSound dir s names e h = elim (Result-cases (checked dir.staging_error)) [
  | inl (x, g) ↦ simp (g) tt
  | inr (u, g) ↦ elim (Result-cases dir.layer_dirs) [
    | inl (x, k) ↦ simp (g, k) tt
    | inr (ls, k) ↦ simp (g, k) (sweep_found dir ls s (names.0 ls k) names e h)
  ]
]

Ends_ok : (P : Store → Type 0) (r : Result CacheError Store) (s : Store) → Ends P r → r ≡ ok s → P s
Ends_ok P (ok t) s h e = let same : t ≡ s = ground (arith, e) in rw (← same) h
Ends_ok P (err x) s h e = absurd (cc)

empty-IsLoaded :
    (s : Store) → s.layers ≡ [] → s.images ≡ [] → s.txns ≡ [] → s.accounted ≡ 0 → IsLoaded s
unfolding find
empty-IsLoaded s l i t a = (
  record {
    layers_distinct = rw l tt;
    images_keyed = record { distinct = rw i tt; keyed = rw i (λ k e f. absurd (cc)) };
    balance = rw (a, l, i) refl;
  },
  i,
  t,
)

opened-IsSound :
    (opts : Options) (resolved : Result CacheError Bytes) (prepare_error : Option Bytes)
    (dir : DataDir)
    → HasNames dir
    → Ends IsSound (open_store opts resolved prepare_error dir)
unfolding open_store
opened-IsSound opts resolved prepare_error dir names = elim (Bool-cases (bytes_eq opts.root [])) [
  | inl b ↦ simp (b) tt
  | inr b ↦ elim (Bool-cases (lt64 0 opts.max_bytes)) [
    | inr c ↦ simp (b, c) tt
    | inl c ↦ elim (Result-cases resolved) [
      | inl (x, g) ↦ simp (b, c, g) tt
      | inr (root, g) ↦ elim (Result-cases (checked prepare_error)) [
        | inl (x, k) ↦ simp (b, c, g, k) tt
        | inr (u, k) ↦
            simp (b, c, g, k)
              (sweep-IsSound dir _ names refl (empty-IsLoaded _ refl refl refl refl))
      ]
    ]
  ]
]

-- Whatever a crash has left behind, if Open succeeds on a data directory in which no two layer
-- directories and no two record files have one name, then in the store that it returns the
-- accounted bytes are, as int64, those of its tables; no layer is listed twice and every image
-- stands under its own id; and every layer that an image names is there.
pub open_store-IsSound :
    (opts : Options) (resolved : Result CacheError Bytes) (prepare_error : Option Bytes)
    (dir : DataDir) (s : Store)
    → HasNames dir
    → open_store opts resolved prepare_error dir ≡ ok s
    → IsAccounted 0 s × IsClosed s
unfolding open_store
open_store-IsSound opts resolved prepare_error dir s names e =
    Ends_ok IsSound (open_store opts resolved prepare_error dir) s
      (opened-IsSound opts resolved prepare_error dir names) e
