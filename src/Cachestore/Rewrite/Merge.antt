-- ===== src/Cachestore/Rewrite/Merge.antt =====
-- UpgradeProvenance when it is repeated.
use layerlens.Base.{
  ◌≡◌, refl, sym, ap, ◌∙◌, Bool, true, false, not, ◌&&◌, ◌||◌, List, [], ◌∷◌, ◌++◌, Bytes, arith,
  All, Bool-cases, inl, inr, if◌then◌else◌, if_holds, bytes_eq, bytes_eq_iff, contains,
}
use layerlens.Domain.Image.{ImageRecord}
use layerlens.Cachestore.Rewrite.{Provenance, merge_refs, merge_source, merge_pin, merged}

-- A reference that a merge does not add.
abbrev IsOld : List Bytes → Bytes → Type 0
IsOld names r = (bytes_eq r [] || contains r names) ≡ true

contains-append : (k : Bytes) (l m : List Bytes) → contains k l ≡ true → contains k (l ++ m) ≡ true
unfolding contains
contains-append k [] m h = absurd (ground (arith, h))
contains-append k (j ∷ l) m h = ground (arith, contains-append k l m)

contains-append_last : (k : Bytes) (l : List Bytes) → contains k (l ++ k ∷ []) ≡ true
unfolding contains
contains-append_last k [] = ground (arith, bytes_eq_iff k k)
contains-append_last k (j ∷ l) = ground (arith, contains-append_last k l)

IsOld-append : (r : Bytes) (l m : List Bytes) → IsOld l r → IsOld (l ++ m) r
IsOld-append r l m h = ground (arith, h, contains-append r l m)

merge_refs-IsOld :
    (r : Bytes) (rs names : List Bytes) (c : Bool)
    → IsOld names r
    → IsOld (merge_refs rs (names, c)).0 r
unfolding merge_refs
merge_refs-IsOld r [] names c h = h
merge_refs-IsOld r (q ∷ rs) names c h =
    if_holds (λ (p : List Bytes × Bool). IsOld (merge_refs rs p).0 r)
      (bytes_eq q [] || contains q names) (names, c) (names ++ q ∷ [], true)
      (λ _. merge_refs-IsOld r rs names c h)
      (λ _. merge_refs-IsOld r rs (names ++ q ∷ []) true (IsOld-append r names (q ∷ []) h))

appended-IsOld : (q : Bytes) (names : List Bytes) → IsOld (names ++ q ∷ []) q
appended-IsOld q names = ground (arith, contains-append_last q names)

merge_refs_all : (rs names : List Bytes) (c : Bool) → All (IsOld (merge_refs rs (names, c)).0) rs
unfolding merge_refs
merge_refs_all [] names c = tt
merge_refs_all (q ∷ rs) names c =
    if_holds
      (λ (p : List Bytes × Bool). IsOld (merge_refs rs p).0 q × All (IsOld (merge_refs rs p).0) rs)
      (bytes_eq q [] || contains q names) (names, c) (names ++ q ∷ [], true)
      (λ old. (merge_refs-IsOld q rs names c old, merge_refs_all rs names c))
      (λ _. (
        merge_refs-IsOld q rs (names ++ q ∷ []) true (appended-IsOld q names),
        merge_refs_all rs (names ++ q ∷ []) true,
      ))

merge_refs_old :
    (rs names : List Bytes) (c : Bool)
    → All (IsOld names) rs
    → merge_refs rs (names, c) ≡ (names, c)
unfolding merge_refs
merge_refs_old [] names c h = refl
merge_refs_old (q ∷ rs) names c h = rw h.0 (merge_refs_old rs names c h.1)

-- Once changed, a merge stays changed.
merge_refs_changed : (rs names : List Bytes) → (merge_refs rs (names, true)).1 ≡ true
unfolding merge_refs
merge_refs_changed [] names = refl
merge_refs_changed (q ∷ rs) names =
    if_holds (λ (p : List Bytes × Bool). (merge_refs rs p).1 ≡ true)
      (bytes_eq q [] || contains q names) (names, true) (names ++ q ∷ [], true)
      (λ _. merge_refs_changed rs names) (λ _. merge_refs_changed rs (names ++ q ∷ []))

merge_refs_same :
    (rs names : List Bytes) (c : Bool)
    → (merge_refs rs (names, c)).1 ≡ false
    → merge_refs rs (names, c) ≡ (names, false)
unfolding merge_refs
merge_refs_same [] names c = λ h. rw h refl
merge_refs_same (q ∷ rs) names c =
    if_holds
      (λ (p : List Bytes × Bool). (merge_refs rs p).1 ≡ false → merge_refs rs p ≡ (names, false))
      (bytes_eq q [] || contains q names) (names, c) (names ++ q ∷ [], true)
      (λ _. merge_refs_same rs names c)
      (λ _ h. absurd (cc (h, merge_refs_changed rs (names ++ q ∷ []))))

abbrev replaces : Bytes → Bytes → Bool
replaces new old = not (bytes_eq new []) && not (bytes_eq new old)

merge_source-eq :
    (new : Bytes) (r : ImageRecord)
    → merge_source new r ≡ (
      record r { source = if replaces new r.source then new else r.source },
      replaces new r.source,
    )
unfolding merge_source
merge_source-eq new r = elim (Bool-cases (replaces new r.source)) [
  | inl t ↦ simp t refl
  | inr t ↦ simp t refl
]

merge_pin-eq :
    (pin : Bool) (r : ImageRecord) (c : Bool)
    → merge_pin pin (r, c) ≡ (record r { pinned = pin || r.pinned }, (pin && not r.pinned) || c)
unfolding merge_pin
merge_pin-eq false r c = refl
merge_pin-eq true r c = elim (Bool-cases r.pinned) [
  | inl t ↦ simp t (ap (λ b. (record r { pinned = b }, c)) t)
  | inr t ↦ simp t refl
]

-- The source after a merge.
abbrev next_source : Bytes → Bytes → Bytes
next_source new old = if replaces new old then new else old

replaces_again : (new old : Bytes) → replaces new (next_source new old) ≡ false
replaces_again new old = ground (arith, bytes_eq_iff new new)

next_source_again : (new old : Bytes) → next_source new (next_source new old) ≡ next_source new old
next_source_again new old = rw (replaces_again new old) refl

-- The record after a merge whose references have become `names`.
abbrev after : Provenance → ImageRecord → List Bytes → ImageRecord
after new r names = record r {
  source = next_source new.source r.source;
  pinned = new.pinned || r.pinned;
  ref_names = names;
}

abbrev names_after : Provenance → ImageRecord → List Bytes × Bool
names_after new r =
    merge_refs new.ref_names
      (r.ref_names, (new.pinned && not r.pinned) || replaces new.source r.source)

merged-eq :
    (new : Provenance) (r : ImageRecord)
    → merged new r ≡ (after new r (names_after new r).0, (names_after new r).1)
unfolding merged
merged-eq new r =
    rw
      (
        merge_source-eq new.source r,
        merge_pin-eq new.pinned (record r { source = next_source new.source r.source })
            (replaces new.source r.source),
      )
      refl

pinned_again : (a b : Bool) → (a && not (a || b)) ≡ false
pinned_again true b = refl
pinned_again false b = refl

ap2_or : {a b : Bool} → a ≡ false → b ≡ false → (a || b) ≡ false
ap2_or p q = rw (p, q) refl

after_again :
    (new : Provenance) (r : ImageRecord) (names : List Bytes)
    → All (IsOld names) new.ref_names
    → merged new (after new r names) ≡ (after new r names, false)
after_again new r names old =
    let again : names_after new (after new r names) ≡ (names, false) =
      ap (λ c. merge_refs new.ref_names (names, c))
        (ap2_or (pinned_again new.pinned r.pinned) (replaces_again new.source r.source))
      ∙ merge_refs_old new.ref_names names false old in
    let pin : (new.pinned || (new.pinned || r.pinned)) ≡ (new.pinned || r.pinned) = ground arith in
    merged-eq new (after new r names)
    ∙ (ap (λ (x : List Bytes × Bool). (after new (after new r names) x.0, x.1)) again
        ∙ (ap
              (λ src. (
                record r {
                  source = src;
                  pinned = new.pinned || (new.pinned || r.pinned);
                  ref_names = names;
                },
                false,
              ))
              (next_source_again new.source r.source)
            ∙ ap
                (λ b. (
                  record r {
                    source = next_source new.source r.source;
                    pinned = b;
                    ref_names = names;
                  },
                  false,
                ))
                pin))

pub merged_again :
    (new : Provenance) (r : ImageRecord) → merged new (merged new r).0 ≡ ((merged new r).0, false)
merged_again new r =
    let names = (names_after new r).0 in
    let old : All (IsOld names) new.ref_names =
      merge_refs_all new.ref_names r.ref_names
        ((new.pinned && not r.pinned) || replaces new.source r.source) in
    let same : (merged new r).0 ≡ after new r names =
      ap (λ (x : ImageRecord × Bool). x.0) (merged-eq new r) in
    ap (merged new) same ∙ (after_again new r names old ∙ ap (λ x. (x, false)) (sym same))

unchanged_parts : (a b c : Bool) → ((a && not b) || c) ≡ false → ((a || b) ≡ b) × (c ≡ false)
unchanged_parts a b c h = (ground arith, ground arith)

unflagged : (rs names : List Bytes) (c : Bool) → (merge_refs rs (names, c)).1 ≡ false → c ≡ false
unflagged rs names false h = refl
unflagged rs names true h = absurd (cc (h, merge_refs_changed rs names))

pub merged_unchanged :
    (new : Provenance) (r : ImageRecord) → (merged new r).1 ≡ false → (merged new r).0 ≡ r
merged_unchanged new r h =
    let c = (new.pinned && not r.pinned) || replaces new.source r.source in
    let e = merged-eq new r in
    let flag : (names_after new r).1 ≡ false = sym (ap (λ (x : ImageRecord × Bool). x.1) e) ∙ h in
    let names : names_after new r ≡ (r.ref_names, false) =
      merge_refs_same new.ref_names r.ref_names c flag in
    let parts =
      unchanged_parts new.pinned r.pinned (replaces new.source r.source)
        (unflagged new.ref_names r.ref_names c flag) in
    let src : next_source new.source r.source ≡ r.source = rw parts.1 refl in
    ap (λ (x : ImageRecord × Bool). x.0) e
    ∙ (ap (λ (x : List Bytes × Bool). after new r x.0) names
        ∙ (ap (λ b. record r { source = next_source new.source r.source; pinned = b }) parts.0
            ∙ ap (λ b. record r { source = b }) src))

pub merged-id : (new : Provenance) (r : ImageRecord) → (merged new r).0.id ≡ r.id
unfolding merged
merged-id new r = ground arith

pub merged-layers : (new : Provenance) (r : ImageRecord) → (merged new r).0.layers ≡ r.layers
unfolding merged
merged-layers new r = ground arith
