-- ===== src/Cachestore/Rewrite/Again.antt =====
-- An upgrade that is asked for again.
use layerlens.Base.{
  ℕ, ◌≡◌, refl, sym, ap, ◌∙◌, Bool, true, false, none, some, Bytes, inl, inr, Result, ok, err,
  Result-cases, bytes_eq_iff,
}
use layerlens.Base.Dict.{Dict, find, insert, find-insert}
use layerlens.Domain.Image.{ImageRecord}
use layerlens.Cachestore.State.{CacheError, ImageEntry, Store}
use layerlens.Cachestore.Layout.{image_path_for}
use layerlens.Cachestore.Lru.Victim.{IsKeyed}
use layerlens.Cachestore.Rewrite.{
  RewriteIo, Provenance, merged, rewrite, resize_record, write_record, set_record, returning,
  upgrade_entry, upgrade_provenance,
}
use layerlens.Cachestore.Rewrite.Merge.{merged_again, merged_unchanged, merged-id}

-- The table has the record under the id.
abbrev Shows : Bytes → ImageRecord → Store → Type 0
Shows id rec s = (e : ImageEntry) × (find id s.images ≡ some e) × (e.rec ≡ rec)

find-insert_self :
    (id : Bytes) (e : ImageEntry) (d : Dict ImageEntry) → find id (insert id e d) ≡ some e
find-insert_self id e d = rw (find-insert id id e d, (bytes_eq_iff id id).1 refl) refl

resize_record-Shows :
    (id : Bytes) (n : ℕ) (rec : ImageRecord) (s : Store)
    → Shows id rec s
    → Shows id rec (resize_record id n s)
unfolding resize_record
resize_record-Shows id n rec s (e, f, r) =
    rw (f, resize_record) (record e { bytes = n }, find-insert_self id _ s.images, r)

write_record-Shows :
    (io : RewriteIo) (rec : ImageRecord) (s : Store)
    → Shows rec.id rec s
    → Shows rec.id rec (write_record io rec s).0
unfolding write_record
write_record-Shows io rec s h = elim (Result-cases (image_path_for s.root rec.id)) [
  | inl (e, f) ↦ rw (f, write_record) h
  | inr (c, f) ↦ elim (Result-cases (rewrite io rec)) [
    | inl (e, g) ↦ rw (f, g, write_record) h
    | inr (n, g) ↦ rw (f, g, write_record) (resize_record-Shows rec.id n rec s h)
  ]
]

returning-Shows :
    (id : Bytes) (rec x : ImageRecord) (r : Store × Result CacheError (Unit {0}))
    → Shows id rec r.0
    → Shows id rec (returning x r).0
unfolding returning
returning-Shows id rec x (s, err e) h = h
returning-Shows id rec x (s, ok _) h = h

upgrade_entry-Shows :
    (io : RewriteIo) (id : Bytes) (e : ImageEntry) (m : ImageRecord × Bool) (s : Store)
    → find id s.images ≡ some e
    → m.0.id ≡ id
    → (m.1 ≡ false → m.0 ≡ e.rec)
    → Shows id m.0 (upgrade_entry io id e m s).0
unfolding upgrade_entry set_record
upgrade_entry-Shows io id e (rec, false) s f i same = (e, f, sym (same refl))
upgrade_entry-Shows io id e (rec, true) s f i same =
    let s' = set_record id e rec s in
    let entry : ImageEntry = record e { rec = rec } in
    let h : Shows rec.id rec s' = (
      entry,
      ap (λ k. find k (insert id entry s.images)) i ∙ find-insert_self id entry s.images,
      refl,
    ) in
    let w : Shows rec.id rec (write_record io rec s').0 = write_record-Shows io rec s' h in
    returning-Shows id rec rec (write_record io rec s')
      (w.0, ap (λ k. find k (write_record io rec s').0.images) (sym i) ∙ w.1, w.2)

upgrade_shown :
    (io : RewriteIo) (id : Bytes) (new : Provenance) (rec : ImageRecord) (s : Store)
    → Shows id rec s
    → merged new rec ≡ (rec, false)
    → upgrade_provenance none io id new s ≡ (s, ok rec)
unfolding upgrade_provenance upgrade_entry
upgrade_shown io id new rec s (e, f, r) m =
    let again : merged new e.rec ≡ (rec, false) = ap (merged new) r ∙ m in
    rw (f, upgrade_provenance)
      (ap (λ (m : ImageRecord × Bool). upgrade_entry io id e m s) again ∙ ap (λ x. (s, ok x)) r)

-- On a store whose images stand under their own ids, an upgrade of an image that is there leaves
-- it such that the same upgrade, asked for again, changes nothing and rewrites no file, whatever
-- that would meet: it returns the merged record. This is so also where the first upgrade failed
-- to write the file.
pub upgrade_provenance_again :
    (io io' : RewriteIo) (id : Bytes) (new : Provenance) (s : Store) (e : ImageEntry)
    → IsKeyed s.images
    → find id s.images ≡ some e
    → upgrade_provenance none io' id new (upgrade_provenance none io id new s).0
      ≡ ((upgrade_provenance none io id new s).0, ok (merged new e.rec).0)
unfolding upgrade_provenance
upgrade_provenance_again io io' id new s e k f =
    let m = merged new e.rec in
    let shown : Shows id m.0 (upgrade_provenance none io id new s).0 =
      rw (f, upgrade_provenance)
        (upgrade_entry-Shows io id e m s f (merged-id new e.rec ∙ k.keyed id e f)
          (merged_unchanged new e.rec)) in
    upgrade_shown io' id new m.0 (upgrade_provenance none io id new s).0 shown
      (merged_again new e.rec)
