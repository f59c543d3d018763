-- ===== src/Cachestore/Steps/Operations.antt =====
-- Whole operations of the store, one after another.
use layerlens.Base.{
  ℕ, ltb, All, ◌+◌, ◌^◌, ◌%◌, ◌≡◌, Bool, true, false, Option, none, some, List, [], ◌∷◌, Bytes,
  arith, Option-cases, inl, inr, if_holds, Result, ok, err, Result-cases,
}
use layerlens.Base.Dict.{find}
use layerlens.Domain.Entry.{LayerIndex}
use layerlens.Domain.Image.{ImageRecord}
use layerlens.Cachestore.State.{CacheError, ImageEntry, Store, held}
use layerlens.Cachestore.Layout.{image_path_for}
use layerlens.Cachestore.Lru.{Disk}
use layerlens.Cachestore.Lru.Accounts.{IsAccounted}
use layerlens.Cachestore.Lru.Closed.{IsClosed}
use layerlens.Cachestore.Txn.{begin, use_layer}
use layerlens.Cachestore.Txn.Limit.{HasSizes}
use layerlens.Cachestore.Put.{PutIo, put_layer}
use layerlens.Cachestore.Commit.{CommitIo, commit, abort}
use layerlens.Cachestore.Rewrite.{
  RewriteIo, Provenance, merged, write_record, upgrade_entry, upgrade_provenance, touch_entry,
  touch, returning, rewrite, set_record,
}
use layerlens.Cachestore.Steps.{Reached}
use layerlens.Cachestore.Steps.Reached.{opened, begun, used, finished, touched, upgraded, resized}
use layerlens.Cachestore.Steps.Accounts.{Reached-IsAccounted}
use layerlens.Cachestore.Steps.Commits.{commit-Reached}
use layerlens.Cachestore.Steps.Closed.{Reached-IsClosed}
use layerlens.Cachestore.Steps.Runs.{HasPutSizes, put_layer-Reached}

module _ {start : Store} {p : ℕ} where
  write_record-Reached :
      (io : RewriteIo) (rec : ImageRecord) (s : Store)
      → Reached start p s
      → Reached start p (write_record io rec s).0
  unfolding write_record
  write_record-Reached io rec s r = elim (Result-cases (image_path_for s.root rec.id)) [
    | inl (e, f) ↦ rw (f, write_record) r
    | inr (c, f) ↦ elim (Result-cases (rewrite io rec)) [
      | inl (e, g) ↦ rw (f, g, write_record) r
      | inr (n, g) ↦ rw (f, g, write_record) (resized rec.id n r)
    ]
  ]

  returning-Reached :
      (rec : ImageRecord) (r : Store × Result CacheError (Unit {0}))
      → Reached start p r.0
      → Reached start p (returning rec r).0
  unfolding returning
  returning-Reached rec (s, err e) r = r
  returning-Reached rec (s, ok _) r = r

  upgrade_entry-Reached :
      (io : RewriteIo) (id : Bytes) (e : ImageEntry) (m : ImageRecord × Bool) (s : Store)
      → Reached start p (set_record id e m.0 s)
      → Reached start p s
      → Reached start p (upgrade_entry io id e m s).0
  unfolding upgrade_entry
  upgrade_entry-Reached io id e (rec, true) s u r =
      returning-Reached rec _ (write_record-Reached io rec (set_record id e rec s) u)
  upgrade_entry-Reached io id e (rec, false) s u r = r

  upgrade_provenance-Reached :
      (ctx : Option CacheError) (io : RewriteIo) (id : Bytes) (new : Provenance) (s : Store)
      → Reached start p s
      → Reached start p (upgrade_provenance ctx io id new s).0
  unfolding upgrade_provenance
  upgrade_provenance-Reached (some e) io id new s r = r
  upgrade_provenance-Reached none io id new s r = elim (Option-cases (find id s.images)) [
    | inl f ↦ rw (f, upgrade_provenance) r
    | inr (e, f) ↦
        rw (f, upgrade_provenance)
          (upgrade_entry-Reached io id e (merged new e.rec) s (upgraded id e new f r) r)
  ]

  touch-Reached :
      (ctx : Option CacheError) (io : RewriteIo) (now : ℕ) (id : Bytes) (s : Store)
      → Reached start p s
      → Reached start p (touch ctx io now id s).0
  unfolding touch touch_entry
  touch-Reached (some e) io now id s r = r
  touch-Reached none io now id s r = elim (Option-cases (find id s.images)) [
    | inl f ↦ rw (f, touch) r
    | inr (e, f) ↦
        let rec = record e.rec { last_used_at = now } in
        rw (f, touch)
          (if_holds (λ (r : Store × Result CacheError (Unit {0})). Reached start p r.0)
            (ltb now (e.rec.last_used_at + s.debounce)) _ _ (λ _. r)
            (λ _. write_record-Reached io rec (set_record id e rec s) (touched id e now f r)))
  ]

-- What the ingests and the requests ask of the store, each with what it meets.
pub data Operation : Type 0 where
  begins : Option Bytes → Operation
  uses : ℕ → Bytes → Operation
  puts : Disk → ℕ → PutIo → Option LayerIndex → Operation
  commits : Disk → ℕ → CommitIo → Option ImageRecord → Operation
  aborts : ℕ → Option Bytes → Operation
  upgrades : Option CacheError → RewriteIo → Bytes → Provenance → Operation
  touches : Option CacheError → RewriteIo → ℕ → Bytes → Operation

unfoldable pub perform : Operation → Store → Store
perform (begins e) s = (begin e s).0
perform (uses h d) s = (use_layer h d s).0
perform (puts disk h io idx) s = (put_layer disk h io idx s).0
perform (commits disk h io rec) s = (commit disk h io rec s).0
perform (aborts h e) s = (abort h e s).0
perform (upgrades ctx io id new) s = (upgrade_provenance ctx io id new s).0
perform (touches ctx io now id) s = (touch ctx io now id s).0

unfoldable pub perform_all : List Operation → Store → Store
unfolding perform
perform_all [] s = s
perform_all (o ∷ os) s = perform_all os (perform o s)

-- The files that it stages are written in chunks of a length that is an int64 and not negative.
abbrev pub HasFileSizes : Operation → Type 0
HasFileSizes (puts disk h io idx) = HasPutSizes io
HasFileSizes (commits disk h io rec) = (r : ImageRecord) → HasSizes (io.record_file r)
HasFileSizes _ = Unit

perform-Reached :
    {start : Store} {p : ℕ} (o : Operation) (s : Store)
    → IsAccounted 0 start
    → HasFileSizes o
    → Reached start p s
    → Reached start p (perform o s)
unfolding perform
perform-Reached (begins e) s a z r = begun e r
perform-Reached (uses h d) s a z r = used h d r
perform-Reached (puts disk h io idx) s a z r = put_layer-Reached a disk h io idx s z r
perform-Reached (commits disk h io rec) s a z r = commit-Reached a disk h io rec s z r
perform-Reached (aborts h e) s a z r = finished h e r
perform-Reached (upgrades ctx io id new) s a z r = upgrade_provenance-Reached ctx io id new s r
perform-Reached (touches ctx io now id) s a z r = touch-Reached ctx io now id s r

perform_all-Reached :
    {start : Store} {p : ℕ} (os : List Operation) (s : Store)
    → IsAccounted 0 start
    → All HasFileSizes os
    → Reached start p s
    → Reached start p (perform_all os s)
unfolding perform_all
perform_all-Reached [] s a z r = r
perform_all-Reached (o ∷ os) s a z r =
    perform_all-Reached os (perform o s) a z.1 (perform-Reached o s a z.0 r)

-- Whatever operations run one after another on a store whose tables and accounting agree and which
-- holds every layer that is depended on, and however each of them ends, at its success or at any
-- of its errors: the accounted bytes are then, as int64, exactly those of the images and layers in
-- the tables, and every layer that an image or an open transaction depends on is still there. The
-- files are staged in chunks whose lengths are int64 that are not negative.
pub perform_all_exact :
    (os : List Operation) (s : Store)
    → IsAccounted 0 s
    → IsClosed s
    → All HasFileSizes os
    → ((perform_all os s).accounted ≡ held (perform_all os s) % 2 ^ 64)
      × IsClosed (perform_all os s)
perform_all_exact os s a h z =
    let r = perform_all-Reached os s a z opened in
    let e = (Reached-IsAccounted a r).balance in (omega (arith, e), Reached-IsClosed a h r)
