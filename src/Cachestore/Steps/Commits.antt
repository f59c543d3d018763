-- ===== src/Cachestore/Steps/Commits.antt =====
-- Commit as a run of its sections.
use layerlens.Base.{
  ℕ, ◌+◌, ◌^◌, ◌<◌, ◌≡◌, refl, sym, ap, ◌∙◌, false, Option, none, some, Bytes, arith, inl, inr,
  if_holds, Result, ok, err, Result-cases,
}
use layerlens.Domain.Image.{ImageRecord}
use layerlens.Cachestore.State.{CacheError, Txn, Store, get_txn}
use layerlens.Cachestore.Layout.{image_path_for}
use layerlens.Cachestore.Lru.{Disk, reserve, reserve_ceiling}
use layerlens.Cachestore.Lru.Accounts.{IsAccounted, charged, charged_size, granted}
use layerlens.Cachestore.Txn.Limit.{HasSizes, write_staged_limit-le, reserve_ceiling-lt}
use layerlens.Cachestore.Commit.{
  CommitIo, first_undeclared, stored_record, commit_renamed, commit_reserved, commit_staged,
  commit_declared, commit_record, commit,
}
use layerlens.Cachestore.Steps.{Reached}
use layerlens.Cachestore.Steps.Reached.{reserved, released, committed, finished}
use layerlens.Cachestore.Steps.Accounts.{Reached-IsAccounted}
use layerlens.Cachestore.Steps.Runs.{Agrees, reserve-Agrees, recount, over_budget-Reached}

-- The transaction is open and has declared the layers of the record.
abbrev MayCommit : Txn → ImageRecord → Type 0
MayCommit t rec = (t.done ≡ false) × (first_undeclared t.layers rec.layers ≡ none)

MayCommit-Agrees : (t u : Txn) (rec : ImageRecord) → Agrees t u → MayCommit u rec → MayCommit t rec
MayCommit-Agrees t u rec a m = (a.1 ∙ m.0, ap (λ l. first_undeclared l rec.layers) a.0 ∙ m.1)

module _ {start : Store} {p : ℕ} (a : IsAccounted 0 start) (disk : Disk) (h : ℕ) where
  commit_renamed-Reached :
      (io : CommitIo) (rec : ImageRecord) (n : ℕ) (c : Result CacheError (Unit {0})) (s : Store)
      → n < 2 ^ 63
      → MayCommit (get_txn s.txns h) rec
      → Reached start (p + n) s
      → Reached start p (commit_renamed h io rec n c s).0
  unfolding commit_renamed
  commit_renamed-Reached io rec n (err e) s z m r =
      released (some h) n
        (recount (p + n) (p + charged n) s (ap (λ k. p + k) (sym (charged_size n z))) r)
  commit_renamed-Reached io rec n (ok _) s z m r =
      finished h io.clean_error (committed h rec n m.0 m.1 r)

  commit_reserved-Reached :
      (io : CommitIo) (rec : ImageRecord) (n : ℕ) (r : Store × Result CacheError (Unit {0}))
      → n < 2 ^ 63
      → MayCommit (get_txn r.0.txns h) rec
      → Reached start (p + granted r.1 n) r.0
      → Reached start p (commit_reserved h io rec n r).0
  unfolding commit_reserved
  commit_reserved-Reached io rec n (s, err e) z m r = recount (p + 0) p s (omega arith) r
  commit_reserved-Reached io rec n (s, ok _) z m r =
      commit_renamed-Reached io rec n _ s z m
        (recount (p + charged n) (p + n) s (ap (λ k. p + k) (charged_size n z)) r)

  commit_staged-Reached :
      (io : CommitIo) (rec : ImageRecord) (c : Result CacheError ℕ) (s : Store)
      → ((n : ℕ) → c ≡ ok n → n < 2 ^ 63)
      → MayCommit (get_txn s.txns h) rec
      → Reached start p s
      → Reached start p (commit_staged disk h io rec c s).0
  unfolding commit_staged
  commit_staged-Reached io rec (err e) s z m r = over_budget-Reached a disk h e s r
  commit_staged-Reached io rec (ok n) s z m r =
      let k = (Reached-IsAccounted a r).images_keyed in
      commit_reserved-Reached io rec n (reserve disk (some h) n s) (z n refl)
        (MayCommit-Agrees (get_txn (reserve disk (some h) n s).0.txns h) (get_txn s.txns h) rec
          (reserve-Agrees disk (some h) n s h k) m)
        (reserved disk (some h) n r)

  commit_declared-Reached :
      (io : CommitIo) (rec : ImageRecord) (o : Option Bytes) (s : Store)
      → ((r : ImageRecord) → HasSizes (io.record_file r))
      → (o ≡ none → MayCommit (get_txn s.txns h) rec)
      → Reached start p s
      → Reached start p (commit_declared disk h io rec o s).0
  unfolding commit_declared stored_record
  commit_declared-Reached io rec (some d) s z m r = r
  commit_declared-Reached io rec none s z m r =
      let stored = stored_record io.now rec in
      commit_staged-Reached io stored _ s
        (λ n e.
          let l = reserve_ceiling-lt h s in
          let le =
            write_staged_limit-le (reserve_ceiling h s) n (io.record_file stored) (z stored) l e in
          omega (arith, l, le))
        (m refl) r

  commit_record-Reached :
      (io : CommitIo) (o : Option ImageRecord) (s : Store)
      → ((r : ImageRecord) → HasSizes (io.record_file r))
      → (get_txn s.txns h).done ≡ false
      → Reached start p s
      → Reached start p (commit_record disk h io o s).0
  unfolding commit_record
  commit_record-Reached io none s z o r = r
  commit_record-Reached io (some rec) s z o r = elim (Result-cases (image_path_for s.root rec.id)) [
    | inl (e, f) ↦ rw (f, commit_record) r
    | inr (c, f) ↦ rw (f, commit_record) (commit_declared-Reached io rec _ s z (λ u. (o, u)) r)
  ]

  pub commit-Reached :
      (io : CommitIo) (o : Option ImageRecord) (s : Store)
      → ((r : ImageRecord) → HasSizes (io.record_file r))
      → Reached start p s
      → Reached start p (commit disk h io o s).0
  unfolding commit
  commit-Reached io o s z r =
      if_holds (λ (r : Store × Result CacheError (Unit {0})). Reached start p r.0)
        (get_txn s.txns h).done _ _ (λ _. r) (λ open_txn. commit_record-Reached io o s z open_txn r)
