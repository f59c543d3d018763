-- ===== src/Cachestore/Steps.antt =====
-- The store shared by ingests and requests: the sections that run under its lock, one after
-- another, in any order that the goroutines come to them.
pub mod Accounts
pub mod Held
pub mod Closed
pub mod Runs
pub mod Commits
pub mod Operations
use layerlens.Base.{ℕ, ◌+◌, ◌≡◌, true, false, Option, none, some, List, Bytes}
use layerlens.Base.Dict.{find}
use layerlens.Domain.Image.{ImageRecord}
use layerlens.Cachestore.State.{LayerSummary, ImageEntry, Store, get_txn}
use layerlens.Cachestore.Lru.{Disk, reserve, release}
use layerlens.Cachestore.Lru.Accounts.{granted, charged}
use layerlens.Cachestore.Txn.{begin, use_layer}
use layerlens.Cachestore.Put.{install_layer}
use layerlens.Cachestore.Commit.{first_undeclared, replace_image, finish_txn}
use layerlens.Cachestore.Rewrite.{Provenance, merged, set_record, resize_record}

-- What the store can become from `start`, and the bytes that are then reserved for writes which
-- are neither installed nor given back. A section runs where its goroutine can come to it: an
-- entry is installed, and a reservation given back, by one that has reserved.
pub data Reached (start : Store) : ℕ → Store → Type 0 where
  opened : Reached start 0 start
  begun : {p : ℕ} {s : Store} (e : Option Bytes) → Reached start p s → Reached start p (begin e s).0
  used :
      {p : ℕ} {s : Store} (h : ℕ) (d : Bytes)
      → Reached start p s
      → Reached start p (use_layer h d s).0
  reserved :
      {p : ℕ} {s : Store} (disk : Disk) (t : Option ℕ) (n : ℕ)
      → Reached start p s
      → Reached start (p + granted (reserve disk t n s).1 n) (reserve disk t n s).0
  released :
      {p : ℕ} {s : Store} (t : Option ℕ) (n : ℕ)
      → Reached start (p + charged n) s
      → Reached start p (release t n s)
  installed :
      {p : ℕ} {s : Store} (h : ℕ) (summary : LayerSummary) (n : ℕ)
      → (install_layer h summary n s).1 ≡ false
      → Reached start (p + n) s
      → Reached start p (install_layer h summary n s).0
  present :
      {p : ℕ} {s : Store} (h : ℕ) (summary : LayerSummary) (n : ℕ)
      → (install_layer h summary n s).1 ≡ true
      → Reached start p s
      → Reached start p (install_layer h summary n s).0
  committed :
      {p : ℕ} {s : Store} (h : ℕ) (rec : ImageRecord) (size : ℕ)
      → (get_txn s.txns h).done ≡ false
      → first_undeclared (get_txn s.txns h).layers rec.layers ≡ none
      → Reached start (p + size) s
      → Reached start p (replace_image rec size s)
  finished :
      {p : ℕ} {s : Store} (h : ℕ) (e : Option Bytes)
      → Reached start p s
      → Reached start p (finish_txn h e s).0
  touched :
      {p : ℕ} {s : Store} (id : Bytes) (e : ImageEntry) (now : ℕ)
      → find id s.images ≡ some e
      → Reached start p s
      → Reached start p (set_record id e (record e.rec { last_used_at = now }) s)
  upgraded :
      {p : ℕ} {s : Store} (id : Bytes) (e : ImageEntry) (new : Provenance)
      → find id s.images ≡ some e
      → Reached start p s
      → Reached start p (set_record id e (merged new e.rec).0 s)
  resized :
      {p : ℕ} {s : Store} (id : Bytes) (size : ℕ)
      → Reached start p s
      → Reached start p (resize_record id size s)
