-- ===== src/Analyze/Indexer/Filled.antt =====
-- internal/analyze/indexer.go: the entry that add makes of a member, filled from its body.
use layerlens.Base.{
  ◌≡◌, refl, inl, inr, ℕ, ◌%◌, ◌^◌, ◌<◌, false, ◌||◌, Option, none, some, [], Bytes, arith, Result,
  ok, err, if_holds, Gives,
}
use layerlens.Domain.Entry.{
  EntryKind, file, dir, symlink, hardlink, device, fifo, whiteout, opaque, kind_eq, Entry,
}
use layerlens.Analyze.Fields.Same.{kind_eq_iff}
use layerlens.Analyze.Squash.{is_marker}
use layerlens.Analyze.Sanitize.{sanitize_path}
use layerlens.Analyze.Indexer.{Member, IndexState, kind_of, entry_from}
use layerlens.Analyze.Indexer.Warning.{unsafe_target}
use layerlens.Analyze.Indexer.Origin.{HasType, IsFrom}
use layerlens.Analyze.Indexer.Accepts.{IsIndexing, warn-IsIndexing}
use layerlens.Analyze.Indexer.Layer.{link_to, hashed, fill_entry}

kind_of-HasType : (t : ℕ) (k : EntryKind) → kind_of t ≡ some k → HasType k t
unfolding kind_of
kind_of-HasType t file h = ground arith
kind_of-HasType t dir h = ground arith
kind_of-HasType t symlink h = ground arith
kind_of-HasType t hardlink h = ground arith
kind_of-HasType t device h = ground arith
kind_of-HasType t fifo h = ground arith
kind_of-HasType t whiteout h = absurd (ground arith)
kind_of-HasType t opaque h = absurd (ground arith)

HasType-object :
    (t : ℕ) (k : EntryKind) → HasType k t → (kind_eq k whiteout || kind_eq k opaque) ≡ false
HasType-object t file h = refl
HasType-object t dir h = refl
HasType-object t symlink h = refl
HasType-object t hardlink h = refl
HasType-object t device h = refl
HasType-object t fifo h = refl
HasType-object t whiteout h = absurd h
HasType-object t opaque h = absurd h

-- What entryFrom takes from the header.
pub record IsDraft (m : Member) (e : Entry) : Type 0 where
  pub named : sanitize_path m.header.name ≡ some e.path
  pub typed : HasType e.kind m.header.typeflag
  pub mode : e.mode ≡ m.header.mode % 2 ^ 12
  pub owner : (e.uid ≡ m.header.uid) × (e.gid ≡ m.header.gid)
  pub names : (e.uname ≡ m.header.uname) × (e.gname ≡ m.header.gname)
  pub empty : (e.size ≡ 0) × (e.content_sha ≡ [])
  pub link : e.kind ≡ symlink → e.link_target ≡ m.header.linkname
  pub no_link : e.kind ≡ hardlink → e.link_target ≡ []

pub entry_from-IsDraft :
    (m : Member) (p : Bytes) (k : EntryKind)
    → sanitize_path m.header.name ≡ some p
    → kind_of m.header.typeflag ≡ some k
    → IsDraft m (entry_from m.header p k)
unfolding entry_from
entry_from-IsDraft m p k h t = record {
  named = h;
  typed = kind_of-HasType m.header.typeflag k t;
  mode = refl;
  owner = (refl, refl);
  names = (refl, refl);
  empty = (refl, refl);
  link = λ e. rw ((kind_eq_iff k symlink).1 e) refl;
  no_link = λ e. ground (arith, e);
}

module _ (sha256 : Bytes → Bytes) (O : Entry → Type 0) (cap : ℕ) where
  pub record IsFilled (m : Member) (p : Bytes) (r : Entry × IndexState) : Type 0 where
    pub same_path : r.0.path ≡ p
    pub object : is_marker r.0 ≡ false
    pub sized : r.0.size < 2 ^ 64
    pub from : IsFrom sha256 m r.0
    pub state : IsIndexing O cap r.1

  link_to-IsFilled :
      (m : Member) (o : Option Bytes) (e : Entry) (s : IndexState)
      → sanitize_path m.header.linkname ≡ o
      → e.kind ≡ hardlink
      → IsDraft m e
      → IsIndexing O cap s
      → IsFilled m e.path (link_to m.header o e s)
  unfolding link_to
  link_to-IsFilled m none e s l k d h = record {
    same_path = refl;
    object = HasType-object m.header.typeflag e.kind d.typed;
    sized = omega arith;
    from = record {
      named = d.named;
      typed = d.typed;
      mode = d.mode;
      owner = d.owner;
      names = d.names;
      content = λ f. absurd (ground (arith, f, k));
      no_content = λ _. (refl, d.empty.1);
      link = d.link;
      hard_link = λ _. inr (l, d.no_link k);
    };
    state = warn-IsIndexing O cap (unsafe_target m.header.name m.header.linkname) s h;
  }
  link_to-IsFilled m (some target) e s l k d h = record {
    same_path = refl;
    object = HasType-object m.header.typeflag e.kind d.typed;
    sized = omega arith;
    from = record {
      named = d.named;
      typed = d.typed;
      mode = d.mode;
      owner = d.owner;
      names = d.names;
      content = λ f. absurd (ground (arith, f, k));
      no_content = λ _. (refl, d.empty.1);
      link = λ f. absurd (ground (arith, f, k));
      hard_link = λ _. inl l;
    };
    state = h;
  }

  hashed-IsFilled :
      (m : Member) (o : Result Bytes Bytes) (e : Entry) (s : IndexState)
      → m.body ≡ o
      → e.kind ≡ file
      → IsDraft m e
      → IsIndexing O cap s
      → Gives (IsFilled m e.path) (hashed sha256 o e s)
  unfolding hashed
  hashed-IsFilled m (err x) e s b k d h = tt
  hashed-IsFilled m (ok content) e s b k d h = record {
    same_path = refl;
    object = HasType-object m.header.typeflag e.kind d.typed;
    sized = omega arith;
    from = record {
      named = d.named;
      typed = d.typed;
      mode = d.mode;
      owner = d.owner;
      names = d.names;
      content = λ _. (content, b, refl, refl);
      no_content = λ n. absurd (n k);
      link = d.link;
      hard_link = λ f. absurd (ground (arith, f, k));
    };
    state = h;
  }

  pub fill_entry-IsFilled :
      (m : Member) (e : Entry) (s : IndexState)
      → IsDraft m e
      → IsIndexing O cap s
      → Gives (IsFilled m e.path) (fill_entry sha256 m e s)
  unfolding fill_entry
  fill_entry-IsFilled m e s d h =
      if_holds (Gives (IsFilled m e.path)) (kind_eq e.kind file) _ _
        (λ f. hashed-IsFilled m m.body e s refl ((kind_eq_iff e.kind file).0 f) d h)
        (λ f.
          if_holds (Gives (IsFilled m e.path)) (kind_eq e.kind hardlink) _ _
            (λ l.
              link_to-IsFilled m (sanitize_path m.header.linkname) e s refl
                ((kind_eq_iff e.kind hardlink).0 l) d h)
            (λ l. record {
              same_path = refl;
              object = HasType-object m.header.typeflag e.kind d.typed;
              sized = ground (arith, d.empty.0);
              from = record {
                named = d.named;
                typed = d.typed;
                mode = d.mode;
                owner = d.owner;
                names = d.names;
                content = λ k. absurd (ground (arith, k, kind_eq_iff e.kind file));
                no_content = λ _. d.empty;
                link = d.link;
                hard_link = λ k. absurd (ground (arith, k, kind_eq_iff e.kind hardlink));
              };
              state = h;
            }))
