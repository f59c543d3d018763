-- ===== src/Analyze/Squash/Entries.antt =====
-- An entry of a clean path is written at the segments of its path.
use layerlens.Base.{path_split, ◌≡◌, refl, ap, ◌∙◌, List, [], ◌∷◌, ◌++◌, Bytes, All}
use layerlens.Domain.Entry.{Entry}
use layerlens.Domain.Tree.{Node}
use layerlens.Analyze.Squash.{segments, ensure_dirs, put_entry, upsert}
use layerlens.Analyze.Squash.Segments.{
  IsName, join_path, segments-join_path, segments-slash, path_split-join_path,
}

-- What an indexed entry's path is: "/"-rooted, of one name at least.
pub record HasPath (e : Entry) : Type 0 where
  pub parent : List Bytes
  pub name : Bytes
  pub names : All IsName (parent ++ name ∷ [])
  pub joined : e.path ≡ join_path (parent ++ name ∷ [])

All-left : (xs ys : List Bytes) → All IsName (xs ++ ys) → All IsName xs
All-left [] ys h = tt
All-left (x ∷ xs) ys h = (h.0, All-left xs ys h.1)

All-last : (xs : List Bytes) (y : Bytes) → All IsName (xs ++ y ∷ []) → IsName y
All-last [] y h = h.0
All-last (x ∷ xs) y h = All-last xs y h.1

pub segments-HasPath : (e : Entry) (h : HasPath e) → segments e.path ≡ h.parent ++ h.name ∷ []
segments-HasPath e h = ap segments h.joined ∙ segments-join_path (h.parent ++ h.name ∷ []) h.names

pub upsert-HasPath :
    (t : Node) (e : Entry) (h : HasPath e)
    → upsert t e ≡ ensure_dirs h.parent (put_entry e h.name) t
unfolding upsert
upsert-HasPath t e h =
    let name = All-last h.parent h.name h.names in
    let parent =
      segments-slash (join_path h.parent)
      ∙ segments-join_path h.parent (All-left h.parent _ h.names) in
    let cut = ap path_split h.joined ∙ path_split-join_path h.parent h.name name in
    rw cut (rw (name.0, parent) refl)
