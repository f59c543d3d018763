-- ===== src/Analyze/Diff/Metadata.antt =====
-- When two objects at a path count as the same.
use layerlens.Base.{
  ◌≡◌, refl, sym, ap, ◌∙◌, ◌%◌, ◌^◌, ◌↔◌, ◌⊎◌, inl, inr, true, false, arith, ◌||◌, ◌&&◌, Bool-cases,
  Distinct,
}
use layerlens.Domain.Entry.{kind_eq, dir}
use layerlens.Domain.Tree.{Attrs}
use layerlens.Analyze.Fields.{fields_of_node, project_dir, sorted_xattrs}
use layerlens.Analyze.Fields.Encoding.{SameFields}
use layerlens.Analyze.Fields.Same.{keys, kind_eq_iff, fields_equal_iff}
use layerlens.Analyze.Diff.{meta_differs}

-- What a comparison looks at, but for the kind: all that is stored but the modification time and whether
-- a directory is implicit. Of the mode the twelve low bits count, and a directory has no content.
pub record SameMeta (l r : Attrs) : Type 0 where
  pub mode : l.mode % 2 ^ 12 ≡ r.mode % 2 ^ 12
  pub uid : l.uid ≡ r.uid
  pub gid : l.gid ≡ r.gid
  pub uname : l.uname ≡ r.uname
  pub gname : l.gname ≡ r.gname
  pub link_target : l.link_target ≡ r.link_target
  pub devmajor : l.devmajor ≡ r.devmajor
  pub devminor : l.devminor ≡ r.devminor
  pub xattrs : sorted_xattrs l.xattrs ≡ sorted_xattrs r.xattrs
  pub content : ¬ (l.kind ≡ dir) → (l.size ≡ r.size) × (l.content_sha ≡ r.content_sha)

-- One kind, and the same metadata, but for directories of which one is implicit.
abbrev pub SameObject : Attrs → Attrs → Type 0
SameObject l r =
    (l.kind ≡ r.kind) × (((l.kind ≡ dir) × ((l.implicit || r.implicit) ≡ true)) ⊎ SameMeta l r)

fields-SameMeta :
    (l r : Attrs)
    → l.kind ≡ r.kind
    → SameFields (fields_of_node l) (fields_of_node r)
    → SameMeta l r
unfolding fields_of_node project_dir
fields-SameMeta l r k f = elim (Bool-cases (kind_eq l.kind dir)) [
  | inl p ↦
      let g = rw (p, ap (λ j. kind_eq j dir) (sym k) ∙ p) at f in
      record {
        mode = g.mode;
        uid = g.uid;
        gid = g.gid;
        uname = g.uname;
        gname = g.gname;
        link_target = g.link_target;
        devmajor = g.devmajor;
        devminor = g.devminor;
        xattrs = g.xattrs;
        content = λ n. absurd (n ((kind_eq_iff l.kind dir).0 p));
      }
  | inr p ↦
      let g = rw (p, ap (λ j. kind_eq j dir) (sym k) ∙ p) at f in
      record {
        mode = g.mode;
        uid = g.uid;
        gid = g.gid;
        uname = g.uname;
        gname = g.gname;
        link_target = g.link_target;
        devmajor = g.devmajor;
        devminor = g.devminor;
        xattrs = g.xattrs;
        content = λ _. (g.size, g.content_sha);
      }
]

SameMeta-fields :
    (l r : Attrs)
    → l.kind ≡ r.kind
    → SameMeta l r
    → SameFields (fields_of_node l) (fields_of_node r)
unfolding fields_of_node project_dir
SameMeta-fields l r k s = elim (Bool-cases (kind_eq l.kind dir)) [
  | inl p ↦
      rw (p, ap (λ j. kind_eq j dir) (sym k) ∙ p)
        (record {
          kind = k;
          mode = s.mode;
          uid = s.uid;
          gid = s.gid;
          uname = s.uname;
          gname = s.gname;
          size = refl;
          link_target = s.link_target;
          devmajor = s.devmajor;
          devminor = s.devminor;
          xattrs = s.xattrs;
          content_sha = refl;
        })
  | inr p ↦
      let same = s.content (λ d. absurd (ground (arith, kind_eq_iff l.kind dir, d))) in
      rw (p, ap (λ j. kind_eq j dir) (sym k) ∙ p)
        (record {
          kind = k;
          mode = s.mode;
          uid = s.uid;
          gid = s.gid;
          uname = s.uname;
          gname = s.gname;
          size = same.0;
          link_target = s.link_target;
          devmajor = s.devmajor;
          devminor = s.devminor;
          xattrs = s.xattrs;
          content_sha = same.1;
        })
]

node_xattrs : (a : Attrs) → Distinct (keys a.xattrs) → Distinct (keys (fields_of_node a).xattrs)
unfolding fields_of_node project_dir
node_xattrs a h = elim (Bool-cases (kind_eq a.kind dir)) [ inl p ↦ rw p h | inr p ↦ rw p h ]

-- When the left object has each extended attribute once: the comparison does not tell two objects apart
-- exactly when they are of one kind, and either are directories of which one is implicit, or agree in
-- owner, names, link target, device numbers, extended attributes and the twelve low bits of the mode,
-- and, if they are no directories, in size and content hash. Modification times do not count.
pub meta_differs_iff :
    (l r : Attrs) → Distinct (keys l.xattrs) → (meta_differs l r ≡ false) ↔ SameObject l r
unfolding meta_differs
meta_differs_iff l r d =
    let same = fields_equal_iff (fields_of_node l) (fields_of_node r) (node_xattrs l d) in
    (
      λ e.
          let kinds : l.kind ≡ r.kind = ground (arith, kind_eq_iff l.kind r.kind) in
          (
            kinds,
            elim (Bool-cases (kind_eq l.kind dir && (l.implicit || r.implicit))) [
              | inl p ↦ inl (ground (arith, kind_eq_iff l.kind dir), ground arith)
              | inr p ↦ inr (fields-SameMeta l r kinds (same.0 (ground arith)))
            ],
          ),
      λ h. elim (h.1) [
        | inl (k, i) ↦ ground (arith, kind_eq_iff l.kind r.kind, h.0, k, i)
        | inr s ↦ ground (arith, kind_eq_iff l.kind r.kind, same.1 (SameMeta-fields l r h.0 s), h.0)
      ],
    )
