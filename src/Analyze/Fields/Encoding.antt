-- ===== src/Analyze/Fields/Encoding.antt =====
-- No two field selections have encodings of which one continues the other.
use layerlens.Base.{
  ℕ, zero, suc, ◌/◌, ◌%◌, ◌^◌, ◌<◌, ◌≡◌, refl, sym, ap, ◌∙◌, List, [], ◌∷◌, ◌++◌, Bytes, arith,
  length, map, length-append, All, length-map, sort, length-sort, bytes_lt,
}
use native.Mathlib.Nat.{pow-suc}
use mathlib.Core.List.{append_assoc}
use layerlens.Domain.Entry.{kind_code, EntryKind, Xattrs}
use layerlens.Analyze.Fields.{
  TarsumFields, put_be, write_uint, write_str, write_pairs, sorted_xattrs, write_fields, xattr_pair,
}

append_split {ℓ} :
    {A : Type ℓ} (a b c d : List A) → length a ≡ length b → a ++ c ≡ b ++ d → (a ≡ b) × (c ≡ d)
append_split [] [] c d l e = (refl, e)
append_split [] (y ∷ b) c d l e = absurd (omega arith)
append_split (x ∷ a) [] c d l e = absurd (omega arith)
append_split (x ∷ a) (y ∷ b) c d l e =
    let (t, r) = append_split a b c d (omega arith) (cc) in (cc, r)

length-put_be : (n v : ℕ) → length (put_be n v) ≡ n
unfolding put_be
length-put_be zero v = refl
length-put_be (suc n) v =
    omega (arith, length-append (put_be n (v / 256)) (v % 256 ∷ []), length-put_be n (v / 256))

pow_suc : (n v : ℕ) → v < 256 ^ suc n → v / 256 < 256 ^ n
pow_suc n v h = omega (arith, pow-suc 256 n)

put_be-injective : (n v w : ℕ) → v < 256 ^ n → w < 256 ^ n → put_be n v ≡ put_be n w → v ≡ w
unfolding put_be
put_be-injective zero v w h k e = omega arith
put_be-injective (suc n) v w h k e =
    let (high, low) =
      append_split (put_be n (v / 256)) (put_be n (w / 256)) (v % 256 ∷ []) (w % 256 ∷ [])
        (length-put_be n (v / 256) ∙ sym (length-put_be n (w / 256))) e in
    let q : v / 256 ≡ w / 256 =
      put_be-injective n (v / 256) (w / 256) (pow_suc n v h) (pow_suc n w k) high in
    let r : v % 256 ≡ w % 256 = cc in omega arith

pub write_uint-split :
    (v w : ℕ) (c d : Bytes)
    → v < 2 ^ 64
    → w < 2 ^ 64
    → write_uint v ++ c ≡ write_uint w ++ d
    → (v ≡ w) × (c ≡ d)
unfolding write_uint
write_uint-split v w c d h k e =
    let (same, rest) =
      append_split (put_be 8 v) (put_be 8 w) c d (length-put_be 8 v ∙ sym (length-put_be 8 w)) e in
    (put_be-injective 8 v w h k same, rest)

-- A string whose length a machine word holds.
abbrev pub IsShort : Bytes → Type 0
IsShort s = length s < 2 ^ 64

write_str-split :
    (s t c d : Bytes)
    → IsShort s
    → IsShort t
    → write_str s ++ c ≡ write_str t ++ d
    → (s ≡ t) × (c ≡ d)
unfolding write_str
write_str-split s t c d h k e =
    let (l, rest) = write_uint-split (length s) (length t) (s ++ c) (t ++ d) h k (
      sym (append_assoc (write_uint (length s)) s c)
      ∙ e
      ∙ append_assoc (write_uint (length t)) t d) in
    append_split s t c d l rest

abbrev pub IsShortPair : Bytes × Bytes → Type 0
IsShortPair p = IsShort p.0 × IsShort p.1

write_pairs-split :
    (m n : Xattrs) (c d : Bytes)
    → length m ≡ length n
    → All IsShortPair m
    → All IsShortPair n
    → write_pairs m ++ c ≡ write_pairs n ++ d
    → (m ≡ n) × (c ≡ d)
unfolding write_pairs
write_pairs-split [] [] c d l hm hn e = (refl, e)
write_pairs-split [] (q ∷ n) c d l hm hn e = absurd (omega arith)
write_pairs-split (p ∷ m) [] c d l hm hn e = absurd (omega arith)
write_pairs-split ((j, v) ∷ m) ((k, w) ∷ n) c d l hm hn e =
    let e' : write_str j ++ (write_str v ++ (write_pairs m ++ c))
        ≡ write_str k ++ (write_str w ++ (write_pairs n ++ d)) =
      simp append_assoc at e in
    let (same_key, e₁) = write_str-split j k _ _ hm.0.0 hn.0.0 e' in
    let (same_value, e₂) = write_str-split v w _ _ hm.0.1 hn.0.1 e₁ in
    let (same_rest, e₃) = write_pairs-split m n c d (omega arith) hm.1 hn.1 e₂ in (cc, e₃)

-- Every number is an int64 or uint32 pattern and every length fits a word, as in a Go program.
pub record Fits (p : Bytes) (f : TarsumFields) : Type 0 where
  pub path : IsShort p
  pub mode : f.mode < 2 ^ 64
  pub uid : f.uid < 2 ^ 64
  pub gid : f.gid < 2 ^ 64
  pub uname : IsShort f.uname
  pub gname : IsShort f.gname
  pub size : f.size < 2 ^ 64
  pub link_target : IsShort f.link_target
  pub devmajor : f.devmajor < 2 ^ 64
  pub devminor : f.devminor < 2 ^ 64
  pub xattr_count : length f.xattrs < 2 ^ 64
  pub xattrs : All IsShortPair (sorted_xattrs f.xattrs)
  pub content_sha : IsShort f.content_sha

-- Two selections agree in every field, the attributes as sorted lists of pairs.
pub record SameFields (f g : TarsumFields) : Type 0 where
  pub kind : f.kind ≡ g.kind
  pub mode : f.mode ≡ g.mode
  pub uid : f.uid ≡ g.uid
  pub gid : f.gid ≡ g.gid
  pub uname : f.uname ≡ g.uname
  pub gname : f.gname ≡ g.gname
  pub size : f.size ≡ g.size
  pub link_target : f.link_target ≡ g.link_target
  pub devmajor : f.devmajor ≡ g.devmajor
  pub devminor : f.devminor ≡ g.devminor
  pub xattrs : sorted_xattrs f.xattrs ≡ sorted_xattrs g.xattrs
  pub content_sha : f.content_sha ≡ g.content_sha

kind_code-injective : (j k : EntryKind) → kind_code j ≡ kind_code k → j ≡ k
kind_code-injective j k e = ground arith

kind_code-lt : (k : EntryKind) → kind_code k < 2 ^ 64
kind_code-lt k = ground arith

pub length-sorted_xattrs : (m : Xattrs) → length (sorted_xattrs m) ≡ length m
unfolding sorted_xattrs
length-sorted_xattrs m =
    length-map (xattr_pair m) (sort bytes_lt (map (λ p. p.0) m))
    ∙ (length-sort bytes_lt (map (λ p. p.0) m) ∙ length-map (λ p. p.0) m)

-- The writes of `write_fields` in a row, with what follows them.
abbrev fields_then : Bytes → TarsumFields → Bytes → Bytes
fields_then p f c =
    write_str p
    ++ (write_uint (kind_code f.kind)
        ++ (write_uint f.mode
            ++ (write_uint f.uid
                ++ (write_uint f.gid
                    ++ (write_str f.uname
                        ++ (write_str f.gname
                            ++ (write_uint f.size
                                ++ (write_str f.link_target
                                    ++ (write_uint f.devmajor
                                        ++ (write_uint f.devminor
                                            ++ (write_uint (length f.xattrs)
                                                ++ (write_pairs (sorted_xattrs f.xattrs)
                                                    ++ (write_str f.content_sha ++ c)))))))))))))

write_fields-append :
    (p : Bytes) (f : TarsumFields) (c : Bytes) → write_fields p f ++ c ≡ fields_then p f c
unfolding write_fields
write_fields-append p f c = simp append_assoc

-- When a machine word holds the numbers and the lengths of the strings of both: if two encodings, each
-- with what follows it in the hashed stream, are one string, then the paths, the fields and what follows
-- are the same.
pub write_fields-injective :
    (p q : Bytes) (f g : TarsumFields) (c d : Bytes)
    → Fits p f
    → Fits q g
    → write_fields p f ++ c ≡ write_fields q g ++ d
    → (p ≡ q) × SameFields f g × (c ≡ d)
write_fields-injective p q f g c d hf hg e =
    let e₀ : fields_then p f c ≡ fields_then q g d =
      sym (write_fields-append p f c) ∙ e ∙ write_fields-append q g d in
    let (path, e₁) = write_str-split p q _ _ hf.path hg.path e₀ in
    let (kind, e₂) = write_uint-split _ _ _ _ (kind_code-lt f.kind) (kind_code-lt g.kind) e₁ in
    let (mode, e₃) = write_uint-split f.mode g.mode _ _ hf.mode hg.mode e₂ in
    let (uid, e₄) = write_uint-split f.uid g.uid _ _ hf.uid hg.uid e₃ in
    let (gid, e₅) = write_uint-split f.gid g.gid _ _ hf.gid hg.gid e₄ in
    let (uname, e₆) = write_str-split f.uname g.uname _ _ hf.uname hg.uname e₅ in
    let (gname, e₇) = write_str-split f.gname g.gname _ _ hf.gname hg.gname e₆ in
    let (size, e₈) = write_uint-split f.size g.size _ _ hf.size hg.size e₇ in
    let (link, e₉) =
      write_str-split f.link_target g.link_target _ _ hf.link_target hg.link_target e₈ in
    let (major, e_a) = write_uint-split f.devmajor g.devmajor _ _ hf.devmajor hg.devmajor e₉ in
    let (minor, e_b) = write_uint-split f.devminor g.devminor _ _ hf.devminor hg.devminor e_a in
    let (count, e_c) =
      write_uint-split (length f.xattrs) (length g.xattrs) _ _ hf.xattr_count hg.xattr_count e_b in
    let counts : length (sorted_xattrs f.xattrs) ≡ length (sorted_xattrs g.xattrs) =
      length-sorted_xattrs f.xattrs ∙ (count ∙ sym (length-sorted_xattrs g.xattrs)) in
    let (pairs, e_d) =
      write_pairs-split (sorted_xattrs f.xattrs) (sorted_xattrs g.xattrs) _ _ counts hf.xattrs
        hg.xattrs e_c in
    let (sha, rest) =
      write_str-split f.content_sha g.content_sha c d hf.content_sha hg.content_sha e_d in
    (
      path,
      record {
        kind = kind_code-injective f.kind g.kind kind;
        mode = mode;
        uid = uid;
        gid = gid;
        uname = uname;
        gname = gname;
        size = size;
        link_target = link;
        devmajor = major;
        devminor = minor;
        xattrs = pairs;
        content_sha = sha;
      },
      rest,
    )

-- Field selections that agree are written alike.
pub write_fields-congr :
    (p : Bytes) (f g : TarsumFields) → SameFields f g → write_fields p f ≡ write_fields p g
unfolding write_fields
write_fields-congr p f g s =
    let count : length f.xattrs ≡ length g.xattrs =
      sym (length-sorted_xattrs f.xattrs) ∙ (ap length s.xattrs ∙ length-sorted_xattrs g.xattrs) in
    cc (
      s.kind, s.mode, s.uid, s.gid, s.uname, s.gname, s.size, s.link_target, s.devmajor, s.devminor,
      count, s.xattrs, s.content_sha,
    )
