-- ===== src/Analyze/Changeset/Meaning.antt =====
-- What the digest sees of a changeset, and what it does not.
use layerlens.Base.{
  ℕ, suc, ◌^◌, ◌<◌, ◌≡◌, refl, sym, ap, ◌∙◌, ◌↔◌, List, [], ◌∷◌, ◌++◌, map, Bytes, arith, length,
  length-map, All, AllTwo, sort, sort-map, length-sort, sort-All,
}
use mathlib.Core.List.{append-nil, append_assoc}
use layerlens.Domain.Digest.{digest_from_bytes}
use layerlens.Domain.Digest.Shape.{digest_from_bytes-injective}
use layerlens.Domain.Entry.{Entry}
use layerlens.Analyze.Fields.{fields_of_entry, write_fields, write_entry}
use layerlens.Analyze.Fields.Encoding.{
  Fits, SameFields, write_fields-injective, write_fields-congr, write_uint-split,
}
use layerlens.Analyze.Changeset.{entry_less, write_entries, changeset_stream, changeset_digest_at}

-- The entry as a rebuild at another time leaves it.
abbrev pub touch_mtime : (Entry → ℕ) → Entry → Entry
touch_mtime clock e = record e { mtime_unix = clock e }

write_entries-touch_mtime :
    (clock : Entry → ℕ) (l : List Entry)
    → write_entries (map (touch_mtime clock) l) ≡ write_entries l
unfolding write_entries write_entry fields_of_entry
write_entries-touch_mtime clock [] = refl
write_entries-touch_mtime clock (e ∷ l) =
    ap (λ s. write_fields e.path (fields_of_entry e) ++ s) (write_entries-touch_mtime clock l)

-- Whatever the modification times become, the digest stays.
pub changeset_digest-touch_mtime :
    (sha256 : Bytes → Bytes) (version : ℕ) (clock : Entry → ℕ) (l : List Entry)
    → changeset_digest_at sha256 version (map (touch_mtime clock) l)
      ≡ changeset_digest_at sha256 version l
unfolding changeset_digest_at changeset_stream
changeset_digest-touch_mtime sha256 version clock l = rw (
  sort-map entry_less (touch_mtime clock) (λ x y. unfold entry_less in refl) l,
  write_entries-touch_mtime,
  length-map (touch_mtime clock) l,
)

-- Two entries are the same path with the same fields.
abbrev pub SameEntry : Entry → Entry → Type 0
SameEntry x y = (x.path ≡ y.path) × SameFields (fields_of_entry x) (fields_of_entry y)

abbrev pub EntryFits : Entry → Type 0
EntryFits e = Fits e.path (fields_of_entry e)

write_entries-injective :
    (l m : List Entry) (c d : Bytes)
    → length l ≡ length m
    → All EntryFits l
    → All EntryFits m
    → write_entries l ++ c ≡ write_entries m ++ d
    → AllTwo SameEntry l m
unfolding write_entries write_entry
write_entries-injective [] [] c d n hl hm e = tt
write_entries-injective [] (y ∷ m) c d n hl hm e = absurd (omega arith)
write_entries-injective (x ∷ l) [] c d n hl hm e = absurd (omega arith)
write_entries-injective (x ∷ l) (y ∷ m) c d n hl hm e =
    let (path, same, rest) =
      write_fields-injective x.path y.path (fields_of_entry x) (fields_of_entry y)
        (write_entries l ++ c) (write_entries m ++ d) hl.0 hm.0
        (sym (append_assoc _ (write_entries l) c) ∙ (e ∙ append_assoc _ (write_entries m) d)) in
    ((path, same), write_entries-injective l m c d (omega arith) hl.1 hm.1 rest)

write_fields-same : (x y : Entry) → SameEntry x y → write_entry x ≡ write_entry y
unfolding write_entry
write_fields-same x y (p, s) =
    ap (λ q. write_fields q (fields_of_entry x)) p
    ∙ write_fields-congr y.path (fields_of_entry x) (fields_of_entry y) s

write_entries-same : (l m : List Entry) → AllTwo SameEntry l m → write_entries l ≡ write_entries m
unfolding write_entries
write_entries-same [] [] h = refl
write_entries-same [] (y ∷ m) h = absurd h
write_entries-same (x ∷ l) [] h = absurd h
write_entries-same (x ∷ l) (y ∷ m) h = cc (write_fields-same x y h.0, write_entries-same l m h.1)

AllTwo-length : (l m : List Entry) → AllTwo SameEntry l m → length l ≡ length m
AllTwo-length [] [] h = refl
AllTwo-length [] (y ∷ m) h = absurd h
AllTwo-length (x ∷ l) [] h = absurd h
AllTwo-length (x ∷ l) (y ∷ m) h = ap suc (AllTwo-length l m h.1)

changeset_stream-same :
    (version : ℕ) (l m : List Entry)
    → AllTwo SameEntry (sort entry_less l) (sort entry_less m)
    → changeset_stream version l ≡ changeset_stream version m
unfolding changeset_stream
changeset_stream-same version l m h =
    let count : length l ≡ length m =
      sym (length-sort entry_less l)
      ∙ (AllTwo-length (sort entry_less l) (sort entry_less m) h ∙ length-sort entry_less m) in
    cc (count, write_entries-same (sort entry_less l) (sort entry_less m) h)

changeset_stream-injective :
    (version : ℕ) (l m : List Entry)
    → length l < 2 ^ 64
    → length m < 2 ^ 64
    → All EntryFits l
    → All EntryFits m
    → changeset_stream version l ≡ changeset_stream version m
    → AllTwo SameEntry (sort entry_less l) (sort entry_less m)
unfolding changeset_stream
changeset_stream-injective version l m hl hm fl fm e =
    let (count, rest) = write_uint-split (length l) (length m) _ _ hl hm (cc) in
    write_entries-injective (sort entry_less l) (sort entry_less m) [] []
      (length-sort entry_less l ∙ (count ∙ sym (length-sort entry_less m)))
      (sort-All entry_less EntryFits l fl) (sort-All entry_less EntryFits m fm)
      (append-nil _ ∙ (rest ∙ sym (append-nil _)))

-- With a hash that yields bytes and does not collide on the two streams, and when a machine word holds
-- the counts, the numbers and the lengths of the strings: two changesets have equal digests exactly
-- when, sorted by path and kind, they agree entry by entry in path and fields.
pub changeset_digest_iff :
    (sha256 : Bytes → Bytes) (version : ℕ) (l m : List Entry)
    → ((s : Bytes) → All (λ b. b < 256) (sha256 s))
    → (sha256 (changeset_stream version l) ≡ sha256 (changeset_stream version m)
        → changeset_stream version l ≡ changeset_stream version m)
    → length l < 2 ^ 64
    → length m < 2 ^ 64
    → All EntryFits l
    → All EntryFits m
    → (changeset_digest_at sha256 version l ≡ changeset_digest_at sha256 version m)
      ↔ AllTwo SameEntry (sort entry_less l) (sort entry_less m)
unfolding changeset_digest_at
changeset_digest_iff sha256 version l m bytes free hl hm fl fm = (
  λ e.
      changeset_stream-injective version l m hl hm fl fm
        (free (digest_from_bytes-injective _ _ (bytes _) (bytes _) e)),
  λ h. ap (λ s. digest_from_bytes (sha256 s)) (changeset_stream-same version l m h),
)
