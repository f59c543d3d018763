-- ===== src/Tests/Changeset.antt =====
-- Changesets of a few entries.
use layerlens.Base.{
  ◌<◌, ◌%◌, bytes_eq, bytes_lt, ◌≡◌, refl, ◌↔◌, List, [], ◌∷◌, Bytes, arith, All, AllTwo, sort, map,
}
use mathlib.Core.List.{Perm}
use mathlib.Core.List.Perm
use layerlens.Domain.Entry.{Entry}
use layerlens.Analyze.Fields.{fields_of_entry, sorted_xattrs, project_dir}
use layerlens.Analyze.Changeset.{changeset_digest_at, changeset_stream, entry_less}
use layerlens.Analyze.Changeset.Order.{DistinctKeys, changeset_digest-perm}
use layerlens.Analyze.Changeset.Meaning.{
  touch_mtime, SameEntry, EntryFits, changeset_digest-touch_mtime, changeset_digest_iff,
}
use layerlens.Tests.Samples.{etc_dir, etc_hosts}

-- A stand-in for the hash that yields bytes.
abbrev first_bytes : Bytes → Bytes
first_bytes s = map (λ c. c % 256) s

first_bytes-bytes : (s : Bytes) → All (λ b. b < 256) (first_bytes s)
first_bytes-bytes [] = tt
first_bytes-bytes (c ∷ s) = (omega arith, first_bytes-bytes s)

abbrev forward : List Entry
forward = etc_dir ∷ etc_hosts ∷ []

abbrev backward : List Entry
backward = etc_hosts ∷ etc_dir ∷ []

forward-DistinctKeys : DistinctKeys forward
forward-DistinctKeys = ((λ h. absurd (ground (arith, h.0, h.1)), tt), (tt, tt))

forward-Perm : Perm forward backward
forward-Perm = Perm.swap etc_hosts etc_dir []

changeset_digest-perm_example :
    changeset_digest_at first_bytes 1 forward ≡ changeset_digest_at first_bytes 1 backward
changeset_digest-perm_example =
    changeset_digest-perm first_bytes 1 {l = forward} {m = backward} forward-DistinctKeys
      forward-Perm

changeset_digest-touch_mtime_example :
    changeset_digest_at first_bytes 1 (map (touch_mtime (λ e. 99)) forward)
    ≡ changeset_digest_at first_bytes 1 forward
changeset_digest-touch_mtime_example = changeset_digest-touch_mtime first_bytes 1 (λ e. 99) forward

fits_dir : EntryFits etc_dir
unfolding fields_of_entry project_dir sorted_xattrs sort
fits_dir = record {
  path = omega arith;
  mode = omega arith;
  uid = omega arith;
  gid = omega arith;
  uname = omega arith;
  gname = omega arith;
  size = omega arith;
  link_target = omega arith;
  devmajor = omega arith;
  devminor = omega arith;
  xattr_count = omega arith;
  xattrs = tt;
  content_sha = omega arith;
}

fits_hosts : EntryFits etc_hosts
unfolding fields_of_entry project_dir sorted_xattrs sort
fits_hosts = record {
  path = omega arith;
  mode = omega arith;
  uid = omega arith;
  gid = omega arith;
  uname = omega arith;
  gname = omega arith;
  size = omega arith;
  link_target = omega arith;
  devmajor = omega arith;
  devminor = omega arith;
  xattr_count = omega arith;
  xattrs = tt;
  content_sha = omega arith;
}

same_stream : changeset_stream 1 forward ≡ changeset_stream 1 backward
unfolding changeset_stream entry_less sort bytes_eq bytes_lt
same_stream = refl

changeset_digest_iff_example :
    (changeset_digest_at first_bytes 1 forward ≡ changeset_digest_at first_bytes 1 backward)
    ↔ AllTwo SameEntry (sort entry_less forward) (sort entry_less backward)
changeset_digest_iff_example =
    changeset_digest_iff first_bytes 1 forward backward first_bytes-bytes (λ e. same_stream)
      (omega arith) (omega arith) (fits_dir, (fits_hosts, tt)) (fits_hosts, (fits_dir, tt))
