-- ===== src/Tests/Samples.antt =====
-- Concrete digests, entries and layers that the tests share.
use layerlens.Base.{ℕ, refl, false, [], ◌++◌, Bytes, codes, String, arith, replicate}
use layerlens.Domain.Digest.{digest_prefix}
use layerlens.Domain.Digest.Shape.{IsDigest}
use layerlens.Domain.Entry.{Entry, EntryKind, file, dir, whiteout, opaque}
use layerlens.Domain.Image.{Layer}

-- The digest of 32 equal bytes, by its hexadecimal digits.
abbrev pub digest_of : ℕ → Bytes
digest_of c = digest_prefix ++ replicate 64 c

pub digest_of-IsDigest : IsDigest (digest_of b'a')
digest_of-IsDigest = (replicate 64 b'a', refl, refl, omega arith)

abbrev pub entry_at : String → EntryKind → ℕ → ℕ → Entry
entry_at p k n m = record {
  path = codes p;
  kind = k;
  mode = 0o644;
  uid = 0;
  gid = 0;
  uname = [];
  gname = [];
  devmajor = 0;
  devminor = 0;
  xattrs = [];
  size = n;
  mtime_unix = m;
  link_target = [];
  content_sha = [];
}

abbrev pub etc_dir : Entry
etc_dir = entry_at "/etc" dir 0 10

abbrev pub etc_hosts : Entry
etc_hosts = entry_at "/etc/hosts" file 7 20

abbrev pub etc_opaque : Entry
etc_opaque = entry_at "/etc" opaque 0 0

abbrev pub gone_tmp : Entry
gone_tmp = entry_at "/tmp" whiteout 0 0

abbrev pub layer_of : ℕ → ℕ → ℕ → Layer
layer_of d c n = record {
  index = 0;
  diff_id = digest_of d;
  chain_id = digest_of d;
  compressed_digest = [];
  compressed_size = 0;
  content_bytes = 0;
  entry_count = n;
  changeset_digest = digest_of c;
  instruction = [];
  instruction_raw = [];
  instruction_known = false;
}
