-- ===== src/Tests/Domain.antt =====
-- Digests and selected fields at concrete inputs.
use layerlens.Base.{
  bytes_eq, sort, ◌≡◌, refl, ◌<◌, [], ◌∷◌, Bytes, codes, ok, arith, replicate, All,
}
use layerlens.Domain.Digest.{parse_digest, digest_from_bytes}
use layerlens.Domain.Digest.Shape.{IsDigest, parse_digest_iff, digest_from_bytes-IsDigest}
use layerlens.Domain.Entry.{file}
use layerlens.Analyze.Fields.{TarsumFields, xattrs_equal, get_xattr, fields_equal, sorted_xattrs}
use layerlens.Analyze.Fields.Encoding.{Fits, SameFields, write_fields-injective}
use layerlens.Analyze.Fields.Same.{fields_equal_iff}
use layerlens.Tests.Samples.{digest_of, digest_of-IsDigest}

parse_digest_iff_example : parse_digest (digest_of b'a') ≡ ok (digest_of b'a')
parse_digest_iff_example =
    (parse_digest_iff (digest_of b'a') (digest_of b'a')).1 (refl, digest_of-IsDigest)

abbrev some_sum : Bytes
some_sum = replicate 32 0xfe

some_sum-bytes : All (λ b. b < 256) some_sum
some_sum-bytes = omega arith

digest_from_bytes-IsDigest_example : IsDigest (digest_from_bytes some_sum)
digest_from_bytes-IsDigest_example = digest_from_bytes-IsDigest some_sum refl some_sum-bytes

-- A file with an extended attribute.
abbrev tagged : TarsumFields
tagged = record {
  kind = file;
  mode = 0o644;
  uid = 1000;
  gid = 1000;
  uname = codes "app";
  gname = codes "app";
  size = 7;
  link_target = [];
  devmajor = 0;
  devminor = 0;
  xattrs = (codes "user.tag", codes "x") ∷ [];
  content_sha = digest_of b'a';
}

fields_equal_iff_example : SameFields tagged tagged
unfolding bytes_eq xattrs_equal get_xattr
fields_equal_iff_example = (fields_equal_iff tagged tagged (tt, tt)).0 (unfold fields_equal in refl)

tagged-Fits : Fits (codes "/srv/app") tagged
unfolding sorted_xattrs sort bytes_eq
tagged-Fits = record {
  path = omega arith;
  mode = omega arith;
  uid = omega arith;
  gid = omega arith;
  uname = omega arith;
  gname = omega arith;
  size = omega arith;
  link_target = omega arith;
  devmajor = omega arith;
  devminor = omega arith;
  xattr_count = omega arith;
  xattrs = omega arith;
  content_sha = omega arith;
}

write_fields-injective_example :
    (codes "/srv/app" ≡ codes "/srv/app") × SameFields tagged tagged × (codes "rest" ≡ codes "rest")
write_fields-injective_example =
    write_fields-injective (codes "/srv/app") (codes "/srv/app") tagged tagged (codes "rest")
      (codes "rest") tagged-Fits tagged-Fits refl
