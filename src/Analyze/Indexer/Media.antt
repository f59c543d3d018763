-- ===== src/Analyze/Indexer/Media.antt =====
-- internal/analyze/indexer.go: the compression that a media type names. strings.ToLower and
-- strings.TrimSpace, which go by the tables of Unicode, are parameters.
use layerlens.Analyze.Indexer.{Stream, IndexError}
use layerlens.Analyze.Indexer.IndexError.{unknown_media_type, failed}
use layerlens.Base.{
  Result, ok, err, Bool, true, false, ◌||◌, [], ◌∷◌, Bytes, codes, length, drop, ◌-◌, leb, ◌&&◌,
  ◌==◌, if◌then◌else◌, bytes_eq,
}

pub data Compression : Type 0 where
  unknown plain gzip zstd : Compression

has_suffix : Bytes → Bytes → Bool
unfolding bytes_eq
has_suffix s suffix =
    leb (length suffix) (length s) && bytes_eq (drop (length s - length suffix) s) suffix

-- `mt[:i]` where `i` is the first semicolon, and whether there is one.
cut_parameters : Bytes → Bytes × Bool
cut_parameters [] = ([], false)
cut_parameters (c ∷ s) =
    let (front, cut) = cut_parameters s in if c == b';' then ([], true) else (c ∷ front, cut)

by_name : Bytes → Compression
unfolding bytes_eq has_suffix
by_name mt =
    if bytes_eq mt []
    then plain
    else if bytes_eq mt (codes "application/vnd.oci.image.layer.v1.tar")
        || bytes_eq mt (codes "application/vnd.docker.image.rootfs.diff.tar")
    then plain
    else if bytes_eq mt (codes "application/vnd.oci.image.layer.v1.tar+gzip")
        || bytes_eq mt (codes "application/vnd.docker.image.rootfs.diff.tar.gzip")
    then gzip
    else if bytes_eq mt (codes "application/vnd.oci.image.layer.v1.tar+zstd")
    then zstd
    else if has_suffix mt (codes "+gzip")
        || (has_suffix mt (codes ".tar.gzip") || has_suffix mt (codes ".tar.gz"))
    then gzip
    else if has_suffix mt (codes "+zstd")
    then zstd
    else if has_suffix mt (codes ".tar") || has_suffix mt (codes "+tar")
    then plain
    else unknown

-- gzip.NewReader and zstd.NewReader, which may not open.
pub record Readers : Type 0 where
  pub gunzip : Stream → Result Bytes Stream
  pub unzstd : Stream → Result Bytes Stream

open_stream : Result Bytes Stream → Result IndexError Stream
open_stream (ok stream) = ok stream
open_stream (err e) = err (failed e)

module _ (to_lower trim_space : Bytes → Bytes) where
  unfoldable pub classify_media_type : Bytes → Compression
  unfolding cut_parameters by_name
  classify_media_type media_type =
      let mt = to_lower (trim_space media_type) in
      let (front, cut) = cut_parameters mt in by_name (if cut then trim_space front else mt)

  unfoldable pub decompressor : Readers → Bytes → Stream → Result IndexError Stream
  unfolding classify_media_type open_stream
  decompressor readers media_type r = elim (classify_media_type media_type) [
    | plain ↦ ok r
    | gzip ↦ open_stream (readers.gunzip r)
    | zstd ↦ open_stream (readers.unzstd r)
    | unknown ↦ err unknown_media_type
  ]
