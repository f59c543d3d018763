-- ===== src/Tests/Refs.antt =====
-- References and hosts against the default allowlist, and instructions as builders write them.
use layerlens.Base.{
  ◌≡◌, ◌↔◌, refl, true, false, some, Bytes, codes, bytes_eq, has_prefix, split_on, err, Option,
}
use layerlens.Imgref.{
  default_patterns, allows, normalize_registry, trim_dot, match_labels, any_split, starts_with,
  some_matches, ParsedReference, tagged, parse, explicit_port, split_port, validate_path_segments,
}
use layerlens.Imgref.Pointer.{tagged}
use layerlens.Imgref.RefError.{explicit_port}
use layerlens.Imgref.Match.{SomeMatch, allows_iff}
use layerlens.Analyze.History.{clean_instruction, without_buildkit, without_shell, trim_blanks}

abbrev same : Bytes → Bytes
same s = s

allows_iff_example : (allows same same default_patterns (codes "eu.gcr.io.") ≡ true) ↔ (
    (h : Bytes) × (normalize_registry same same (codes "eu.gcr.io.") ≡ some h)
    × SomeMatch default_patterns (split_on b'.' h))
allows_iff_example = allows_iff same same default_patterns (codes "eu.gcr.io.")

eu_gcr_allowed : allows same same default_patterns (codes "eu.gcr.io.") ≡ true
unfolding allows normalize_registry trim_dot split_on some_matches match_labels any_split
    starts_with bytes_eq
eu_gcr_allowed = refl

evilgcr_refused : allows same same default_patterns (codes "evilgcr.io") ≡ false
unfolding allows normalize_registry trim_dot split_on some_matches match_labels any_split
    starts_with bytes_eq
evilgcr_refused = refl

two_dots_refused : allows same same default_patterns (codes "ghcr.io..") ≡ false
unfolding allows normalize_registry trim_dot split_on some_matches match_labels any_split
    starts_with bytes_eq
two_dots_refused = refl

abbrev at_port : Bytes → Option ParsedReference
at_port _ = some (record {
  registry_str = codes "ghcr.io:8443";
  repository_str = codes "x";
  scheme = codes "https";
  pointer = tagged (codes "v1");
})

port_refused :
    parse same same at_port default_patterns (codes "ghcr.io:8443/x:v1")
    ≡ err (explicit_port (codes "ghcr.io:8443/x:v1"))
unfolding parse normalize_registry trim_dot split_on bytes_eq split_port validate_path_segments
port_refused = refl

buildkit_run :
    clean_instruction same (codes "RUN /bin/sh -c npm install # buildkit") ≡ codes "RUN npm install"
unfolding clean_instruction without_buildkit without_shell trim_blanks has_prefix bytes_eq
buildkit_run = refl
