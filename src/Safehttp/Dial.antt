-- ===== src/Safehttp/Dial.antt =====
-- internal/safehttp/safehttp.go: the addresses of a host, the cap of a body, and redirects. Resolving a
-- name and parsing an address are parameters; a Transport is the fields that these read.
use layerlens.Base.{
  ℕ, Bool, true, false, not, ◌&&◌, ◌||◌, Option, none, some, List, [], ◌∷◌, Bytes, codes, leb,
  if◌then◌else◌, bytes_eq, has_prefix, drop, lt64, sub64, Result, ok, err, ◌>>=◌, ◌>>◌,
}
use layerlens.Safehttp.{Addr, unmap, is_loopback_v4, is_loopback_v6, screen_addr, ScreenError}
use layerlens.Safehttp.Addr.{invalid, v4, v6}

-- What wraps ErrForbiddenPort, ErrForbiddenAddress and so on, with the text that it names.
pub data DialError : Type 0 where
  forbidden_port unresolved no_addresses : Bytes → DialError
  forbidden_address : Bytes → Addr → DialError
  too_many_redirects plaintext_refused response_too_large : DialError

abbrev pub is_loopback : Addr → Bool
is_loopback invalid = false
is_loopback (v4 n) = is_loopback_v4 n
is_loopback (v6 n zone) = is_loopback_v6 n

abbrev pub https_port : Bytes → Bool
https_port port = bytes_eq port (codes "443")

unfoldable pub tcp_network : Addr → Bytes
tcp_network (v4 n) = codes "tcp4"
tcp_network invalid = codes "tcp6"
tcp_network (v6 n zone) = codes "tcp6"

unfoldable pub lookup_network : Bytes → Bytes
unfolding bytes_eq
lookup_network network =
    if bytes_eq network (codes "tcp4")
      || (bytes_eq network (codes "udp4") || bytes_eq network (codes "ip4"))
    then codes "ip4"
    else if bytes_eq network (codes "tcp6")
        || (bytes_eq network (codes "udp6") || bytes_eq network (codes "ip6"))
    then codes "ip6"
    else codes "ip"

abbrev pub kept : Addr → Result DialError (List Addr) → Result DialError (List Addr)
kept a rest = do out ← rest; ok (a ∷ out)

abbrev pub screened :
    Bytes
    → Bytes
    → Addr
    → Option ScreenError
    → Result DialError (List Addr)
    → Result DialError (List Addr)
screened host port a (some _) rest = err (forbidden_address host a)
screened host port a none rest = if https_port port then kept a rest else err (forbidden_port port)

-- The first address that is refused refuses the host.
unfoldable pub screen_all : Bool → Bytes → Bytes → List Addr → Result DialError (List Addr)
unfolding screen_addr bytes_eq
screen_all loopback_ok host port [] = ok []
screen_all loopback_ok host port (a ∷ addrs) =
    let rest = screen_all loopback_ok host port addrs in
    if loopback_ok && is_loopback (unmap a)
    then kept (unmap a) rest
    else screened host port (unmap a) (screen_addr (unmap a)) rest

abbrev pub non_empty : Bytes → List Addr → Result DialError (Unit {0})
non_empty host [] = err (no_addresses host)
non_empty host (_ ∷ _) = ok tt

module _ (parse_addr : Bytes → Option Addr) (lookup : Bytes → Bytes → Option (List Addr)) where
  abbrev pub resolve : Option Addr → Bytes → Bytes → Result DialError (List Addr)
  resolve (some literal) network host = ok (literal ∷ [])
  resolve none network host = elim (lookup (lookup_network network) host) [
    | none ↦ err (unresolved host)
    | some addrs ↦ ok addrs
  ]

  unfoldable pub screened_addrs : Bool → Bytes → Bytes → Bytes → Result DialError (List Addr)
  unfolding screen_all lookup_network bytes_eq
  screened_addrs permit_loopback network host port = do
    (if not permit_loopback && not (https_port port) then err (forbidden_port port) else ok tt)
    addrs ← resolve (parse_addr host) network host
    non_empty host addrs
    screen_all permit_loopback host port addrs

-- `strings.Contains(s, sub)`
unfoldable pub contains_part : Bytes → Bytes → Bool
unfolding has_prefix
contains_part [] sub = has_prefix [] sub
contains_part (c ∷ s) sub = has_prefix (c ∷ s) sub || contains_part s sub

unfoldable pub contains_one_of : Bytes → List Bytes → Bool
unfolding contains_part
contains_one_of path [] = false
contains_one_of path (hex ∷ hexes) = contains_part path hex || contains_one_of path hexes

-- The digests of the blobs that are declared small, each once, after ExpectSmallBlob.
unfoldable pub expect_small_blob : Bytes → List Bytes → List Bytes
unfolding bytes_eq has_prefix
expect_small_blob hex_digest small =
    let hex = if has_prefix hex_digest (codes "sha256:") then drop 7 hex_digest else hex_digest in
    if bytes_eq hex [] then small else hex ∷ small

-- Whether the body is capped; the cap is the same.
unfoldable pub is_capped : Option Bytes → List Bytes → Bool
unfolding contains_part contains_one_of
is_capped none small = true
is_capped (some path) small =
    if contains_part path (codes "/blobs/") then contains_one_of path small else true

abbrev pub max_redirects : ℕ
max_redirects = 10

unfoldable pub check_redirect : Bytes → ℕ → Result DialError (Unit {0})
unfolding bytes_eq
check_redirect scheme hops =
    if leb max_redirects hops
    then err too_many_redirects
    else if bytes_eq scheme (codes "https")
    then ok tt
    else err plaintext_refused

-- `Read` of a limitedBody: what is left after it, the count and the error; `inner` is what the read of
-- the body gives.
unfoldable pub limited_read : ℕ → ℕ × Option DialError → ℕ × ℕ × Option DialError
limited_read remaining (n, e) =
    if lt64 remaining 0
    then (remaining, 0, some response_too_large)
    else if lt64 (sub64 remaining n) 0
    then (sub64 remaining n, n, some response_too_large)
    else (sub64 remaining n, n, e)
