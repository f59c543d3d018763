-- ===== src/Safehttp.antt =====
-- internal/safehttp/safehttp.go: which addresses may be dialed, which may be redirected to, and how
-- much of a body is read. Resolving a name and parsing an address are parameters.
pub mod Public
pub mod Reach
pub mod Dial
pub mod Hosts
use layerlens.Base.{
  ℕ, ◌+◌, ◌-◌, ◌*◌, ◌/◌, ◌%◌, ◌^◌, Bool, true, false, not, ◌&&◌, ◌||◌, Option, none, some, List, [],
  ◌∷◌, Bytes, codes, ◌==◌, leb, ltb, every, if◌then◌else◌, bytes_eq, Result, ok, err, ◌>>=◌, ◌>>◌,
}

-- A netip.Addr: not valid, the 32 bits of an IPv4 address, or the 128 bits of an IPv6 one and its zone.
pub data Addr : Type 0 where
  invalid : Addr
  v4 : ℕ → Addr
  v6 : ℕ → Bytes → Addr

pub data ScreenError : Type 0 where
  invalid_address carries_zone forbidden_range teredo_tunnel : ScreenError
  embeds : ℕ → ScreenError

abbrev pub ipv4 : ℕ → ℕ → ℕ → ℕ → ℕ
ipv4 a b c d = ((a * 256 + b) * 256 + c) * 256 + d

-- The first two of the eight groups.
abbrev pub ipv6 : ℕ → ℕ → ℕ
ipv6 a b = (a * 2 ^ 16 + b) * 2 ^ 96

-- `netip.Prefix.Contains`, for an address of `width` bits: its first `bits` bits are those of `base`.
abbrev pub in_prefix : ℕ → ℕ → ℕ → ℕ → Bool
in_prefix width base bits n = (n / 2 ^ (width - bits)) == (base / 2 ^ (width - bits))

abbrev pub unmap : Addr → Addr
unmap invalid = invalid
unmap (v4 n) = v4 n
unmap (v6 n zone) = if (n / 2 ^ 32) == 0xffff then v4 (n % 2 ^ 32) else v6 n zone

-- The predicates of netip on an IPv4 address.
abbrev pub is_loopback_v4 : ℕ → Bool
is_loopback_v4 n = in_prefix 32 (ipv4 127 0 0 0) 8 n

abbrev pub is_private_v4 : ℕ → Bool
is_private_v4 n =
    in_prefix 32 (ipv4 10 0 0 0) 8 n
    || (in_prefix 32 (ipv4 172 16 0 0) 12 n || in_prefix 32 (ipv4 192 168 0 0) 16 n)

abbrev pub is_local_v4 : ℕ → Bool
is_local_v4 n =
    is_loopback_v4 n
    || (is_private_v4 n
        || (in_prefix 32 (ipv4 169 254 0 0) 16 n
            || (in_prefix 32 (ipv4 224 0 0 0) 24 n
                || (in_prefix 32 (ipv4 224 0 0 0) 4 n || n == 0))))

abbrev pub reserved_v4 : List (ℕ × ℕ)
reserved_v4 =
    (ipv4 0 0 0 0, 8)
    ∷ (ipv4 100 64 0 0, 10)
    ∷ (ipv4 192 0 0 0, 24)
    ∷ (ipv4 192 0 2 0, 24)
    ∷ (ipv4 198 18 0 0, 15)
    ∷ (ipv4 198 51 100 0, 24)
    ∷ (ipv4 203 0 113 0, 24)
    ∷ (ipv4 240 0 0 0, 4)
    ∷ []

abbrev pub any_contains : ℕ → List (ℕ × ℕ) → ℕ → Bool
any_contains width [] n = false
any_contains width ((base, bits) ∷ ps) n = in_prefix width base bits n || any_contains width ps n

unfoldable pub screen_v4 : ℕ → Option ScreenError
screen_v4 n =
    if is_local_v4 n
    then some forbidden_range
    else if any_contains 32 reserved_v4 n
    then some forbidden_range
    else none

-- The predicates of netip on an IPv6 address: ::1, fc00::/7, fe80::/10, the two scopes of a multicast
-- address whose flags are left out, ff00::/8 and ::.
abbrev pub is_loopback_v6 : ℕ → Bool
is_loopback_v6 n = n == 1

abbrev pub has_scope : ℕ → ℕ → Bool
has_scope scope n = in_prefix 128 (ipv6 0xff00 0) 8 n && (((n / 2 ^ 112) % 16) == scope)

abbrev pub is_local_v6 : ℕ → Bool
is_local_v6 n =
    is_loopback_v6 n
    || (in_prefix 128 (ipv6 0xfc00 0) 7 n
        || (in_prefix 128 (ipv6 0xfe80 0) 10 n
            || (has_scope 2 n || (has_scope 1 n || (in_prefix 128 (ipv6 0xff00 0) 8 n || n == 0)))))

abbrev pub reserved_v6 : List (ℕ × ℕ)
reserved_v6 =
    (0, 128) ∷ (1, 128) ∷ (ipv6 0x100 0, 64) ∷ (ipv6 0x2001 0xdb8, 32) ∷ (ipv6 0x5f00 0, 16) ∷ []

abbrev pub nat64 : ℕ → Bool
nat64 n = in_prefix 128 (ipv6 0x64 0xff9b) 96 n

abbrev pub teredo : ℕ → Bool
teredo n = in_prefix 128 (ipv6 0x2001 0) 32 n

abbrev pub six_to_4 : ℕ → Bool
six_to_4 n = in_prefix 128 (ipv6 0x2002 0) 16 n

unfoldable pub embedded_v4 : ℕ → ℕ
embedded_v4 n = if six_to_4 n then (n / 2 ^ 80) % 2 ^ 32 else n % 2 ^ 32

abbrev pub embedding : ℕ → Option ScreenError → Option ScreenError
embedding m none = none
embedding m (some _) = some (embeds m)

unfoldable pub screen_v6 : ℕ → Option ScreenError
unfolding screen_v4 embedded_v4
screen_v6 n =
    if is_local_v6 n
    then some forbidden_range
    else if any_contains 128 reserved_v6 n
    then some forbidden_range
    else if teredo n
    then some teredo_tunnel
    else if nat64 n || six_to_4 n
    then embedding (embedded_v4 n) (screen_v4 (embedded_v4 n))
    else none

abbrev pub screen_unmapped : Addr → Option ScreenError
screen_unmapped invalid = some invalid_address
screen_unmapped (v4 n) = screen_v4 n
screen_unmapped (v6 n zone) = if bytes_eq zone [] then screen_v6 n else some carries_zone

unfoldable pub screen_addr : Addr → Option ScreenError
unfolding screen_v4 screen_v6 bytes_eq
screen_addr ip = screen_unmapped (unmap ip)
