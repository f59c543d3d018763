-- ===== src/Tests/Dials.antt =====
-- A host with a public address behind NAT64 and one of its own, and addresses that are refused.
use layerlens.Base.{
  ◌≡◌, refl, ◌+◌, ◌*◌, ◌^◌, false, true, Option, none, some, List, [], ◌∷◌, Bytes, codes, ok,
  bytes_eq,
}
use layerlens.Safehttp.{Addr, ipv4, ipv6, screen_addr}
use layerlens.Safehttp.Addr.{v4, v6}
use layerlens.Safehttp.ScreenError.{embeds, forbidden_range}
use layerlens.Safehttp.Dial.{https_port, screen_all, lookup_network, screened_addrs}
use layerlens.Safehttp.Hosts.{LeadPublic, screened_addrs-LeadPublic}

abbrev answers : List Addr
answers = v6 (ipv6 0x64 0xff9b + ipv4 8 8 8 8) [] ∷ v4 (ipv4 1 1 1 1) ∷ []

abbrev no_literal : Bytes → Option Addr
no_literal _ = none

abbrev answered : Bytes → Bytes → Option (List Addr)
answered _ _ = some answers

answers-screened :
    screened_addrs no_literal answered false (codes "tcp") (codes "cdn") (codes "443") ≡ ok answers
unfolding screened_addrs lookup_network screen_all screen_addr bytes_eq
answers-screened = refl

screened_addrs-LeadPublic_example : (https_port (codes "443") ≡ true) × LeadPublic answers
screened_addrs-LeadPublic_example =
    screened_addrs-LeadPublic no_literal answered (codes "tcp") (codes "cdn") (codes "443") answers
      answers-screened

metadata_refused :
    screen_addr (v6 (ipv6 0x64 0xff9b + ipv4 169 254 169 254) [])
    ≡ some (embeds (ipv4 169 254 169 254))
unfolding screen_addr bytes_eq
metadata_refused = refl

mapped_loopback_refused :
    screen_addr (v6 (0xffff * 2 ^ 32 + ipv4 127 0 0 1) []) ≡ some forbidden_range
unfolding screen_addr bytes_eq
mapped_loopback_refused = refl
