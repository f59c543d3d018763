-- ===== src/Safehttp/Public.antt =====
-- internal/safehttp/safehttp.go: the ranges of addresses that pass the screen.
use layerlens.Base.{
  ◌≡◌, ◌⊎◌, inl, inr, ℕ, ◌+◌, ◌-◌, ◌^◌, ◌<◌, Bool, false, ◌||◌, ◌==◌, none, some, Option, arith,
  if◌then◌else◌, Bool-cases, All, List, [], ◌∷◌,
}
use layerlens.Safehttp.{
  ipv6, teredo, reserved_v6, is_local_v6, screen_v6, is_loopback_v6, has_scope, ScreenError, ipv4,
  in_prefix, is_loopback_v4, is_local_v4, reserved_v4, any_contains, screen_v4,
}
use layerlens.Safehttp.ScreenError.{forbidden_range, teredo_tunnel}

-- The addresses from the one to the other, both included.
abbrev pub Outside : ℕ → ℕ → ℕ → Type 0
Outside lo hi n = (n < lo) ⊎ (hi < n)

-- Outside of every range of IPv4 that is not public.
pub record IsPublic (n : ℕ) : Type 0 where
  pub this_network : Outside (ipv4 0 0 0 0) (ipv4 0 255 255 255) n
  pub private_a : Outside (ipv4 10 0 0 0) (ipv4 10 255 255 255) n
  pub carrier : Outside (ipv4 100 64 0 0) (ipv4 100 127 255 255) n
  pub loopback : Outside (ipv4 127 0 0 0) (ipv4 127 255 255 255) n
  pub link_local : Outside (ipv4 169 254 0 0) (ipv4 169 254 255 255) n
  pub private_b : Outside (ipv4 172 16 0 0) (ipv4 172 31 255 255) n
  pub assignments : Outside (ipv4 192 0 0 0) (ipv4 192 0 0 255) n
  pub test_1 : Outside (ipv4 192 0 2 0) (ipv4 192 0 2 255) n
  pub private_c : Outside (ipv4 192 168 0 0) (ipv4 192 168 255 255) n
  pub benchmark : Outside (ipv4 198 18 0 0) (ipv4 198 19 255 255) n
  pub test_2 : Outside (ipv4 198 51 100 0) (ipv4 198 51 100 255) n
  pub test_3 : Outside (ipv4 203 0 113 0) (ipv4 203 0 113 255) n
  pub multicast_or_reserved : n < ipv4 224 0 0 0

-- None of the tests holds.
all_false :
    (a b₁ b₂ b₃ c d e f : Bool)
    → (a || ((b₁ || (b₂ || b₃)) || (c || (d || (e || f))))) ≡ false
    → (a ≡ false) × (b₁ ≡ false) × (b₂ ≡ false) × (b₃ ≡ false) × (c ≡ false) × (e ≡ false)
all_false a b₁ b₂ b₃ c d e f h =
    (ground arith, ground arith, ground arith, ground arith, ground arith, ground arith)

any_contains-All :
    (width : ℕ) (ps : List (ℕ × ℕ)) (n : ℕ)
    → any_contains width ps n ≡ false
    → All (λ p. in_prefix width p.0 p.1 n ≡ false) ps
any_contains-All width [] n h = tt
any_contains-All width ((base, bits) ∷ ps) n h = elim (Bool-cases (in_prefix width base bits n)) [
  | inl p ↦ absurd (ground arith)
  | inr p ↦ (p, any_contains-All width ps n (rw p at h))
]

passed :
    (a b : Bool) (e f : ScreenError)
    → (if a then some e else if b then some f else none) ≡ none
    → (a ≡ false) × (b ≡ false)
passed a b e f h = (ground arith, ground arith)

pub screen_v4-IsPublic : (n : ℕ) → n < 2 ^ 32 → screen_v4 n ≡ none → IsPublic n
unfolding screen_v4
screen_v4-IsPublic n b h =
    let (local, reserved) =
      passed (is_local_v4 n) (any_contains 32 reserved_v4 n) forbidden_range forbidden_range h in
    let (loopback, a, b', c, link_local, multicast) =
      all_false (is_loopback_v4 n) (in_prefix 32 (ipv4 10 0 0 0) 8 n)
        (in_prefix 32 (ipv4 172 16 0 0) 12 n) (in_prefix 32 (ipv4 192 168 0 0) 16 n)
        (in_prefix 32 (ipv4 169 254 0 0) 16 n) (in_prefix 32 (ipv4 224 0 0 0) 24 n)
        (in_prefix 32 (ipv4 224 0 0 0) 4 n) (n == 0) local in
    let (this, (carrier, (assignments, (test_1, (benchmark, (test_2, (test_3, (top, _)))))))) =
      any_contains-All 32 reserved_v4 n reserved in
    record {
      this_network = ground arith;
      private_a = ground arith;
      carrier = ground arith;
      loopback = ground arith;
      link_local = ground arith;
      private_b = ground arith;
      assignments = ground arith;
      test_1 = ground arith;
      private_c = ground arith;
      benchmark = ground arith;
      test_2 = ground arith;
      test_3 = ground arith;
      multicast_or_reserved = ground arith;
    }

-- Outside of every range of IPv6 that is not public unicast, and of the Teredo tunnels.
pub record IsPublicV6 (n : ℕ) : Type 0 where
  pub unspecified_or_loopback : 1 < n
  pub discard : Outside (ipv6 0x100 0) (ipv6 0x100 0 + 2 ^ 64 - 1) n
  pub tunnel : Outside (ipv6 0x2001 0) (ipv6 0x2001 1 - 1) n
  pub documentation : Outside (ipv6 0x2001 0xdb8) (ipv6 0x2001 0xdb9 - 1) n
  pub segment_routing : Outside (ipv6 0x5f00 0) (ipv6 0x5f01 0 - 1) n
  pub unique_local : Outside (ipv6 0xfc00 0) (ipv6 0xfe00 0 - 1) n
  pub link_local : Outside (ipv6 0xfe80 0) (ipv6 0xfec0 0 - 1) n
  pub multicast : n < ipv6 0xff00 0

-- None of the tests on an IPv6 address holds.
none_local :
    (a b c d e f g : Bool)
    → (a || (b || (c || (d || (e || (f || g)))))) ≡ false
    → (a ≡ false) × (b ≡ false) × (c ≡ false) × (f ≡ false) × (g ≡ false)
none_local a b c d e f g h = (ground arith, ground arith, ground arith, ground arith, ground arith)

passed_v6 :
    (a b c : Bool) (e f g : ScreenError) (r : Option ScreenError)
    → (if a then some e else if b then some f else if c then some g else r) ≡ none
    → (a ≡ false) × (b ≡ false) × (c ≡ false) × (r ≡ none)
passed_v6 a b c e f g r h = (ground arith, ground arith, ground arith, ground arith)

pub screen_v6-IsPublicV6 : (n : ℕ) → n < 2 ^ 128 → screen_v6 n ≡ none → IsPublicV6 n
unfolding screen_v6
screen_v6-IsPublicV6 n b h =
    let (local, reserved, tunnel, _) =
      passed_v6 (is_local_v6 n) (any_contains 128 reserved_v6 n) (teredo n) forbidden_range
        forbidden_range teredo_tunnel _ h in
    let (loopback, unique, link_local, multicast, unspecified) =
      none_local (is_loopback_v6 n) (in_prefix 128 (ipv6 0xfc00 0) 7 n)
        (in_prefix 128 (ipv6 0xfe80 0) 10 n) (has_scope 2 n) (has_scope 1 n)
        (in_prefix 128 (ipv6 0xff00 0) 8 n) (n == 0) local in
    let (_, (_, (discard, (documentation, (routing, _))))) =
      any_contains-All 128 reserved_v6 n reserved in
    record {
      unspecified_or_loopback = ground arith;
      discard = ground arith;
      tunnel = ground arith;
      documentation = ground arith;
      segment_routing = ground arith;
      unique_local = ground arith;
      link_local = ground arith;
      multicast = ground arith;
    }
