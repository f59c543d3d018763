-- ===== src/Safehttp/Reach.antt =====
-- internal/safehttp/safehttp.go: the forms of an address, and where one that passes the screen leads.
use layerlens.Safehttp.Public.{IsPublic, IsPublicV6, screen_v4-IsPublic, screen_v6-IsPublicV6}
use layerlens.Base.{
  ◌≡◌, inl, inr, refl, ℕ, ◌+◌, ◌*◌, ◌/◌, ◌%◌, ◌^◌, ◌<◌, true, false, ◌||◌, ◌==◌, none, some, Option,
  arith, if◌then◌else◌, Bool-cases, Bytes, bytes_eq, bytes_eq→eq, [],
}
use layerlens.Safehttp.Addr.{invalid, v4, v6}
use layerlens.Safehttp.{
  Addr, ipv6, nat64, six_to_4, teredo, embedded_v4, embedding, reserved_v6, is_local_v6, screen_v6,
  unmap, screen_unmapped, screen_addr, ScreenError, any_contains, screen_v4,
}
use layerlens.Safehttp.ScreenError.{carries_zone}

-- The IPv4 address to which a packet is brought: the address itself, the mapped one, or the one that a
-- NAT64 or a 6to4 gateway takes from the bits of an IPv6 address.
pub data Reaches : Addr → ℕ → Type 0 where
  direct : (m : ℕ) → Reaches (v4 m) m
  mapped : (m : ℕ) (zone : Bytes) → Reaches (v6 (0xffff * 2 ^ 32 + m) zone) m
  translated : (m : ℕ) (zone : Bytes) → Reaches (v6 (ipv6 0x64 0xff9b + m) zone) m
  relayed :
      (m r : ℕ) (zone : Bytes)
      → r < 2 ^ 80
      → Reaches (v6 ((0x2002 * 2 ^ 32 + m) * 2 ^ 80 + r) zone) m

embedding-none : (m : ℕ) (o : Option ScreenError) → embedding m o ≡ none → o ≡ none
embedding-none m none h = refl
embedding-none m (some e) h = absurd (cc h)

screen_v6_embedded :
    (n : ℕ) → (nat64 n || six_to_4 n) ≡ true → screen_v6 n ≡ none → screen_v4 (embedded_v4 n) ≡ none
unfolding screen_v6
screen_v6_embedded n g h = elim (Bool-cases (is_local_v6 n)) [
  | inl p ↦ absurd (cc (rw p at h))
  | inr p ↦ elim (Bool-cases (any_contains 128 reserved_v6 n)) [
    | inl q ↦ absurd (cc (rw (p, q) at h))
    | inr q ↦ elim (Bool-cases (teredo n)) [
      | inl r ↦ absurd (cc (rw (p, q, r) at h))
      | inr r ↦ embedding-none (embedded_v4 n) (screen_v4 (embedded_v4 n)) (rw (p, q, r, g) at h)
    ]
  ]
]

unzoned :
    (zone : Bytes) (n : ℕ)
    → (if bytes_eq zone [] then screen_v6 n else some carries_zone) ≡ none
    → screen_v6 n ≡ none
unzoned zone n h = elim (Bool-cases (bytes_eq zone [])) [
  | inl p ↦ rw p at h
  | inr p ↦ absurd (cc (rw p at h))
]

unmapped :
    (n : ℕ) (zone : Bytes)
    → ((n / 2 ^ 32) == 0xffff) ≡ false
    → screen_unmapped (unmap (v6 n zone)) ≡ none
    → screen_v6 n ≡ none
unmapped n zone p h = unzoned zone n (rw p at h)

through_mapped :
    (n m : ℕ) (zone : Bytes)
    → ((n / 2 ^ 32) == 0xffff) ≡ true
    → n % 2 ^ 32 ≡ m
    → screen_unmapped (unmap (v6 n zone)) ≡ none
    → screen_v4 m ≡ none
through_mapped n m zone p e h = rw (p, e) at h

through_gateway :
    (n m : ℕ) (zone : Bytes)
    → ((n / 2 ^ 32) == 0xffff) ≡ false
    → (nat64 n || six_to_4 n) ≡ true
    → embedded_v4 n ≡ m
    → screen_unmapped (unmap (v6 n zone)) ≡ none
    → screen_v4 m ≡ none
through_gateway n m zone p g e h = let q = screen_v6_embedded n g (unmapped n zone p h) in rw e at q

embedded_translated : (m : ℕ) → m < 2 ^ 32 → embedded_v4 (ipv6 0x64 0xff9b + m) ≡ m
unfolding embedded_v4
embedded_translated m b = ground arith

embedded_relayed :
    (m r : ℕ) → m < 2 ^ 32 → r < 2 ^ 80 → embedded_v4 ((0x2002 * 2 ^ 32 + m) * 2 ^ 80 + r) ≡ m
unfolding embedded_v4
embedded_relayed m r b l = ground arith

-- Whatever form an address that passes the screen has, the IPv4 address to which it leads, if it leads
-- to one, is public: outside of every loopback, private, link-local, carrier, test, multicast and
-- reserved range.
pub screen_addr-IsPublic :
    (ip : Addr) (m : ℕ) → m < 2 ^ 32 → Reaches ip m → screen_addr ip ≡ none → IsPublic m
unfolding screen_addr embedded_v4
screen_addr-IsPublic ip m b (direct _) h = screen_v4-IsPublic m b h
screen_addr-IsPublic ip m b (mapped _ zone) h =
    screen_v4-IsPublic m b
      (through_mapped (0xffff * 2 ^ 32 + m) m zone (ground arith) (omega arith) h)
screen_addr-IsPublic ip m b (translated _ zone) h = screen_v4-IsPublic m b (
    through_gateway (ipv6 0x64 0xff9b + m) m zone (ground arith) (ground arith)
      (embedded_translated m b) h)
screen_addr-IsPublic ip m b (relayed _ r zone l) h = screen_v4-IsPublic m b (
    through_gateway ((0x2002 * 2 ^ 32 + m) * 2 ^ 80 + r) m zone (ground arith) (ground arith)
      (embedded_relayed m r b l) h)

-- An address of its own right: of IPv4, or of IPv6 without a zone and in no range that is not public.
abbrev pub IsUnicast : Addr → Type 0
IsUnicast invalid = ⊥
IsUnicast (v4 n) = Unit
IsUnicast (v6 n zone) = (zone ≡ []) × (n < 2 ^ 128 → IsPublicV6 n)

screen_unmapped-IsUnicast : (a : Addr) → screen_unmapped a ≡ none → IsUnicast a
screen_unmapped-IsUnicast invalid h = absurd (cc h)
screen_unmapped-IsUnicast (v4 n) h = tt
screen_unmapped-IsUnicast (v6 n zone) h = elim (Bool-cases (bytes_eq zone [])) [
  | inl p ↦ let q = rw p at h in (bytes_eq→eq zone [] p, λ b. screen_v6-IsPublicV6 n b q)
  | inr p ↦ absurd (cc (rw p at h))
]

unmap_idem : (a : Addr) → unmap (unmap a) ≡ unmap a
unmap_idem invalid = refl
unmap_idem (v4 n) = refl
unmap_idem (v6 n zone) = elim (Bool-cases ((n / 2 ^ 32) == 0xffff)) [
  | inl p ↦ rw p refl
  | inr p ↦ rw (p, p) refl
]

pub unmap-IsUnicast : (a : Addr) → screen_addr (unmap a) ≡ none → IsUnicast (unmap a)
unfolding screen_addr
unmap-IsUnicast a h = screen_unmapped-IsUnicast (unmap a) (rw (unmap_idem a) at h)
