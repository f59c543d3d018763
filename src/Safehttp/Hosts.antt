-- ===== src/Safehttp/Hosts.antt =====
-- internal/safehttp/safehttp.go: where the addresses that screenedAddrs returns lead.
use layerlens.Base.{
  ◌≡◌, inl, inr, refl, ℕ, ◌<◌, ◌^◌, true, false, Option, none, some, List, [], ◌∷◌, Bytes, All,
  Result, ok, err, Bool-cases, Gives, Gives-ok, Gives->>, Gives->>=, Gives-intro,
}
use layerlens.Safehttp.{Addr, ScreenError, unmap, screen_addr}
use layerlens.Safehttp.Public.{IsPublic}
use layerlens.Safehttp.Reach.{IsUnicast, unmap-IsUnicast, Reaches, screen_addr-IsPublic}
use layerlens.Safehttp.Dial.{
  DialError, https_port, kept, screened, screen_all, non_empty, resolve, screened_addrs,
}

-- Each is an address of IPv4, or of IPv6 without a zone and outside of the ranges that are not public;
-- and every IPv4 address that one of them leads to is public.
abbrev pub LeadPublic : List Addr → Type 0
LeadPublic = All (λ a. IsUnicast a × ((m : ℕ) → m < 2 ^ 32 → Reaches a m → IsPublic m))

kept-LeadPublic :
    (a : Addr) (rest : Result DialError (List Addr))
    → screen_addr (unmap a) ≡ none
    → Gives LeadPublic rest
    → Gives LeadPublic (kept (unmap a) rest)
kept-LeadPublic a (ok out) h g =
    ((unmap-IsUnicast a h, λ m b r. screen_addr-IsPublic (unmap a) m b r h), g)
kept-LeadPublic a (err e) h g = tt

screened-LeadPublic :
    (host port : Bytes) (a : Addr) (o : Option ScreenError) (rest : Result DialError (List Addr))
    → screen_addr (unmap a) ≡ o
    → Gives LeadPublic rest
    → Gives LeadPublic (screened host port (unmap a) o rest)
screened-LeadPublic host port a (some e) rest h g = tt
screened-LeadPublic host port a none rest h g = elim (Bool-cases (https_port port)) [
  | inl p ↦ rw p (kept-LeadPublic a rest h g)
  | inr p ↦ rw p tt
]

screen_all-LeadPublic :
    (host port : Bytes) (addrs : List Addr) → Gives LeadPublic (screen_all false host port addrs)
unfolding screen_all
screen_all-LeadPublic host port [] = tt
screen_all-LeadPublic host port (a ∷ addrs) =
    screened-LeadPublic host port a (screen_addr (unmap a)) (screen_all false host port addrs) refl
      (screen_all-LeadPublic host port addrs)

module _ (parse_addr : Bytes → Option Addr) (lookup : Bytes → Bytes → Option (List Addr)) where
  abbrev IsDialable : Bytes → List Addr → Type 0
  IsDialable port out = (https_port port ≡ true) × LeadPublic out

  screened_addrs-IsDialable :
      (network host port : Bytes)
      → Gives (IsDialable port) (screened_addrs parse_addr lookup false network host port)
  unfolding screened_addrs
  screened_addrs-IsDialable network host port = elim (Bool-cases (https_port port)) [
    | inr p ↦ rw p tt
    | inl p ↦ rw p (
        Gives->>= (λ _. Unit {0}) (IsDialable port)
          (resolve parse_addr lookup (parse_addr host) network host) _
          (Gives-intro (λ _. Unit {0}) (resolve parse_addr lookup (parse_addr host) network host)
            (λ _ _. tt))
          (λ addrs _. Gives->> (IsDialable port) (non_empty host addrs) _ (λ _.
            Gives-intro (IsDialable port) (screen_all false host port addrs) (λ out e. (
              p,
              Gives-ok LeadPublic (screen_all false host port addrs) out
                  (screen_all-LeadPublic host port addrs) e,
            )))))
  ]

  -- Where loopback addresses are not permitted, whatever the resolver answers: a host whose addresses
  -- are returned is asked for on port 443. Each of them is valid; one of IPv6 has no zone and is
  -- neither unspecified nor loopback, unique-local, link-local, multicast, discard, documentation,
  -- segment routing or Teredo; and each IPv4 address to which one of them leads, itself or through a
  -- mapped, a NAT64 or a 6to4 form, is outside of the loopback, private, link-local, carrier, test,
  -- multicast and reserved ranges.
  pub screened_addrs-LeadPublic :
      (network host port : Bytes) (out : List Addr)
      → screened_addrs parse_addr lookup false network host port ≡ ok out
      → (https_port port ≡ true) × LeadPublic out
  screened_addrs-LeadPublic network host port out e =
      Gives-ok (IsDialable port) (screened_addrs parse_addr lookup false network host port) out
        (screened_addrs-IsDialable network host port) e
