-- ===== src/Tcpstream/Destination/Canonical.antt =====
-- internal/tcpstream/destination.go: what NewDestination returns, and what the model relies on from
-- net/netip.
use engarde.Shared.{
  ℕ, zero, suc, ◌<◌, ◌≡◌, refl, sym, ◌∙◌, inl, inr, List, [], ◌∷◌, true, false, none, some, arith,
  All, bytes_eq, Bool-cases, Option-cases, drop, length-drop,
}
use mathlib.Core.Path.{subst}
use engarde.Wire.{ok, err, invalid_destination}
use engarde.Tcpstream.Destination.Domain.{valid_domain, is_trimmed, contains, to_lower, trim_dot}
use engarde.Tcpstream.Destination.{
  Address, v4, v6, IsAddress, Netip, unmap, is_4in6, Destination, ipv4_type, ipv6_type, domain_type,
  new_destination, is_host_port, domain_destination, ip_destination,
}

-- Documented of netip: Addr.String writes a text that ParseAddr reads back; the text of an address
-- without a zone is not empty and has neither spaces nor `%`; a parsed address has 4 or 16 bytes.
pub record NetipLaws (net : Netip) : Type 0 where
  pub parse-string : (a : Address) → IsAddress a → net.parse_addr (net.addr_string a) ≡ some a
  pub string_nonempty : (a : Address) → IsAddress a → bytes_eq (net.addr_string a) [] ≡ false
  pub string_trimmed : (a : Address) → IsAddress a → is_trimmed (net.addr_string a) ≡ true
  pub string_no_zone : (a : Address) → IsAddress a → contains b'%' (net.addr_string a) ≡ false
  pub parse-IsAddress : (h : List ℕ) (a : Address) → net.parse_addr h ≡ some a → IsAddress a

-- A destination as NewDestination makes it: the host of an address is the address's own text, an
-- IPv6 address is not a mapped IPv4 one, and a domain is valid.
pub data IsCanonical (net : Netip) (d : Destination) : Type 0 where
  ipv4 :
      (b : List ℕ)
      → IsAddress (v4 b)
      → d.type_code ≡ ipv4_type
      → d.host ≡ net.addr_string (v4 b)
      → IsCanonical net d
  ipv6 :
      (b : List ℕ)
      → IsAddress (v6 b)
      → is_4in6 b ≡ false
      → d.type_code ≡ ipv6_type
      → d.host ≡ net.addr_string (v6 b)
      → IsCanonical net d
  domain : valid_domain d.host ≡ true → d.type_code ≡ domain_type → IsCanonical net d

abbrev IsUnmapped : Address → Type 0
IsUnmapped (v4 b) = Unit {0}
IsUnmapped (v6 b) = is_4in6 b ≡ false

All-drop : (n : ℕ) (b : List ℕ) → All (λ x. x < 256) b → All (λ x. x < 256) (drop n b)
All-drop zero b h = h
All-drop (suc n) [] h = h
All-drop (suc n) (x ∷ b) h = All-drop n b h.1

unmap-IsAddress : (a : Address) → IsAddress a → IsAddress (unmap a) × IsUnmapped (unmap a)
unfolding unmap
unmap-IsAddress (v4 b) h = (h, tt)
unmap-IsAddress (v6 b) h = elim (Bool-cases (is_4in6 b)) [
  | inl e ↦ rw e ((omega (arith, length-drop 12 b), All-drop 12 b h.1), tt)
  | inr e ↦ rw e (h, e)
]

module _ (net : Netip) where
  ip_destination-IsCanonical :
      (a : Address) (port : ℕ)
      → IsAddress a × IsUnmapped a
      → IsCanonical net (ip_destination net a port)
  unfolding ip_destination
  ip_destination-IsCanonical (v4 b) port (h, u) = ipv4 b h refl refl
  ip_destination-IsCanonical (v6 b) port (h, u) = ipv6 b h u refl refl

  ip_destination-port : (a : Address) (port : ℕ) → (ip_destination net a port).port ≡ port
  unfolding ip_destination
  ip_destination-port (v4 b) port = refl
  ip_destination-port (v6 b) port = refl

  new_destination_refused :
      (host : List ℕ) (port : ℕ)
      → is_host_port host port ≡ false
      → new_destination net host port ≡ err invalid_destination
  unfolding new_destination
  new_destination_refused host port h = ground arith

  pub new_destination_ip :
      (host : List ℕ) (port : ℕ) (a : Address)
      → is_host_port host port ≡ true
      → net.parse_addr host ≡ some a
      → new_destination net host port ≡ ok (ip_destination net (unmap a) port)
  unfolding new_destination
  new_destination_ip host port a h e = ground arith

  pub new_destination_domain :
      (host : List ℕ) (port : ℕ)
      → is_host_port host port ≡ true
      → net.parse_addr host ≡ none
      → new_destination net host port ≡ domain_destination (to_lower (trim_dot host)) port
  unfolding new_destination
  new_destination_domain host port h e = ground arith

  is_host_port-pos : (host : List ℕ) (port : ℕ) → is_host_port host port ≡ true → 0 < port
  unfolding is_host_port
  is_host_port-pos host port h = ground arith

  abbrev IsMade : ℕ → Destination → Type 0
  IsMade port d = IsCanonical net d × (d.port ≡ port)

  ip_destination-IsMade :
      (a : Address) (port : ℕ)
      → IsAddress a × IsUnmapped a
      → IsMade port (ip_destination net a port)
  ip_destination-IsMade a port h = (ip_destination-IsCanonical a port h, ip_destination-port a port)

  domain_destination-IsMade :
      (host : List ℕ) (port : ℕ) (d : Destination)
      → domain_destination host port ≡ ok d
      → IsMade port d
  unfolding domain_destination
  domain_destination-IsMade host port d e = elim (Bool-cases (valid_domain host)) [
    | inl v ↦
        let made : IsMade port (record { type_code = domain_type; host = host; port = port }) =
          (domain v refl, refl) in
        subst (IsMade port) (cc) made
    | inr v ↦ absurd (cc)
  ]

  -- Every accepted host and port gives a canonical destination with that port, which is not zero.
  pub new_destination-IsCanonical :
      NetipLaws net
      → (host : List ℕ) (port : ℕ) (d : Destination) → new_destination net host port ≡ ok d
      → IsCanonical net d × (d.port ≡ port) × (0 < port)
  new_destination-IsCanonical laws host port d e = elim (Bool-cases (is_host_port host port)) [
    | inr refused ↦ absurd (cc (new_destination_refused host port refused))
    | inl fine ↦
        let made : IsMade port d = elim (Option-cases (net.parse_addr host)) [
          | inl q ↦
              domain_destination-IsMade (to_lower (trim_dot host)) port d
                (sym (new_destination_domain host port fine q) ∙ e)
          | inr (a, q) ↦ subst (IsMade port) (cc (new_destination_ip host port a fine q)) (
              ip_destination-IsMade (unmap a) port
                (unmap-IsAddress a (laws.parse-IsAddress host a q)))
        ] in
        (made.0, made.1, is_host_port-pos host port fine)
  ]
