-- ===== src/Tcpstream/Destination/RoundTrip.antt =====
-- internal/tcpstream/destination.go: Encode and DecodeDestination against each other.
use engarde.Shared.{
  ℕ, ◌^◌, ◌<◌, ◌≡◌, refl, List, [], ◌∷◌, ◌++◌, true, false, none, some, arith, length, bytes_eq,
  take, take-append, drop-append, length-append,
}
use engarde.Wire.{ok}
use engarde.Wire.BigEndian.{put, get, get-put_u16}
use engarde.Tcpstream.Destination.Domain.{valid_domain, valid_domain-normal, to_lower, trim_dot}
use engarde.Tcpstream.Destination.{
  Address, v4, v6, IsAddress, Netip, unmap, is_4in6, Destination, ipv4_type, ipv6_type, domain_type,
  new_destination, is_host_port, domain_destination, ip_destination, decode_destination, encode,
}
use engarde.Tcpstream.Destination.Canonical.{
  NetipLaws, IsCanonical, ipv4, ipv6, domain, new_destination_ip, new_destination_domain,
  new_destination-IsCanonical,
}

abbrev Decodes : Netip → Destination → Type 0
Decodes net d = (bytes : List ℕ) × (encode net d ≡ ok bytes) × (decode_destination net bytes ≡ ok d)

-- The port behind the address bytes.
port_field : (port : ℕ) → port < 2 ^ 16 → get (take 2 (put 2 port)) ≡ port
port_field port h = get-put_u16 port h

module _ (net : Netip) (laws : NetipLaws net) where
  string-is_host_port :
      (a : Address) (port : ℕ)
      → IsAddress a
      → 0 < port
      → is_host_port (net.addr_string a) port ≡ true
  unfolding is_host_port
  string-is_host_port a port h hp =
      ground (arith, laws.string_nonempty a h, laws.string_trimmed a h, laws.string_no_zone a h)

  new-string :
      (a : Address) (port : ℕ)
      → IsAddress a
      → 0 < port
      → new_destination net (net.addr_string a) port ≡ ok (ip_destination net (unmap a) port)
  new-string a port h hp =
      new_destination_ip net (net.addr_string a) port a (string-is_host_port a port h hp)
        (laws.parse-string a h)

  decode-ipv4 :
      (b : List ℕ) (port : ℕ)
      → IsAddress (v4 b)
      → 0 < port
      → port < 2 ^ 16
      → decode_destination net (ipv4_type ∷ b ++ put 2 port)
        ≡ ok (record { type_code = ipv4_type; host = net.addr_string (v4 b); port = port })
  unfolding decode_destination ip_destination unmap
  decode-ipv4 b port h hp lt = ground (
    arith,
    length-append b (put 2 port),
    take-append 4 b (put 2 port) h.0,
    drop-append 4 b (put 2 port) h.0,
    port_field port lt,
    new-string (v4 b) port h hp,
  )

  decode-ipv6 :
      (b : List ℕ) (port : ℕ)
      → IsAddress (v6 b)
      → is_4in6 b ≡ false
      → 0 < port
      → port < 2 ^ 16
      → decode_destination net (ipv6_type ∷ b ++ put 2 port)
        ≡ ok (record { type_code = ipv6_type; host = net.addr_string (v6 b); port = port })
  unfolding decode_destination ip_destination unmap
  decode-ipv6 b port h u hp lt = ground (
    arith,
    length-append b (put 2 port),
    take-append 16 b (put 2 port) h.0,
    drop-append 16 b (put 2 port) h.0,
    port_field port lt,
    new-string (v6 b) port h hp,
  )

  -- The domain layout hands its text and port to NewDestination.
  decode-domain :
      (host : List ℕ) (port : ℕ)
      → 0 < length host
      → port < 2 ^ 16
      → decode_destination net (domain_type ∷ length host ∷ host ++ put 2 port)
        ≡ new_destination net host port
  unfolding decode_destination
  decode-domain host port h lt = ground (
    arith,
    length-append host (put 2 port),
    take-append (length host) host (put 2 port) refl,
    drop-append (length host) host (put 2 port) refl,
    port_field port lt,
  )

  encode-ipv4 :
      (b : List ℕ) (d : Destination)
      → IsAddress (v4 b)
      → d.type_code ≡ ipv4_type
      → d.host ≡ net.addr_string (v4 b)
      → 0 < d.port
      → encode net d ≡ ok (ipv4_type ∷ b ++ put 2 d.port)
  unfolding encode
  encode-ipv4 b d h t e hp =
      ground (arith, laws.parse-string (v4 b) h, laws.string_nonempty (v4 b) h)

  encode-ipv6 :
      (b : List ℕ) (d : Destination)
      → IsAddress (v6 b)
      → is_4in6 b ≡ false
      → d.type_code ≡ ipv6_type
      → d.host ≡ net.addr_string (v6 b)
      → 0 < d.port
      → encode net d ≡ ok (ipv6_type ∷ b ++ put 2 d.port)
  unfolding encode
  encode-ipv6 b d h u t e hp =
      ground (arith, laws.parse-string (v6 b) h, laws.string_nonempty (v6 b) h)

bytes_eq-nil : (xs : List ℕ) → 0 < length xs → bytes_eq xs [] ≡ false
unfolding bytes_eq
bytes_eq-nil [] h = absurd (omega arith)
bytes_eq-nil (x ∷ xs) h = refl

module _ (net : Netip) where
  encode-domain :
      (d : Destination)
      → valid_domain d.host ≡ true
      → d.type_code ≡ domain_type
      → 0 < d.port
      → encode net d ≡ ok (domain_type ∷ length d.host ∷ d.host ++ put 2 d.port)
  unfolding encode
  encode-domain d v t hp =
      let (_, _, _, some_byte, short) = valid_domain-normal d.host v in
      ground (arith, bytes_eq-nil d.host some_byte)

  domain-is_host_port :
      (host : List ℕ) (port : ℕ)
      → valid_domain host ≡ true
      → 0 < port
      → is_host_port host port ≡ true
  unfolding is_host_port
  domain-is_host_port host port v hp =
      let (_, trimmed, no_zone, some_byte, _) = valid_domain-normal host v in
      ground (arith, bytes_eq-nil host some_byte)

  new-domain :
      (host : List ℕ) (port : ℕ)
      → valid_domain host ≡ true
      → 0 < port
      → net.parse_addr host ≡ none
      → new_destination net host port
        ≡ ok (record { type_code = domain_type; host = host; port = port })
  unfolding domain_destination
  new-domain host port v hp p =
      let (normal, _, _, _, _) = valid_domain-normal host v in
      ground (arith, new_destination_domain net host port (domain-is_host_port host port v hp) p)

  canonical-Decodes :
      NetipLaws net
      → (d : Destination) → IsCanonical net d
      → 0 < d.port
      → d.port < 2 ^ 16
      → (d.type_code ≡ domain_type → net.parse_addr d.host ≡ none)
      → Decodes net d
  canonical-Decodes laws d (ipv4 b h t e) hp lt p = (
    ipv4_type ∷ b ++ put 2 d.port,
    encode-ipv4 net laws b d h t e hp,
    ground (arith, decode-ipv4 net laws b d.port h hp lt),
  )
  canonical-Decodes laws d (ipv6 b h u t e) hp lt p = (
    ipv6_type ∷ b ++ put 2 d.port,
    encode-ipv6 net laws b d h u t e hp,
    ground (arith, decode-ipv6 net laws b d.port h u hp lt),
  )
  canonical-Decodes laws d (domain v t) hp lt p =
      let (_, _, _, some_byte, _) = valid_domain-normal d.host v in
      (
        domain_type ∷ length d.host ∷ d.host ++ put 2 d.port,
        encode-domain d v t hp,
        ground (
          arith,
          decode-domain net laws d.host d.port some_byte lt,
          new-domain d.host d.port v hp (p t),
        ),
      )

  -- A destination that NewDestination made from a host and a 16-bit port is encoded without an error,
  -- and decoding the bytes gives it back, provided that a domain's text is no address text.
  pub decode-encode :
      NetipLaws net
      → (host : List ℕ) (port : ℕ) (d : Destination) → new_destination net host port ≡ ok d
      → port < 2 ^ 16
      → (d.type_code ≡ domain_type → net.parse_addr d.host ≡ none)
      → Decodes net d
  decode-encode laws host port d e lt p =
      let (canonical, same, hp) = new_destination-IsCanonical net laws host port d e in
      canonical-Decodes laws d canonical (omega arith) (omega arith) p

  -- The proviso is needed. For a host that is no address text but whose normalised form is the text
  -- of an IPv4 address (such as `1.2.3.4.`), NewDestination makes a domain that is encoded as one and
  -- decoded as an IPv4 destination.
  pub decode_trailing_dot :
      NetipLaws net
      → (host b : List ℕ) (port : ℕ) → is_host_port host port ≡ true
      → net.parse_addr host ≡ none
      → valid_domain (to_lower (trim_dot host)) ≡ true
      → net.parse_addr (to_lower (trim_dot host)) ≡ some (v4 b)
      → 0 < port
      → port < 2 ^ 16
      → (d d' : Destination) × (bytes : List ℕ) × (new_destination net host port ≡ ok d)
        × (d.type_code ≡ domain_type)
        × (encode net d ≡ ok bytes)
        × (decode_destination net bytes ≡ ok d')
        × (d'.type_code ≡ ipv4_type)
  unfolding domain_destination ip_destination unmap
  decode_trailing_dot laws host b port fine p v q hp lt =
      let name = to_lower (trim_dot host) in
      let d : Destination = record { type_code = domain_type; host = name; port = port } in
      let (_, _, _, some_byte, _) = valid_domain-normal name v in
      (
        d,
        ip_destination net (v4 b) port,
        domain_type ∷ length name ∷ name ++ put 2 port,
        ground (arith, new_destination_domain net host port fine p),
        refl,
        encode-domain d v refl hp,
        ground (
          arith,
          decode-domain net laws name port some_byte lt,
          new_destination_ip net name port (v4 b) (domain-is_host_port name port v hp) q,
        ),
        refl,
      )
