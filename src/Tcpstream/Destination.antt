-- ===== src/Tcpstream/Destination.antt =====
-- internal/tcpstream/destination.go: the address that a stream is opened to. A host is its bytes.
-- What net/netip does with address texts is the parameter `net`.
pub mod Domain
pub mod Canonical
pub mod RoundTrip
pub mod Tests
use engarde.Shared.{
  ℕ, zero, suc, ◌+◌, ◌-◌, ◌<◌, ◌≡◌, List, [], ◌∷◌, ◌++◌, Bool, true, false, not, ◌&&◌, ◌||◌, Option,
  none, some, ltb, ◌==◌, ◌!=◌, if◌then◌else◌, length, take, drop, replicate, All, bytes_eq, get_or,
}
use engarde.Wire.{Result, ok, err, invalid_destination}
use engarde.Wire.BigEndian.{put, get}
use Domain.{valid_domain, is_trimmed, contains, trim_dot, to_lower}

-- netip.Addr with no zone: a host with a zone has a `%` and is refused before it is parsed.
pub data Address : Type 0 where
  v4 v6 : List ℕ → Address

-- The 4 or 16 bytes of an address.
abbrev pub IsAddress : Address → Type 0
IsAddress (v4 b) = (length b ≡ 4) × All (λ x. x < 256) b
IsAddress (v6 b) = (length b ≡ 16) × All (λ x. x < 256) b

-- netip.ParseAddr and netip.Addr.String.
pub record Netip : Type 0 where
  pub parse_addr : List ℕ → Option Address
  pub addr_string : Address → List ℕ

-- netip.Addr.Is4In6: ten zero bytes, then 0xff 0xff.
pub is_4in6 : List ℕ → Bool
is_4in6 b = bytes_eq (take 12 b) (replicate 10 0 ++ (0xff ∷ 0xff ∷ []))

-- netip.Addr.Unmap.
pub unmap : Address → Address
unfolding is_4in6
unmap (v4 b) = v4 b
unmap (v6 b) = if is_4in6 b then v4 (drop 12 b) else v6 b

abbrev pub ipv4_type : ℕ
ipv4_type = 0x01

abbrev pub domain_type : ℕ
domain_type = 0x03

abbrev pub ipv6_type : ℕ
ipv6_type = 0x04

pub record Destination : Type 0 where
  pub type_code : ℕ
  pub host : List ℕ
  pub port : ℕ

pub is_zero : Destination → Bool
is_zero d = d.type_code == 0 || bytes_eq d.host [] || d.port == 0

-- `host == "" || host != strings.TrimSpace(host) || port == 0 || strings.Contains(host, "%")`, negated.
unfoldable pub is_host_port : List ℕ → ℕ → Bool
unfolding is_trimmed contains
is_host_port host port =
    not (bytes_eq host []) && is_trimmed host && port != 0 && not (contains b'%' host)

pub domain_destination : List ℕ → ℕ → Result Destination
domain_destination host port =
    if valid_domain host
    then ok (record { type_code = domain_type; host = host; port = port })
    else err invalid_destination

module _ (net : Netip) where
  pub ip_destination : Address → ℕ → Destination
  ip_destination (v4 b) port = record {
    type_code = ipv4_type;
    host = net.addr_string (v4 b);
    port = port;
  }
  ip_destination (v6 b) port = record {
    type_code = ipv6_type;
    host = net.addr_string (v6 b);
    port = port;
  }

  unfoldable pub new_destination : List ℕ → ℕ → Result Destination
  unfolding ip_destination domain_destination
  new_destination host port =
      if is_host_port host port
      then elim (net.parse_addr host) [
        | some a ↦ ok (ip_destination (unmap a) port)
        | none ↦ domain_destination (to_lower (trim_dot host)) port
      ]
      else err invalid_destination

  -- The three layouts behind the type byte; `rest` is payload[1:].
  decode_ipv4 : List ℕ → Result Destination
  decode_ipv4 rest =
      if length rest == 4 + 2
      then new_destination (net.addr_string (v4 (take 4 rest))) (get (take 2 (drop 4 rest)))
      else err invalid_destination

  decode_ipv6 : List ℕ → Result Destination
  decode_ipv6 rest =
      if length rest == 16 + 2
      then new_destination (net.addr_string (v6 (take 16 rest))) (get (take 2 (drop 16 rest)))
      else err invalid_destination

  decode_domain : List ℕ → Result Destination
  decode_domain [] = err invalid_destination
  decode_domain (n ∷ rest) =
      if ltb (length rest) (1 + 2) || n == 0 || length rest != n + 2
      then err invalid_destination
      else new_destination (take n rest) (get (take 2 (drop n rest)))

  decode_type : ℕ → List ℕ → Result Destination
  unfolding decode_ipv4 decode_ipv6 decode_domain
  decode_type t rest =
      if t == ipv4_type
      then decode_ipv4 rest
      else if t == ipv6_type
      then decode_ipv6 rest
      else if t == domain_type
      then decode_domain rest
      else err invalid_destination

  pub decode_destination : List ℕ → Result Destination
  unfolding decode_type
  decode_destination [] = err invalid_destination
  decode_destination (t ∷ rest) =
      if ltb (suc (length rest)) (1 + 2) then err invalid_destination else decode_type t rest

  encode_ipv4 : Option Address → ℕ → Result (List ℕ)
  encode_ipv4 none port = err invalid_destination
  encode_ipv4 (some (v6 b)) port = err invalid_destination
  encode_ipv4 (some (v4 b)) port = ok (ipv4_type ∷ b ++ put 2 port)

  encode_ipv6 : Option Address → ℕ → Result (List ℕ)
  encode_ipv6 none port = err invalid_destination
  encode_ipv6 (some (v4 b)) port = err invalid_destination
  encode_ipv6 (some (v6 b)) port =
      if is_4in6 b then err invalid_destination else ok (ipv6_type ∷ b ++ put 2 port)

  encode_domain : List ℕ → ℕ → Result (List ℕ)
  encode_domain host port =
      if not (valid_domain host) || ltb 255 (length host)
      then err invalid_destination
      else ok (domain_type ∷ length host ∷ host ++ put 2 port)

  pub encode : Destination → Result (List ℕ)
  unfolding is_zero encode_ipv4 encode_ipv6 encode_domain
  encode d =
      if is_zero d
      then err invalid_destination
      else if d.type_code == ipv4_type
      then encode_ipv4 (net.parse_addr d.host) d.port
      else if d.type_code == ipv6_type
      then encode_ipv6 (net.parse_addr d.host) d.port
      else if d.type_code == domain_type
      then encode_domain d.host d.port
      else err invalid_destination
