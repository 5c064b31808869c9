-- ===== src/Socks5/Tests.antt =====
-- A handshake with the credentials `u` and `p` and a request for the domain `a.b`; the hash is the text.
use engarde.Shared.{List, [], ◌∷◌, ℕ, none, some, true, bytes_eq, ◌≡◌, refl}
use engarde.Wire.{Conn, closed, done, read_full, write_full, set_deadline}
use engarde.Tcpstream.Destination.{Netip, Destination, domain_type, new_destination, is_host_port}
use engarde.Tcpstream.Destination.Domain.{is_trimmed, contains, to_lower, trim_dot, valid_domain}
use engarde.Socks5.{Credentials, read_connect_with_auth}
use engarde.Socks5.Handshake.{IsAuthorised, read_connect_with_auth-IsAuthorised}

abbrev no_net : Netip
no_net = record { parse_addr = λ h. none; addr_string = λ a. [] }

abbrev plain_hash : List ℕ → List ℕ
plain_hash text = text

abbrev known : Credentials
known = record { username = b'u' ∷ []; password = b'p' ∷ [] }

abbrev request : Conn
request = record {
  input =
      5 ∷ 2 ∷ 0 ∷ 2 ∷ 1 ∷ 1 ∷ b'u' ∷ 1 ∷ b'p' ∷ 5 ∷ 1 ∷ 0 ∷ 3 ∷ 3 ∷ b'a' ∷ b'.' ∷ b'b' ∷ 0 ∷ 80 ∷ 9
      ∷ [];
  at_end = closed;
  output = [];
  writes = [];
  deadlines = [];
}

abbrev asked : Destination
asked = record { type_code = domain_type; host = b'a' ∷ b'.' ∷ b'b' ∷ []; port = 80 }

-- The byte behind the request is left, and both methods and the login are answered.
abbrev answered : Conn
answered = record request { input = 9 ∷ []; output = 5 ∷ 2 ∷ 1 ∷ 0 ∷ [] }

request_granted :
    read_connect_with_auth no_net plain_hash plain_hash true (some known) request
    ≡ done asked answered
unfolding read_connect_with_auth new_destination is_host_port bytes_eq is_trimmed contains to_lower
    trim_dot valid_domain read_full write_full set_deadline
request_granted = refl

read_connect_with_auth-IsAuthorised_example :
    IsAuthorised no_net plain_hash plain_hash true known request.input
read_connect_with_auth-IsAuthorised_example =
    read_connect_with_auth-IsAuthorised no_net plain_hash plain_hash true known request asked
      answered request_granted
