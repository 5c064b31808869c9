-- ===== src/Config/Checks.antt =====
-- Validate of internal/config/config.go and the checks it calls, in their order.
use engarde.Shared.{
  ℕ, ◌*◌, List, [], ◌∷◌, Bool, true, false, not, ◌&&◌, ◌||◌, Option, none, some, ltb, ◌==◌,
  if◌then◌else◌, length,
}
use engarde.Wire.{Error, Result, ok, err, invalid_setting, unsafe_frontend, open_server}
use engarde.Config.{
  is_positive, at_most, is_natural, less, is_blank, is_some, max_tcp_session_buffer_bytes, Role,
  role_client, role_server, WebManager, TcpTransfer, Transfer, Credentials, Client, Server, Config,
}

-- net.SplitHostPort's host, strings.EqualFold, net.ParseIP with IsLoopback, net.ParseIP and
-- net.ParseCIDR as tests, strings.TrimSpace, and path.Match with an empty name as a test.
pub record Std : Type 0 where
  pub split_host : List ℕ → Option (List ℕ)
  pub equal_fold : List ℕ → List ℕ → Bool
  pub is_loopback_ip : List ℕ → Bool
  pub is_ip : List ℕ → Bool
  pub is_cidr : List ℕ → Bool
  pub trim_space : List ℕ → List ℕ
  pub is_pattern : List ℕ → Bool

abbrev pub localhost : List ℕ
localhost = b'l' ∷ b'o' ∷ b'c' ∷ b'a' ∷ b'l' ∷ b'h' ∷ b'o' ∷ b's' ∷ b't' ∷ []

-- `if !test { return err }`.
abbrev pub require : Bool → Error → Result (Unit {0})
require true e = ok tt
require false e = err e

-- The first error of a sequence of checks.
abbrev pub in_order : List (Result (Unit {0})) → Result (Unit {0})
in_order [] = ok tt
in_order (ok u ∷ rest) = in_order rest
in_order (err e ∷ rest) = err e

abbrev pub tcp_checks : TcpTransfer → List (Result (Unit {0}))
tcp_checks tcp =
    require (is_positive tcp.chunk_size && at_most (64 * 1024) tcp.chunk_size) invalid_setting
    ∷ require
        (is_positive tcp.carrier_queue_bytes
          && at_most max_tcp_session_buffer_bytes tcp.carrier_queue_bytes)
        invalid_setting
    ∷ require
        (is_positive tcp.reorder_window_bytes
          && at_most max_tcp_session_buffer_bytes tcp.reorder_window_bytes)
        invalid_setting
    ∷ require (is_positive tcp.dial_timeout_millis) invalid_setting
    ∷ require (is_positive tcp.open_timeout_millis) invalid_setting
    ∷ require (is_positive tcp.write_timeout_millis) invalid_setting
    ∷ require (is_natural tcp.max_streams) invalid_setting
    ∷ require (is_natural tcp.max_carriers_per_stream) invalid_setting
    ∷ require (is_natural tcp.max_pending_connections) invalid_setting
    ∷ require (is_natural tcp.max_pending_streams) invalid_setting
    ∷ require (is_natural tcp.max_sessions) invalid_setting
    ∷ []

unfoldable pub validate_tcp : TcpTransfer → Result (Unit {0})
validate_tcp tcp = in_order (tcp_checks tcp)

abbrev pub transfer_checks : Transfer → List (Result (Unit {0}))
transfer_checks transfer =
    require
      (is_positive transfer.keepalive_interval_millis
        && less transfer.keepalive_interval_millis transfer.keepalive_timeout_millis)
      invalid_setting
    ∷ validate_tcp transfer.tcp
    ∷ []

unfoldable pub validate_transfer : Transfer → Result (Unit {0})
validate_transfer transfer = in_order (transfer_checks transfer)

unfoldable pub validate_web_manager : WebManager → Result (Unit {0})
validate_web_manager web =
    if is_blank web.listen_addr && (not (is_blank web.username) || not (is_blank web.password))
    then err invalid_setting
    else if is_blank web.username
    then require (is_blank web.password) invalid_setting
    else require (not (is_blank web.password)) invalid_setting

unfoldable pub validate_credentials : ℕ → Credentials → Result (Unit {0})
validate_credentials max_password_bytes c =
    if length c.username == 0 || ltb 255 (length c.username)
    then err invalid_setting
    else if length c.password == 0 || ltb max_password_bytes (length c.password)
    then err invalid_setting
    else ok tt

unfoldable pub validate_optional : ℕ → Option Credentials → Result (Unit {0})
unfolding validate_credentials
validate_optional max_password_bytes none = ok tt
validate_optional max_password_bytes (some c) = validate_credentials max_password_bytes c

unfoldable pub validate_users : List Credentials → Result (Unit {0})
unfolding validate_credentials
validate_users [] = ok tt
validate_users (c ∷ cs) =
    let rest = validate_users cs in
    elim (validate_credentials 1024 c) [ ok u ↦ rest | err e ↦ err e ]

-- validateServerPeerAuth; Go visits the users in any order, but their errors are of one kind.
unfoldable pub validate_server_peer_auth : Option (List Credentials) → Result (Unit {0})
unfolding validate_users
validate_server_peer_auth none = ok tt
validate_server_peer_auth (some users) =
    if length users == 0 then err invalid_setting else validate_users users

module _ (std : Std) where
  unfoldable pub validate_allowed_clients : List (List ℕ) → Result (Unit {0})
  validate_allowed_clients [] = ok tt
  validate_allowed_clients (value ∷ values) =
      let rest = validate_allowed_clients values in
      let trimmed = std.trim_space value in
      if is_blank trimmed
      then err invalid_setting
      else if std.is_ip trimmed || std.is_cidr trimmed
      then rest
      else err invalid_setting

  unfoldable pub validate_interface_patterns : List (List ℕ) → Result (Unit {0})
  validate_interface_patterns [] = ok tt
  validate_interface_patterns (glob ∷ patterns) =
      let rest = validate_interface_patterns patterns in
      if is_blank glob || not (std.is_pattern glob) then err invalid_setting else rest

  unfoldable pub loopback_host : Option (List ℕ) → Bool
  loopback_host none = false
  loopback_host (some host) = std.equal_fold host localhost || std.is_loopback_ip host

  unfoldable pub is_loopback_listen_address : List ℕ → Bool
  unfolding loopback_host
  is_loopback_listen_address address = loopback_host (std.split_host address)

  abbrev pub client_checks : Client → List (Result (Unit {0}))
  client_checks client =
      validate_transfer client.transfer
      ∷ validate_web_manager client.web_manager
      ∷ validate_optional 255 client.socks5_auth
      ∷ validate_optional 1024 client.peer_auth
      ∷ validate_interface_patterns client.include_interfaces
      ∷ validate_interface_patterns client.excluded_interfaces
      ∷ require (client.allow_unsafe_frontend || is_loopback_listen_address client.listen_addr)
          unsafe_frontend
      ∷ []

  unfoldable pub validate_client : Client → Result (Unit {0})
  validate_client client = in_order (client_checks client)

  abbrev pub server_checks : Server → List (Result (Unit {0}))
  server_checks server =
      validate_transfer server.transfer
      ∷ validate_web_manager server.web_manager
      ∷ validate_allowed_clients server.allowed_clients
      ∷ validate_server_peer_auth server.peer_auth
      ∷ require
          (ltb 0 (length server.allowed_clients)
            || is_some server.peer_auth
            || server.allow_unsafe_dynamic_destination)
          open_server
      ∷ []

  unfoldable pub validate_server : Server → Result (Unit {0})
  validate_server server = in_order (server_checks server)

  unfoldable pub validate : Role → Config → Result (Unit {0})
  unfolding validate_client validate_server
  validate role_client cfg = validate_client cfg.client
  validate role_server cfg = validate_server cfg.server
