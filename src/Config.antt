-- ===== src/Config.antt =====
-- internal/config/config.go: the configuration, its defaults and its checks. A string is its bytes, a
-- map the list of its entries, an int or int64 a ℤ; an error is told by its kind, not by its text.
-- Reading the file and its YAML is not modelled. What net, path and strings do is the parameter `std`.
pub mod Checks
pub mod Presence
pub mod Chosen
pub mod Guards
pub mod Roles
pub mod Tests
use engarde.Shared.{
  ℕ, zero, suc, ◌*◌, ◌-◌, ◌^◌, List, [], ◌∷◌, Bool, true, false, not, ◌&&◌, ◌||◌, Option, none,
  some, ltb, leb, ◌==◌, if◌then◌else◌, length, bytes_eq,
}
pub use engarde.Shared.Int.{ℤ, pos, negsuc, is_unset, is_positive, at_most, is_natural, less}
use engarde.Wire.{
  Error, Result, ok, err, both_roles, other_role_present, no_role, invalid_setting, unsafe_frontend,
  open_server,
}

-- `if x == 0 { x = d }`.
abbrev pub or_default : ℤ → ℕ → ℤ
or_default x d = if is_unset x then pos d else x

abbrev pub is_blank : List ℕ → Bool
is_blank text = bytes_eq text []

abbrev pub is_some {ℓ} : {A : Type ℓ} → Option A → Bool
is_some none = false
is_some (some a) = true

abbrev pub max_tcp_session_buffer_bytes : ℕ
max_tcp_session_buffer_bytes = 2 ^ 31 - 1

pub data Role : Type 0 where
  role_client role_server : Role

pub record WebManager : Type 0 where
  pub listen_addr : List ℕ
  pub username : List ℕ
  pub password : List ℕ

pub record TcpTransfer : Type 0 where
  pub chunk_size : ℤ
  pub carrier_queue_bytes : ℤ
  pub reorder_window_bytes : ℤ
  pub dial_timeout_millis : ℤ
  pub open_timeout_millis : ℤ
  pub write_timeout_millis : ℤ
  pub max_streams : ℤ
  pub max_carriers_per_stream : ℤ
  pub max_pending_connections : ℤ
  pub max_pending_streams : ℤ
  pub max_sessions : ℤ

pub record Transfer : Type 0 where
  pub keepalive_interval_millis : ℤ
  pub keepalive_timeout_millis : ℤ
  pub tcp : TcpTransfer

pub record Credentials : Type 0 where
  pub username : List ℕ
  pub password : List ℕ

pub record DstOverride : Type 0 where
  pub if_name : List ℕ
  pub dst_addr : List ℕ

pub record Client : Type 0 where
  pub description : List ℕ
  pub listen_addr : List ℕ
  pub dst_addr : List ℕ
  pub socks5_auth : Option Credentials
  pub peer_auth : Option Credentials
  pub allow_unsafe_frontend : Bool
  pub include_interfaces : List (List ℕ)
  pub excluded_interfaces : List (List ℕ)
  pub interface_labels : List (List ℕ × List ℕ)
  pub dst_overrides : List DstOverride
  pub transfer : Transfer
  pub web_manager : WebManager

-- `peer_auth` is the users of ServerPeerAuth.
pub record Server : Type 0 where
  pub description : List ℕ
  pub listen_addr : List ℕ
  pub allow_unsafe_dynamic_destination : Bool
  pub allowed_clients : List (List ℕ)
  pub peer_auth : Option (List Credentials)
  pub transfer : Transfer
  pub web_manager : WebManager

pub record Config : Type 0 where
  pub client : Client
  pub server : Server
  pub client_section_present : Bool
  pub server_section_present : Bool

unfoldable pub apply_tcp_defaults : TcpTransfer → TcpTransfer
apply_tcp_defaults tcp = record tcp {
  chunk_size = or_default tcp.chunk_size (16 * 1024);
  carrier_queue_bytes = or_default tcp.carrier_queue_bytes (1024 * 1024);
  reorder_window_bytes = or_default tcp.reorder_window_bytes (4 * 1024 * 1024);
  dial_timeout_millis = or_default tcp.dial_timeout_millis 5000;
  open_timeout_millis = or_default tcp.open_timeout_millis 5000;
  write_timeout_millis = or_default tcp.write_timeout_millis 10000;
}

unfoldable pub apply_transfer_defaults : Transfer → Transfer
unfolding apply_tcp_defaults
apply_transfer_defaults transfer = record {
  keepalive_interval_millis = or_default transfer.keepalive_interval_millis 1000;
  keepalive_timeout_millis = or_default transfer.keepalive_timeout_millis 5000;
  tcp = apply_tcp_defaults transfer.tcp;
}

unfoldable pub apply_defaults : Role → Config → Config
unfolding apply_transfer_defaults
apply_defaults role_client cfg = record cfg {
  client = record cfg.client { transfer = apply_transfer_defaults cfg.client.transfer };
}
apply_defaults role_server cfg = record cfg {
  server = record cfg.server { transfer = apply_transfer_defaults cfg.server.transfer };
}

tcp_present : TcpTransfer → Bool
tcp_present tcp = not (
    is_unset tcp.chunk_size
    && is_unset tcp.carrier_queue_bytes
    && is_unset tcp.reorder_window_bytes
    && is_unset tcp.dial_timeout_millis
    && is_unset tcp.open_timeout_millis
    && is_unset tcp.write_timeout_millis
    && is_unset tcp.max_streams
    && is_unset tcp.max_carriers_per_stream
    && is_unset tcp.max_pending_connections
    && is_unset tcp.max_pending_streams
    && is_unset tcp.max_sessions)

transfer_present : Transfer → Bool
unfolding tcp_present
transfer_present transfer =
    not (is_unset transfer.keepalive_interval_millis)
    || not (is_unset transfer.keepalive_timeout_millis)
    || tcp_present transfer.tcp

web_present : WebManager → Bool
web_present web =
    not (is_blank web.listen_addr) || not (is_blank web.username) || not (is_blank web.password)

unfoldable pub client_present : Config → Bool
unfolding transfer_present web_present
client_present cfg =
    cfg.client_section_present
    || not (is_blank cfg.client.description)
    || not (is_blank cfg.client.listen_addr)
    || not (is_blank cfg.client.dst_addr)
    || is_some cfg.client.socks5_auth
    || is_some cfg.client.peer_auth
    || cfg.client.allow_unsafe_frontend
    || ltb 0 (length cfg.client.include_interfaces)
    || ltb 0 (length cfg.client.excluded_interfaces)
    || ltb 0 (length cfg.client.interface_labels)
    || ltb 0 (length cfg.client.dst_overrides)
    || transfer_present cfg.client.transfer
    || web_present cfg.client.web_manager

unfoldable pub server_present : Config → Bool
unfolding transfer_present web_present
server_present cfg =
    cfg.server_section_present
    || not (is_blank cfg.server.description)
    || not (is_blank cfg.server.listen_addr)
    || cfg.server.allow_unsafe_dynamic_destination
    || ltb 0 (length cfg.server.allowed_clients)
    || is_some cfg.server.peer_auth
    || transfer_present cfg.server.transfer
    || web_present cfg.server.web_manager

unfoldable pub client_complete : Config → Bool
client_complete cfg = not (is_blank cfg.client.listen_addr) && not (is_blank cfg.client.dst_addr)

unfoldable pub server_complete : Config → Bool
server_complete cfg = not (is_blank cfg.server.listen_addr)

-- ResolveRole; the list of missing fields is part of the error's text.
unfoldable pub resolve_role : Config → Result Role
unfolding client_complete server_complete client_present server_present
resolve_role cfg =
    if client_complete cfg && server_complete cfg
    then err both_roles
    else if client_complete cfg && server_present cfg
    then err other_role_present
    else if server_complete cfg && client_present cfg
    then err other_role_present
    else if client_complete cfg
    then ok role_client
    else if server_complete cfg
    then ok role_server
    else err no_role
