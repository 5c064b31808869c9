-- ===== src/Config/Presence.antt =====
-- internal/config/config.go: when a section counts as present, told field by field.
use engarde.Shared.{
  ℕ, ◌≡◌, refl, List, [], ◌∷◌, true, false, Option, none, some, ltb, length, bytes_eq, arith,
}
use engarde.Config.{
  ℤ, pos, negsuc, is_unset, is_blank, is_some, Config, Transfer, TcpTransfer, WebManager,
  tcp_present, transfer_present, web_present, client_present, server_present,
}

blank : (text : List ℕ) → is_blank text ≡ true → text ≡ []
unfolding bytes_eq
blank [] h = refl
blank (b ∷ bs) h = absurd (ground arith)

left_out : (x : ℤ) → is_unset x ≡ true → x ≡ pos 0
left_out (pos n) h = ground arith
left_out (negsuc n) h = absurd (ground arith)

absent {ℓ} : {A : Type ℓ} (o : Option A) → is_some o ≡ false → o ≡ none
absent none h = refl
absent (some a) h = absurd (ground arith)

empty {ℓ} : {A : Type ℓ} (l : List A) → ltb 0 (length l) ≡ false → l ≡ []
empty [] h = refl
empty (a ∷ l) h = absurd (ground arith)

pub record IsUnsetTcp (tcp : TcpTransfer) : Type 0 where
  pub chunk : tcp.chunk_size ≡ pos 0
  pub queue : tcp.carrier_queue_bytes ≡ pos 0
  pub window : tcp.reorder_window_bytes ≡ pos 0
  pub dial : tcp.dial_timeout_millis ≡ pos 0
  pub opening : tcp.open_timeout_millis ≡ pos 0
  pub write : tcp.write_timeout_millis ≡ pos 0
  pub streams : tcp.max_streams ≡ pos 0
  pub carriers : tcp.max_carriers_per_stream ≡ pos 0
  pub connections : tcp.max_pending_connections ≡ pos 0
  pub pending : tcp.max_pending_streams ≡ pos 0
  pub sessions : tcp.max_sessions ≡ pos 0

pub record IsUnsetTransfer (t : Transfer) : Type 0 where
  pub interval : t.keepalive_interval_millis ≡ pos 0
  pub timeout : t.keepalive_timeout_millis ≡ pos 0
  pub sizes : IsUnsetTcp t.tcp

pub record IsUnsetWeb (web : WebManager) : Type 0 where
  pub address : web.listen_addr ≡ []
  pub name : web.username ≡ []
  pub secret : web.password ≡ []

-- No key of the client's section is there, and no field of it is set.
pub record IsUnsetClient (cfg : Config) : Type 0 where
  pub no_section : cfg.client_section_present ≡ false
  pub no_description : cfg.client.description ≡ []
  pub no_listen_addr : cfg.client.listen_addr ≡ []
  pub no_dst_addr : cfg.client.dst_addr ≡ []
  pub no_socks5_auth : cfg.client.socks5_auth ≡ none
  pub no_peer_auth : cfg.client.peer_auth ≡ none
  pub safe : cfg.client.allow_unsafe_frontend ≡ false
  pub no_include : cfg.client.include_interfaces ≡ []
  pub no_excluded : cfg.client.excluded_interfaces ≡ []
  pub no_labels : cfg.client.interface_labels ≡ []
  pub no_overrides : cfg.client.dst_overrides ≡ []
  pub no_transfer : IsUnsetTransfer cfg.client.transfer
  pub no_web : IsUnsetWeb cfg.client.web_manager

-- No key of the server's section is there, and no field of it is set.
pub record IsUnsetServer (cfg : Config) : Type 0 where
  pub no_section : cfg.server_section_present ≡ false
  pub no_description : cfg.server.description ≡ []
  pub no_listen_addr : cfg.server.listen_addr ≡ []
  pub safe : cfg.server.allow_unsafe_dynamic_destination ≡ false
  pub no_allowed : cfg.server.allowed_clients ≡ []
  pub no_peer_auth : cfg.server.peer_auth ≡ none
  pub no_transfer : IsUnsetTransfer cfg.server.transfer
  pub no_web : IsUnsetWeb cfg.server.web_manager

tcp_present-IsUnsetTcp : (tcp : TcpTransfer) → tcp_present tcp ≡ false → IsUnsetTcp tcp
unfolding tcp_present
tcp_present-IsUnsetTcp tcp h = record {
  chunk = left_out _ (ground arith);
  queue = left_out _ (ground arith);
  window = left_out _ (ground arith);
  dial = left_out _ (ground arith);
  opening = left_out _ (ground arith);
  write = left_out _ (ground arith);
  streams = left_out _ (ground arith);
  carriers = left_out _ (ground arith);
  connections = left_out _ (ground arith);
  pending = left_out _ (ground arith);
  sessions = left_out _ (ground arith);
}

transfer_present-IsUnsetTransfer : (t : Transfer) → transfer_present t ≡ false → IsUnsetTransfer t
unfolding transfer_present
transfer_present-IsUnsetTransfer t h = record {
  interval = left_out _ (ground arith);
  timeout = left_out _ (ground arith);
  sizes = tcp_present-IsUnsetTcp t.tcp (ground arith);
}

web_present-IsUnsetWeb : (web : WebManager) → web_present web ≡ false → IsUnsetWeb web
unfolding web_present
web_present-IsUnsetWeb web h = record {
  address = blank _ (ground arith);
  name = blank _ (ground arith);
  secret = blank _ (ground arith);
}

pub client_present-IsUnsetClient : (cfg : Config) → client_present cfg ≡ false → IsUnsetClient cfg
unfolding client_present
client_present-IsUnsetClient cfg h = record {
  no_section = ground arith;
  no_description = blank _ (ground arith);
  no_listen_addr = blank _ (ground arith);
  no_dst_addr = blank _ (ground arith);
  no_socks5_auth = absent _ (ground arith);
  no_peer_auth = absent _ (ground arith);
  safe = ground arith;
  no_include = empty _ (ground arith);
  no_excluded = empty _ (ground arith);
  no_labels = empty _ (ground arith);
  no_overrides = empty _ (ground arith);
  no_transfer = transfer_present-IsUnsetTransfer _ (ground arith);
  no_web = web_present-IsUnsetWeb _ (ground arith);
}

pub server_present-IsUnsetServer : (cfg : Config) → server_present cfg ≡ false → IsUnsetServer cfg
unfolding server_present
server_present-IsUnsetServer cfg h = record {
  no_section = ground arith;
  no_description = blank _ (ground arith);
  no_listen_addr = blank _ (ground arith);
  safe = ground arith;
  no_allowed = empty _ (ground arith);
  no_peer_auth = absent _ (ground arith);
  no_transfer = transfer_present-IsUnsetTransfer _ (ground arith);
  no_web = web_present-IsUnsetWeb _ (ground arith);
}

IsUnsetTcp-tcp_present : (tcp : TcpTransfer) → IsUnsetTcp tcp → tcp_present tcp ≡ false
unfolding tcp_present
IsUnsetTcp-tcp_present tcp u = ground (
  arith, u.chunk, u.queue, u.window, u.dial, u.opening, u.write, u.streams, u.carriers,
  u.connections, u.pending, u.sessions,
)

IsUnsetTransfer-transfer_present : (t : Transfer) → IsUnsetTransfer t → transfer_present t ≡ false
unfolding transfer_present
IsUnsetTransfer-transfer_present t u =
    ground (arith, u.interval, u.timeout, IsUnsetTcp-tcp_present t.tcp u.sizes)

empty_is_blank : (text : List ℕ) → text ≡ [] → is_blank text ≡ true
unfolding bytes_eq
empty_is_blank text e = rw e refl

not_some {ℓ} : {A : Type ℓ} (o : Option A) → o ≡ none → is_some o ≡ false
not_some o e = rw e refl

nothing_in {ℓ} : {A : Type ℓ} (l : List A) → l ≡ [] → ltb 0 (length l) ≡ false
nothing_in l e = rw e refl

IsUnsetWeb-web_present : (web : WebManager) → IsUnsetWeb web → web_present web ≡ false
unfolding web_present
IsUnsetWeb-web_present web u =
    ground (arith, empty_is_blank _ u.address, empty_is_blank _ u.name, empty_is_blank _ u.secret)

pub IsUnsetClient-client_present : (cfg : Config) → IsUnsetClient cfg → client_present cfg ≡ false
unfolding client_present
IsUnsetClient-client_present cfg u = ground (
  arith,
  u.no_section,
  empty_is_blank _ u.no_description,
  empty_is_blank _ u.no_listen_addr,
  empty_is_blank _ u.no_dst_addr,
  not_some _ u.no_socks5_auth,
  not_some _ u.no_peer_auth,
  u.safe,
  nothing_in _ u.no_include,
  nothing_in _ u.no_excluded,
  nothing_in _ u.no_labels,
  nothing_in _ u.no_overrides,
  IsUnsetTransfer-transfer_present _ u.no_transfer,
  IsUnsetWeb-web_present _ u.no_web,
)

pub IsUnsetServer-server_present : (cfg : Config) → IsUnsetServer cfg → server_present cfg ≡ false
unfolding server_present
IsUnsetServer-server_present cfg u = ground (
  arith,
  u.no_section,
  empty_is_blank _ u.no_description,
  empty_is_blank _ u.no_listen_addr,
  u.safe,
  nothing_in _ u.no_allowed,
  not_some _ u.no_peer_auth,
  IsUnsetTransfer-transfer_present _ u.no_transfer,
  IsUnsetWeb-web_present _ u.no_web,
)
