-- ===== src/Config/Tests.antt =====
-- The theorems about configurations at a client's with the defaults, whose front end is `l`.
use engarde.Shared.{[], ◌∷◌, true, false, none, some, bytes_eq, ◌≡◌, refl, inl, ◌↔◌}
use engarde.Wire.{ok}
use engarde.Config.{
  pos, role_client, WebManager, TcpTransfer, Transfer, Config, resolve_role, apply_defaults,
  apply_tcp_defaults,
}
use engarde.Config.Checks.{
  Std, validate, validate_tcp, localhost, validate_transfer, validate_web_manager,
  validate_optional, validate_interface_patterns, is_loopback_listen_address,
}
use engarde.Config.Chosen.{IsOf}
use engarde.Config.Roles.{
  resolve_role_lem, IsGuarded, validate-IsGuarded, validate_tcp-apply_tcp_defaults,
}

abbrev plain_std : Std
plain_std = record {
  split_host = λ a. some a;
  equal_fold = bytes_eq;
  is_loopback_ip = λ a. false;
  is_ip = λ a. false;
  is_cidr = λ a. false;
  trim_space = λ a. a;
  is_pattern = λ a. true;
}

abbrev no_tcp : TcpTransfer
no_tcp = record {
  chunk_size = pos 0;
  carrier_queue_bytes = pos 0;
  reorder_window_bytes = pos 0;
  dial_timeout_millis = pos 0;
  open_timeout_millis = pos 0;
  write_timeout_millis = pos 0;
  max_streams = pos 0;
  max_carriers_per_stream = pos 0;
  max_pending_connections = pos 0;
  max_pending_streams = pos 0;
  max_sessions = pos 0;
}

abbrev no_transfer : Transfer
no_transfer = record {
  keepalive_interval_millis = pos 0;
  keepalive_timeout_millis = pos 0;
  tcp = no_tcp;
}

abbrev no_web : WebManager
no_web = record { listen_addr = []; username = []; password = [] }

abbrev written : Config
written = record {
  client = record {
    description = [];
    listen_addr = localhost;
    dst_addr = 49 ∷ [];
    socks5_auth = none;
    peer_auth = none;
    allow_unsafe_frontend = false;
    include_interfaces = [];
    excluded_interfaces = [];
    interface_labels = [];
    dst_overrides = [];
    transfer = no_transfer;
    web_manager = no_web;
  };
  server = record {
    description = [];
    listen_addr = [];
    allow_unsafe_dynamic_destination = false;
    allowed_clients = [];
    peer_auth = none;
    transfer = no_transfer;
    web_manager = no_web;
  };
  client_section_present = true;
  server_section_present = false;
}

written_role : resolve_role written ≡ ok role_client
unfolding resolve_role bytes_eq
written_role = refl

resolve_role_lem_example : (resolve_role written ≡ ok role_client) ↔ IsOf written role_client
resolve_role_lem_example = resolve_role_lem written role_client

filled_valid : validate plain_std role_client (apply_defaults role_client written) ≡ ok tt
unfolding validate apply_defaults bytes_eq validate_transfer validate_tcp validate_web_manager
    validate_optional validate_interface_patterns is_loopback_listen_address
filled_valid = refl

validate-IsGuarded_example : IsGuarded plain_std role_client (apply_defaults role_client written)
validate-IsGuarded_example =
    validate-IsGuarded plain_std role_client (apply_defaults role_client written) filled_valid

validate_tcp-apply_tcp_defaults_example : validate_tcp (apply_tcp_defaults no_tcp) ≡ ok tt
validate_tcp-apply_tcp_defaults_example = validate_tcp-apply_tcp_defaults no_tcp (record {
  chunk = inl refl;
  queue = inl refl;
  window = inl refl;
  dial = inl refl;
  opening = inl refl;
  write = inl refl;
  streams = refl;
  carriers = refl;
  connections = refl;
  pending = refl;
  sessions = refl;
})
