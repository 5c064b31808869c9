-- ===== src/Config/Roles.antt =====
-- internal/config/config.go: which role a configuration has, and what Validate has made sure of.
use engarde.Shared.{
  ℕ, ◌*◌, ◌<◌, ◌≤◌, ◌≡◌, refl, ◌⊎◌, inl, inr, List, [], ◌∷◌, Bool, true, false, ◌&&◌, length, All,
  arith, Bool-cases, ◌↔◌,
}
use engarde.Wire.{Error, Result, ok, err}
use engarde.Config.{
  ℤ, pos, negsuc, is_positive, at_most, is_natural, is_some, max_tcp_session_buffer_bytes, Role,
  role_client, role_server, Transfer, TcpTransfer, Config, resolve_role, or_default,
  apply_tcp_defaults, is_unset,
}
use engarde.Config.Checks.{
  Std, validate, validate_transfer, validate_tcp, validate_client, validate_server, in_order,
  require, tcp_checks, transfer_checks, client_checks, server_checks,
}
use engarde.Config.Chosen.{IsOf, resolve_role-IsOf, IsOf-resolve_role}
use engarde.Config.Guards.{
  IsLocal, IsPlace, HasUsers, is_loopback_listen_address-IsLocal,
  validate_server_peer_auth-HasUsers, validate_allowed_clients-IsPlace,
}

-- ResolveRole returns the client's role exactly for a configuration with a listen address and a
-- destination of the client and with nothing of the server set, and the server's role exactly for
-- one with a listen address of the server and with nothing of the client set: neither a key of the
-- other section is there nor a value of any of its fields.
pub resolve_role_lem : (cfg : Config) (role : Role) → (resolve_role cfg ≡ ok role) ↔ IsOf cfg role
resolve_role_lem cfg role = (resolve_role-IsOf cfg role, IsOf-resolve_role cfg role)

in_order-All : (rs : List (Result (Unit {0}))) → in_order rs ≡ ok tt → All (λ r. r ≡ ok tt) rs
in_order-All [] h = tt
in_order-All (ok u ∷ rs) h = (refl, in_order-All rs h)
in_order-All (err e ∷ rs) h = absurd (ground arith)

require-true : (b : Bool) (e : Error) → require b e ≡ ok tt → b ≡ true
require-true true e h = refl
require-true false e h = absurd (ground arith)

-- The integers from `lo` to `hi`.
abbrev pub Between : ℕ → ℕ → ℤ → Type 0
Between lo hi x = (n : ℕ) × (x ≡ pos n) × (lo ≤ n) × (n ≤ hi)

between : (hi : ℕ) (x : ℤ) → (is_positive x && at_most hi x) ≡ true → Between 1 hi x
between hi (pos n) h = (n, refl, ground arith, ground arith)
between hi (negsuc n) h = absurd (ground arith)

-- The sizes within which the buffers of a stream are made.
pub record IsSized (tcp : TcpTransfer) : Type 0 where
  pub chunk : Between 1 65536 tcp.chunk_size
  pub queue : Between 1 max_tcp_session_buffer_bytes tcp.carrier_queue_bytes
  pub window : Between 1 max_tcp_session_buffer_bytes tcp.reorder_window_bytes

validate_tcp-IsSized : (tcp : TcpTransfer) → validate_tcp tcp ≡ ok tt → IsSized tcp
unfolding validate_tcp
validate_tcp-IsSized tcp h =
    let (chunk, (queue, (window, _))) = in_order-All (tcp_checks tcp) h in
    record {
      chunk = between (64 * 1024) tcp.chunk_size (require-true _ _ chunk);
      queue = between max_tcp_session_buffer_bytes tcp.carrier_queue_bytes (require-true _ _ queue);
      window =
          between max_tcp_session_buffer_bytes tcp.reorder_window_bytes (require-true _ _ window);
    }

validate_transfer-IsSized : (t : Transfer) → validate_transfer t ≡ ok tt → IsSized t.tcp
unfolding validate_transfer
validate_transfer-IsSized t h =
    let (_, (sizes, _)) = in_order-All (transfer_checks t) h in validate_tcp-IsSized t.tcp sizes

-- What a role must not lack: a client that is not marked unsafe listens on a local address; a server
-- that is not marked unsafe has a list of clients, each an address or a network, or has users.
abbrev pub IsGuarded : Std → Role → Config → Type 0
IsGuarded std role_client cfg =
    IsSized cfg.client.transfer.tcp
    × ((cfg.client.allow_unsafe_frontend ≡ true) ⊎ IsLocal std cfg.client.listen_addr)
IsGuarded std role_server cfg =
    IsSized cfg.server.transfer.tcp
    × ((cfg.server.allow_unsafe_dynamic_destination ≡ true)
        ⊎ ((0 < length cfg.server.allowed_clients) × All (IsPlace std) cfg.server.allowed_clients)
        ⊎ HasUsers cfg.server.peer_auth)

-- A configuration that Validate accepts has buffer sizes in range. A client is marked unsafe, or the
-- host of its listen address is the name localhost or a loopback address. A server is marked
-- unsafe, or has allowed clients, each of them an address or a network, or has users, each of them
-- with a name of 1 to 255 bytes and a password of 1 to 1024.
pub validate-IsGuarded :
    (std : Std) (role : Role) (cfg : Config)
    → validate std role cfg ≡ ok tt
    → IsGuarded std role cfg
unfolding validate
validate-IsGuarded std role_client cfg h =
    let (sized, (_, (_, (_, (_, (_, (last, _))))))) =
      in_order-All (client_checks std cfg.client) (unfold validate_client in h) in
    let safe = require-true _ _ last in
    (
      validate_transfer-IsSized cfg.client.transfer sized,
      elim (Bool-cases cfg.client.allow_unsafe_frontend) [
        | inl unsafe ↦ inl unsafe
        | inr safely ↦
            inr (is_loopback_listen_address-IsLocal std cfg.client.listen_addr (ground arith))
      ],
    )
validate-IsGuarded std role_server cfg h =
    let (sized, (_, (places, (users, (last, _))))) =
      in_order-All (server_checks std cfg.server) (unfold validate_server in h) in
    let safe = require-true _ _ last in
    (
      validate_transfer-IsSized cfg.server.transfer sized,
      elim (Bool-cases cfg.server.allow_unsafe_dynamic_destination) [
        | inl unsafe ↦ inl unsafe
        | inr safely ↦ inr (elim (Bool-cases (is_some cfg.server.peer_auth)) [
          | inl known ↦ inr (validate_server_peer_auth-HasUsers cfg.server.peer_auth users known)
          | inr unknown ↦
              inl (
                ground arith,
                validate_allowed_clients-IsPlace std cfg.server.allowed_clients places,
              )
        ])
      ],
    )

or_default-Between :
    (x : ℤ) (d hi : ℕ)
    → 0 < d
    → d ≤ hi
    → (is_unset x ≡ true) ⊎ Between 1 hi x
    → (is_positive (or_default x d) && at_most hi (or_default x d)) ≡ true
or_default-Between (pos n) d hi h k (inl e) = ground arith
or_default-Between (negsuc n) d hi h k (inl e) = absurd (ground arith)
or_default-Between x d hi h k (inr (n, e, lo, le)) = rw e (ground arith)

or_default-is_positive :
    (x : ℤ) (d : ℕ)
    → 0 < d
    → (is_unset x ≡ true) ⊎ (is_positive x ≡ true)
    → is_positive (or_default x d) ≡ true
or_default-is_positive (pos n) d h (inl e) = ground arith
or_default-is_positive (negsuc n) d h (inl e) = absurd (ground arith)
or_default-is_positive (pos n) d h (inr e) = ground arith
or_default-is_positive (negsuc n) d h (inr e) = absurd (ground arith)

require-ok : (b : Bool) (e : Error) → b ≡ true → require b e ≡ ok tt
require-ok true e h = refl
require-ok false e h = absurd (ground arith)

All-in_order : (rs : List (Result (Unit {0}))) → All (λ r. r ≡ ok tt) rs → in_order rs ≡ ok tt
All-in_order [] h = refl
All-in_order (ok u ∷ rs) (h, hs) = All-in_order rs hs
All-in_order (err e ∷ rs) (h, hs) = absurd (ground arith)

-- A size that is left out or in range, a timeout that is left out or positive.
abbrev pub IsSetting : ℕ → ℤ → Type 0
IsSetting hi x = (is_unset x ≡ true) ⊎ Between 1 hi x

abbrev pub IsTimed : ℤ → Type 0
IsTimed x = (is_unset x ≡ true) ⊎ (is_positive x ≡ true)

-- Settings that the defaults make acceptable.
pub record IsUsable (tcp : TcpTransfer) : Type 0 where
  pub chunk : IsSetting 65536 tcp.chunk_size
  pub queue : IsSetting max_tcp_session_buffer_bytes tcp.carrier_queue_bytes
  pub window : IsSetting max_tcp_session_buffer_bytes tcp.reorder_window_bytes
  pub dial : IsTimed tcp.dial_timeout_millis
  pub opening : IsTimed tcp.open_timeout_millis
  pub write : IsTimed tcp.write_timeout_millis
  pub streams : is_natural tcp.max_streams ≡ true
  pub carriers : is_natural tcp.max_carriers_per_stream ≡ true
  pub connections : is_natural tcp.max_pending_connections ≡ true
  pub pending : is_natural tcp.max_pending_streams ≡ true
  pub sessions : is_natural tcp.max_sessions ≡ true

-- TCP settings in which each size and timeout is left out or in range, and no limit is negative, pass
-- Validate once ApplyDefaults has filled them in.
pub validate_tcp-apply_tcp_defaults :
    (tcp : TcpTransfer) → IsUsable tcp → validate_tcp (apply_tcp_defaults tcp) ≡ ok tt
unfolding validate_tcp apply_tcp_defaults
validate_tcp-apply_tcp_defaults tcp u = All-in_order (tcp_checks (apply_tcp_defaults tcp)) (
  require-ok _ _
      (or_default-Between tcp.chunk_size (16 * 1024) 65536 (omega arith) (omega arith) u.chunk),
  (
    require-ok _ _ (
        or_default-Between tcp.carrier_queue_bytes (1024 * 1024) max_tcp_session_buffer_bytes
          (omega arith) (omega arith) u.queue),
    (
      require-ok _ _ (
          or_default-Between tcp.reorder_window_bytes (4 * 1024 * 1024) max_tcp_session_buffer_bytes
            (omega arith) (omega arith) u.window),
      (
        require-ok _ _ (or_default-is_positive tcp.dial_timeout_millis 5000 (omega arith) u.dial),
        (
          require-ok _ _
              (or_default-is_positive tcp.open_timeout_millis 5000 (omega arith) u.opening),
          (
            require-ok _ _
                (or_default-is_positive tcp.write_timeout_millis 10000 (omega arith) u.write),
            (
              require-ok _ _ u.streams,
              (
                require-ok _ _ u.carriers,
                (
                  require-ok _ _ u.connections,
                  (require-ok _ _ u.pending, (require-ok _ _ u.sessions, tt)),
                ),
              ),
            ),
          ),
        ),
      ),
    ),
  ),
)
