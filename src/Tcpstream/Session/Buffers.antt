-- ===== src/Tcpstream/Session/Buffers.antt =====
-- internal/tcpstream/session.go: the configuration that smux gets.
use engarde.Shared.{◌≡◌, ◌*◌, refl, true, false, Bool-cases, inl, inr, arith, if◌then◌else◌}
use engarde.Shared.Int.{ℤ, pos, negsuc, is_positive, less}
use engarde.Tcpstream.Session.{Mux, SessionConfig, MuxConfig, smux_session_config, or_positive}

-- What smux asks of a configuration in either role.
pub record IsUsable (m : MuxConfig) : Type 0 where
  interval_positive : is_positive m.keepalive_interval ≡ true
  timeout_positive : is_positive m.keepalive_timeout ≡ true
  receive_positive : is_positive m.max_receive_buffer ≡ true
  stream_positive : is_positive m.max_stream_buffer ≡ true
  stream_fits : less m.max_receive_buffer m.max_stream_buffer ≡ false

or_positive-IsPositive : (x d : ℤ) → is_positive d ≡ true → is_positive (or_positive x d) ≡ true
or_positive-IsPositive x d h = elim (Bool-cases (is_positive x)) [
  | inl kept ↦ ground arith
  | inr unset ↦ ground arith
]

less_irrefl : (x : ℤ) → less x x ≡ false
less_irrefl (pos n) = ground arith
less_irrefl (negsuc n) = ground arith

larger_fits : (x y : ℤ) → less (if less x y then y else x) y ≡ false
larger_fits x y = elim (Bool-cases (less x y)) [
  | inl below ↦ ground (arith, less_irrefl y)
  | inr fits ↦ ground arith
]

larger-IsPositive :
    (x y : ℤ)
    → is_positive x ≡ true
    → is_positive y ≡ true
    → is_positive (if less x y then y else x) ≡ true
larger-IsPositive x y p q = elim (Bool-cases (less x y)) [
  | inl below ↦ ground arith
  | inr fits ↦ ground arith
]

-- Whatever the settings are, also zero or negative, smux gets positive keepalive times and buffers, and a
-- receive buffer that holds a stream's, provided that smux's own default times are positive.
pub smux_session_config-IsUsable :
    (mux : Mux) (config : SessionConfig)
    → is_positive mux.default_interval ≡ true
    → is_positive mux.default_timeout ≡ true
    → IsUsable (smux_session_config mux config)
unfolding smux_session_config
smux_session_config-IsUsable mux config p q =
    let receive = or_positive config.receive_buffer (pos (4 * 1024 * 1024)) in
    let stream = or_positive config.stream_buffer (pos (1024 * 1024)) in
    let some_receive = or_positive-IsPositive config.receive_buffer (pos (4 * 1024 * 1024)) refl in
    let some_stream = or_positive-IsPositive config.stream_buffer (pos (1024 * 1024)) refl in
    record {
      interval_positive = or_positive-IsPositive config.keepalive_interval mux.default_interval p;
      timeout_positive = or_positive-IsPositive config.keepalive_timeout mux.default_timeout q;
      receive_positive = larger-IsPositive receive stream some_receive some_stream;
      stream_positive = some_stream;
      stream_fits = larger_fits receive stream;
    }
