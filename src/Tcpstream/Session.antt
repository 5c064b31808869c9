-- ===== src/Tcpstream/Session.antt =====
-- internal/tcpstream/session.go: the handshake of the two ends of a physical connection, and the opening
-- of a stream in it. smux is the parameter `mux`; a mux stream is a connection of its own.
pub mod Handshake
pub mod Opening
pub mod Buffers
pub mod Tests
use engarde.Shared.{
  ℕ, ◌*◌, List, [], ◌∷◌, Bool, true, false, not, ◌&&◌, ◌||◌, Option, none, some, ◌==◌, ◌!=◌,
  if◌then◌else◌, length, get_or, bytes_eq, replicate,
}
use engarde.Shared.Int.{ℤ, pos, is_positive, less}
use Prim.Native.Nat.{bit_and}
use engarde.Wire.{
  Error, Result, ok, err, Conn, Outcome, done, fail, Io, ◌>>=◌, ◌>>◌, return, throw, guard, lift,
  write_full, set_deadline, invalid_preface, invalid_frame, peer_authentication_required,
  peer_authentication_downgrade, invalid_mux_config, mux_failed, open_rejected,
}
use engarde.Tcpstream.Destination.{Netip, Destination, encode}
use engarde.Tcpstream.Frame.{
  Frame, frame_open, frame_open_result, client_to_server, write_frame, read_frame,
}
use engarde.Tcpstream.Frame.Preface.{Preface, marshal_preface, write_preface, read_preface}
use engarde.Tcpstream.Auth.{PeerCredentials, authenticate_peer_client, authenticate_peer_server}

abbrev pub smux_protocol_version : ℕ
smux_protocol_version = 2

abbrev pub preface_flag_auth_required : ℕ
preface_flag_auth_required = 1

abbrev pub open_result_success : ℕ
open_result_success = 0

pub record SessionConfig : Type 0 where
  pub keepalive_interval : ℤ
  pub keepalive_timeout : ℤ
  pub receive_buffer : ℤ
  pub stream_buffer : ℤ

-- smux.Config, the fields that are set.
pub record MuxConfig : Type 0 where
  pub version : ℕ
  pub keepalive_interval : ℤ
  pub keepalive_timeout : ℤ
  pub max_frame_size : ℕ
  pub max_receive_buffer : ℤ
  pub max_stream_buffer : ℤ

-- smux.DefaultConfig's intervals, and whether smux.Client and smux.Server take a configuration.
pub record Mux : Type 0 where
  pub default_interval : ℤ
  pub default_timeout : ℤ
  pub accepts : MuxConfig → Bool

-- The session, as far as the code keeps it: what its frames may carry, and the multiplexer's settings.
pub record Session : Type 0 where
  pub max_payload : ℕ
  pub config : MuxConfig

-- `if x <= 0 { x = d }`.
abbrev pub or_positive : ℤ → ℤ → ℤ
or_positive x d = if is_positive x then x else d

unfoldable pub smux_session_config : Mux → SessionConfig → MuxConfig
smux_session_config mux config =
    let receive = or_positive config.receive_buffer (pos (4 * 1024 * 1024)) in
    let stream = or_positive config.stream_buffer (pos (1024 * 1024)) in
    record {
      version = smux_protocol_version;
      keepalive_interval = or_positive config.keepalive_interval mux.default_interval;
      keepalive_timeout = or_positive config.keepalive_timeout mux.default_timeout;
      max_frame_size = 32 * 1024;
      max_receive_buffer = if less receive stream then stream else receive;
      max_stream_buffer = stream;
    }

pub open_mux : Mux → SessionConfig → ℕ → Io Session
unfolding smux_session_config
open_mux mux config max_payload =
    let settings = smux_session_config mux config in
    if mux.accepts settings
    then return (record { max_payload = max_payload; config = settings })
    else throw invalid_mux_config

abbrev pub set_timeout : Bool → Io (Unit {0})
set_timeout true = set_deadline
set_timeout false = return tt

unfoldable pub requires_auth : Preface → Bool
requires_auth p = bit_and p.flags preface_flag_auth_required != 0

module _ (hmac : List ℕ → List ℕ → List ℕ) (mux : Mux) where
  module _ (random : Option (List ℕ)) (credentials : Option PeerCredentials) where
    pub demanded : Preface → Preface → Option PeerCredentials → Io (Unit {0})
    demanded client server none = throw peer_authentication_required
    demanded client server (some cr) = authenticate_peer_client hmac random client server cr

    pub undemanded : Option PeerCredentials → Io (Unit {0})
    undemanded none = return tt
    undemanded (some cr) = throw peer_authentication_downgrade

    pub prove_peer : Preface → Preface → Io (Unit {0})
    unfolding requires_auth demanded undemanded
    prove_peer client server =
        if requires_auth server then demanded client server credentials else undemanded credentials

    pub enter_session : SessionConfig → Preface → Preface → Io Session
    unfolding prove_peer open_mux
    enter_session config client server = do
      prove_peer client server
      set_deadline
      open_mux mux config server.max_payload

    pub greet : SessionConfig → Result (List ℕ × Preface) → Io Session
    unfolding enter_session
    greet config (err e) = throw e
    greet config (ok (bytes, client)) = do
      write_full bytes
      server ← read_preface
      enter_session config client server

    -- DialSessionWithAuth; `timed` says that the timeout is positive.
    unfoldable pub dial_session_with_auth : Bool → ℕ → SessionConfig → Io Session
    unfolding greet
    dial_session_with_auth timed max_payload config = do
      set_timeout timed
      greet config (marshal_preface (record { version = 0; flags = 0; max_payload = max_payload }))

  -- DialSession.
  unfoldable pub dial_session : Bool → ℕ → SessionConfig → Io Session
  unfolding dial_session_with_auth
  dial_session timed max_payload config = dial_session_with_auth none none timed max_payload config

  module _ (sha256 : List ℕ → List ℕ) (random fallback : Option (List ℕ))
      (users : Option (List (List ℕ × List ℕ))) where
    -- The principal: the empty string without users.
    pub identify : Preface → Preface → Option (List (List ℕ × List ℕ)) → Io (List ℕ)
    identify client server none = return []
    identify client server (some entries) =
        authenticate_peer_server hmac sha256 random fallback client server entries

    pub offered_flags : Option (List (List ℕ × List ℕ)) → ℕ
    offered_flags none = 0
    offered_flags (some entries) = preface_flag_auth_required

    pub admit : SessionConfig → Preface → List ℕ → Io (Session × List ℕ)
    unfolding open_mux
    admit config client principal = do
      set_deadline
      session ← open_mux mux config client.max_payload
      return (session, principal)

    pub welcome : ℕ → SessionConfig → Preface → Io (Session × List ℕ)
    unfolding identify offered_flags admit
    welcome max_payload config client = do
      guard (client.flags != 0) invalid_preface
      write_preface (record { version = 0; flags = offered_flags users; max_payload = max_payload })
      principal ←
          identify client
            (record { version = 0; flags = offered_flags users; max_payload = max_payload }) users
      admit config client principal

    unfoldable pub accept_session : Bool → ℕ → SessionConfig → Io (Session × List ℕ)
    unfolding welcome
    accept_session timed max_payload config = do
      set_timeout timed
      client ← read_preface
      welcome max_payload config client

-- What OpenDestination leaves open when it returns.
pub data Leaves : Type 0 where
  all_open stream_closed all_closed : Leaves

-- What the server answers: a stream with a payload limit, or an OpenError, for which the session is kept.
pub data Answer : Type 0 where
  accepted rejected : ℕ → Answer

-- The deferred function of OpenDestination, and its results.
unfoldable pub conclude : Outcome Answer → Result (ℕ × Conn) × Leaves
conclude (done (accepted n) c) = (ok (n, c), all_open)
conclude (done (rejected r) c) = (err (open_rejected r), stream_closed)
conclude (fail e c) = (err e, all_closed)

module _ (net : Netip) (session : Session) (stream_id : List ℕ) where
  pub open_frame : List ℕ → Frame
  open_frame payload = record {
    type_code = frame_open;
    direction = client_to_server;
    stream_id = stream_id;
    offset = 0;
    payload = payload;
  }

  pub accept_result : Frame → Io Answer
  accept_result f =
      if f.type_code != frame_open_result || not (bytes_eq f.stream_id stream_id)
      then throw invalid_frame
      else if get_or f.payload 0 0 != open_result_success
      then return (rejected (get_or f.payload 0 0))
      else set_deadline >> return (accepted session.max_payload)

  -- The exchange in the mux stream.
  pub request_stream : Bool → List ℕ → Io Answer
  unfolding open_frame accept_result
  request_stream timed payload = do
    set_timeout timed
    write_frame net (open_frame payload)
    f ← read_frame net session.max_payload
    accept_result f

  -- OpenDestination behind the encoding. `opened` is the stream that openStream gives, `none` for its error,
  -- after which the session is closed; a destination without an encoding leaves the session as it is.
  pub open_encoded : Bool → Option Conn → Result (List ℕ) → Result (ℕ × Conn) × Leaves
  unfolding request_stream conclude
  open_encoded timed opened (err e) = (err e, all_open)
  open_encoded timed none (ok payload) = (err mux_failed, all_closed)
  open_encoded timed (some c) (ok payload) = conclude (request_stream timed payload c)

  unfoldable pub open_destination : Bool → Destination → Option Conn → Result (ℕ × Conn) × Leaves
  unfolding open_encoded
  open_destination timed destination opened = open_encoded timed opened (encode net destination)
