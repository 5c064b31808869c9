-- ===== src/Serverrole/Streams.antt =====
-- internal/serverrole/tcp.go: the streams of the server, under runtime.mu. A function that gives the lock
-- up in between is one operation for each time that it holds it. A stream is known by its number.
pub mod Laws
pub mod Opening
pub mod Keeping
pub mod Ending
pub mod Held
pub mod Meanwhile
pub mod Remembered
pub mod Reachable
use engarde.Shared.{
  ℕ, suc, ◌+◌, ◌≡◌, ◌≤◌, List, [], ◌∷◌, Bool, true, false, not, ◌&&◌, ◌||◌, Option, none, some, ltb,
  leb, ◌==◌, ◌!=◌, length, bytes_eq, if◌then◌else◌,
}
use engarde.Shared.Maps.{Key, bytes_key, entry, put_last, delete_entry}
use engarde.Serverrole.Closed.{ClosedStreams, remove_closed, remember_closed, prune_closed}

-- An error of dialTCPDestination, as what errors.Is and errors.As find in it.
pub record DialError : Type 0 where
  pub deadline_exceeded : Bool
  pub timeout : Bool
  pub not_found : Bool
  pub connection_refused : Bool
  pub network_unreachable : Bool
  pub host_unreachable : Bool

pub data StreamError : Type 0 where
  runtime_closed stream_is_closed destination_mismatch maximum_streams : StreamError
  dial_failed : DialError → StreamError

-- `ready` is closed with a flow or with an error.
pub data Phase : Type 0 where
  connecting flowing : Phase
  failed : StreamError → Phase

-- tcpServerStream.
pub record Stream : Type 0 where
  pub number : ℕ
  pub version : ℕ
  pub destination : List ℕ
  pub principal : List ℕ
  pub phase : Phase
  pub has_timer : Bool
  pub started : Bool

-- The settings that the runtime reads; zero stands for no limit.
pub record Limits : Type 0 where
  pub max_streams : ℕ
  pub max_sessions : ℕ
  pub max_pending_streams : ℕ
  pub max_pending_connections : ℕ
  pub max_carriers_per_stream : ℕ
  pub open_timeout : ℕ

-- tcpServerRuntime: `cancelled` is ctx.Err() != nil, `pending` what the channel of that name holds.
pub record Runtime : Type 0 where
  pub closing : Bool
  pub cancelled : Bool
  pub streams : List (List ℕ × Stream)
  pub closed : ClosedStreams
  pub sessions : List ℕ
  pub pending : ℕ
  pub pending_streams : ℕ
  pub next : ℕ

-- runTCP's runtime before the first connection.
abbrev pub new_runtime : Runtime
new_runtime = record {
  closing = false;
  cancelled = false;
  streams = [];
  closed = record { closed = []; order = [] };
  sessions = [];
  pending = 0;
  pending_streams = 0;
  next = 0;
}

unfoldable pub is_closing : Runtime → Bool
is_closing r = r.closing || r.cancelled

-- What getOrCreate has to do after its first part.
pub data Begun : Type 0 where
  refused : StreamError → Begun
  waits dials : Stream → Begun

pub is_same_request : Stream → ℕ → List ℕ → List ℕ → Bool
is_same_request stream version destination principal = not (
    stream.version != version
    || not (bytes_eq stream.destination destination)
    || not (bytes_eq stream.principal principal))

module _ (limits : Limits) where
  pub create_stream : List ℕ → ℕ → List ℕ → List ℕ → Runtime → Runtime × Begun
  create_stream id version destination principal r =
      let stream : Stream = record {
        number = r.next;
        version = version;
        destination = destination;
        principal = principal;
        phase = connecting;
        has_timer = false;
        started = false;
      } in
      if ltb 0 limits.max_streams && leb limits.max_streams (length r.streams)
      then (r, refused maximum_streams)
      else (record r { streams = put_last id stream r.streams; next = suc r.next }, dials stream)

  pub find_stream : List ℕ → ℕ → List ℕ → List ℕ → Runtime → Option Stream → Runtime × Begun
  unfolding is_same_request create_stream
  find_stream id version destination principal r none =
      create_stream id version destination principal r
  find_stream id version destination principal r (some stream) =
      if is_same_request stream version destination principal
      then (r, waits stream)
      else (r, refused destination_mismatch)

  pub pass_closed : List ℕ → ℕ → List ℕ → List ℕ → ℕ → Runtime → Option ℕ → Runtime × Begun
  unfolding find_stream remove_closed
  pass_closed id version destination principal now r none =
      find_stream id version destination principal r (entry r.streams id)
  pass_closed id version destination principal now r (some expires_at) =
      if ltb now expires_at
      then (r, refused stream_is_closed)
      else find_stream id version destination principal
          (record r { closed = remove_closed id r.closed }) (entry r.streams id)

  -- getOrCreate up to the dial.
  unfoldable pub begin_stream : List ℕ → ℕ → List ℕ → List ℕ → ℕ → Runtime → Runtime × Begun
  unfolding is_closing pass_closed
  begin_stream id version destination principal now r =
      if is_closing r
      then (r, refused runtime_closed)
      else pass_closed id version destination principal now r (entry r.closed.closed id)

-- The stream object with this number changes; the map is left.
abbrev pub update_stream : ℕ → (Stream → Stream) → List (List ℕ × Stream) → List (List ℕ × Stream)
update_stream number change [] = []
update_stream number change ((id, s) ∷ m) =
    (id, if s.number == number then change s else s) ∷ update_stream number change m

module _ (by_expiry : List (List ℕ × ℕ) → List (List ℕ × ℕ)) (limits : Limits) where
  -- `if !runtime.closing && runtime.ctx.Err() == nil { runtime.rememberClosedLocked(…) }`.
  pub remember_unless_closing : List ℕ → ℕ → Runtime → Runtime
  unfolding is_closing remember_closed
  remember_unless_closing id now r =
      if is_closing r
      then r
      else record r { closed = remember_closed by_expiry limits.max_streams id now r.closed }

  abbrev pub give_up : List ℕ → Runtime → Runtime
  give_up id r = record r { streams = delete_entry id r.streams }

  -- getOrCreate after the dial.
  unfoldable pub finish_dial : List ℕ → ℕ → ℕ → Option DialError → Runtime → Runtime
  unfolding remember_unless_closing
  finish_dial id number now (some e) r = remember_unless_closing id now (give_up id r)
  finish_dial id number now none r = if is_closing r then give_up id r else record r {
    streams =
        update_stream number
          (λ s. record s { phase = flowing; has_timer = ltb 0 limits.open_timeout }) r.streams;
  }

  pub is_stream : ℕ → Option Stream → Bool
  is_stream number none = false
  is_stream number (some s) = s.number == number

  -- The goroutine of getOrCreate once the flow is done.
  unfoldable pub finish_flow : List ℕ → ℕ → ℕ → Runtime → Runtime
  unfolding is_stream remember_unless_closing
  finish_flow id number now r =
      remember_unless_closing id now
        (if is_stream number (entry r.streams id) then give_up id r else r)

  -- pruneState, the closed streams.
  pub prune_state : ℕ → Runtime → Runtime
  unfolding prune_closed
  prune_state now r = record r { closed = prune_closed by_expiry now r.closed }

-- The two parts of shutdown: before the goroutines are awaited and after.
pub begin_shutdown : Runtime → Runtime
begin_shutdown r = record r { closing = true; cancelled = true }

pub finish_shutdown : Runtime → Runtime
finish_shutdown r = record r {
  streams = [];
  closed = record { closed = []; order = [] };
  sessions = [];
  pending_streams = 0;
}

-- acceptStream once a carrier is attached, and expireUnstartedStream: whether it resets the flow.
pub mark_started : Stream → Stream
mark_started s = record s { started = true; has_timer = false }

pub expire_unstarted : Bool → Stream → Stream × Bool
expire_unstarted flow_done s = (
  record s { has_timer = false },
  not s.started && elim s.phase [ connecting ↦ false | failed e ↦ false | flowing ↦ not flow_done ],
)
