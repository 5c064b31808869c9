-- ===== src/Serverrole/Admission.antt =====
-- internal/serverrole: who is let in. tcp.go's counts of handshakes, sessions and streams that open, server.go's
-- list of clients, and the answers to an OPEN frame.
pub mod Counts
pub mod Clients
pub mod Answers
use engarde.Shared.{
  ℕ, suc, ◌+◌, ◌-◌, ◌≡◌, List, [], ◌∷◌, Bool, true, false, not, ◌&&◌, ◌||◌, Option, none, some, ltb,
  leb, ◌==◌, length, if◌then◌else◌,
}
use engarde.Shared.Maps.{number_key, remove_key, has_key}
use engarde.Serverrole.Streams.{Runtime, Limits, is_closing}

module _ (limits : Limits) where
  -- Whether the connection may begin its handshake. A runtime without a limit has no channel.
  unfoldable pub try_acquire_pending : Runtime → Runtime × Bool
  try_acquire_pending r =
      if limits.max_pending_connections == 0
      then (r, true)
      else if ltb r.pending limits.max_pending_connections
      then (record r { pending = suc r.pending }, true)
      else (r, false)

  unfoldable pub release_pending : Runtime → Runtime
  release_pending r =
      if limits.max_pending_connections == 0 then r else record r { pending = r.pending - 1 }

  -- acceptWithHandshakeDone after the handshake: whether the session, `number`, is served.
  unfoldable pub register_session : ℕ → Runtime → Runtime × Bool
  unfolding is_closing
  register_session number r =
      if is_closing r
      then (r, false)
      else if ltb 0 limits.max_sessions && leb limits.max_sessions (length r.sessions)
      then (r, false)
      else (record r { sessions = number ∷ r.sessions }, true)

  unfoldable pub delete_session : ℕ → Runtime → Runtime
  delete_session number r = record r { sessions = remove_key number r.sessions }

  -- What becomes of a new stream of a session.
  pub data Started : Type 0 where
    session_ends stream_dropped stream_serves : Started

  unfoldable pub start_session_stream : Runtime → Runtime × Started
  unfolding is_closing
  start_session_stream r =
      if is_closing r
      then (r, session_ends)
      else if ltb 0 limits.max_pending_streams && leb limits.max_pending_streams r.pending_streams
      then (r, stream_dropped)
      else (record r { pending_streams = suc r.pending_streams }, stream_serves)

  unfoldable pub end_session_stream : Runtime → Runtime
  end_session_stream r = record r { pending_streams = r.pending_streams - 1 }
