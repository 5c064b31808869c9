-- ===== src/Serverrole/Streams/Held.antt =====
-- internal/serverrole/tcp.go: operations that leave a closed id where it is.
use engarde.Shared.{
  ℕ, ◌≡◌, ◌<◌, refl, sym, List, Bool, false, ◌&&◌, Option, none, some, ltb, leb, ◌==◌, length,
  arith, if-cases,
}
use mathlib.Core.Path.{subst}
use engarde.Shared.Maps.{bytes_key, entry}
use engarde.Serverrole.Closed.{ClosedStreams, remove_closed}
use engarde.Serverrole.Closed.Kept.{IsKept, delete_entry-IsKept}
use engarde.Serverrole.Closed.Expiring.{expired-apart}
use engarde.Serverrole.Streams.{
  Stream, Limits, Runtime, Begun, is_closing, begin_stream, pass_closed, find_stream, create_stream,
  is_same_request,
}
use engarde.Serverrole.Admission.{
  try_acquire_pending, release_pending, register_session, start_session_stream, Started,
}

module _ (limits : Limits) where
  module _ (id : List ℕ) (v : ℕ) where
    -- The server runs, and `id` is closed until `v` with at most `k` ids behind it.
    pub record IsHeld (k : ℕ) (r : Runtime) : Type 0 where
      pub running : is_closing r ≡ false
      pub kept : IsKept id v k r.closed.closed

    pub held :
        (k : ℕ) (r q : Runtime)
        → IsHeld k r
        → q.closing ≡ r.closing
        → q.cancelled ≡ r.cancelled
        → q.closed ≡ r.closed
        → IsHeld k q
    unfolding is_closing
    held k r q h a b c = record {
      running = ground (arith, h.running, a, b);
      kept = subst (λ (t : ClosedStreams). IsKept id v k t.closed) (sym c) h.kept;
    }

    module _ (j : List ℕ) (version : ℕ) (destination principal : List ℕ) (k : ℕ) where
      find_stream-IsHeld :
          (q : Runtime) (o : Option Stream)
          → IsHeld k q
          → IsHeld k (find_stream limits j version destination principal q o).0
      unfolding find_stream create_stream
      find_stream-IsHeld q none h =
          if-cases (λ (t : Runtime × Begun). IsHeld k t.0)
            (ltb 0 limits.max_streams && leb limits.max_streams (length q.streams)) (λ full. h)
            (λ room. held k q _ h refl refl refl)
      find_stream-IsHeld q (some stream) h =
          if-cases (λ (t : Runtime × Begun). IsHeld k t.0)
            (is_same_request stream version destination principal) (λ same. h) (λ another. h)

      pass_closed-IsHeld :
          (now : ℕ) (r : Runtime) (o : Option ℕ)
          → now < v
          → IsHeld k r
          → entry r.closed.closed j ≡ o
          → IsHeld k (pass_closed limits j version destination principal now r o).0
      unfolding pass_closed remove_closed is_closing
      pass_closed-IsHeld now r none fresh h e = find_stream-IsHeld r (entry r.streams j) h
      pass_closed-IsHeld now r (some w) fresh h e =
          if-cases (λ (t : Runtime × Begun). IsHeld k t.0) (ltb now w) (λ recent. h)
            (λ old.
              let apart = expired-apart id j v w now r.closed.closed h.kept.0 fresh e old in
              find_stream-IsHeld (record r { closed = remove_closed j r.closed })
                (entry r.streams j)
                (record {
                  running = h.running;
                  kept = delete_entry-IsKept id j apart v k r.closed.closed h.kept;
                }))

      pub begin_stream-IsHeld :
          (now : ℕ) (r : Runtime)
          → now < v
          → IsHeld k r
          → IsHeld k (begin_stream limits j version destination principal now r).0
      unfolding begin_stream
      begin_stream-IsHeld now r fresh h =
          if-cases (λ (t : Runtime × Begun). IsHeld k t.0) (is_closing r) (λ closing. h)
            (λ open_yet. pass_closed-IsHeld now r (entry r.closed.closed j) fresh h refl)

    pub register_session-IsHeld :
        (k number : ℕ) (r : Runtime) → IsHeld k r → IsHeld k (register_session limits number r).0
    unfolding register_session
    register_session-IsHeld k number r h =
        if-cases (λ (t : Runtime × Bool). IsHeld k t.0) (is_closing r) (λ closing. h)
          (λ running.
            if-cases (λ (t : Runtime × Bool). IsHeld k t.0)
              (ltb 0 limits.max_sessions && leb limits.max_sessions (length r.sessions)) (λ full. h)
              (λ room. held k r _ h refl refl refl))

    pub start_session_stream-IsHeld :
        (k : ℕ) (r : Runtime) → IsHeld k r → IsHeld k (start_session_stream limits r).0
    unfolding start_session_stream
    start_session_stream-IsHeld k r h =
        if-cases (λ (t : Runtime × Started limits). IsHeld k t.0) (is_closing r) (λ closing. h)
          (λ running.
            if-cases (λ (t : Runtime × Started limits). IsHeld k t.0)
              (ltb 0 limits.max_pending_streams && leb limits.max_pending_streams r.pending_streams)
              (λ full. h) (λ room. held k r _ h refl refl refl))

    pub try_acquire_pending-IsHeld :
        (k : ℕ) (r : Runtime) → IsHeld k r → IsHeld k (try_acquire_pending limits r).0
    unfolding try_acquire_pending
    try_acquire_pending-IsHeld k r h =
        if-cases (λ (t : Runtime × Bool). IsHeld k t.0) (limits.max_pending_connections == 0)
          (λ unlimited. h)
          (λ limited.
            if-cases (λ (t : Runtime × Bool). IsHeld k t.0)
              (ltb r.pending limits.max_pending_connections) (λ room. held k r _ h refl refl refl)
              (λ full. h))

    pub release_pending-IsHeld :
        (k : ℕ) (r : Runtime) → IsHeld k r → IsHeld k (release_pending limits r)
    unfolding release_pending
    release_pending-IsHeld k r h =
        if-cases (IsHeld k) (limits.max_pending_connections == 0) (λ unlimited. h)
          (λ limited. held k r _ h refl refl refl)
