-- ===== src/Serverrole/Admission/Counts.antt =====
-- internal/serverrole/tcp.go: each count stays within its limit.
use engarde.Shared.{
  ℕ, suc, ◌-◌, ◌≤◌, List, [], ◌∷◌, Bool, ◌&&◌, ◌==◌, ltb, leb, length, Bool-cases, if-cases, inl,
  inr, arith,
}
use engarde.Shared.Maps.{bytes_key, number_key, remove_key}
use engarde.Serverrole.Streams.{Limits, Runtime, is_closing}
use engarde.Serverrole.Admission.{
  try_acquire_pending, release_pending, register_session, start_session_stream, Started,
}
use engarde.Serverrole.Streams.Keeping.{AreCounted, IsServing}

pub length-remove_key : (n : ℕ) (s : List ℕ) → length (remove_key n s) ≤ length s
length-remove_key n [] = omega arith
length-remove_key n (a ∷ s) = elim (Bool-cases (number_key.same a n)) [
  | inl e ↦ rw e (omega (arith, length-remove_key n s))
  | inr e ↦ rw e (omega (arith, length-remove_key n s))
]

module _ (limits : Limits) (now : ℕ) where
  -- The operations that only count.
  pub counted-IsServing :
      (r : Runtime) (sessions : List ℕ) (pending pending_streams : ℕ)
      → AreCounted limits pending sessions pending_streams
      → IsServing limits now r
      → IsServing limits now
          (record r { sessions = sessions; pending = pending; pending_streams = pending_streams })
  counted-IsServing r sessions pending pending_streams counted v = record {
    served = v.served;
    counted = counted;
  }

  pub try_acquire_pending-IsServing :
      (r : Runtime) → IsServing limits now r → IsServing limits now (try_acquire_pending limits r).0
  unfolding try_acquire_pending
  try_acquire_pending-IsServing r v =
      let P : Runtime × Bool → Type 0 = λ t. IsServing limits now t.0 in
      if-cases P (limits.max_pending_connections == 0) (λ unlimited. v)
        (λ limited.
          if-cases P (ltb r.pending limits.max_pending_connections)
            (λ room.
              counted-IsServing r r.sessions (suc r.pending) r.pending_streams
                (record {
                  pending_bound = ground arith;
                  sessions_bound = v.counted.sessions_bound;
                  streams_bound = v.counted.streams_bound;
                })
                v)
            (λ full. v))

  pub release_pending-IsServing :
      (r : Runtime) → IsServing limits now r → IsServing limits now (release_pending limits r)
  unfolding release_pending
  release_pending-IsServing r v =
      if-cases (IsServing limits now) (limits.max_pending_connections == 0) (λ unlimited. v)
        (λ limited.
          counted-IsServing r r.sessions (r.pending - 1) r.pending_streams
            (record {
              pending_bound = omega (arith, v.counted.pending_bound);
              sessions_bound = v.counted.sessions_bound;
              streams_bound = v.counted.streams_bound;
            })
            v)

  pub register_session-IsServing :
      (number : ℕ) (r : Runtime)
      → IsServing limits now r
      → IsServing limits now (register_session limits number r).0
  unfolding register_session
  register_session-IsServing number r v =
      let P : Runtime × Bool → Type 0 = λ t. IsServing limits now t.0 in
      if-cases P (is_closing r) (λ closing. v)
        (λ running.
          if-cases P (ltb 0 limits.max_sessions && leb limits.max_sessions (length r.sessions))
            (λ full. v)
            (λ room.
              counted-IsServing r (number ∷ r.sessions) r.pending r.pending_streams
                (record {
                  pending_bound = v.counted.pending_bound;
                  sessions_bound = λ some_limit. ground arith;
                  streams_bound = v.counted.streams_bound;
                })
                v))

  pub start_session_stream-IsServing :
      (r : Runtime)
      → IsServing limits now r
      → IsServing limits now (start_session_stream limits r).0
  unfolding start_session_stream
  start_session_stream-IsServing r v =
      let P : Runtime × Started limits → Type 0 = λ t. IsServing limits now t.0 in
      if-cases P (is_closing r) (λ closing. v)
        (λ running.
          if-cases P
            (ltb 0 limits.max_pending_streams && leb limits.max_pending_streams r.pending_streams)
            (λ full. v)
            (λ room.
              counted-IsServing r r.sessions r.pending (suc r.pending_streams)
                (record {
                  pending_bound = v.counted.pending_bound;
                  sessions_bound = v.counted.sessions_bound;
                  streams_bound = λ some_limit. ground arith;
                })
                v))
