-- ===== src/Serverrole/Streams/Reachable.antt =====
-- internal/serverrole/tcp.go: what holds of the runtime in every order of its operations.
use engarde.Shared.{ℕ, ◌-◌, ◌≡◌, ◌≤◌, List, Bool, true, Option, some, arith}
use engarde.Shared.Maps.{bytes_key, number_key, entry, remove_key}
use engarde.Serverrole.Streams.{
  new_runtime, Stream, connecting, flowing, Limits, Runtime, begin_stream, update_stream,
  finish_dial, finish_flow, prune_state, begin_shutdown, finish_shutdown, mark_started,
  expire_unstarted, DialError,
}
use engarde.Serverrole.Streams.Laws.{empty-AreServed, AreServed-later, prune_closed-AreServed}
use engarde.Serverrole.Admission.{
  try_acquire_pending, release_pending, register_session, delete_session, start_session_stream,
  end_session_stream,
}
use engarde.Serverrole.Streams.Keeping.{IsServing, begin_stream-IsServing}
use engarde.Serverrole.Streams.Ending.{
  update_stream-IsServing, finish_dial-IsServing, finish_flow-IsServing,
}
use engarde.Serverrole.Admission.Counts.{
  length-remove_key, counted-IsServing, try_acquire_pending-IsServing, release_pending-IsServing,
  register_session-IsServing, start_session_stream-IsServing,
}

module _ (by_expiry : List (List ℕ × ℕ) → List (List ℕ × ℕ)) (limits : Limits) where
  -- One operation at the time `now`. A dial ends for a stream that is connecting, and the goroutine of
  -- a flow ends for a stream that has one.
  pub data Step (now : ℕ) (r : Runtime) : Runtime → Type 0 where
    opens :
        (id : List ℕ) (version : ℕ) (destination principal : List ℕ)
        → Step now r (begin_stream limits id version destination principal now r).0
    dial_ends :
        (id : List ℕ) (s : Stream) (result : Option DialError)
        → entry r.streams id ≡ some s
        → s.phase ≡ connecting
        → Step now r (finish_dial by_expiry limits id s.number now result r)
    flow_ends :
        (id : List ℕ) (s : Stream)
        → entry r.streams id ≡ some s
        → s.phase ≡ flowing
        → Step now r (finish_flow by_expiry limits id s.number now r)
    carrier_attached :
        (number : ℕ)
        → Step now r (record r { streams = update_stream number mark_started r.streams })
    timer_fires :
        (number : ℕ) (done : Bool)
        → Step now r (record r {
          streams = update_stream number (λ s. (expire_unstarted done s).0) r.streams;
        })
    prunes : Step now r (prune_state by_expiry limits now r)
    connects : Step now r (try_acquire_pending limits r).0
    handshake_ends : Step now r (release_pending limits r)
    session_starts : (number : ℕ) → Step now r (register_session limits number r).0
    session_ends : (number : ℕ) → Step now r (delete_session limits number r)
    stream_starts : Step now r (start_session_stream limits r).0
    stream_ends : Step now r (end_session_stream limits r)
    cancels : Step now r (record r { cancelled = true })
    shutdown_begins : Step now r (begin_shutdown r)
    shutdown_ends : Step now r (finish_shutdown r)

  -- The operations one after another, with the clock going on.
  pub data Run : ℕ → Runtime → Type 0 where
    begins : Run 0 new_runtime
    later :
        {clock : ℕ} {r r' : Runtime} (now : ℕ)
        → Run clock r
        → clock ≤ now
        → Step now r r'
        → Run now r'

module _ (by_expiry : List (List ℕ × ℕ) → List (List ℕ × ℕ)) (limits : Limits) (now : ℕ) where
  pub Step-IsServing :
      {r r' : Runtime}
      → Step by_expiry limits now r r'
      → IsServing limits now r
      → IsServing limits now r'
  unfolding prune_state delete_session end_session_stream begin_shutdown finish_shutdown
  Step-IsServing {r} (opens id version destination principal) v =
      begin_stream-IsServing limits now id version destination principal r v
  Step-IsServing {r} (dial_ends id s result found phase) v =
      finish_dial-IsServing by_expiry limits now id s.number result r v
  Step-IsServing {r} (flow_ends id s found phase) v =
      finish_flow-IsServing by_expiry limits now id s r found v
  Step-IsServing {r} (carrier_attached number) v =
      update_stream-IsServing by_expiry limits now number mark_started r v
  Step-IsServing {r} (timer_fires number gone) v =
      update_stream-IsServing by_expiry limits now number (λ s. (expire_unstarted gone s).0) r v
  Step-IsServing {r} prunes v = record {
    served = prune_closed-AreServed limits now r.streams r.closed v.served by_expiry;
    counted = v.counted;
  }
  Step-IsServing {r} connects v = try_acquire_pending-IsServing limits now r v
  Step-IsServing {r} handshake_ends v = release_pending-IsServing limits now r v
  Step-IsServing {r} (session_starts number) v = register_session-IsServing limits now number r v
  Step-IsServing {r} (session_ends number) v =
      counted-IsServing limits now r (remove_key number r.sessions) r.pending r.pending_streams
        (record {
          pending_bound = v.counted.pending_bound;
          sessions_bound = λ some_limit.
              omega
                (arith, length-remove_key number r.sessions, v.counted.sessions_bound some_limit);
          streams_bound = v.counted.streams_bound;
        })
        v
  Step-IsServing {r} stream_starts v = start_session_stream-IsServing limits now r v
  Step-IsServing {r} stream_ends v =
      counted-IsServing limits now r r.sessions r.pending (r.pending_streams - 1)
        (record {
          pending_bound = v.counted.pending_bound;
          sessions_bound = v.counted.sessions_bound;
          streams_bound = λ some_limit. omega (arith, v.counted.streams_bound some_limit);
        })
        v
  Step-IsServing {r} cancels v = record { served = v.served; counted = v.counted }
  Step-IsServing {r} shutdown_begins v = record { served = v.served; counted = v.counted }
  Step-IsServing {r} shutdown_ends v = record {
    served = empty-AreServed limits now;
    counted = record {
      pending_bound = v.counted.pending_bound;
      sessions_bound = λ some_limit. omega arith;
      streams_bound = λ some_limit. omega arith;
    };
  }

-- Whatever the order of the server's operations and the times at which they happen: the streams, the
-- sessions, the handshakes and the streams being opened stay within their limits; an id with a
-- stream is not among the closed ones; and the closed ids keep their order and their bound.
pub Run-IsServing :
    (by_expiry : List (List ℕ × ℕ) → List (List ℕ × ℕ)) (limits : Limits) {clock : ℕ} {r : Runtime}
    → Run by_expiry limits clock r
    → IsServing limits clock r
Run-IsServing by_expiry limits begins = record {
  served = empty-AreServed limits 0;
  counted = record {
    pending_bound = omega arith;
    sessions_bound = λ some_limit. omega arith;
    streams_bound = λ some_limit. omega arith;
  };
}
Run-IsServing by_expiry limits (later {clock} {r} now run le step) =
    let v = Run-IsServing by_expiry limits run in
    Step-IsServing by_expiry limits now step
      (record { served = AreServed-later limits now le v.served; counted = v.counted })
