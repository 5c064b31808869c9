-- ===== src/Serverrole/Streams/Keeping.antt =====
-- internal/serverrole/tcp.go: the beginning of a stream keeps what holds of the runtime.
use engarde.Shared.{
  ℕ, ◌≡◌, ◌≤◌, ◌<◌, refl, sym, ap, ◌∙◌, List, false, ◌&&◌, Option, none, some, ltb, leb, length,
  Bool-cases, if-cases, inl, inr, arith,
}
use engarde.Shared.Maps.{bytes_key, number_key, entry}
use engarde.Shared.Maps.Laws.{entry-delete_entry, entry-put_last_other}
use engarde.Serverrole.Closed.{remove_closed}
use engarde.Serverrole.Streams.{
  Stream, connecting, Limits, Runtime, Begun, is_closing, is_same_request, create_stream,
  find_stream, pass_closed, begin_stream,
}
use engarde.Serverrole.Streams.Opening.{length-put_last}
use engarde.Serverrole.Streams.Laws.{AreServed, remove_closed-AreServed}

-- The counts, each within its limit.
pub record AreCounted (limits : Limits) (pending : ℕ) (sessions : List ℕ) (pending_streams : ℕ)
    : Type 0 where
  pub pending_bound : pending ≤ limits.max_pending_connections
  pub sessions_bound : (0 < limits.max_sessions) → length sessions ≤ limits.max_sessions
  pub streams_bound :
      (0 < limits.max_pending_streams) → pending_streams ≤ limits.max_pending_streams

-- What holds of the runtime at the time `clock`.
pub record IsServing (limits : Limits) (clock : ℕ) (r : Runtime) : Type 0 where
  pub served : AreServed limits clock r.streams r.closed
  pub counted : AreCounted limits r.pending r.sessions r.pending_streams

module _ (limits : Limits) (now : ℕ) where
  module _ (id : List ℕ) (version : ℕ) (destination principal : List ℕ) where
    create_stream-IsServing :
        (r : Runtime)
        → IsServing limits now r
        → entry r.streams id ≡ none
        → entry r.closed.closed id ≡ none
        → IsServing limits now (create_stream limits id version destination principal r).0
    unfolding create_stream
    create_stream-IsServing r v absent passed =
        let full = ltb 0 limits.max_streams && leb limits.max_streams (length r.streams) in
        let stream : Stream = record {
          number = r.next;
          version = version;
          destination = destination;
          principal = principal;
          phase = connecting;
          has_timer = false;
          started = false;
        } in
        if-cases (λ (t : Runtime × Begun). IsServing limits now t.0) full (λ no_room. v)
          (λ room. (record {
            served = record {
              tracked = v.served.tracked;
              bound = v.served.bound;
              until = v.served.until;
              apart = λ j. elim (Bool-cases (bytes_key.same id j)) [
                | inl e ↦
                    let at : id ≡ j = (bytes_key.same_iff id j).0 e in
                    inr (ap (entry r.closed.closed) (sym at) ∙ passed)
                | inr other ↦ elim (v.served.apart j) [
                  | inl e ↦ inl (entry-put_last_other id j stream r.streams other ∙ e)
                  | inr e ↦ inr e
                ]
              ];
              room = λ some_limit. ground (arith, length-put_last id stream r.streams absent);
            };
            counted = v.counted;
          }))

    find_stream-IsServing :
        (r : Runtime) (o : Option Stream)
        → IsServing limits now r
        → entry r.streams id ≡ o
        → entry r.closed.closed id ≡ none
        → IsServing limits now (find_stream limits id version destination principal r o).0
    unfolding find_stream
    find_stream-IsServing r none v found passed = create_stream-IsServing r v found passed
    find_stream-IsServing r (some stream) v found passed =
        if-cases (λ (t : Runtime × Begun). IsServing limits now t.0)
          (is_same_request stream version destination principal) (λ e. v) (λ e. v)

    pass_closed-IsServing :
        (r : Runtime) (o : Option ℕ)
        → IsServing limits now r
        → entry r.closed.closed id ≡ o
        → IsServing limits now (pass_closed limits id version destination principal now r o).0
    unfolding pass_closed remove_closed
    pass_closed-IsServing r none v e = find_stream-IsServing r (entry r.streams id) v refl e
    pass_closed-IsServing r (some expires_at) v e =
        let after : Runtime = record r { closed = remove_closed id r.closed } in
        let next = find_stream limits id version destination principal after (entry r.streams id) in
        if-cases (λ (t : Runtime × Begun). IsServing limits now t.0) (ltb now expires_at)
          (λ recent. v)
          (λ old.
            (find_stream-IsServing after (entry r.streams id)
              (record {
                served = remove_closed-AreServed limits now r.streams r.closed v.served id;
                counted = v.counted;
              })
              refl (entry-delete_entry id r.closed.closed)))

    pub begin_stream-IsServing :
        (r : Runtime)
        → IsServing limits now r
        → IsServing limits now (begin_stream limits id version destination principal now r).0
    unfolding begin_stream
    begin_stream-IsServing r v =
        let rest =
          pass_closed limits id version destination principal now r (entry r.closed.closed id) in
        if-cases (λ (t : Runtime × Begun). IsServing limits now t.0) (is_closing r) (λ closing. v)
          (λ running. (pass_closed-IsServing r (entry r.closed.closed id) v refl))
