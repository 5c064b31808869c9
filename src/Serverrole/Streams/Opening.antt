-- ===== src/Serverrole/Streams/Opening.antt =====
-- internal/serverrole/tcp.go: when getOrCreate makes a stream, and when it gives one that is there.
use engarde.Shared.{
  ℕ, suc, ◌≡◌, ◌≤◌, ◌<◌, refl, ap, ◌∙◌, List, [], ◌∷◌, true, false, ◌&&◌, Option, none, some, ltb,
  leb, length, if-cases, arith, length-append, if◌then◌else◌,
}
use engarde.Shared.Maps.{bytes_key, entry, put_last, delete_entry}
use engarde.Shared.Maps.Laws.{entry-put_last, entry-put_last_other, delete_entry-none}
use engarde.Serverrole.Closed.{remove_closed}
use engarde.Serverrole.Closed.Pruning.{live}
use engarde.Serverrole.Streams.{
  Stream, Limits, Runtime, Begun, refused, waits, dials, connecting, is_closing, is_same_request,
  create_stream, find_stream, pass_closed, begin_stream,
}

pub length-put_last :
    (id : List ℕ) (s : Stream) (m : List (List ℕ × Stream))
    → entry m id ≡ none
    → length (put_last id s m) ≡ suc (length m)
unfolding put_last
length-put_last id s m absent = omega (
  arith,
  length-append (delete_entry id m) ((id, s) ∷ []),
  ap length (delete_entry-none id m absent),
)

-- The outcome of create_stream with room.
abbrev pub added_at : List ℕ → Runtime → Stream → Runtime × Begun
added_at id r stream =
    (record r { streams = put_last id stream r.streams; next = suc r.next }, dials stream)

module _ (limits : Limits) (id : List ℕ) (version : ℕ) (destination principal : List ℕ)
    (now : ℕ) where
  -- What each outcome of getOrCreate's first part means.
  abbrev pub IsBegun : Runtime → Runtime → Begun → Type 0
  IsBegun r r' (refused e) = r'.streams ≡ r.streams
  IsBegun r r' (waits s) =
      (r'.streams ≡ r.streams)
      × (is_closing r ≡ false)
      × (live now (entry r.closed.closed id) ≡ none)
      × (entry r.streams id ≡ some s)
      × (is_same_request s version destination principal ≡ true)
  IsBegun r r' (dials s) =
      (is_closing r ≡ false)
      × (live now (entry r.closed.closed id) ≡ none)
      × (entry r.streams id ≡ none)
      × (entry r'.streams id ≡ some s)
      × (length r'.streams ≡ suc (length r.streams))
      × ((0 < limits.max_streams) → (length r'.streams ≤ limits.max_streams))
      × ((j : List ℕ) → bytes_key.same id j ≡ false → entry r'.streams j ≡ entry r.streams j)

  create_stream-IsBegun :
      (r r' : Runtime)
      → r'.streams ≡ r.streams
      → is_closing r ≡ false
      → live now (entry r.closed.closed id) ≡ none
      → entry r.streams id ≡ none
      → IsBegun r
          (create_stream limits id version destination principal r').0
          (create_stream limits id version destination principal r').1
  unfolding create_stream
  create_stream-IsBegun r r' same running passed absent =
      let full = ltb 0 limits.max_streams && leb limits.max_streams (length r'.streams) in
      let stream : Stream = record {
        number = r'.next;
        version = version;
        destination = destination;
        principal = principal;
        phase = connecting;
        has_timer = false;
        started = false;
      } in
      let none_yet : entry r'.streams id ≡ none = ap (λ m. entry m id) same ∙ absent in
      if-cases (λ (t : Runtime × Begun). IsBegun r t.0 t.1) full (λ no_room. same)
        (λ room. (
          running,
          passed,
          absent,
          entry-put_last id stream r'.streams,
          length-put_last id stream r'.streams none_yet ∙ ap (λ m. suc (length m)) same,
          λ some_limit. ground (arith, length-put_last id stream r'.streams none_yet),
          λ j other. entry-put_last_other id j stream r'.streams other ∙ ap (λ m. entry m j) same,
        ))

  find_stream-IsBegun :
      (r r' : Runtime) (o : Option Stream)
      → r'.streams ≡ r.streams
      → is_closing r ≡ false
      → live now (entry r.closed.closed id) ≡ none
      → entry r.streams id ≡ o
      → IsBegun r
          (find_stream limits id version destination principal r' o).0
          (find_stream limits id version destination principal r' o).1
  unfolding find_stream
  find_stream-IsBegun r r' none same running passed found =
      create_stream-IsBegun r r' same running passed found
  find_stream-IsBegun r r' (some stream) same running passed found =
      if-cases (λ (t : Runtime × Begun). IsBegun r t.0 t.1)
        (is_same_request stream version destination principal)
        (λ e. (same, running, passed, found, e)) (λ e. same)

  pass_closed-IsBegun :
      (r : Runtime) (o : Option ℕ)
      → is_closing r ≡ false
      → entry r.closed.closed id ≡ o
      → IsBegun r
          (pass_closed limits id version destination principal now r o).0
          (pass_closed limits id version destination principal now r o).1
  unfolding pass_closed
  pass_closed-IsBegun r none running e =
      find_stream-IsBegun r r (entry r.streams id) refl running (ap (live now) e) refl
  pass_closed-IsBegun r (some expires_at) running e =
      let after : Runtime = record r { closed = remove_closed id r.closed } in
      if-cases (λ (t : Runtime × Begun). IsBegun r t.0 t.1) (ltb now expires_at) (λ recent. refl)
        (λ old.
          (find_stream-IsBegun r after (entry r.streams id) refl running
            (ap (live now) e ∙ ap (λ t. if t then some expires_at else none) old) refl))

  -- getOrCreate's first part makes a stream only while the server runs, for an id that has no stream
  -- and was not closed within the time to live, and keeps the limit on streams and every other stream;
  -- it gives a stream that is there only for the same version, destination and principal, under the
  -- same two conditions; where it refuses it leaves the streams.
  pub begin_stream-IsBegun :
      (r : Runtime)
      → IsBegun r
          (begin_stream limits id version destination principal now r).0
          (begin_stream limits id version destination principal now r).1
  unfolding begin_stream
  begin_stream-IsBegun r =
      let rest =
        pass_closed limits id version destination principal now r (entry r.closed.closed id) in
      if-cases (λ (t : Runtime × Begun). IsBegun r t.0 t.1) (is_closing r) (λ closing. refl)
        (λ running. (pass_closed-IsBegun r (entry r.closed.closed id) running refl))
