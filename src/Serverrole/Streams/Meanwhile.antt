-- ===== src/Serverrole/Streams/Meanwhile.antt =====
-- internal/serverrole/tcp.go: what happens to a closed id while the server goes on.
use engarde.Shared.{
  ℕ, suc, ◌+◌, ◌≡◌, ◌≤◌, ◌<◌, refl, sym, ap, ◌∙◌, List, false, Option, none, some, arith, if-cases,
  Bool-cases, inl, inr,
}
use mathlib.Core.Path.{subst}
use engarde.Shared.Maps.{bytes_key, entry}
use engarde.Serverrole.Closed.{closed_limit}
use engarde.Serverrole.Closed.Kept.{remember_closed-IsKept}
use engarde.Serverrole.Closed.Expiring.{prune_closed-IsKept}
use engarde.Serverrole.Closed.Tracking.{IsTracked}
use engarde.Serverrole.Streams.{
  Stream, Limits, Runtime, is_closing, finish_dial, finish_flow, remember_unless_closing, give_up,
  is_stream, prune_state, DialError,
}
use engarde.Serverrole.Streams.Keeping.{IsServing}
use engarde.Serverrole.Streams.Laws.{AreServed-later}
use engarde.Serverrole.Streams.Reachable.{
  Step, opens, dial_ends, flow_ends, carrier_attached, timer_fires, prunes, connects,
  handshake_ends, session_starts, session_ends, stream_starts, stream_ends, cancels,
  shutdown_begins, shutdown_ends, Step-IsServing,
}
use engarde.Serverrole.Admission.{delete_session, end_session_stream}
use engarde.Serverrole.Streams.Held.{
  IsHeld, held, begin_stream-IsHeld, register_session-IsHeld, start_session_stream-IsHeld,
  try_acquire_pending-IsHeld, release_pending-IsHeld,
}

module _ (by_expiry : List (List ℕ × ℕ) → List (List ℕ × ℕ)) (limits : Limits) where
  -- How many ids an operation remembers; none for the end of the server.
  abbrev pub ids_noted : {now : ℕ} {r r' : Runtime} → Step by_expiry limits now r r' → Option ℕ
  ids_noted (dial_ends id s (some e) found phase) = some 1
  ids_noted (flow_ends id s found phase) = some 1
  ids_noted cancels = none
  ids_noted shutdown_begins = none
  ids_noted shutdown_ends = none
  ids_noted _ = some 0

  -- Operations of a running server, one after another, with the clock, and how many ids they remember.
  pub data Meanwhile (start : ℕ) (r : Runtime) : ℕ → ℕ → Runtime → Type 0 where
    at_once : Meanwhile start r start 0 r
    then_later :
        {clock k n : ℕ} {q q' : Runtime} (now : ℕ)
        → Meanwhile start r clock k q
        → clock ≤ now
        → (step : Step by_expiry limits now q q') → ids_noted step ≡ some n
        → Meanwhile start r now (n + k) q'

  module _ (id : List ℕ) (v : ℕ) where
    -- An id with a stream is not the closed one.
    stream-apart :
        (now k : ℕ) (j : List ℕ) (s : Stream) (r : Runtime)
        → IsServing limits now r
        → IsHeld limits id v k r
        → entry r.streams j ≡ some s
        → bytes_key.same j id ≡ false
    stream-apart now k j s r w h found = elim (Bool-cases (bytes_key.same j id)) [
      | inr apart ↦ apart
      | inl own ↦
          let twice : entry r.streams id ≡ some s =
            ap (entry r.streams) (sym ((bytes_key.same_iff j id).0 own)) ∙ found in
          let closed : entry r.closed.closed id ≡ some v = h.kept.0 in
          elim (w.served.apart id) [ inl gone ↦ absurd (cc) | inr open_yet ↦ absurd (cc) ]
    ]

    remember_unless_closing-IsHeld :
        (now k : ℕ) (j : List ℕ) (r : Runtime)
        → IsServing limits now r
        → IsHeld limits id v k r
        → bytes_key.same j id ≡ false
        → suc k < closed_limit limits.max_streams
        → (q : Runtime) → IsHeld limits id v k q
        → q.closed ≡ r.closed
        → IsHeld limits id v (suc k) (remember_unless_closing by_expiry limits j now q)
    unfolding remember_unless_closing
    remember_unless_closing-IsHeld now k j r w h apart few q g same =
        if-cases (IsHeld limits id v (suc k)) (is_closing q)
          (λ closing. absurd (ground (arith, g.running)))
          (λ running. record {
            running = g.running;
            kept =
                remember_closed-IsKept by_expiry id v k limits.max_streams j now q.closed apart few
                  (subst IsTracked (sym same) w.served.tracked) g.kept;
          })

    as_many :
        (k n : ℕ) {q : Runtime}
        → some n ≡ some 0
        → IsHeld limits id v k q
        → IsHeld limits id v (n + k) q
    as_many k n {q} e h = subst (λ m. IsHeld limits id v m q) (ground (arith, e)) h

    one_more :
        (k n : ℕ) {q : Runtime}
        → some n ≡ some 1
        → IsHeld limits id v (suc k) q
        → IsHeld limits id v (n + k) q
    one_more k n {q} e h = subst (λ m. IsHeld limits id v m q) (ground (arith, e)) h

    finish_dial-IsHeld :
        (now k : ℕ) (j : List ℕ) (number : ℕ) (r : Runtime)
        → IsHeld limits id v k r
        → IsHeld limits id v k (finish_dial by_expiry limits j number now none r)
    unfolding finish_dial
    finish_dial-IsHeld now k j number r h =
        if-cases (IsHeld limits id v k) (is_closing r)
          (λ closing. held limits id v k r _ h refl refl refl)
          (λ running. held limits id v k r _ h refl refl refl)

    module _ (now k : ℕ) (j : List ℕ) (s : Stream) (r : Runtime)
        (found : entry r.streams j ≡ some s) (few : suc k < closed_limit limits.max_streams)
        (w : IsServing limits now r) (h : IsHeld limits id v k r) where
      failed_dial-IsHeld :
          (e : DialError)
          → IsHeld limits id v (suc k) (finish_dial by_expiry limits j s.number now (some e) r)
      unfolding finish_dial
      failed_dial-IsHeld e =
          remember_unless_closing-IsHeld now k j r w h (stream-apart now k j s r w h found) few
            (give_up by_expiry limits j r) (held limits id v k r _ h refl refl refl) refl

      finish_flow-IsHeld :
          IsHeld limits id v (suc k) (finish_flow by_expiry limits j s.number now r)
      unfolding finish_flow
      finish_flow-IsHeld =
          if-cases
            (λ q. IsHeld limits id v (suc k) (remember_unless_closing by_expiry limits j now q))
            (is_stream by_expiry limits s.number (entry r.streams j))
            (λ own.
              remember_unless_closing-IsHeld now k j r w h (stream-apart now k j s r w h found) few
                (give_up by_expiry limits j r) (held limits id v k r _ h refl refl refl) refl)
            (λ another.
              remember_unless_closing-IsHeld now k j r w h (stream-apart now k j s r w h found) few
                r h refl)

    Step-IsHeld :
        (now k n : ℕ) {r r' : Runtime} (step : Step by_expiry limits now r r')
        → ids_noted step ≡ some n
        → now < v
        → n + k < closed_limit limits.max_streams
        → IsServing limits now r
        → IsHeld limits id v k r
        → IsHeld limits id v (n + k) r'
    unfolding prune_state delete_session end_session_stream is_closing
    Step-IsHeld now k n {r} (opens j version destination principal) e fresh few w h =
        as_many k n (sym e)
          (begin_stream-IsHeld limits id v j version destination principal k now r fresh h)
    Step-IsHeld now k n {r} (dial_ends j s none found phase) e fresh few w h =
        as_many k n (sym e) (finish_dial-IsHeld now k j s.number r h)
    Step-IsHeld now k n {r} (dial_ends j s (some error) found phase) e fresh few w h =
        one_more k n (sym e)
          (failed_dial-IsHeld now k j s r found (ground (arith, e, few)) w h error)
    Step-IsHeld now k n {r} (flow_ends j s found phase) e fresh few w h =
        one_more k n (sym e) (finish_flow-IsHeld now k j s r found (ground (arith, e, few)) w h)
    Step-IsHeld now k n {r} (carrier_attached number) e fresh few w h =
        as_many k n (sym e) (held limits id v k r _ h refl refl refl)
    Step-IsHeld now k n {r} (timer_fires number gone) e fresh few w h =
        as_many k n (sym e) (held limits id v k r _ h refl refl refl)
    Step-IsHeld now k n {r} prunes e fresh few w h = as_many k n (sym e) (record {
      running = h.running;
      kept = prune_closed-IsKept by_expiry id v k now fresh r.closed w.served.tracked h.kept;
    })
    Step-IsHeld now k n {r} connects e fresh few w h =
        as_many k n (sym e) (try_acquire_pending-IsHeld limits id v k r h)
    Step-IsHeld now k n {r} handshake_ends e fresh few w h =
        as_many k n (sym e) (release_pending-IsHeld limits id v k r h)
    Step-IsHeld now k n {r} (session_starts number) e fresh few w h =
        as_many k n (sym e) (register_session-IsHeld limits id v k number r h)
    Step-IsHeld now k n {r} (session_ends number) e fresh few w h =
        as_many k n (sym e) (held limits id v k r _ h refl refl refl)
    Step-IsHeld now k n {r} stream_starts e fresh few w h =
        as_many k n (sym e) (start_session_stream-IsHeld limits id v k r h)
    Step-IsHeld now k n {r} stream_ends e fresh few w h =
        as_many k n (sym e) (held limits id v k r _ h refl refl refl)
    Step-IsHeld now k n {r} cancels e fresh few w h = absurd (cc)
    Step-IsHeld now k n {r} shutdown_begins e fresh few w h = absurd (cc)
    Step-IsHeld now k n {r} shutdown_ends e fresh few w h = absurd (cc)

    -- What lies between keeps the id, as long as it remembers fewer others than the limit.
    pub Meanwhile-IsHeld :
        {start : ℕ} {r : Runtime} {clock k : ℕ} {q : Runtime}
        → IsServing limits start r
        → IsHeld limits id v 0 r
        → Meanwhile start r clock k q
        → clock < v
        → k < closed_limit limits.max_streams
        → IsServing limits clock q × IsHeld limits id v k q
    Meanwhile-IsHeld w h at_once fresh few = (w, h)
    Meanwhile-IsHeld w h (then_later {clock} {k} {n} {q} {q'} now before le step e) fresh few =
        let (w', h') =
          Meanwhile-IsHeld w h before (omega (arith, le, fresh)) (omega (arith, few)) in
        let serving : IsServing limits now q = record {
          served = AreServed-later limits now le w'.served;
          counted = w'.counted;
        } in
        (
          Step-IsServing by_expiry limits now step serving,
          Step-IsHeld now k n step e fresh few serving h',
        )
