-- ===== src/Serverrole/Streams/Remembered.antt =====
-- internal/serverrole/tcp.go: an id whose stream has ended is not opened again within the time to live.
use engarde.Shared.{
  ℕ, ◌+◌, ◌≡◌, ◌≤◌, ◌<◌, sym, ap, ◌∙◌, List, true, false, some, ltb, arith, if◌then◌else◌,
}
use mathlib.Core.Path.{subst}
use engarde.Shared.Maps.{bytes_key, entry, delete_entry}
use engarde.Serverrole.Closed.{closed_limit, tcp_server_closed_ttl, remember_closed}
use engarde.Serverrole.Streams.{
  Stream, Limits, Runtime, refused, stream_is_closed, is_closing, pass_closed, begin_stream,
  remember_unless_closing, give_up, is_stream, finish_flow,
}
use engarde.Serverrole.Closed.Expiring.{remember_closed-last}
use engarde.Serverrole.Streams.Laws.{AreServed-later}
use engarde.Serverrole.Streams.Keeping.{IsServing}
use engarde.Serverrole.Streams.Ending.{finish_flow-IsServing}
use engarde.Serverrole.Streams.Reachable.{Run, Run-IsServing}
use engarde.Serverrole.Streams.Held.{IsHeld}
use engarde.Serverrole.Streams.Meanwhile.{Meanwhile, Meanwhile-IsHeld}

begin_stream-recent :
    (limits : Limits) (id : List ℕ) (version : ℕ) (destination principal : List ℕ) (now : ℕ)
    (q : Runtime) {expires_at : ℕ}
    → is_closing q ≡ false
    → entry q.closed.closed id ≡ some expires_at
    → ltb now expires_at ≡ true
    → (begin_stream limits id version destination principal now q).1 ≡ refused stream_is_closed
unfolding begin_stream pass_closed
begin_stream-recent limits id version destination principal now q running found recent =
    ground (arith, running, found, recent)

module _ (by_expiry : List (List ℕ × ℕ) → List (List ℕ × ℕ)) (limits : Limits) (id : List ℕ)
    (s : Stream) (now : ℕ) (r : Runtime) where
  finish_flow-remembers :
      is_closing r ≡ false
      → entry r.streams id ≡ some s
      → finish_flow by_expiry limits id s.number now r ≡ record r {
        streams = delete_entry id r.streams;
        closed = remember_closed by_expiry limits.max_streams id now r.closed;
      }
  unfolding finish_flow remember_unless_closing is_stream is_closing
  finish_flow-remembers running found =
      let own : is_stream by_expiry limits s.number (entry r.streams id) ≡ true =
        ap (is_stream by_expiry limits s.number) found ∙ ground arith in
      let ended : Runtime = give_up by_expiry limits id r in
      ap (λ b. remember_unless_closing by_expiry limits id now (if b then ended else r)) own
      ∙ ap
          (λ b. if b then ended else record ended {
            closed = remember_closed by_expiry limits.max_streams id now r.closed;
          })
          running

  finish_flow-IsHeld :
      is_closing r ≡ false
      → entry r.streams id ≡ some s
      → IsHeld limits id
          (now + tcp_server_closed_ttl)
          0
          (finish_flow by_expiry limits id s.number now r)
  unfolding is_closing
  finish_flow-IsHeld running found =
      subst (IsHeld limits id (now + tcp_server_closed_ttl) 0)
        (sym (finish_flow-remembers running found))
        (record {
          running = running;
          kept = remember_closed-last by_expiry id limits.max_streams now r.closed;
        })

  -- A flow of a running server ends, and any operations follow, in any order and at any later times,
  -- as long as the server is not cancelled or shut down: then a request for the id of the flow within
  -- the time to live is refused as a closed stream, if the number of ids that have been remembered
  -- since is below the limit of the closed ones.
  pub begin_stream-finish_flow :
      (version : ℕ) (destination principal : List ℕ) (later : ℕ) {before clock k : ℕ} {q : Runtime}
      → Run by_expiry limits before r
      → before ≤ now
      → is_closing r ≡ false
      → entry r.streams id ≡ some s
      → Meanwhile by_expiry limits now (finish_flow by_expiry limits id s.number now r) clock k q
      → k < closed_limit limits.max_streams
      → clock ≤ later
      → later < now + tcp_server_closed_ttl
      → (begin_stream limits id version destination principal later q).1 ≡ refused stream_is_closed
  begin_stream-finish_flow version destination principal later {q = q} run le running found since
        few after soon =
      let w = Run-IsServing by_expiry limits run in
      let serving : IsServing limits now r = record {
        served = AreServed-later limits now le w.served;
        counted = w.counted;
      } in
      let (_, h) =
        Meanwhile-IsHeld by_expiry limits id (now + tcp_server_closed_ttl)
          (finish_flow-IsServing by_expiry limits now id s r found serving)
          (finish_flow-IsHeld running found) since (omega (arith, after, soon)) few in
      begin_stream-recent limits id version destination principal later q h.running h.kept.0
        (ground arith)
