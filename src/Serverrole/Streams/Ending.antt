-- ===== src/Serverrole/Streams/Ending.antt =====
-- internal/serverrole/tcp.go: the end of a dial and of a flow keep what holds of the runtime.
use engarde.Shared.{
  ℕ, ◌≡◌, sym, ap, ◌∙◌, List, true, Option, none, some, ltb, if-cases, arith, if◌then◌else◌,
}
use mathlib.Core.Path.{subst}
use engarde.Shared.Maps.{bytes_key, number_key, entry}
use engarde.Shared.Maps.Laws.{entry-delete_entry}
use engarde.Serverrole.Streams.{
  Stream, flowing, Limits, Runtime, is_closing, update_stream, remember_unless_closing, finish_dial,
  finish_flow, is_stream, give_up, DialError,
}
use engarde.Serverrole.Streams.Laws.{
  delete_entry-AreServed, update_stream-AreServed, remember_closed-AreServed,
}
use engarde.Serverrole.Streams.Keeping.{IsServing}

module _ (by_expiry : List (List ℕ × ℕ) → List (List ℕ × ℕ)) (limits : Limits) (now : ℕ) where
  remember_unless_closing-IsServing :
      (id : List ℕ) (r : Runtime)
      → entry r.streams id ≡ none
      → IsServing limits now r
      → IsServing limits now (remember_unless_closing by_expiry limits id now r)
  unfolding remember_unless_closing
  remember_unless_closing-IsServing id r gone v =
      if-cases (IsServing limits now) (is_closing r) (λ closing. v)
        (λ running. record {
          served =
              remember_closed-AreServed limits now r.streams r.closed v.served by_expiry id gone;
          counted = v.counted;
        })

  give_up-IsServing :
      (id : List ℕ) (r : Runtime)
      → IsServing limits now r
      → IsServing limits now (give_up by_expiry limits id r)
  give_up-IsServing id r v = record {
    served = delete_entry-AreServed limits now r.streams r.closed v.served id;
    counted = v.counted;
  }

  pub update_stream-IsServing :
      (number : ℕ) (change : Stream → Stream) (r : Runtime)
      → IsServing limits now r
      → IsServing limits now (record r { streams = update_stream number change r.streams })
  update_stream-IsServing number change r v = record {
    served = update_stream-AreServed limits now r.streams r.closed v.served number change;
    counted = v.counted;
  }

  pub finish_dial-IsServing :
      (id : List ℕ) (number : ℕ) (result : Option DialError) (r : Runtime)
      → IsServing limits now r
      → IsServing limits now (finish_dial by_expiry limits id number now result r)
  unfolding finish_dial
  finish_dial-IsServing id number (some e) r v =
      remember_unless_closing-IsServing id (give_up by_expiry limits id r)
        (entry-delete_entry id r.streams) (give_up-IsServing id r v)
  finish_dial-IsServing id number none r v =
      if-cases (IsServing limits now) (is_closing r) (λ closing. give_up-IsServing id r v)
        (λ running.
          update_stream-IsServing number
            (λ s. record s { phase = flowing; has_timer = ltb 0 limits.open_timeout }) r v)

  pub finish_flow-IsServing :
      (id : List ℕ) (s : Stream) (r : Runtime)
      → entry r.streams id ≡ some s
      → IsServing limits now r
      → IsServing limits now (finish_flow by_expiry limits id s.number now r)
  unfolding finish_flow is_stream
  finish_flow-IsServing id s r found v =
      let own : is_stream by_expiry limits s.number (entry r.streams id) ≡ true =
        ap (is_stream by_expiry limits s.number) found ∙ ground arith in
      subst
        (λ b. IsServing limits now (
          remember_unless_closing by_expiry limits id now
            (if b then give_up by_expiry limits id r else r)))
        (sym own)
        (remember_unless_closing-IsServing id (give_up by_expiry limits id r)
          (entry-delete_entry id r.streams) (give_up-IsServing id r v))
