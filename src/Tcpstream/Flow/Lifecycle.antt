-- ===== src/Tcpstream/Flow/Lifecycle.antt =====
-- internal/tcpstream/stream.go: how carriers join and leave a Flow, how it ends, and what it does
-- with the frames that arrive.
pub mod Ending
use engarde.Shared.{
  ℕ, suc, ◌+◌, ◌-◌, List, [], ◌∷◌, ◌++◌, Bool, true, false, not, ◌&&◌, ◌||◌, Option, none, some,
  ltb, leb, ◌==◌, ◌!=◌, if◌then◌else◌, length, bytes_eq, get_or,
}
use engarde.Wire.{Error, Result, ok, err, no_carriers, net_closed, maximum_carriers, invalid_frame}
use engarde.Tcpstream.Frame.{
  Frame, frame_open, frame_data, frame_fin, frame_rst, frame_ack, client_to_server,
  server_to_client,
}
use engarde.Tcpstream.Flow.{
  Flow, ReplayFrame, CarrierState, SkipNotification, prune_history, exchange_complete, complete,
}

-- carriers come with their states: the source keeps a slice and a map with the same members.
new_state : ℕ → ℕ → CarrierState
new_state c next = record {
  carrier = c;
  next_sequence = next;
  in_flight_sequence = 0;
  has_in_flight = false;
  written_sequence = 0;
  has_written = false;
  written_offset = 0;
  written_fin = false;
}

first_sequence : ℕ → List ReplayFrame → ℕ
first_sequence next [] = next
first_sequence next (item ∷ rest) = item.sequence

-- attachLimited under the lock, for a new carrier `c`; 0 carriers is no limit.
unfoldable pub attach : ℕ → ℕ → Flow → Result Flow
unfolding new_state first_sequence
attach c max_carriers flow =
    if flow.closed
    then err net_closed
    else if ltb 0 max_carriers && leb max_carriers (length flow.carriers)
    then err maximum_carriers
    else ok (record flow {
      carriers = flow.carriers ++ (c ∷ []);
      carrier_states =
          flow.carrier_states
          ++ (new_state c (first_sequence flow.next_sequence flow.history) ∷ []);
    })

-- claimResetLocked: only the first call claims the reset.
unfoldable pub claim_reset : Option Error → Bool → Flow → Flow × Bool
claim_reset e notify flow =
    if flow.closed
    then (flow, false)
    else (record flow { closed = true; terminal_err = e; terminal_notify = notify }, true)

-- The reset that a Flow without carriers comes to: an error, unless all has been exchanged.
unfoldable pub claim_last_reset : Flow → Flow × Bool
unfolding claim_reset
claim_last_reset flow =
    if exchange_complete flow
    then claim_reset none false flow
    else claim_reset (some no_carriers) true flow

-- resetAfterLastCarrier and resetAfterCarrierFailure, up to finishReset.
unfoldable pub reset_after_last_carrier : Flow → Flow × Bool
unfolding claim_last_reset
reset_after_last_carrier flow =
    if flow.closed || not (length flow.carriers == 0) then (flow, false) else claim_last_reset flow

unfoldable pub reset_after_carrier_failure : Flow → Flow × Bool
unfolding claim_last_reset
reset_after_carrier_failure flow = if flow.closed then (flow, false) else claim_last_reset flow

-- finishReset forgets the carriers.
unfoldable pub forget_carriers : Flow → Flow
forget_carriers flow = record flow { carriers = []; carrier_states = [] }

has_carrier : ℕ → List ℕ → Bool
has_carrier c [] = false
has_carrier c (d ∷ ds) = d == c || has_carrier c ds

remove_carrier : ℕ → List ℕ → List ℕ
remove_carrier c [] = []
remove_carrier c (d ∷ ds) = if d == c then ds else d ∷ remove_carrier c ds

remove_state : ℕ → List CarrierState → List CarrierState
remove_state c [] = []
remove_state c (s ∷ ss) = if s.carrier == c then ss else s ∷ remove_state c ss

pub drop_carrier : ℕ → Flow → Flow × List SkipNotification
unfolding has_carrier remove_carrier remove_state prune_history
drop_carrier c flow =
    if has_carrier c flow.carriers
    then prune_history (record flow {
      carriers = remove_carrier c flow.carriers;
      carrier_states = remove_state c flow.carrier_states;
    })
    else (flow, [])

-- `flow.started && !flow.closed && len(flow.carriers) == 0 && (!preserveInbound || flow.pendingInbound == 0)`.
is_abandoned : Bool → Flow → Bool
is_abandoned preserve flow =
    flow.started
    && not flow.closed
    && length flow.carriers == 0
    && (not preserve || flow.pending_inbound == 0)

-- detach under the lock: the new state, the skips, and whether finishReset follows.
unfoldable pub detach : ℕ → Bool → Flow → Flow × List SkipNotification × Bool
unfolding drop_carrier is_abandoned claim_last_reset
detach c preserve flow =
    let (left, skipped) = drop_carrier c flow in
    let (ended, claimed) = claim_last_reset left in
    if is_abandoned preserve left then (ended, skipped, claimed) else (left, skipped, false)

-- releaseInbound: the state, and whether the Flow has to be reset.
unfoldable pub release_inbound : Flow → Flow × Bool
release_inbound flow =
    let n = flow.pending_inbound - 1 in
    (
      record flow { pending_inbound = n },
      flow.started && not flow.closed && n == 0 && length flow.carriers == 0,
    )

-- enqueueInbound, up to the send on the channel.
unfoldable pub enqueue_inbound : Flow → Result Flow
enqueue_inbound flow =
    if flow.closed
    then err net_closed
    else ok (record flow { pending_inbound = flow.pending_inbound + 1 })

-- finishRemote under the lock: whether this call was the first, and whether all is complete.
unfoldable pub finish_remote : Flow → Flow × Bool × Bool
finish_remote flow =
    let done : Flow = record flow { remote_fin = true } in
    if flow.remote_fin then (flow, false, false) else (done, true, complete done)

-- ackHasFIN of carrier.go.
unfoldable pub ack_has_fin : Frame → Bool
ack_has_fin f = length f.payload == 1 && get_or f.payload 0 0 != 0

-- carrierFrameWritten: the state, and whether all is complete.
unfoldable pub carrier_frame_written : Frame → Flow → Flow × Bool
unfolding ack_has_fin
carrier_frame_written f flow =
    let done : Flow = record flow { remote_fin_ack_sent = true } in
    if f.type_code != frame_ack || not (ack_has_fin f) then (flow, false) else (done, complete done)

unfoldable pub opposite_direction : ℕ → ℕ
opposite_direction d = if d == client_to_server then server_to_client else client_to_server

-- What handleFrame does with a frame.
pub data Handling : Type 0 where
  resets enqueues : Handling
  acknowledges : ℕ → Bool → Handling

unfoldable pub handle_frame : Flow → Frame → Handling
handle_frame flow f =
    if not (bytes_eq f.stream_id flow.id) || f.type_code == frame_open
    then resets
    else if f.type_code == frame_ack
    then (if f.direction != flow.send_direction
        then resets
        else acknowledges f.offset (get_or f.payload 0 0 == 1))
    else if f.direction == flow.send_direction
    then resets
    else if f.type_code == frame_data
    then enqueues
    else if f.type_code == frame_fin
    then enqueues
    else resets
