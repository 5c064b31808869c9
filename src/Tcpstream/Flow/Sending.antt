-- ===== src/Tcpstream/Flow/Sending.antt =====
-- internal/tcpstream/stream.go: what a Flow sends. A wait on flow.cond is the result `waits`: the
-- caller holds the lock again afterwards and calls once more.
pub mod Bounded
use engarde.Shared.{
  ℕ, ◌+◌, ◌-◌, ◌%◌, ◌^◌, List, [], ◌∷◌, ◌++◌, Bool, true, false, not, ◌&&◌, ◌||◌, Option, none,
  some, ltb, leb, ◌==◌, if◌then◌else◌, length,
}
use Prim.Native.Nat.{max}
use engarde.Tcpstream.Frame.{Frame, frame_data, frame_fin}
use engarde.Tcpstream.Flow.{
  Flow, ReplayFrame, CarrierState, SkipNotification, frame_end, prune_history, global_acknowledged,
  apply_deferred_acknowledgement,
}

abbrev is_empty {ℓ} : {A : Type ℓ} → List A → Bool
is_empty [] = true
is_empty (x ∷ xs) = false

pub data Remembered : Type 0 where
  stores : ℕ → Flow → Remembered
  refuses waits : Flow → Remembered

-- `flow.nextSequence++` and the append of a copy of the frame.
pub store : Frame → Flow → Remembered
store frame flow =
    let item : ReplayFrame = record { sequence = flow.next_sequence; frame = frame } in
    stores flow.next_sequence (record flow {
      next_sequence = (flow.next_sequence + 1) % 2 ^ 64;
      history = flow.history ++ (item ∷ []);
      history_bytes = flow.history_bytes + length frame.payload;
    })

pub is_gone : Flow → Bool
is_gone flow = flow.closed || is_empty flow.carriers

is_over : Flow → Frame → Bool
is_over flow frame =
    ltb 0 flow.window && ltb flow.window (flow.history_bytes + length frame.payload)

-- remember, up to its first wait.
unfoldable pub remember : Frame → Flow → Remembered
unfolding store is_gone is_over
remember frame flow =
    let pruned = (prune_history flow).0 in
    if is_over flow frame
    then (if is_over pruned frame
        then (if is_gone pruned then refuses pruned else waits pruned)
        else if is_gone pruned
        then refuses pruned
        else store frame pruned)
    else if is_gone flow
    then refuses flow
    else store frame flow

pub data Broadcast : Type 0 where
  sent no_carrier keeps_waiting : Broadcast

any_written : ℕ → List CarrierState → Bool
any_written sequence [] = false
any_written sequence (s ∷ ss) =
    (s.has_written && leb sequence s.written_sequence) || any_written sequence ss

-- One round of the loop of broadcast, for a frame that was remembered under `sequence`.
unfoldable pub broadcast_round : Frame → ℕ → Flow → Broadcast
unfolding any_written
broadcast_round frame sequence flow =
    if global_acknowledged flow.global_ack_offset flow.global_ack_fin frame
    then sent
    else if is_gone flow
    then no_carrier
    else if any_written sequence flow.carrier_states
    then sent
    else keeps_waiting

-- The first entry that a carrier has still to send.
unfoldable pub next_replay : ℕ → List ReplayFrame → Option ReplayFrame
next_replay sequence [] = none
next_replay sequence (item ∷ rest) =
    if leb sequence item.sequence then some item else next_replay sequence rest

update_state : ℕ → (CarrierState → CarrierState) → List CarrierState → List CarrierState
update_state c f [] = []
update_state c f (s ∷ ss) = if s.carrier == c then f s ∷ ss else s ∷ update_state c f ss

find_state : ℕ → List CarrierState → Option CarrierState
find_state c [] = none
find_state c (s ∷ ss) = if s.carrier == c then some s else find_state c ss

mark_in_flight : ReplayFrame → CarrierState → CarrierState
mark_in_flight item s = record s { in_flight_sequence = item.sequence; has_in_flight = true }

pub data Send : Type 0 where
  ends idles : Send
  takes : ReplayFrame → Flow → Send

take_next : ℕ → Flow → Option ReplayFrame → Send
unfolding update_state mark_in_flight
take_next c flow none = idles
take_next c flow (some item) =
    takes item
      (record flow { carrier_states = update_state c (mark_in_flight item) flow.carrier_states })

next_for : ℕ → Flow → Option CarrierState → Send
unfolding take_next
next_for c flow none = ends
next_for c flow (some s) =
    if flow.closed then ends else take_next c flow (next_replay s.next_sequence flow.history)

-- The first half of a round of sendCarrier: the entry to send is marked as in flight.
unfoldable pub send_next : ℕ → Flow → Send
unfolding next_for find_state
send_next c flow = next_for c flow (find_state c flow.carrier_states)

mark_written : ReplayFrame → CarrierState → CarrierState
mark_written item s =
    let written : CarrierState = record s {
      has_in_flight = false;
      next_sequence = (item.sequence + 1) % 2 ^ 64;
      written_sequence = item.sequence;
      has_written = true;
    } in
    if item.frame.type_code == frame_data
    then record written { written_offset = frame_end item.frame }
    else if item.frame.type_code == frame_fin
    then record written { written_offset = item.frame.offset; written_fin = true }
    else written

flow_written : ReplayFrame → Flow → Flow
flow_written item flow =
    if item.frame.type_code == frame_data
    then record flow { written_offset = max flow.written_offset (frame_end item.frame) }
    else if item.frame.type_code == frame_fin
    then record flow {
      written_offset = max flow.written_offset item.frame.offset;
      written_fin = true;
      written_fin_offset = item.frame.offset;
    }
    else flow

-- The second half, after carrier.enqueue has returned true; the third result asks for the reset.
unfoldable pub send_done : ℕ → ReplayFrame → Flow → Flow × List SkipNotification × Bool
unfolding find_state update_state mark_written flow_written apply_deferred_acknowledgement
send_done c item flow = elim (find_state c flow.carrier_states) [
  | none ↦ (flow, [], false)
  | some s ↦ apply_deferred_acknowledgement (
      flow_written item
        (record flow { carrier_states = update_state c (mark_written item) flow.carrier_states }))
]
