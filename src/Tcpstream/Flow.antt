-- ===== src/Tcpstream/Flow.antt =====
-- internal/tcpstream/stream.go: a Flow, which sends one byte stream over several carriers and replays
-- what no peer has acknowledged. The functions here run under flow.mu; a carrier is named by a number,
-- and a map of carrier states is a list, whose order Go leaves open.
pub mod Lifecycle
pub mod Delivery
pub mod History
pub mod Acknowledgement
pub mod Sending
pub mod Tests
use engarde.Shared.{
  ℕ, suc, ◌+◌, ◌-◌, ◌%◌, ◌^◌, List, [], ◌∷◌, ◌++◌, Bool, true, false, not, ◌&&◌, ◌||◌, Option, none,
  some, ltb, leb, ◌==◌, ◌!=◌, if◌then◌else◌, length,
}
use Prim.Native.Nat.{max}
use engarde.Wire.{Error, Result, ok, err, no_carriers}
use engarde.Tcpstream.Frame.{Frame, frame_data, frame_fin}

pub record ReplayFrame : Type 0 where
  pub sequence : ℕ
  pub frame : Frame

pub record CarrierState : Type 0 where
  pub carrier : ℕ
  pub next_sequence : ℕ
  pub in_flight_sequence : ℕ
  pub has_in_flight : Bool
  pub written_sequence : ℕ
  pub has_written : Bool
  pub written_offset : ℕ
  pub written_fin : Bool

pub record SkipNotification : Type 0 where
  pub carrier : ℕ
  pub frame : Frame

-- The fields of Flow behind flow.mu; `window` is config.ReorderWindowBytes.
pub record Flow : Type 0 where
  pub id : List ℕ
  pub send_direction : ℕ
  pub window : ℕ
  pub carriers : List ℕ
  pub started : Bool
  pub local_fin : Bool
  pub local_fin_ack : Bool
  pub remote_fin : Bool
  pub remote_fin_ack_sent : Bool
  pub closed : Bool
  pub pending_inbound : ℕ
  pub terminal_err : Option Error
  pub terminal_notify : Bool
  pub history : List ReplayFrame
  pub history_bytes : ℕ
  pub next_sequence : ℕ
  pub global_ack_offset : ℕ
  pub global_ack_fin : Bool
  pub written_offset : ℕ
  pub written_fin : Bool
  pub written_fin_offset : ℕ
  pub latest_ack : Option (ℕ × Bool)
  pub deferred_ack_offset : ℕ
  pub deferred_ack_fin : Bool
  pub has_deferred_ack : Bool
  pub carrier_states : List CarrierState

-- `frame.Offset + uint64(len(frame.Payload))`.
abbrev pub frame_end : Frame → ℕ
frame_end f = (f.offset + length f.payload) % 2 ^ 64

pub global_acknowledged : ℕ → Bool → Frame → Bool
global_acknowledged offset fin f =
    if f.type_code == frame_fin then fin && leb f.offset offset else leb (frame_end f) offset

-- The carriers that have not sent an acknowledged entry and are not sending it.
skips_of : ReplayFrame → List CarrierState → List SkipNotification
skips_of item [] = []
skips_of item (s ∷ ss) =
    let others = skips_of item ss in
    let note : SkipNotification = record { carrier = s.carrier; frame = item.frame } in
    if ltb item.sequence s.next_sequence
      || (s.has_in_flight && item.sequence == s.in_flight_sequence)
    then others
    else note ∷ others

-- The loop of pruneHistoryLocked: what is kept, the bytes let go, and the notifications.
pub prune_loop :
    ℕ → Bool → List CarrierState → List ReplayFrame → List ReplayFrame × ℕ × List SkipNotification
unfolding skips_of global_acknowledged
prune_loop offset fin states [] = ([], 0, [])
prune_loop offset fin states (item ∷ rest) =
    let (kept, gone, skipped) = prune_loop offset fin states rest in
    if global_acknowledged offset fin item.frame
    then (kept, length item.frame.payload + gone, skips_of item states ++ skipped)
    else (item ∷ kept, gone, skipped)

pub prune_history : Flow → Flow × List SkipNotification
unfolding prune_loop
prune_history flow =
    let (kept, gone, skipped) =
      prune_loop flow.global_ack_offset flow.global_ack_fin flow.carrier_states flow.history in
    (record flow { history = kept; history_bytes = flow.history_bytes - gone }, skipped)

pub acknowledgement_regresses : Flow → ℕ → Bool → Bool
acknowledgement_regresses flow offset fin =
    ltb offset flow.global_ack_offset || (flow.global_ack_fin && not fin)

pub acknowledgement_written : Flow → ℕ → Bool → Bool
acknowledgement_written flow offset fin =
    leb offset flow.written_offset
    && (not fin || (flow.written_fin && offset == flow.written_fin_offset))

-- What one entry of the history says of an acknowledgement.
remembers : ℕ → Bool → Frame → Bool
remembers offset fin f =
    if fin
    then f.type_code == frame_fin && offset == f.offset
    else leb offset (if f.type_code == frame_data then frame_end f else f.offset)

remembered_in : ℕ → Bool → List ReplayFrame → Bool
unfolding remembers
remembered_in offset fin [] = false
remembered_in offset fin (item ∷ rest) =
    remembers offset fin item.frame || remembered_in offset fin rest

pub acknowledgement_remembered : Flow → ℕ → Bool → Bool
unfolding remembered_in
acknowledgement_remembered flow offset fin = remembered_in offset fin flow.history

pub defer_acknowledgement : Flow → ℕ → Bool → Flow
defer_acknowledgement flow offset fin =
    if flow.has_deferred_ack
      && (ltb offset flow.deferred_ack_offset
          || (flow.deferred_ack_offset == offset && flow.deferred_ack_fin))
    then flow
    else record flow {
      deferred_ack_offset = offset;
      deferred_ack_fin = fin;
      has_deferred_ack = true;
    }

pub local_fin_acknowledged : Flow → Bool
unfolding acknowledgement_remembered
local_fin_acknowledged flow =
    flow.local_fin_ack
    || (flow.has_deferred_ack
        && flow.deferred_ack_fin
        && acknowledgement_remembered flow flow.deferred_ack_offset true)

pub exchange_complete : Flow → Bool
unfolding local_fin_acknowledged
exchange_complete flow = flow.local_fin && flow.remote_fin && local_fin_acknowledged flow

pub complete : Flow → Bool
unfolding exchange_complete
complete flow = exchange_complete flow && flow.remote_fin_ack_sent

-- The assignments of applyAcknowledgementLocked before it prunes.
pub record_acknowledgement : Flow → ℕ → Bool → Flow
record_acknowledgement flow offset fin =
    let drops =
      flow.has_deferred_ack
      && (ltb flow.deferred_ack_offset offset
          || (offset == flow.deferred_ack_offset && (fin || not flow.deferred_ack_fin))) in
    record flow {
      global_ack_offset = offset;
      global_ack_fin = flow.global_ack_fin || fin;
      local_fin_ack = fin || flow.local_fin_ack;
      has_deferred_ack = flow.has_deferred_ack && not drops;
    }

-- The second result is completeLocked.
pub apply_acknowledgement : Flow → ℕ → Bool → Flow × List SkipNotification × Bool
unfolding record_acknowledgement prune_history complete
apply_acknowledgement flow offset fin =
    let (pruned, skipped) = prune_history (record_acknowledgement flow offset fin) in
    (pruned, skipped, complete pruned)

pub apply_deferred_acknowledgement : Flow → Flow × List SkipNotification × Bool
unfolding acknowledgement_regresses acknowledgement_written apply_acknowledgement
apply_deferred_acknowledgement flow =
    let offset = flow.deferred_ack_offset in
    let fin = flow.deferred_ack_fin in
    if not flow.has_deferred_ack
    then (flow, [], false)
    else if acknowledgement_regresses flow offset fin
    then (record flow { has_deferred_ack = false }, [], false)
    else if not (acknowledgement_written flow offset fin)
    then (flow, [], false)
    else apply_acknowledgement (record flow { has_deferred_ack = false }) offset fin

pub is_attached : ℕ → List CarrierState → Bool
is_attached c [] = false
is_attached c (s ∷ ss) = s.carrier == c || is_attached c ss

-- acknowledge, without the reset that follows a true result.
pub acknowledge : Flow → ℕ → ℕ → Bool → Flow × List SkipNotification × Bool
unfolding is_attached acknowledgement_regresses acknowledgement_written acknowledgement_remembered
    defer_acknowledgement apply_acknowledgement
acknowledge flow carrier offset fin =
    if not (is_attached carrier flow.carrier_states) || acknowledgement_regresses flow offset fin
    then (flow, [], false)
    else if not (acknowledgement_written flow offset fin)
    then (
      if acknowledgement_remembered flow offset fin
          then defer_acknowledgement flow offset fin
          else flow,
      [],
      false,
    )
    else apply_acknowledgement flow offset fin
