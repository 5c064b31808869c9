-- ===== src/Tcpstream/Flow/Tests.antt =====
-- Runs of a Flow, and its theorems at a Flow with two carriers and two frames that are not acknowledged.
use engarde.Shared.{
  ℕ, ◌+◌, ◌≡◌, refl, List, [], ◌∷◌, true, false, none, some, arith, ◌≢◌, ◌≤◌, bytes_eq, length,
  replicate,
}
use engarde.Wire.{accepts, no_carriers}
use engarde.Tcpstream.Frame.{Frame, frame_data, frame_fin}
use engarde.Tcpstream.Reassembler.{new_reassembler, panics, push, drain_to, set_fin}
use engarde.Tcpstream.Reassembler.Segments.{Agree}
use engarde.Tcpstream.Flow.{Flow, CarrierState, exchange_complete, acknowledge, global_acknowledged}
use engarde.Tcpstream.Flow.Acknowledgement.{IsTracked, Acknowledges, acknowledge-Acknowledges}
use engarde.Tcpstream.Flow.Delivery.{
  Arrival, write_endpoint, write_endpoint_in_order, deliver_inbound,
}
use engarde.Tcpstream.Flow.Sending.{remember}
use engarde.Tcpstream.Flow.Sending.Bounded.{Remembers, remember-Remembers}
use engarde.Tcpstream.Flow.Lifecycle.{detach, claim_reset, reset_after_carrier_failure}
use engarde.Tcpstream.Flow.Lifecycle.Ending.{
  Event, reset, detached, carrier_failed, step, run, claims, claims-le-one, run-closed,
}

abbrev data_frame : ℕ → List ℕ → Frame
data_frame offset payload = record {
  type_code = frame_data;
  direction = 1;
  stream_id = replicate 16 7;
  offset = offset;
  payload = payload;
}

abbrev carrier_at : ℕ → CarrierState
carrier_at c = record {
  carrier = c;
  next_sequence = 1;
  in_flight_sequence = 0;
  has_in_flight = false;
  written_sequence = 0;
  has_written = true;
  written_offset = 3;
  written_fin = false;
}

abbrev two_carriers : Flow
two_carriers = record {
  id = replicate 16 7;
  send_direction = 1;
  window = 8;
  carriers = 1 ∷ 2 ∷ [];
  started = true;
  local_fin = false;
  local_fin_ack = false;
  remote_fin = false;
  remote_fin_ack_sent = false;
  closed = false;
  pending_inbound = 0;
  terminal_err = none;
  terminal_notify = false;
  history =
      record { sequence = 0; frame = data_frame 0 (1 ∷ 2 ∷ 3 ∷ []) }
      ∷ record { sequence = 1; frame = data_frame 3 (4 ∷ 5 ∷ []) }
      ∷ [];
  history_bytes = 5;
  next_sequence = 2;
  global_ack_offset = 0;
  global_ack_fin = false;
  written_offset = 3;
  written_fin = false;
  written_fin_offset = 0;
  latest_ack = none;
  deferred_ack_offset = 0;
  deferred_ack_fin = false;
  has_deferred_ack = false;
  carrier_states = carrier_at 1 ∷ carrier_at 2 ∷ [];
}

two_carriers-IsTracked : IsTracked two_carriers
two_carriers-IsTracked = record {
  counted = refl;
  opened = (unfold global_acknowledged in refl, (unfold global_acknowledged in refl, tt));
  not_ahead = omega arith;
}

acknowledge-Acknowledges_example : Acknowledges two_carriers (acknowledge two_carriers 2 3 false).0
acknowledge-Acknowledges_example =
    acknowledge-Acknowledges two_carriers 2 3 false two_carriers-IsTracked

remember-Remembers_example :
    Remembers (data_frame 5 (6 ∷ [])) two_carriers (remember (data_frame 5 (6 ∷ [])) two_carriers)
remember-Remembers_example = remember-Remembers (data_frame 5 (6 ∷ [])) two_carriers refl

-- The second half comes first, then the whole, then the end.
abbrev stream : ℕ → ℕ
stream x = x + 10

abbrev arrivals : List Arrival
arrivals =
    record { frame = data_frame 2 (12 ∷ 13 ∷ []); writes = []; clears = true }
    ∷ record { frame = data_frame 0 (10 ∷ 11 ∷ 12 ∷ []); writes = accepts 1 ∷ []; clears = true }
    ∷ record {
      frame = record (data_frame 4 []) { type_code = frame_fin };
      writes = [];
      clears = true;
    }
    ∷ []

endpoint_bytes : (write_endpoint arrivals (new_reassembler 100) []).1 ≡ 10 ∷ 11 ∷ 12 ∷ 13 ∷ []
unfolding write_endpoint push drain_to set_fin new_reassembler bytes_eq
endpoint_bytes = refl

write_endpoint_in_order_example :
    let t = write_endpoint arrivals (new_reassembler 100) [] in
    Agree stream 0 t.1 × (t.0.next_offset ≡ length t.1) × (t.2 ≢ panics)
write_endpoint_in_order_example =
    write_endpoint_in_order stream 100 arrivals
      (λ h. (refl, (refl, tt)), (λ h. (refl, (refl, (refl, tt))), (λ h. tt, tt)))

abbrev first_arrival : Arrival
first_arrival = record { frame = data_frame 0 (10 ∷ 11 ∷ []); writes = []; clears = true }

first_ack : (deliver_inbound first_arrival (new_reassembler 100)).ack ≡ some (2, false)
unfolding deliver_inbound push drain_to new_reassembler bytes_eq
first_ack = refl

-- Both carriers end, and a reset comes too late.
abbrev endings : List Event
endings = detached 1 false ∷ detached 2 false ∷ reset none true ∷ carrier_failed ∷ []

endings_claim : claims endings two_carriers ≡ 1
unfolding claims step detach claim_reset reset_after_carrier_failure exchange_complete
endings_claim = refl

claims-le-one_example : claims endings two_carriers ≤ 1
claims-le-one_example = claims-le-one endings two_carriers

abbrev ended : Flow
ended = record two_carriers {
  closed = true;
  terminal_err = some no_carriers;
  terminal_notify = true;
}

run-closed_example :
    ((run endings ended).closed ≡ true)
    × ((run endings ended).terminal_err ≡ some no_carriers)
    × ((run endings ended).terminal_notify ≡ true)
run-closed_example = run-closed endings ended refl
