-- ===== src/Tcpstream/Carrier/Tests.antt =====
-- Three acknowledgements on a carrier that sends none of them in between.
use engarde.Shared.{ℕ, [], ◌∷◌, false, none, some, All, ◌≡◌, refl, replicate}
use engarde.Tcpstream.Frame.{Frame, frame_ack, server_to_client}
use engarde.Tcpstream.Carrier.{Carrier, enqueue_acks}
use engarde.Tcpstream.Carrier.Merging.{IsNoLater, Among, enqueue_acks_merged}

abbrev ack : ℕ → ℕ → Frame
ack offset fin = record {
  type_code = frame_ack;
  direction = server_to_client;
  stream_id = replicate 16 7;
  offset = offset;
  payload = fin ∷ [];
}

abbrev open_carrier : Carrier
open_carrier = record {
  closing = false;
  preserve_read = false;
  done = false;
  pending_ack = none;
  ack_ready = false;
  enqueues = 0;
}

enqueue_acks_merged_example :
    (g : Frame) × ((enqueue_acks (ack 3 0 ∷ ack 9 1 ∷ ack 9 0 ∷ []) open_carrier).pending_ack
      ≡ some g)
    × All (λ x. IsNoLater x g) (ack 3 0 ∷ ack 9 1 ∷ ack 9 0 ∷ [])
    × Among g (ack 3 0 ∷ ack 9 1 ∷ ack 9 0 ∷ [])
enqueue_acks_merged_example =
    enqueue_acks_merged (ack 3 0) (ack 9 1 ∷ ack 9 0 ∷ []) open_carrier refl refl refl
