-- ===== src/Tcpstream/Carrier.antt =====
-- internal/tcpstream/carrier.go: the acknowledgement that waits to be sent on a carrier. The locks make
-- each function one step; that writeLoop has been woken is `ack_ready`, the buffer of the channel.
pub mod Merging
pub mod Tests
use engarde.Shared.{
  ℕ, suc, List, [], ◌∷◌, Bool, true, false, not, ◌&&◌, ◌||◌, Option, none, some, ltb, ◌==◌,
  if◌then◌else◌,
}
use engarde.Tcpstream.Frame.{Frame}
use engarde.Tcpstream.Flow.Lifecycle.{ack_has_fin}

-- `done` is whether the channel of that name is closed, `enqueues` the counter of enqueueWG.
pub record Carrier : Type 0 where
  pub closing : Bool
  pub preserve_read : Bool
  pub done : Bool
  pub pending_ack : Option Frame
  pub ack_ready : Bool
  pub enqueues : ℕ

unfoldable pub preserves_inbound : Carrier → Bool
preserves_inbound carrier = carrier.closing && carrier.preserve_read

unfoldable pub later_ack : Frame → Frame → Frame
later_ack current next =
    if ltb next.offset current.offset || (current.offset == next.offset && ack_has_fin current)
    then current
    else next

pub merge_ack : Option Frame → Frame → Frame
unfolding later_ack
merge_ack none frame = frame
merge_ack (some current) frame = later_ack current frame

-- enqueueAck: the state, and what it returns. Its call of beginEnqueue is undone before it returns.
unfoldable pub enqueue_ack : Frame → Carrier → Carrier × Bool
unfolding merge_ack
enqueue_ack frame carrier = if carrier.closing || carrier.done then (carrier, false) else (
  record carrier { pending_ack = some (merge_ack carrier.pending_ack frame); ack_ready = true },
  true,
)

unfoldable pub take_pending_ack : Carrier → Carrier × Option Frame
take_pending_ack carrier = (record carrier { pending_ack = none }, carrier.pending_ack)

unfoldable pub begin_enqueue : Carrier → Carrier × Bool
begin_enqueue carrier =
    if carrier.closing
    then (carrier, false)
    else (record carrier { enqueues = suc carrier.enqueues }, true)

-- A sequence of acknowledgements between two calls of takePendingAck.
unfoldable pub enqueue_acks : List Frame → Carrier → Carrier
unfolding enqueue_ack
enqueue_acks [] carrier = carrier
enqueue_acks (f ∷ fs) carrier = enqueue_acks fs (enqueue_ack f carrier).0
