-- ===== src/Clientrole/Slot.antt =====
-- internal/clientrole/tcp_group.go: tcpFlowSlot, the place of a flow's carrier on one path. Paths, sessions and carriers
-- are known by numbers. `blocked` is that the group is closed or has failed, or that its flow is done;
-- `starts` is that the runtime starts the worker.
pub mod Rejected
use engarde.Shared.{
  ℕ, zero, suc, ◌≡◌, List, [], ◌∷◌, Bool, true, false, not, ◌&&◌, ◌||◌, Option, none, some, ◌==◌,
  ◌!=◌, if◌then◌else◌,
}
use engarde.Clientrole.Backoff.{next_retry}

pub record Slot : Type 0 where
  pub path : ℕ
  pub session : Option ℕ
  pub generation : ℕ
  pub carrier : Option ℕ
  pub in_flight : Bool
  pub retrying : Bool
  pub retry_count : ℕ
  pub open_rejected : Bool

-- &tcpFlowSlot{path: path}.
abbrev pub new_slot : ℕ → Slot
new_slot path = record {
  path = path;
  session = none;
  generation = 0;
  carrier = none;
  in_flight = false;
  retrying = false;
  retry_count = 0;
  open_rejected = false;
}

-- What a worker knows its attempt by.
pub record Attempt : Type 0 where
  pub path : ℕ
  pub session : ℕ
  pub generation : ℕ

abbrev pub holds : ℕ → Option ℕ → Bool
holds n none = false
holds n (some m) = m == n

abbrev pub is_some : Option ℕ → Bool
is_some none = false
is_some (some n) = true

unfoldable pub is_attempt : Attempt → Slot → Bool
is_attempt a s = s.path == a.path && holds a.session s.session && s.generation == a.generation

-- validOpenAttemptLocked and flowDoneLocked.
unfoldable pub valid_open_attempt : Bool → Attempt → Slot → Bool
unfolding is_attempt
valid_open_attempt blocked a s = not blocked && is_attempt a s && s.in_flight

unfoldable pub finish_open_attempt : Attempt → Slot → Slot
unfolding is_attempt
finish_open_attempt a s = if is_attempt a s then record s { in_flight = false } else s

unfoldable pub reject_open_attempt : Attempt → Slot → Slot
unfolding is_attempt
reject_open_attempt a s =
    if is_attempt a s then record s { in_flight = false; open_rejected = true } else s

-- reconcile with the session of the path, `a`: whether an attempt begins. An old carrier is closed.
unfoldable pub reconcile_slot : Bool → Bool → Attempt → Slot → Slot × Bool
unfolding finish_open_attempt
reconcile_slot blocked starts a s =
    let same = holds a.session s.session && s.generation == a.generation in
    let begun : Slot = record s {
      carrier = none;
      session = some a.session;
      generation = a.generation;
      in_flight = true;
      retrying = same && s.retrying;
      retry_count = if same then s.retry_count else zero;
      open_rejected = same && s.open_rejected;
    } in
    if blocked || s.path != a.path
    then (s, false)
    else if is_some s.carrier && same
    then (s, false)
    else if same && (s.in_flight || s.retrying || s.open_rejected)
    then (s, false)
    else if starts
    then (begun, true)
    else (finish_open_attempt a begun, false)

-- The end of attach, and of removeCarrier.
unfoldable pub attach_carrier : Bool → Attempt → ℕ → Slot → Slot
unfolding valid_open_attempt
attach_carrier blocked a n s =
    if valid_open_attempt blocked a s
    then record s { carrier = some n; in_flight = false; open_rejected = false }
    else s

unfoldable pub remove_carrier : Attempt → ℕ → Slot → Slot × Bool
unfolding is_attempt
remove_carrier a n s =
    if is_attempt a s && holds n s.carrier then (record s { carrier = none }, true) else (s, false)

-- retry; `over` is that the session is closed.
unfoldable pub retry_slot : Bool → Bool → Bool → Bool → Attempt → Slot → Slot
unfolding is_attempt next_retry
retry_slot blocked over starts reset a s =
    let retry_count = if reset then zero else s.retry_count in
    if blocked || not (is_attempt a s) || is_some s.carrier || over
    then s
    else if s.retrying
    then record s { in_flight = false; retry_count = retry_count }
    else record s { in_flight = false; retry_count = (next_retry retry_count).1; retrying = starts }

-- waitToRetry after the delay: whether it goes on to reconcile.
unfoldable pub retry_wait_ends : Bool → Bool → Attempt → Slot → Slot × Bool
unfolding is_attempt
retry_wait_ends blocked over a s =
    if blocked || not (is_attempt a s) || not s.retrying || is_some s.carrier || over
    then (s, false)
    else (record s { retrying = false }, true)

-- What happens to a slot, `current` being the session of its path.
pub data SlotEvent : Type 0 where
  reconciles : Bool → Bool → SlotEvent
  finishes rejects : Attempt → SlotEvent
  attaches : Bool → Attempt → ℕ → SlotEvent
  removes : Attempt → ℕ → SlotEvent
  retries : Bool → Bool → Bool → Bool → Attempt → SlotEvent
  waits : Bool → Bool → Attempt → SlotEvent

unfoldable pub slot_step : Attempt → SlotEvent → Slot → Slot × Bool
unfolding reconcile_slot attach_carrier remove_carrier retry_slot retry_wait_ends
    reject_open_attempt finish_open_attempt
slot_step current (reconciles blocked starts) s = reconcile_slot blocked starts current s
slot_step current (finishes a) s = (finish_open_attempt a s, false)
slot_step current (rejects a) s = (reject_open_attempt a s, false)
slot_step current (attaches blocked a n) s = (attach_carrier blocked a n s, false)
slot_step current (removes a n) s = ((remove_carrier a n s).0, false)
slot_step current (retries blocked over starts reset a) s =
    (retry_slot blocked over starts reset a s, false)
slot_step current (waits blocked over a) s = ((retry_wait_ends blocked over a s).0, false)

-- How many attempts begin.
unfoldable pub attempts : Attempt → List SlotEvent → Slot → ℕ
unfolding slot_step
attempts current [] s = 0
attempts current (e ∷ events) s =
    let next = slot_step current e s in
    let rest = attempts current events next.0 in if next.1 then suc rest else rest
