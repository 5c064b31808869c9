-- ===== src/Tcpstream/Flow/History.antt =====
-- internal/tcpstream/stream.go: the replay history, its byte count, and pruning.
use engarde.Shared.{
  ℕ, ◌+◌, ◌-◌, ◌≡◌, refl, ap, inl, inr, List, [], ◌∷◌, Bool, false, arith, length, All, Bool-cases,
  if◌then◌else◌,
}
use engarde.Tcpstream.Flow.{
  Flow, ReplayFrame, CarrierState, global_acknowledged, prune_loop, prune_history,
}

-- The payload bytes in a history.
abbrev pub bytes_of : List ReplayFrame → ℕ
bytes_of [] = 0
bytes_of (item ∷ rest) = length item.frame.payload + bytes_of rest

-- flow.historyBytes is the number of payload bytes in flow.history.
abbrev pub IsCounted : Flow → Type 0
IsCounted flow = flow.history_bytes ≡ bytes_of flow.history

-- The entries that an acknowledgement leaves, in their order.
pub unacknowledged : ℕ → Bool → List ReplayFrame → List ReplayFrame
unacknowledged offset fin [] = []
unacknowledged offset fin (item ∷ rest) =
    let others = unacknowledged offset fin rest in
    if global_acknowledged offset fin item.frame then others else item ∷ others

pub prune_loop-unacknowledged :
    (offset : ℕ) (fin : Bool) (states : List CarrierState) (h : List ReplayFrame)
    → ((prune_loop offset fin states h).0 ≡ unacknowledged offset fin h)
      × ((prune_loop offset fin states h).1 + bytes_of (unacknowledged offset fin h) ≡ bytes_of h)
unfolding prune_loop unacknowledged
prune_loop-unacknowledged offset fin states [] = (refl, omega arith)
prune_loop-unacknowledged offset fin states (item ∷ rest) =
    let (kept, counted) = prune_loop-unacknowledged offset fin states rest in
    elim (Bool-cases (global_acknowledged offset fin item.frame)) [
      | inl e ↦ rw e (kept, omega arith)
      | inr e ↦ rw e (ap (◌∷◌ item) kept, omega arith)
    ]

-- Every entry left is not acknowledged.
abbrev pub AllOpen : ℕ → Bool → List ReplayFrame → Type 0
AllOpen offset fin = All (λ item. global_acknowledged offset fin item.frame ≡ false)

pub unacknowledged-AllOpen :
    (offset : ℕ) (fin : Bool) (h : List ReplayFrame)
    → AllOpen offset fin (unacknowledged offset fin h)
unfolding unacknowledged
unacknowledged-AllOpen offset fin [] = tt
unacknowledged-AllOpen offset fin (item ∷ rest) =
    elim (Bool-cases (global_acknowledged offset fin item.frame)) [
      | inl e ↦ rw e (unacknowledged-AllOpen offset fin rest)
      | inr e ↦ rw e (e, unacknowledged-AllOpen offset fin rest)
    ]

pub unacknowledged_open :
    (offset : ℕ) (fin : Bool) (h : List ReplayFrame)
    → AllOpen offset fin h
    → unacknowledged offset fin h ≡ h
unfolding unacknowledged
unacknowledged_open offset fin [] k = refl
unacknowledged_open offset fin (item ∷ rest) (e, k) =
    rw e (ap (◌∷◌ item) (unacknowledged_open offset fin rest k))

-- Pruning leaves the entries that are not acknowledged and counts what it lets go.
pub prune_history_lem :
    (flow : Flow)
    → IsCounted flow
    → ((prune_history flow).0 ≡ record flow {
      history = unacknowledged flow.global_ack_offset flow.global_ack_fin flow.history;
      history_bytes =
          bytes_of (unacknowledged flow.global_ack_offset flow.global_ack_fin flow.history);
    })
unfolding prune_history
prune_history_lem flow c =
    let (kept, counted) =
      prune_loop-unacknowledged flow.global_ack_offset flow.global_ack_fin flow.carrier_states
        flow.history in
    λ i. record flow { history = kept i; history_bytes = bytes i }
  where
    bytes :
        flow.history_bytes
          - (prune_loop flow.global_ack_offset flow.global_ack_fin flow.carrier_states
              flow.history).1
        ≡ bytes_of (unacknowledged flow.global_ack_offset flow.global_ack_fin flow.history)
    bytes = omega (
      arith,
      c,
      (prune_loop-unacknowledged flow.global_ack_offset flow.global_ack_fin flow.carrier_states
          flow.history).1,
    )
