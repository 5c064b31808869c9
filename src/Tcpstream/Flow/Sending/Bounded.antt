-- ===== src/Tcpstream/Flow/Sending/Bounded.antt =====
-- internal/tcpstream/stream.go: remember keeps the history within the reorder window.
use engarde.Shared.{
  ℕ, ◌+◌, ◌≤◌, ◌<◌, ◌≡◌, refl, sym, ap, ◌∙◌, inl, inr, List, [], ◌∷◌, ◌++◌, true, false, arith,
  length, Bool-cases, if◌then◌else◌,
}
use mathlib.Core.Path.{subst}
use engarde.Tcpstream.Frame.{Frame}
use engarde.Tcpstream.Flow.{Flow, ReplayFrame, prune_history}
use engarde.Tcpstream.Flow.History.{bytes_of, IsCounted, prune_history_lem, unacknowledged}
use engarde.Tcpstream.Flow.Sending.{
  Remembered, stores, refuses, waits, store, is_gone, is_over, remember,
}

bytes-append : (xs ys : List ReplayFrame) → bytes_of (xs ++ ys) ≡ bytes_of xs + bytes_of ys
bytes-append [] ys = omega arith
bytes-append (x ∷ xs) ys = omega (arith, bytes-append xs ys)

-- What is stored: the entry is last, under the sequence number that was next.
pub record Stores (frame : Frame) (flow : Flow) (n : ℕ) (flow' : Flow) : Type 0 where
  pub counted : IsCounted flow'
  pub bounded : 0 < flow.window → flow'.history_bytes ≤ flow.window
  pub numbered : n ≡ flow.next_sequence
  pub alive : is_gone flow ≡ false
  pub last :
      (kept : List ReplayFrame) × (flow'.history
        ≡ kept ++ (record { sequence = n; frame = frame } ∷ []))

-- The result of remember, whichever it is.
abbrev pub Remembers : Frame → Flow → Remembered → Type 0
Remembers frame flow (stores n flow') = Stores frame flow n flow'
Remembers frame flow (refuses flow') = (is_gone flow ≡ true) × IsCounted flow'
Remembers frame flow (waits flow') =
    (is_gone flow ≡ false)
    × IsCounted flow'
    × (flow.window < flow'.history_bytes + length frame.payload)

store-Remembers :
    (frame : Frame) (flow g : Flow)
    → IsCounted g
    → is_over g frame ≡ false
    → is_gone flow ≡ false
    → g.window ≡ flow.window
    → g.next_sequence ≡ flow.next_sequence
    → Remembers frame flow (store frame g)
unfolding store
store-Remembers frame flow g c o gone w n = record {
  counted = omega (
    arith,
    c,
    bytes-append g.history (record { sequence = g.next_sequence; frame = frame } ∷ []),
  );
  bounded = λ h. fits (omega arith);
  numbered = n;
  alive = gone;
  last = (g.history, refl);
}
  where
    fits : 0 < g.window → g.history_bytes + length frame.payload ≤ flow.window
    fits h = unfold is_over in ground arith

remember-Remembers_at :
    (frame : Frame) (flow g : Flow)
    → IsCounted flow
    → IsCounted g
    → is_gone g ≡ is_gone flow
    → g.window ≡ flow.window
    → g.next_sequence ≡ flow.next_sequence
    → Remembers frame flow (
        if is_over flow frame
        then (if is_over g frame
            then (if is_gone g then refuses g else waits g)
            else if is_gone g
            then refuses g
            else store frame g)
        else if is_gone flow
        then refuses flow
        else store frame flow)
remember-Remembers_at frame flow g c c' same w n = elim (Bool-cases (is_over flow frame)) [
  | inl over ↦ elim (Bool-cases (is_over g frame)) [
    | inl still ↦ elim (Bool-cases (is_gone flow)) [
      | inl gone ↦ rw (over, still, same, gone) (gone, c')
      | inr live ↦ rw (over, still, same, live) (live, c', unfold is_over in ground arith)
    ]
    | inr fits ↦ elim (Bool-cases (is_gone flow)) [
      | inl gone ↦ rw (over, fits, same, gone) (gone, c')
      | inr live ↦ rw (over, fits, same, live) (store-Remembers frame flow g c' fits live w n)
    ]
  ]
  | inr fits ↦ elim (Bool-cases (is_gone flow)) [
    | inl gone ↦ rw (fits, gone) (gone, c)
    | inr live ↦ rw (fits, live) (store-Remembers frame flow flow c fits live refl refl)
  ]
]

-- remember stores a frame only in a Flow that is open and has carriers, and then the history stays
-- counted and, with a window, within it, and the frame is its last entry, with the next sequence
-- number; it refuses only if the Flow is closed or has no carriers, and waits only if it is not so and
-- the frame does not fit.
pub remember-Remembers :
    (frame : Frame) (flow : Flow) → IsCounted flow → Remembers frame flow (remember frame flow)
unfolding remember
remember-Remembers frame flow c =
    let left = unacknowledged flow.global_ack_offset flow.global_ack_fin flow.history in
    let g : Flow = record flow { history = left; history_bytes = bytes_of left } in
    let pruned = prune_history_lem flow c in
    remember-Remembers_at frame flow (prune_history flow).0 c (subst IsCounted (sym pruned) refl)
      (ap is_gone pruned ∙ (unfold is_gone in refl)) (ap (λ (t : Flow). t.window) pruned)
      (ap (λ (t : Flow). t.next_sequence) pruned)
