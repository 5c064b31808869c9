-- ===== src/Clientrole/Tests.antt =====
-- The theorems about the client at a few events.
use engarde.Shared.{
  ◌*◌, ◌+◌, ◌-◌, ◌/◌, arith, ◌≤◌, ◌≡◌, refl, [], ◌∷◌, ◌++◌, true, false, none, some,
}
use engarde.Wire.{no_carriers, open_rejected}
use engarde.Clientrole.Backoff.{
  meant, failures, next_retry, apply_jitter, tcp_session_retry_max_delay, tcp_session_retry_delay,
  apply_jitter-next_retry,
}
use engarde.Clientrole.PathSession.{PathSession, new_path_session, dialling, gives, reconcile, work}
use engarde.Clientrole.PathSession.Owner.{IsOwned, created, goes, works, Life-IsOwned}
use engarde.Clientrole.PathSession.Phases.{phase, Move, Step-Move}
use engarde.Clientrole.Group.{
  Group, new_group, Findings, attach, fail_open, record_open_error, preferred_open_error,
}
use engarde.Clientrole.Group.Opening as Opening
use engarde.Clientrole.Group.Opening.{Life-IsSeen}
use engarde.Clientrole.Group.Seen.{IsSeen, count, is_success, is_unsure}
use engarde.Clientrole.Group.Preferred.{preference, IsChoice, preferred_open_error-IsChoice}
use engarde.Clientrole.Slot.{Slot, Attempt, new_slot, reconciles, retries, waits, attempts}
use engarde.Clientrole.Slot.Rejected.{IsRejected, attempts-IsRejected}

drawn : 80000000 ≤ 2 * ((next_retry (failures 2)).0 / 5)
unfolding next_retry failures tcp_session_retry_delay
drawn = omega arith

apply_jitter-next_retry_example :
    (meant 2 - meant 2 / 5 ≤ apply_jitter (next_retry (failures 2)).0 80000000)
    × (apply_jitter (next_retry (failures 2)).0 80000000 ≤ meant 2 + meant 2 / 5)
    × (apply_jitter (next_retry (failures 2)).0 80000000 ≤ tcp_session_retry_max_delay)
apply_jitter-next_retry_example = apply_jitter-next_retry 2 80000000 drawn

-- A path session that is created, dials, and serves the session 7.
abbrev serving : PathSession
serving =
    work true (dialling 1) (gives 7) (record (reconcile true new_path_session) { workers = [] })

one_dials : (reconcile true new_path_session).workers ≡ [] ++ (dialling 1 ∷ [])
unfolding reconcile
one_dials = refl

Life-IsOwned_example : IsOwned serving
Life-IsOwned_example =
    Life-IsOwned (goes (created true) (works true (dialling 1) (gives 7) [] [] one_dials))

-- An attempt that is attached, and one that comes too late.
abbrev found : Findings
found = record {
  valid_before = true;
  flow_takes = true;
  valid_attached = true;
  done_attached = false;
  commit_error = none;
  done_committed = false;
  valid_after = true;
}

abbrev opened : Group
opened = fail_open no_carriers (attach found (record_open_error (open_rejected 2) new_group))

Life-IsSeen_example :
    IsSeen opened × (count is_success opened.effects + count is_unsure opened.effects ≤ 1)
Life-IsSeen_example = Life-IsSeen (
    Opening.goes
      (Opening.goes (Opening.goes Opening.created (Opening.attempt_fails (open_rejected 2)))
        (Opening.attempt_opens found))
      (Opening.opening_fails no_carriers))

abbrev refused_twice : Group
refused_twice = record new_group {
  open_results = false ∷ true ∷ true ∷ false ∷ false ∷ false ∷ false ∷ [];
}

preferred_open_error-IsChoice_example :
    IsChoice preference refused_twice.open_results no_carriers
      (preferred_open_error no_carriers refused_twice)
preferred_open_error-IsChoice_example = preferred_open_error-IsChoice no_carriers refused_twice

abbrev attempt : Attempt
attempt = record { path = 3; session = 7; generation = 1 }

abbrev rejected_slot : Slot
rejected_slot = record (new_slot 3) { session = some 7; generation = 1; open_rejected = true }

rejected_slot-IsRejected : IsRejected attempt rejected_slot
rejected_slot-IsRejected = record { same_session = refl; rejected = refl; not_in_flight = refl }

attempts-IsRejected_example :
    attempts attempt
      (reconciles false true
        ∷ retries false false true true attempt
        ∷ waits false false attempt
        ∷ reconciles false true
        ∷ [])
      rejected_slot
    ≡ 0
attempts-IsRejected_example =
    attempts-IsRejected attempt
      (reconciles false true
        ∷ retries false false true true attempt
        ∷ waits false false attempt
        ∷ reconciles false true
        ∷ [])
      rejected_slot rejected_slot-IsRejected

Step-Move_example : Move (phase (reconcile true new_path_session)) (phase serving)
Step-Move_example = Step-Move (created true) (works true (dialling 1) (gives 7) [] [] one_dials)
