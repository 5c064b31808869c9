-- ===== src/Stats/Tests.antt =====
-- The counters after a few calls, of which one wraps.
use engarde.Shared.{List, [], ◌∷◌, ◌-◌, ◌^◌}
use engarde.Shared.Int.{pos, negsuc}
use engarde.Stats.{Counters, new_counters, Call, rx, drops, run}
use engarde.Stats.Totals.{CountsAll, run-CountsAll}

abbrev nearly_full : Counters
nearly_full = record new_counters { rx_bytes = 2 ^ 64 - 2 }

abbrev calls : List Call
calls = rx (pos 5) ∷ drops (negsuc 3) ∷ rx (pos 1) ∷ []

run-CountsAll_example : CountsAll nearly_full (run calls nearly_full) calls
run-CountsAll_example = run-CountsAll calls nearly_full
