-- ===== src/Paths/Tests.antt =====
-- The theorems about interface selection, with patterns that match only themselves.
use engarde.Shared.{ℕ, List, [], ◌∷◌, Bool, true, false, not, Option, some, bytes_eq, ◌≡◌, refl}
use engarde.Paths.{Manager, is_excluded, toggle_exclusion}
use engarde.Paths.Exclusions.{toggle_lem}

abbrev same : List ℕ → List ℕ → Option Bool
same p name = some (bytes_eq p name)

abbrev wifi : List ℕ
wifi = b'w' ∷ b'l' ∷ b'0' ∷ []

-- Wifi is excluded by the configuration.
abbrev manager : Manager
manager = record {
  included = [];
  excluded = wifi ∷ [];
  labels = [];
  override = [];
  dst_addr = [];
  swaps = [];
}

wifi_out : is_excluded same manager wifi ≡ true
unfolding is_excluded bytes_eq
wifi_out = refl

toggle_lem_example :
    (is_excluded same (toggle_exclusion wifi manager).0 wifi ≡ not (is_excluded same manager wifi))
    × ((other : List ℕ)
        → bytes_eq wifi other ≡ false
        → is_excluded same (toggle_exclusion wifi manager).0 other ≡ is_excluded same manager other)
toggle_lem_example = toggle_lem same wifi manager
