-- ===== src/Paths.antt =====
-- internal/path/path.go: which network interfaces are used. The mutex makes each method one step.
-- path.Match is the parameter `match_name`, whose `none` is its error; net.ParseIP and the test of a
-- subnet are parameters of is_address_allowed.
pub mod Exclusions
pub mod Tests
use engarde.Shared.{
  ℕ, List, [], ◌∷◌, ◌++◌, Bool, true, false, not, ◌&&◌, ◌||◌, Option, none, some, ltb,
  if◌then◌else◌, length, bytes_eq,
}
use engarde.Config.{Client, DstOverride}

-- The result of Include, Exclude, ToggleExclusion and ResetExclusions.
pub data Reply : Type 0 where
  done already_included already_excluded : Reply

-- `swaps` is the keys of the map, all of whose values are true.
pub record Manager : Type 0 where
  pub included : List (List ℕ)
  pub excluded : List (List ℕ)
  pub labels : List (List ℕ × List ℕ)
  pub override : List (List ℕ × List ℕ)
  pub dst_addr : List ℕ
  pub swaps : List (List ℕ)

-- A later entry of the same name replaces an earlier one: it is put in front.
overrides_of : List DstOverride → List (List ℕ × List ℕ) → List (List ℕ × List ℕ)
overrides_of [] entries = entries
overrides_of (o ∷ os) entries = overrides_of os ((o.if_name, o.dst_addr) ∷ entries)

unfoldable pub new_manager : Client → Manager
unfolding overrides_of
new_manager client = record {
  included = client.include_interfaces;
  excluded = client.excluded_interfaces;
  labels = client.interface_labels;
  override = overrides_of client.dst_overrides [];
  dst_addr = client.dst_addr;
  swaps = [];
}

unfoldable pub swapped : List (List ℕ) → List ℕ → Bool
swapped [] name = false
swapped (s ∷ ss) name = bytes_eq s name || swapped ss name

unfoldable pub delete : List (List ℕ) → List ℕ → List (List ℕ)
delete [] name = []
delete (s ∷ ss) name = let rest = delete ss name in if bytes_eq s name then rest else s ∷ rest

-- The value at a key, if there is one.
lookup : List (List ℕ × List ℕ) → List ℕ → Option (List ℕ)
lookup [] name = none
lookup ((key, value) ∷ entries) name =
    let rest = lookup entries name in if bytes_eq key name then some value else rest

-- toggleLocked and ToggleExclusion.
unfoldable pub toggle : List ℕ → Manager → Manager
unfolding swapped delete
toggle name manager =
    if swapped manager.swaps name
    then record manager { swaps = delete manager.swaps name }
    else record manager { swaps = name ∷ manager.swaps }

unfoldable pub toggle_exclusion : List ℕ → Manager → Manager × Reply
unfolding toggle
toggle_exclusion name manager = (toggle name manager, done)

unfoldable pub reset_exclusions : Manager → Manager × Reply
reset_exclusions manager = (record manager { swaps = [] }, done)

or_empty : Option (List ℕ) → List ℕ → List ℕ
or_empty none value = value
or_empty (some found) value = found

unfoldable pub label : Manager → List ℕ → List ℕ
unfolding lookup or_empty
label manager name = or_empty (lookup manager.labels name) []

unfoldable pub destination : Manager → List ℕ → List ℕ
unfolding lookup or_empty
destination manager name = or_empty (lookup manager.override name) manager.dst_addr

module _ (match_name : List ℕ → List ℕ → Option Bool) where
  matched : Option Bool → Bool
  matched none = false
  matched (some m) = m

  unfoldable pub matches_interface : List (List ℕ) → List ℕ → Bool
  unfolding matched
  matches_interface [] name = false
  matches_interface (p ∷ ps) name = matched (match_name p name) || matches_interface ps name

  -- What the patterns of the configuration say.
  unfoldable pub configured_out : Manager → List ℕ → Bool
  unfolding matches_interface
  configured_out manager name =
      (ltb 0 (length manager.included) && not (matches_interface manager.included name))
      || matches_interface manager.excluded name

  unfoldable pub is_excluded : Manager → List ℕ → Bool
  unfolding configured_out swapped
  is_excluded manager name =
      if swapped manager.swaps name
      then not (configured_out manager name)
      else configured_out manager name

  unfoldable pub include : List ℕ → Manager → Manager × Reply
  unfolding is_excluded toggle
  include name manager =
      if not (is_excluded manager name)
      then (manager, already_included)
      else (toggle name manager, done)

  unfoldable pub exclude : List ℕ → Manager → Manager × Reply
  unfolding is_excluded toggle
  exclude name manager =
      if is_excluded manager name then (manager, already_excluded) else (toggle name manager, done)

-- IsAddressAllowed: `parses` is net.ParseIP, `within` whether a subnet contains the address.
module _ (parses : List ℕ → Bool) (within : ℕ → List ℕ → Bool) (has_colon : List ℕ → Bool) where
  -- 0 stands for 169.254.0.0/16 and 1 for 127.0.0.0/8, both of which net.ParseCIDR takes.
  unfoldable pub is_address_allowed : List ℕ → Bool
  is_address_allowed address =
      not (has_colon address) && parses address && not (within 0 address) && not (within 1 address)

  first_allowed : List (List ℕ) → List ℕ
  unfolding is_address_allowed
  first_allowed [] = []
  first_allowed (a ∷ more) =
      let rest = first_allowed more in if is_address_allowed a then a else rest

  -- AddressByInterface, over the texts before the `/` of the interface's addresses.
  unfoldable pub address_by_interface : Option (List (List ℕ)) → List ℕ
  unfolding first_allowed
  address_by_interface none = []
  address_by_interface (some addresses) = first_allowed addresses
