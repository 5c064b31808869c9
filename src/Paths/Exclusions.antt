-- ===== src/Paths/Exclusions.antt =====
-- internal/path/path.go: what Include, Exclude, ToggleExclusion and ResetExclusions do to IsExcluded.
use engarde.Shared.{
  ℕ, List, [], ◌∷◌, Bool, true, false, not, Option, bytes_eq, bytes_eq→eq, bytes_eq_refl, ◌≡◌, refl,
  ap, ◌∙◌, inl, inr, Bool-cases, arith,
}
use engarde.Paths.{
  Manager, swapped, delete, toggle, toggle_exclusion, configured_out, is_excluded, include, exclude,
}

swapped-delete_self : (ss : List (List ℕ)) (name : List ℕ) → swapped (delete ss name) name ≡ false
unfolding swapped delete
swapped-delete_self [] name = refl
swapped-delete_self (s ∷ ss) name = ground (arith, swapped-delete_self ss name)

apart :
    (s name other : List ℕ)
    → bytes_eq s name ≡ true
    → bytes_eq name other ≡ false
    → bytes_eq s other ≡ false
apart s name other h k = ap (λ t. bytes_eq t other) (bytes_eq→eq s name h) ∙ k

swapped-delete_other :
    (ss : List (List ℕ)) (name other : List ℕ)
    → bytes_eq name other ≡ false
    → swapped (delete ss name) other ≡ swapped ss other
unfolding swapped delete
swapped-delete_other [] name other h = refl
swapped-delete_other (s ∷ ss) name other h = elim (Bool-cases (bytes_eq s name)) [
  | inl e ↦ ground (arith, swapped-delete_other ss name other h, apart s name other e h)
  | inr e ↦ ground (arith, swapped-delete_other ss name other h)
]

swapped-toggle :
    (name : List ℕ) (m : Manager) → swapped (toggle name m).swaps name ≡ not (swapped m.swaps name)
unfolding toggle
swapped-toggle name m = elim (Bool-cases (swapped m.swaps name)) [
  | inl e ↦ ground (arith, swapped-delete_self m.swaps name)
  | inr e ↦ unfold swapped in ground (arith, bytes_eq_refl name)
]

swapped-toggle_other :
    (name other : List ℕ) (m : Manager)
    → bytes_eq name other ≡ false
    → swapped (toggle name m).swaps other ≡ swapped m.swaps other
unfolding toggle
swapped-toggle_other name other m h = elim (Bool-cases (swapped m.swaps name)) [
  | inl e ↦ rw e (swapped-delete_other m.swaps name other h)
  | inr e ↦ rw e (unfold swapped in ground (arith, h))
]

module _ (match_name : List ℕ → List ℕ → Option Bool) where
  configured_out-toggle :
      (name other : List ℕ) (m : Manager)
      → configured_out match_name (toggle name m) other ≡ configured_out match_name m other
  unfolding toggle configured_out
  configured_out-toggle name other m = elim (Bool-cases (swapped m.swaps name)) [
    | inl e ↦ rw e refl
    | inr e ↦ rw e refl
  ]

  -- ToggleExclusion turns the answer of IsExcluded for the name over, and leaves the answers for all
  -- other names.
  pub toggle_lem :
      (name : List ℕ) (m : Manager)
      → (is_excluded match_name (toggle_exclusion name m).0 name
          ≡ not (is_excluded match_name m name))
        × ((other : List ℕ)
            → bytes_eq name other ≡ false
            → is_excluded match_name (toggle_exclusion name m).0 other
              ≡ is_excluded match_name m other)
  unfolding is_excluded toggle_exclusion
  toggle_lem name m = (
    ground (arith, swapped-toggle name m, configured_out-toggle name name m),
    λ other h.
        ground (arith, swapped-toggle_other name other m h, configured_out-toggle name other m),
  )

  -- After Include the name is not excluded, whatever it was before, and the answers for all other
  -- names are left.
  pub include_lem :
      (name : List ℕ) (m : Manager)
      → (is_excluded match_name (include match_name name m).0 name ≡ false)
        × ((other : List ℕ)
            → bytes_eq name other ≡ false
            → is_excluded match_name (include match_name name m).0 other
              ≡ is_excluded match_name m other)
  include_lem name m = elim (Bool-cases (is_excluded match_name m name)) [
    | inr out ↦ unfold include in rw out (out, λ other h. refl)
    | inl out ↦
        let (flips, others) = toggle_lem name m in
        unfold include in
        rw out (unfold toggle_exclusion in flips ∙ ap not out, unfold toggle_exclusion in others)
  ]

  -- After Exclude the name is excluded, whatever it was before, and the answers for all other names
  -- are left.
  pub exclude_lem :
      (name : List ℕ) (m : Manager)
      → (is_excluded match_name (exclude match_name name m).0 name ≡ true)
        × ((other : List ℕ)
            → bytes_eq name other ≡ false
            → is_excluded match_name (exclude match_name name m).0 other
              ≡ is_excluded match_name m other)
  exclude_lem name m = elim (Bool-cases (is_excluded match_name m name)) [
    | inl out ↦ unfold exclude in rw out (out, λ other h. refl)
    | inr out ↦
        let (flips, others) = toggle_lem name m in
        unfold exclude in
        rw out (unfold toggle_exclusion in flips ∙ ap not out, unfold toggle_exclusion in others)
  ]
