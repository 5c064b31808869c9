-- ===== src/Clientrole/Group/Preferred.antt =====
-- internal/clientrole/tcp_group.go: which of the recorded rejections is reported.
use engarde.Shared.{
  ℕ, ◌≡◌, refl, ap, List, [], ◌∷◌, ◌++◌, Bool, true, false, All, get_or, if-cases, inl, inr, ◌⊎◌,
}
use engarde.Wire.{Error, open_rejected}
use engarde.Clientrole.Group.{Group, first_result, preferred_open_error}

-- The results in the order of preference, and what the choice among them has to be.
abbrev pub preference : List ℕ
preference = 6 ∷ 2 ∷ 4 ∷ 3 ∷ 5 ∷ 1 ∷ []

pub record IsPreferred (rs : List ℕ) (found : List Bool) (chosen : ℕ) : Type 0 where
  before : List ℕ
  after : List ℕ
  position : rs ≡ before ++ (chosen ∷ after)
  recorded : get_or found chosen false ≡ true
  none_before : All (λ r. get_or found r false ≡ false) before

abbrev pub IsChoice : List ℕ → List Bool → Error → Error → Type 0
IsChoice rs found fallback e =
    ((e ≡ fallback) × All (λ r. get_or found r false ≡ false) rs)
    ⊎ ((r : ℕ) × (e ≡ open_rejected r) × IsPreferred rs found r)

first_result-IsChoice :
    (rs : List ℕ) (found : List Bool) (fallback : Error)
    → IsChoice rs found fallback (first_result rs found fallback)
unfolding first_result
first_result-IsChoice [] found fallback = inl (refl, tt)
first_result-IsChoice (r ∷ rs) found fallback =
    if-cases (IsChoice (r ∷ rs) found fallback) (get_or found r false)
      (λ here. inr (
        r,
        refl,
        record { before = []; after = rs; position = refl; recorded = here; none_before = tt },
      ))
      (λ absent. elim (first_result-IsChoice rs found fallback) [
        | inl (same, none_found) ↦ inl (same, (absent, none_found))
        | inr (c, e, p) ↦ inr (
          c,
          e,
          record {
            before = r ∷ p.before;
            after = p.after;
            position = ap (λ t. r ∷ t) p.position;
            recorded = p.recorded;
            none_before = (absent, p.none_before);
          },
        )
      ])

-- The error that a failed opening reports in place of the lack of carriers is a rejection that an attempt
-- was given, the first of them in the order of preference; only where none was given is it the
-- fallback.
pub preferred_open_error-IsChoice :
    (fallback : Error) (g : Group)
    → IsChoice preference g.open_results fallback (preferred_open_error fallback g)
unfolding preferred_open_error
preferred_open_error-IsChoice fallback g = first_result-IsChoice preference g.open_results fallback
