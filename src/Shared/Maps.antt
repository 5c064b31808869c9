-- ===== src/Shared/Maps.antt =====
-- Go maps as lists of entries. A key has at most one entry that `get` sees; `put` replaces it in place.
pub mod Laws
use Prim.Native.Nat.{ℕ, ◌+◌, ◌≤◌, ◌<◌}
use mathlib.Core.Path.{◌≡◌, refl, sym, ap, ◌∙◌}
use mathlib.Core.Logic.{◌↔◌, inl, inr}
use mathlib.Core.Bool.{Bool, true, false}
use mathlib.Core.Option.{Option, none, some}
use mathlib.Core.List.{List, [], ◌∷◌, ◌++◌}
use native.Mathlib.Omega.{arith}
use engarde.Shared.Tests.{◌==◌, bytes_eq, bytes_eq→eq, bytes_eq_refl, Bool-cases, if◌then◌else◌}
use engarde.Shared.Lists.{length}

-- Equality of keys, as a test.
pub record Key (K : Type 0) : Type 0 where
  pub same : K → K → Bool
  pub same_iff : (a b : K) → (same a b ≡ true) ↔ (a ≡ b)

pub ==_iff : (a b : ℕ) → ((a == b) ≡ true) ↔ (a ≡ b)
==_iff a b = (λ h. ground arith, λ h. ground arith)

-- A number stands for a pointer.
instance abbrev pub number_key : Key ℕ
number_key = record { same = ◌==◌; same_iff = ==_iff }

pub bytes_eq_iff : (a b : List ℕ) → (bytes_eq a b ≡ true) ↔ (a ≡ b)
bytes_eq_iff a b = (bytes_eq→eq a b, λ h. ap (bytes_eq a) (sym h) ∙ bytes_eq_refl a)

-- A string, or the 16 bytes of a StreamID.
instance abbrev pub bytes_key : Key (List ℕ)
bytes_key = record { same = bytes_eq; same_iff = bytes_eq_iff }

pub same_refl : {K : Type 0} ⦃key : Key K⦄ (k : K) → key.same k k ≡ true
same_refl ⦃key⦄ k = (key.same_iff k k).1 refl

module _ {K : Type 0} ⦃key : Key K⦄ {V : Type 0} where
  abbrev pub entry : List (K × V) → K → Option V
  entry [] k = none
  entry ((a, v) ∷ m) k = if key.same a k then some v else entry m k

  abbrev pub put_entry : K → V → List (K × V) → List (K × V)
  put_entry k w [] = (k, w) ∷ []
  put_entry k w ((a, v) ∷ m) = if key.same a k then (a, w) ∷ m else (a, v) ∷ put_entry k w m

  abbrev pub delete_entry : K → List (K × V) → List (K × V)
  delete_entry k [] = []
  delete_entry k ((a, v) ∷ m) = if key.same a k then delete_entry k m else (a, v) ∷ delete_entry k m

  pub entry-put_entry : (k : K) (w : V) (m : List (K × V)) → entry (put_entry k w m) k ≡ some w
  entry-put_entry k w [] = rw (same_refl k) refl
  entry-put_entry k w ((a, v) ∷ m) = elim (Bool-cases (key.same a k)) [
    | inl e ↦ rw e (rw e refl)
    | inr e ↦ rw e (rw e (entry-put_entry k w m))
  ]

  -- The same assignment, with the entry behind all others.
  unfoldable pub put_last : K → V → List (K × V) → List (K × V)
  put_last k w m = delete_entry k m ++ ((k, w) ∷ [])

  abbrev pub keys : List (K × V) → List K
  keys [] = []
  keys ((a, v) ∷ m) = a ∷ keys m

  abbrev pub IsDistinct : List (K × V) → Type 0
  IsDistinct [] = Unit {0}
  IsDistinct ((a, v) ∷ m) = (entry m a ≡ none) × IsDistinct m

-- Sets of keys, as the keys of a map.
module _ {K : Type 0} ⦃key : Key K⦄ where
  abbrev pub has_key : K → List K → Bool
  has_key k [] = false
  has_key k (a ∷ s) = if key.same a k then true else has_key k s

  abbrev pub remove_key : K → List K → List K
  remove_key k [] = []
  remove_key k (a ∷ s) = if key.same a k then remove_key k s else a ∷ remove_key k s
