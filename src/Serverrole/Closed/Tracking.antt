-- ===== src/Serverrole/Closed/Tracking.antt =====
-- internal/serverrole/tcp.go: the bookkeeping of closed streams keeps its order and its bound.
use engarde.Shared.{
  ℕ, suc, ◌≡◌, ◌≤◌, ◌<◌, refl, sym, ap, ◌∙◌, List, [], ◌∷◌, ◌++◌, true, false, none, length,
  Bool-cases, ◌⊎◌, inl, inr, arith, if◌then◌else◌,
}
use mathlib.Core.Path.{subst}
use engarde.Shared.Maps.{
  bytes_key, same_refl, entry, delete_entry, has_key, remove_key, keys, IsDistinct,
}
use engarde.Shared.Maps.Laws.{entry-delete_entry-none, keys-delete_entry, delete_entry-IsDistinct}
use engarde.Serverrole.Closed.{ClosedStreams, remove_closed}

-- No entry expires before `t`, and none after it.
abbrev pub AllFrom : ℕ → List (List ℕ × ℕ) → Type 0
AllFrom t [] = Unit {0}
AllFrom t ((id, v) ∷ m) = (t ≤ v) × AllFrom t m

abbrev pub AllUntil : ℕ → List (List ℕ × ℕ) → Type 0
AllUntil t [] = Unit {0}
AllUntil t ((id, v) ∷ m) = (v ≤ t) × AllUntil t m

-- The entries stand in the order of their expiry.
abbrev pub IsSorted : List (List ℕ × ℕ) → Type 0
IsSorted [] = Unit {0}
IsSorted ((id, v) ∷ m) = AllFrom v m × IsSorted m

-- The order is the keys of the map, oldest first; an id has one entry.
pub record IsTracked (s : ClosedStreams) : Type 0 where
  pub order_keys : s.order ≡ keys s.closed
  pub distinct : IsDistinct s.closed
  pub sorted : IsSorted s.closed

pub length-keys : (m : List (List ℕ × ℕ)) → length (keys m) ≡ length m
length-keys [] = refl
length-keys ((id, v) ∷ m) = ap suc (length-keys m)

delete_entry-AllFrom :
    (id : List ℕ) (t : ℕ) (m : List (List ℕ × ℕ)) → AllFrom t m → AllFrom t (delete_entry id m)
delete_entry-AllFrom id t [] h = tt
delete_entry-AllFrom id t ((a, v) ∷ m) (le, h) = elim (Bool-cases (bytes_key.same a id)) [
  | inl e ↦ rw e (delete_entry-AllFrom id t m h)
  | inr e ↦ rw e (le, delete_entry-AllFrom id t m h)
]

pub delete_entry-AllUntil :
    (id : List ℕ) (t : ℕ) (m : List (List ℕ × ℕ)) → AllUntil t m → AllUntil t (delete_entry id m)
delete_entry-AllUntil id t [] h = tt
delete_entry-AllUntil id t ((a, v) ∷ m) (le, h) = elim (Bool-cases (bytes_key.same a id)) [
  | inl e ↦ rw e (delete_entry-AllUntil id t m h)
  | inr e ↦ rw e (le, delete_entry-AllUntil id t m h)
]

pub delete_entry-IsSorted :
    (id : List ℕ) (m : List (List ℕ × ℕ)) → IsSorted m → IsSorted (delete_entry id m)
delete_entry-IsSorted id [] h = tt
delete_entry-IsSorted id ((a, v) ∷ m) (from, h) = elim (Bool-cases (bytes_key.same a id)) [
  | inl e ↦ rw e (delete_entry-IsSorted id m h)
  | inr e ↦ rw e (delete_entry-AllFrom id v m from, delete_entry-IsSorted id m h)
]

append-AllFrom :
    (t : ℕ) (m : List (List ℕ × ℕ)) (id : List ℕ) (v : ℕ)
    → t ≤ v
    → AllFrom t m
    → AllFrom t (m ++ ((id, v) ∷ []))
append-AllFrom t [] id v le h = (le, tt)
append-AllFrom t ((a, w) ∷ m) id v le (first, h) = (first, append-AllFrom t m id v le h)

pub append-IsSorted :
    (m : List (List ℕ × ℕ)) (id : List ℕ) (v : ℕ)
    → AllUntil v m
    → IsSorted m
    → IsSorted (m ++ ((id, v) ∷ []))
append-IsSorted [] id v until h = (tt, tt)
append-IsSorted ((a, w) ∷ m) id v (le, until) (from, h) =
    (append-AllFrom w m id v le from, append-IsSorted m id v until h)

pub length-delete_entry :
    (id : List ℕ) (m : List (List ℕ × ℕ)) → length (delete_entry id m) ≤ length m
length-delete_entry id [] = omega arith
length-delete_entry id ((a, v) ∷ m) = elim (Bool-cases (bytes_key.same a id)) [
  | inl e ↦ rw e (omega (arith, length-delete_entry id m))
  | inr e ↦ rw e (omega (arith, length-delete_entry id m))
]

pub length-delete_known :
    (id : List ℕ) (m : List (List ℕ × ℕ))
    → has_key id (keys m) ≡ true
    → length (delete_entry id m) < length m
length-delete_known id [] h = absurd (cc)
length-delete_known id ((a, v) ∷ m) h = elim (Bool-cases (bytes_key.same a id)) [
  | inl e ↦ rw e (omega (arith, length-delete_entry id m))
  | inr e ↦ rw e (
      omega (
        arith,
        length-delete_known id m (sym (ap (λ t. if t then true else has_key id (keys m)) e) ∙ h),
      ))
]

pub append-AllUntil :
    (v : ℕ) (m : List (List ℕ × ℕ)) (id : List ℕ) → AllUntil v m → AllUntil v (m ++ ((id, v) ∷ []))
append-AllUntil v [] id h = (omega arith, tt)
append-AllUntil v ((a, w) ∷ m) id (le, h) = (le, append-AllUntil v m id h)

-- The key of an entry is among the keys.
has_key-delete :
    (id : List ℕ) (ids : List (List ℕ)) → has_key id ids ≡ false → remove_key id ids ≡ ids
has_key-delete id [] h = refl
has_key-delete id (a ∷ ids) h = elim (Bool-cases (bytes_key.same a id)) [
  | inl e ↦ absurd (cc)
  | inr e ↦ rw e (
      ap (λ t. a ∷ t)
        (has_key-delete id ids (sym (ap (λ t. if t then true else has_key id ids) e) ∙ h)))
]

remove_closed-order :
    (id : List ℕ) (s : ClosedStreams) → (remove_closed id s).order ≡ remove_key id s.order
unfolding remove_closed
remove_closed-order id s = elim (Bool-cases (has_key id s.order)) [
  | inl e ↦ ap (λ t. if t then remove_key id s.order else s.order) e
  | inr e ↦
      ap (λ t. if t then remove_key id s.order else s.order) e ∙ sym (has_key-delete id s.order e)
]

pub remove_closed-IsTracked :
    (id : List ℕ) (s : ClosedStreams) → IsTracked s → IsTracked (remove_closed id s)
unfolding remove_closed
remove_closed-IsTracked id s v = record {
  order_keys =
      remove_closed-order id s
      ∙ ap (remove_key id) v.order_keys
      ∙ sym (keys-delete_entry id s.closed);
  distinct = delete_entry-IsDistinct id s.closed v.distinct;
  sorted = delete_entry-IsSorted id s.closed v.sorted;
}

pub front_cases :
    (o : List (List ℕ)) → (o ≡ []) ⊎ ((id : List ℕ) × (ids : List (List ℕ)) × (o ≡ id ∷ ids))
front_cases [] = inl refl
front_cases (id ∷ ids) = inr (id, ids, refl)

-- The front of the order is the entry that the map has first.
pub front_entry :
    (s : ClosedStreams) {id : List ℕ} {ids : List (List ℕ)}
    → IsTracked s
    → s.order ≡ id ∷ ids
    → (v : ℕ) × (m : List (List ℕ × ℕ)) × (s.closed ≡ (id, v) ∷ m)
front_entry s {id} {ids} t e = first s.closed (sym t.order_keys ∙ e)
  where
    first :
        (c : List (List ℕ × ℕ))
        → keys c ≡ id ∷ ids
        → (v : ℕ) × (m : List (List ℕ × ℕ)) × (c ≡ (id, v) ∷ m)
    first [] h = absurd (cc)
    first ((a, v) ∷ m) h = (v, m, cc)

-- What survives of the entries.
pub record IsWithin (s' s : ClosedStreams) : Type 0 where
  pub until : (t : ℕ) → AllUntil t s.closed → AllUntil t s'.closed
  pub absent : (j : List ℕ) → entry s.closed j ≡ none → entry s'.closed j ≡ none
  pub size : length s'.closed ≤ length s.closed

pub remove_closed-IsWithin : (id : List ℕ) (s : ClosedStreams) → IsWithin (remove_closed id s) s
unfolding remove_closed
remove_closed-IsWithin id s = record {
  until = λ t h. delete_entry-AllUntil id t s.closed h;
  absent = λ j h. entry-delete_entry-none id j s.closed h;
  size = length-delete_entry id s.closed;
}

pub IsWithin-refl : (s : ClosedStreams) → IsWithin s s
IsWithin-refl s = record { until = λ t h. h; absent = λ j h. h; size = omega arith }

pub IsWithin-trans : {s s' s'' : ClosedStreams} → IsWithin s' s → IsWithin s'' s' → IsWithin s'' s
IsWithin-trans p q = record {
  until = λ t h. q.until t (p.until t h);
  absent = λ j h. q.absent j (p.absent j h);
  size = omega (arith, p.size, q.size);
}

-- Removing the front makes the map shorter.
pub length-remove_closed :
    (s : ClosedStreams) {id : List ℕ} {ids : List (List ℕ)}
    → IsTracked s
    → s.order ≡ id ∷ ids
    → length (remove_closed id s).closed < length s.closed
unfolding remove_closed
length-remove_closed s {id} {ids} t e =
    let (v, m, same) = front_entry s t e in
    subst (λ c. length (delete_entry id c) < length c) (sym same)
      (rw (same_refl id) (omega (arith, length-delete_entry id m)))
