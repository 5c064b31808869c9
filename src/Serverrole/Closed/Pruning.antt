-- ===== src/Serverrole/Closed/Pruning.antt =====
-- internal/serverrole/tcp.go: pruneClosedLocked against its specification, the entries that have not
-- expired.
use engarde.Shared.{
  ℕ, zero, suc, ◌≡◌, ◌≤◌, ◌<◌, refl, sym, ap, ◌∙◌, List, [], ◌∷◌, Bool, true, false, Option, none,
  some, ltb, length, Bool-cases, inl, inr, arith, if◌then◌else◌,
}
use mathlib.Core.Path.{subst}
use engarde.Shared.Maps.{bytes_key, same_refl, entry, delete_entry}
use engarde.Shared.Maps.Laws.{entry-delete_entry, entry-delete_entry_other}
use engarde.Serverrole.Closed.{ClosedStreams, remove_closed, prune_loop, prune_closed}
use engarde.Serverrole.Closed.Tracking.{
  AllFrom, IsSorted, IsTracked, length-keys, front_cases, front_entry, IsWithin, IsWithin-refl,
  IsWithin-trans, remove_closed-IsWithin, remove_closed-IsTracked, length-remove_closed,
}
use engarde.Serverrole.Closed.Remembering.{ensure_closed_tracking-id}

-- An entry is dropped once its time has come.
abbrev pub live : ℕ → Option ℕ → Option ℕ
live now none = none
live now (some v) = if ltb now v then some v else none

all-live :
    (now v : ℕ) (m : List (List ℕ × ℕ)) (j : List ℕ)
    → now < v
    → AllFrom v m
    → live now (entry m j) ≡ entry m j
all-live now v [] j h from = refl
all-live now v ((a, w) ∷ m) j h (le, from) = elim (Bool-cases (bytes_key.same a j)) [
  | inl e ↦ rw e (ground arith)
  | inr e ↦ rw e (all-live now v m j h from)
]

sorted-live :
    (now : ℕ) (m : List (List ℕ × ℕ)) {id : List ℕ} {v : ℕ} {rest : List (List ℕ × ℕ)} (j : List ℕ)
    → m ≡ (id, v) ∷ rest
    → IsSorted m
    → ltb now v ≡ true
    → live now (entry m j) ≡ entry m j
sorted-live now m {id} {v} {rest} j e sorted h =
    let (from, _) : AllFrom v rest × IsSorted rest = subst IsSorted e sorted in
    subst (λ c. live now (entry c j) ≡ entry c j) (sym e)
      (all-live now v ((id, v) ∷ rest) j (ground arith) (omega arith, from))

remove_closed-live :
    (now : ℕ) (s : ClosedStreams) (id : List ℕ) {v : ℕ} (j : List ℕ)
    → entry s.closed id ≡ some v
    → ltb now v ≡ false
    → live now (entry (remove_closed id s).closed j) ≡ live now (entry s.closed j)
unfolding remove_closed
remove_closed-live now s id {v} j e old = elim (Bool-cases (bytes_key.same id j)) [
  | inl same ↦
      let at : id ≡ j = (bytes_key.same_iff id j).0 same in
      ap (live now)
        (ap (entry (delete_entry id s.closed)) (sym at) ∙ entry-delete_entry id s.closed)
      ∙ sym (
          ap (live now) (ap (entry s.closed) (sym at) ∙ e)
          ∙ ap (λ t. if t then some v else none) old)
  | inr other ↦ ap (live now) (entry-delete_entry_other id j s.closed other)
]

no_entries : (m : List (List ℕ × ℕ)) → length m ≤ 0 → m ≡ []
no_entries [] h = refl
no_entries (x ∷ m) h = absurd (omega (arith, h))

module _ (by_expiry : List (List ℕ × ℕ) → List (List ℕ × ℕ)) (now : ℕ) where
  pub prune_loop-turn :
      (n : ℕ) (s : ClosedStreams) {id : List ℕ} {ids : List (List ℕ)} {v : ℕ} {expired : Bool}
      → s.order ≡ id ∷ ids
      → entry s.closed id ≡ some v
      → ltb now v ≡ expired
      → prune_loop by_expiry (suc n) now s
        ≡ elim expired [ true ↦ s | false ↦ prune_loop by_expiry n now (remove_closed id s) ]
  unfolding prune_loop
  prune_loop-turn n s {id} {ids} {v} {expired} e found h =
      ap
        (λ o. elim o [
          | [] ↦ s
          | (i ∷ is) ↦ elim (entry s.closed i) [
            | none ↦ prune_loop by_expiry n now (record s { order = is })
            | some expires_at ↦ elim (ltb now expires_at) [
              | true ↦ s
              | false ↦ prune_loop by_expiry n now (remove_closed i s)
            ]
          ]
        ])
        e
      ∙ ap
          (λ o. elim o [
            | none ↦ prune_loop by_expiry n now (record s { order = ids })
            | some expires_at ↦ elim (ltb now expires_at) [
              | true ↦ s
              | false ↦ prune_loop by_expiry n now (remove_closed id s)
            ]
          ])
          found
      ∙ ap (λ b. elim b [ true ↦ s | false ↦ prune_loop by_expiry n now (remove_closed id s) ]) h

  pub prune_loop-empty :
      (n : ℕ) (s : ClosedStreams) → s.order ≡ [] → prune_loop by_expiry (suc n) now s ≡ s
  unfolding prune_loop
  prune_loop-empty n s e =
      ap
        (λ o. elim o [
          | [] ↦ s
          | (i ∷ is) ↦ elim (entry s.closed i) [
            | none ↦ prune_loop by_expiry n now (record s { order = is })
            | some expires_at ↦ elim (ltb now expires_at) [
              | true ↦ s
              | false ↦ prune_loop by_expiry n now (remove_closed i s)
            ]
          ]
        ])
        e

  -- What a turn of the loop and the whole loop achieve.
  record IsPruned (s' s : ClosedStreams) : Type 0 where
    pub tracked : IsTracked s'
    pub within : IsWithin s' s
    pub entries : (j : List ℕ) → entry s'.closed j ≡ live now (entry s.closed j)

  prune_loop-IsPruned :
      (n : ℕ) (s : ClosedStreams)
      → length s.closed ≤ n
      → IsTracked s
      → IsPruned (prune_loop by_expiry n now s) s
  unfolding prune_loop
  prune_loop-IsPruned zero s enough t =
      let empty : s.closed ≡ [] = no_entries s.closed enough in
      record {
        tracked = t;
        within = IsWithin-refl s;
        entries = λ j. cc (ap (λ c. entry c j) empty);
      }
  prune_loop-IsPruned (suc n) s enough t = elim (front_cases s.order) [
    | inl e ↦
        let empty : s.closed ≡ [] =
          no_entries s.closed
            (omega (arith, length-keys s.closed, ap length t.order_keys, ap length e)) in
        subst (λ r. IsPruned r s) (sym (prune_loop-empty n s e))
          (record {
            tracked = t;
            within = IsWithin-refl s;
            entries = λ j. cc (ap (λ c. entry c j) empty);
          })
    | inr (id, ids, e) ↦
        let (v, rest, same) = front_entry s t e in
        let found : entry s.closed id ≡ some v =
          ap (λ c. entry c id) same
          ∙ ap (λ b. if b then some v else entry rest id) (same_refl id) in
        elim (Bool-cases (ltb now v)) [
          | inl fresh ↦
              subst (λ r. IsPruned r s) (sym (prune_loop-turn n s e found fresh))
                (record {
                  tracked = t;
                  within = IsWithin-refl s;
                  entries = λ j. sym (sorted-live now s.closed j same t.sorted fresh);
                })
          | inr old ↦
              let after =
                prune_loop-IsPruned n (remove_closed id s)
                  (omega (arith, enough, length-remove_closed s t e))
                  (remove_closed-IsTracked id s t) in
              subst (λ r. IsPruned r s) (sym (prune_loop-turn n s e found old))
                (record {
                  tracked = after.tracked;
                  within = IsWithin-trans (remove_closed-IsWithin id s) after.within;
                  entries = λ j. after.entries j ∙ remove_closed-live now s id j found old;
                })
        ]
  ]

  prune_closed-IsPruned :
      (s : ClosedStreams) → IsTracked s → IsPruned (prune_closed by_expiry now s) s
  unfolding prune_closed
  prune_closed-IsPruned s t =
      let enough : length s.closed ≤ length s.order =
        omega (arith, length-keys s.closed, ap length t.order_keys) in
      subst (λ e. IsPruned (prune_loop by_expiry (length e.order) now e) s)
        (sym (ensure_closed_tracking-id by_expiry s t))
        (prune_loop-IsPruned (length s.order) s enough t)

  pub prune_closed-IsWithin :
      (s : ClosedStreams) → IsTracked s → IsWithin (prune_closed by_expiry now s) s
  prune_closed-IsWithin s t = (prune_closed-IsPruned s t).within

  -- pruneClosedLocked drops exactly the entries that have expired: every id keeps its entry as long as
  -- its time is later than now. The bookkeeping stays in order.
  pub prune_closed-live :
      (s : ClosedStreams)
      → IsTracked s
      → IsTracked (prune_closed by_expiry now s)
        × ((j : List ℕ)
            → entry (prune_closed by_expiry now s).closed j ≡ live now (entry s.closed j))
  prune_closed-live s t = let after = prune_closed-IsPruned s t in (after.tracked, after.entries)
