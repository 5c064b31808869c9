-- ===== src/Serverrole/Closed/Expiring.antt =====
-- internal/serverrole/tcp.go: pruning keeps an id that has not expired where it stands.
use engarde.Shared.{
  ℕ, zero, suc, ◌+◌, ◌≡◌, ◌<◌, refl, sym, ap, ◌∙◌, List, [], ◌∷◌, ◌++◌, false, none, some, ltb,
  length, Bool-cases, inl, inr, arith, if◌then◌else◌,
}
use mathlib.Core.Path.{subst}
use engarde.Shared.Maps.{bytes_key, entry, put_last, delete_entry, same_refl}
use engarde.Shared.Maps.Laws.{entry-delete_entry}
use engarde.Serverrole.Closed.{
  ClosedStreams, closed_limit, tcp_server_closed_ttl, remove_closed, ensure_closed_tracking,
  prune_loop, prune_closed, remember_closed, note_item,
}
use engarde.Serverrole.Closed.Tracking.{
  IsTracked, remove_closed-IsTracked, front_cases, front_entry,
}
use engarde.Serverrole.Closed.Remembering.{ensure_closed_tracking-id}
use engarde.Serverrole.Closed.Pruning.{prune_loop-turn, prune_loop-empty}
use engarde.Serverrole.Closed.Kept.{IsKept, delete_entry-IsKept}

-- An id whose entry has expired is another one.
pub expired-apart :
    (id a : List ℕ) (v w now : ℕ) (m : List (List ℕ × ℕ))
    → entry m id ≡ some v
    → now < v
    → entry m a ≡ some w
    → ltb now w ≡ false
    → bytes_key.same a id ≡ false
expired-apart id a v w now m found fresh other old = elim (Bool-cases (bytes_key.same a id)) [
  | inr apart ↦ apart
  | inl own ↦
      let twice : some w ≡ some v =
        sym other ∙ ap (entry m) ((bytes_key.same_iff a id).0 own) ∙ found in
      absurd (ground (arith, twice))
]

last-IsKept :
    (id : List ℕ) (v : ℕ) (m : List (List ℕ × ℕ))
    → entry m id ≡ none
    → IsKept id v 0 (m ++ ((id, v) ∷ []))
last-IsKept id v [] h = rw (same_refl id) (refl, omega arith)
last-IsKept id v ((a, w) ∷ m) h = elim (Bool-cases (bytes_key.same a id)) [
  | inl own ↦ absurd (ground (arith, own))
  | inr other ↦
      rw other (last-IsKept id v m (subst (λ b. (if b then some w else entry m id) ≡ none) other h))
]

module _ (by_expiry : List (List ℕ × ℕ) → List (List ℕ × ℕ)) (id : List ℕ) where
  -- An id that has just been remembered is the last one.
  pub remember_closed-last :
      (max_streams now : ℕ) (s : ClosedStreams)
      → IsKept id
          (now + tcp_server_closed_ttl)
          0
          (remember_closed by_expiry max_streams id now s).closed
  unfolding remember_closed put_last
  remember_closed-last max_streams now s =
      let m =
        (note_item by_expiry (closed_limit max_streams) id
          (ensure_closed_tracking by_expiry s)).closed in
      last-IsKept id (now + tcp_server_closed_ttl) (delete_entry id m) (entry-delete_entry id m)

  module _ (v k now : ℕ) (fresh : now < v) where
    prune_loop-IsKept :
        (n : ℕ) (s : ClosedStreams)
        → IsTracked s
        → IsKept id v k s.closed
        → IsKept id v k (prune_loop by_expiry n now s).closed
    unfolding prune_loop remove_closed
    prune_loop-IsKept zero s t h = h
    prune_loop-IsKept (suc n) s t h = elim (front_cases s.order) [
      | inl e ↦
          subst (λ (r : ClosedStreams). IsKept id v k r.closed)
            (sym (prune_loop-empty by_expiry now n s e)) h
      | inr (a, tail, e) ↦
          let (w, rest, same) = front_entry s t e in
          let found : entry s.closed a ≡ some w =
            ap (λ c. entry c a) same ∙ ap (λ b. if b then some w else entry rest a) (same_refl a) in
          elim (Bool-cases (ltb now w)) [
            | inl young ↦
                subst (λ (r : ClosedStreams). IsKept id v k r.closed)
                  (sym (prune_loop-turn by_expiry now n s e found young)) h
            | inr old ↦
                let apart = expired-apart id a v w now s.closed h.0 fresh found old in
                subst (λ (r : ClosedStreams). IsKept id v k r.closed)
                  (sym (prune_loop-turn by_expiry now n s e found old))
                  (prune_loop-IsKept n (remove_closed a s) (remove_closed-IsTracked a s t)
                    (delete_entry-IsKept id a apart v k s.closed h))
          ]
    ]

    pub prune_closed-IsKept :
        (s : ClosedStreams)
        → IsTracked s
        → IsKept id v k s.closed
        → IsKept id v k (prune_closed by_expiry now s).closed
    unfolding prune_closed
    prune_closed-IsKept s t h =
        subst
          (λ (e : ClosedStreams).
            IsKept id v k (prune_loop by_expiry (length e.order) now e).closed)
          (sym (ensure_closed_tracking-id by_expiry s t)) (prune_loop-IsKept (length s.order) s t h)
