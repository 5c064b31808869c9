-- ===== src/Serverrole/Closed/Kept.antt =====
-- internal/serverrole/tcp.go: how long a closed id is kept while others are remembered: until as many as the
-- limit allows have come behind it.
use engarde.Shared.{
  ℕ, zero, suc, ◌+◌, ◌≡◌, ◌≤◌, ◌<◌, sym, ap, ◌∙◌, List, [], ◌∷◌, ◌++◌, Bool, true, false, some, leb,
  length, length-append, Bool-cases, if-cases, inl, inr, arith, if◌then◌else◌,
}
use mathlib.Core.Path.{subst}
use engarde.Shared.Maps.{bytes_key, entry, put_last, delete_entry, has_key, keys}
use engarde.Serverrole.Closed.{
  ClosedStreams, closed_limit, tcp_server_closed_ttl, remove_closed, ensure_closed_tracking, evict,
  insert_item, note_item, remember_closed,
}
use engarde.Serverrole.Closed.Tracking.{
  IsTracked, remove_closed-IsTracked, front_cases, length-keys,
}
use engarde.Serverrole.Closed.Remembering.{ensure_closed_tracking-id, evict-room, evict-full}

-- How many entries stand behind that of an id.
abbrev pub behind : List ℕ → List (List ℕ × ℕ) → ℕ
behind id [] = 0
behind id ((a, v) ∷ m) = if bytes_key.same a id then length m else behind id m

behind-length : (id : List ℕ) (m : List (List ℕ × ℕ)) → behind id m ≤ length m
behind-length id [] = omega arith
behind-length id ((a, v) ∷ m) = elim (Bool-cases (bytes_key.same a id)) [
  | inl e ↦ rw e (omega arith)
  | inr e ↦ rw e (omega (arith, behind-length id m))
]

length-delete : (j : List ℕ) (m : List (List ℕ × ℕ)) → length (delete_entry j m) ≤ length m
length-delete j [] = omega arith
length-delete j ((a, v) ∷ m) = elim (Bool-cases (bytes_key.same a j)) [
  | inl e ↦ rw e (omega (arith, length-delete j m))
  | inr e ↦ rw e (omega (arith, length-delete j m))
]

-- `id` expires at `v`, and at most `k` entries stand behind its own.
abbrev pub IsKept : List ℕ → ℕ → ℕ → List (List ℕ × ℕ) → Type 0
IsKept id v k m = (entry m id ≡ some v) × (behind id m ≤ k)

step_over :
    (id : List ℕ) (v k : ℕ) (a : List ℕ) (w : ℕ) (m : List (List ℕ × ℕ)) {own : Bool}
    → bytes_key.same a id ≡ own
    → IsKept id v k ((a, w) ∷ m)
    → ((if own then some w else entry m id) ≡ some v)
      × ((if own then length m else behind id m) ≤ k)
step_over id v k a w m e h =
    subst
      (λ b.
        ((if b then some w else entry m id) ≡ some v) × ((if b then length m else behind id m) ≤ k))
      e h

module _ (id j : List ℕ) (apart : bytes_key.same j id ≡ false) where
  other : (a : List ℕ) → bytes_key.same a j ≡ true → bytes_key.same a id ≡ false
  other a e = ap (λ t. bytes_key.same t id) ((bytes_key.same_iff a j).0 e) ∙ apart

  pub delete_entry-IsKept :
      (v k : ℕ) (m : List (List ℕ × ℕ)) → IsKept id v k m → IsKept id v k (delete_entry j m)
  delete_entry-IsKept v k [] h = h
  delete_entry-IsKept v k ((a, w) ∷ m) h = elim (Bool-cases (bytes_key.same a j)) [
    | inl e ↦ rw e (delete_entry-IsKept v k m (step_over id v k _ _ _ (other a e) h))
    | inr e ↦ rw e (elim (Bool-cases (bytes_key.same a id)) [
      | inl own ↦
          let (found, few) = step_over id v k _ _ _ own h in
          rw own (found, omega (arith, few, length-delete j m))
      | inr not_own ↦
          let rest = step_over id v k _ _ _ not_own h in rw not_own (delete_entry-IsKept v k m rest)
    ])
  ]

  append-IsKept :
      (v w k : ℕ) (m : List (List ℕ × ℕ))
      → IsKept id v k m
      → IsKept id v (suc k) (m ++ ((j, w) ∷ []))
  append-IsKept v w k [] (h, few) = absurd (ground arith)
  append-IsKept v w k ((a, u) ∷ m) h = elim (Bool-cases (bytes_key.same a id)) [
    | inl own ↦
        let (found, few) = step_over id v k _ _ _ own h in
        rw own (found, omega (arith, few, length-append m ((j, w) ∷ [])))
    | inr not_own ↦
        let rest = step_over id v k _ _ _ not_own h in rw not_own (append-IsKept v w k m rest)
  ]

-- The front of a full order is not an id with few others behind it.
front-apart :
    (id a : List ℕ) (tail : List (List ℕ)) (v k limit : ℕ) (m : List (List ℕ × ℕ))
    → keys m ≡ a ∷ tail
    → limit ≤ length m
    → suc k < limit
    → IsKept id v k m
    → bytes_key.same a id ≡ false
front-apart id a tail v k limit [] e full few h = absurd (cc)
front-apart id a tail v k limit ((b, w) ∷ m) e full few h =
    elim (Bool-cases (bytes_key.same a id)) [
      | inr apart ↦ apart
      | inl own ↦
          let first : b ≡ a = cc in
          let same : bytes_key.same b id ≡ true = ap (λ t. bytes_key.same t id) first ∙ own in
          let (found, small) = step_over id v k _ _ _ same h in
          absurd (omega (arith, full, few, small))
    ]

module _ (by_expiry : List (List ℕ × ℕ) → List (List ℕ × ℕ)) (id : List ℕ) (v k : ℕ) where
  evict-IsKept :
      (n limit : ℕ) (s : ClosedStreams)
      → suc k < limit
      → IsTracked s
      → IsKept id v k s.closed
      → IsKept id v k (evict by_expiry n limit s).closed
  unfolding evict remove_closed
  evict-IsKept zero limit s few t h = h
  evict-IsKept (suc n) limit s few t h = elim (Bool-cases (leb limit (length s.closed))) [
    | inr room ↦
        subst (λ (e : ClosedStreams). IsKept id v k e.closed)
          (sym (evict-room by_expiry limit n s room)) h
    | inl full ↦ elim (front_cases s.order) [
      | inl e ↦
          let none_left : length s.closed ≡ 0 =
            sym (length-keys s.closed) ∙ ap length (sym t.order_keys ∙ e) in
          absurd (ground (arith, none_left))
      | inr (a, tail, e) ↦
          let apart =
            front-apart id a tail v k limit s.closed (sym t.order_keys ∙ e) (ground arith) few h in
          subst (λ (d : ClosedStreams). IsKept id v k d.closed)
            (sym (evict-full by_expiry limit n s full e))
            (evict-IsKept n limit (remove_closed a s) few (remove_closed-IsTracked a s t)
              (delete_entry-IsKept id a apart v k s.closed h))
    ]
  ]

  note_item-IsKept :
      (limit : ℕ) (j : List ℕ) (s : ClosedStreams)
      → suc k < limit
      → IsTracked s
      → IsKept id v k s.closed
      → IsKept id v k (note_item by_expiry limit j s).closed
  unfolding note_item insert_item
  note_item-IsKept limit j s few t h =
      if-cases (λ (e : ClosedStreams). IsKept id v k e.closed) (has_key j s.order) (λ known. h)
        (λ fresh. evict-IsKept (length s.order) limit s few t h)

  -- Remembering another id puts one entry behind at most.
  pub remember_closed-IsKept :
      (max_streams : ℕ) (j : List ℕ) (now : ℕ) (s : ClosedStreams)
      → bytes_key.same j id ≡ false
      → suc k < closed_limit max_streams
      → IsTracked s
      → IsKept id v k s.closed
      → IsKept id v (suc k) (remember_closed by_expiry max_streams j now s).closed
  unfolding remember_closed put_last
  remember_closed-IsKept max_streams j now s apart few t h =
      let limit = closed_limit max_streams in
      let noted = note_item by_expiry limit j (ensure_closed_tracking by_expiry s) in
      let kept : IsKept id v k noted.closed =
        subst (λ e. IsKept id v k (note_item by_expiry limit j e).closed)
          (sym (ensure_closed_tracking-id by_expiry s t)) (note_item-IsKept limit j s few t h) in
      append-IsKept id j apart v (now + tcp_server_closed_ttl) k (delete_entry j noted.closed)
        (delete_entry-IsKept id j apart v k noted.closed kept)
