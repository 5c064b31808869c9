-- ===== src/Serverrole/Closed/Remembering.antt =====
-- internal/serverrole/tcp.go: what remembering a closed stream does to the bookkeeping.
use engarde.Shared.{
  ℕ, zero, suc, ◌+◌, ◌≡◌, ◌≤◌, ◌<◌, refl, sym, ap, ◌∙◌, List, [], ◌∷◌, ◌++◌, true, false, none,
  some, leb, length, length-append, Bool-cases, if-cases, inl, inr, arith,
}
use mathlib.Core.Path.{subst}
use engarde.Shared.Maps.{
  bytes_key, entry, put_last, delete_entry, has_key, remove_key, keys, IsDistinct,
}
use engarde.Shared.Maps.Laws.{
  delete_entry-none, keys-append, keys-delete_entry, has_key-keys, put_last-IsDistinct,
  entry-put_last, entry-put_last_other,
}
use engarde.Serverrole.Closed.{
  ClosedStreams, closed_limit, tcp_server_closed_ttl, remove_closed, ensure_closed_tracking, evict,
  insert_item, note_item, remember_closed,
}
use engarde.Serverrole.Closed.Tracking.{
  AllUntil, IsSorted, IsTracked, length-keys, delete_entry-AllUntil, delete_entry-IsSorted,
  append-IsSorted, length-delete_entry, length-delete_known, append-AllUntil,
  remove_closed-IsTracked, front_cases, IsWithin, remove_closed-IsWithin, IsWithin-trans,
  IsWithin-refl, length-remove_closed,
}

module _ (by_expiry : List (List ℕ × ℕ) → List (List ℕ × ℕ)) where
  pub ensure_closed_tracking-id :
      (s : ClosedStreams) → IsTracked s → ensure_closed_tracking by_expiry s ≡ s
  unfolding ensure_closed_tracking
  ensure_closed_tracking-id s t =
      let same : length s.order ≡ length s.closed = ap length t.order_keys ∙ length-keys s.closed in
      ground (arith, same)

  module _ (limit : ℕ) where
    pub evict-room :
        (n : ℕ) (s : ClosedStreams)
        → leb limit (length s.closed) ≡ false
        → evict by_expiry (suc n) limit s ≡ s
    unfolding evict
    evict-room n s h = rw (evict, h) refl

    pub evict-full :
        (n : ℕ) (s : ClosedStreams) {id : List ℕ} {ids : List (List ℕ)}
        → leb limit (length s.closed) ≡ true
        → s.order ≡ id ∷ ids
        → evict by_expiry (suc n) limit s ≡ evict by_expiry n limit (remove_closed id s)
    unfolding evict
    evict-full n s h e =
        ap
          (λ b. elim b [
            | false ↦ s
            | true ↦ elim s.order [
              | [] ↦ s
              | (i ∷ is) ↦ evict by_expiry n limit (remove_closed i s)
            ]
          ])
          h
        ∙ ap (λ o. elim o [ [] ↦ s | (i ∷ is) ↦ evict by_expiry n limit (remove_closed i s) ]) e

    -- With fuel for each element, evicting keeps the bookkeeping and leaves room.
    evict_lem :
        (n : ℕ) (s : ClosedStreams)
        → 0 < limit
        → length s.closed ≤ n
        → IsTracked s
        → IsTracked (evict by_expiry n limit s)
          × IsWithin (evict by_expiry n limit s) s
          × (length (evict by_expiry n limit s).closed < limit)
    unfolding evict
    evict_lem zero s some_limit enough t = (t, IsWithin-refl s, omega arith)
    evict_lem (suc n) s some_limit enough t = elim (Bool-cases (leb limit (length s.closed))) [
      | inr room ↦
          subst (λ e. IsTracked e × IsWithin e s × (length e.closed < limit))
            (sym (evict-room n s room)) (t, IsWithin-refl s, ground arith)
      | inl full ↦ elim (front_cases s.order) [
        | inl e ↦
            let none_left : length s.closed ≡ 0 =
              sym (length-keys s.closed) ∙ ap length (sym t.order_keys ∙ e) in
            absurd (ground (arith, none_left))
        | inr (id, ids, e) ↦
            let (t', w, small) =
              evict_lem n (remove_closed id s) some_limit
                (omega (arith, enough, length-remove_closed s t e))
                (remove_closed-IsTracked id s t) in
            subst (λ r. IsTracked r × IsWithin r s × (length r.closed < limit))
              (sym (evict-full n s full e))
              (t', IsWithin-trans (remove_closed-IsWithin id s) w, small)
      ]
    ]

  -- What holds before the entry of `id` is put behind the others.
  record IsNoted (limit : ℕ) (id : List ℕ) (s noted : ClosedStreams) : Type 0 where
    order : noted.order ≡ remove_key id (keys noted.closed) ++ (id ∷ [])
    distinct : IsDistinct noted.closed
    sorted : IsSorted noted.closed
    within : IsWithin noted s
    room : length (delete_entry id noted.closed) < limit

  module _ (limit : ℕ) (id : List ℕ) (s : ClosedStreams) (t : IsTracked s) where
    insert_item-IsNoted :
        0 < limit → entry s.closed id ≡ none → IsNoted limit id s (insert_item by_expiry limit id s)
    unfolding insert_item
    insert_item-IsNoted some_limit absent =
        let enough : length s.closed ≤ length s.order =
          omega (arith, length-keys s.closed, ap length t.order_keys) in
        let kept = evict by_expiry (length s.order) limit s in
        let (t', w, small) = evict_lem limit (length s.order) s some_limit enough t in
        record {
          order =
              ap (λ o. o ++ (id ∷ []))
                (t'.order_keys
                  ∙ ap keys (sym (delete_entry-none id kept.closed (w.absent id absent)))
                  ∙ keys-delete_entry id kept.closed);
          distinct = t'.distinct;
          sorted = t'.sorted;
          within = record { until = w.until; absent = w.absent; size = w.size };
          room = omega (arith, small, length-delete_entry id kept.closed);
        }

    note_item-IsNoted :
        0 < limit → length s.closed ≤ limit → IsNoted limit id s (note_item by_expiry limit id s)
    unfolding note_item
    note_item-IsNoted some_limit bound =
        if-cases (IsNoted limit id s) (has_key id s.order)
          (λ known. record {
            order = ap (λ o. remove_key id o ++ (id ∷ [])) t.order_keys;
            distinct = t.distinct;
            sorted = t.sorted;
            within = record { until = λ u h. h; absent = λ j h. h; size = omega arith };
            room = omega (
              arith,
              bound,
              length-delete_known id s.closed (ap (has_key id) (sym t.order_keys) ∙ known),
            );
          })
          (λ fresh.
            insert_item-IsNoted some_limit
              (has_key-keys id s.closed (ap (has_key id) (sym t.order_keys) ∙ fresh)))

  closed_limit-positive : (max_streams : ℕ) → 0 < closed_limit max_streams
  closed_limit-positive max_streams = ground arith

  -- rememberClosedLocked, at a time at which nothing expires later than what it adds, keeps the
  -- bookkeeping: the order stays the keys of the map, oldest first, each id has one entry, and the map
  -- holds at most as many as the limit on streams, or the cache's own limit without one. The id is
  -- remembered for the whole time to live, and no other id comes in.
  pub remember_closed-IsTracked :
      (max_streams : ℕ) (id : List ℕ) (now : ℕ) (s : ClosedStreams)
      → IsTracked s
      → length s.closed ≤ closed_limit max_streams
      → AllUntil (now + tcp_server_closed_ttl) s.closed
      → IsTracked (remember_closed by_expiry max_streams id now s)
        × (length (remember_closed by_expiry max_streams id now s).closed
            ≤ closed_limit max_streams)
        × AllUntil
            (now + tcp_server_closed_ttl)
            (remember_closed by_expiry max_streams id now s).closed
        × (entry (remember_closed by_expiry max_streams id now s).closed id
            ≡ some (now + tcp_server_closed_ttl))
        × ((j : List ℕ)
            → bytes_key.same id j ≡ false
            → entry s.closed j ≡ none
            → entry (remember_closed by_expiry max_streams id now s).closed j ≡ none)
  unfolding remember_closed put_last
  remember_closed-IsTracked max_streams id now s t bound until =
      let limit = closed_limit max_streams in
      let v = now + tcp_server_closed_ttl in
      let noted = note_item by_expiry limit id (ensure_closed_tracking by_expiry s) in
      let n : IsNoted limit id s noted =
        subst (λ e. IsNoted limit id s (note_item by_expiry limit id e))
          (sym (ensure_closed_tracking-id s t))
          (note_item-IsNoted limit id s t (closed_limit-positive max_streams) bound) in
      let under = delete_entry-AllUntil id v noted.closed (n.within.until v until) in
      (
        record {
          order_keys =
              n.order
              ∙ ap (λ o. o ++ (id ∷ [])) (sym (keys-delete_entry id noted.closed))
              ∙ sym (keys-append (delete_entry id noted.closed) ((id, v) ∷ []));
          distinct = put_last-IsDistinct id v noted.closed n.distinct;
          sorted =
              append-IsSorted (delete_entry id noted.closed) id v under
                (delete_entry-IsSorted id noted.closed n.sorted);
        },
        omega (arith, n.room, length-append (delete_entry id noted.closed) ((id, v) ∷ [])),
        append-AllUntil v (delete_entry id noted.closed) id under,
        entry-put_last id v noted.closed,
        λ j other absent. entry-put_last_other id j v noted.closed other ∙ n.within.absent j absent,
      )
