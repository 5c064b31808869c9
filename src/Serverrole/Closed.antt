-- ===== src/Serverrole/Closed.antt =====
-- internal/serverrole/tcp.go: the streams that ended less than a minute ago. `closed` is the map, `order` the
-- list closedOrder, whose elements are named by the id they hold. closedItems, the element of an id,
-- changes wherever closedOrder does, so that an id has an element if it is in `order`. Times are
-- nanoseconds.
pub mod Tracking
pub mod Remembering
pub mod Pruning
pub mod Kept
pub mod Expiring
use engarde.Shared.{
  ℕ, zero, suc, ◌+◌, ◌*◌, List, [], ◌∷◌, ◌++◌, Bool, true, false, Option, none, some, ltb, leb,
  ◌==◌, length, if◌then◌else◌,
}
use engarde.Shared.Maps.{bytes_key, entry, put_last, delete_entry, has_key, remove_key, keys}

-- time.Minute.
abbrev pub tcp_server_closed_ttl : ℕ
tcp_server_closed_ttl = 60 * 1000 * 1000 * 1000

abbrev pub tcp_server_closed_cache_safety_limit : ℕ
tcp_server_closed_cache_safety_limit = 64 * 1024

pub record ClosedStreams : Type 0 where
  pub closed : List (List ℕ × ℕ)
  pub order : List (List ℕ)

-- `limit := MaxStreams; if limit == 0 { limit = … }`.
abbrev pub closed_limit : ℕ → ℕ
closed_limit max_streams =
    if max_streams == 0 then tcp_server_closed_cache_safety_limit else max_streams

unfoldable pub remove_closed : List ℕ → ClosedStreams → ClosedStreams
remove_closed id s = record {
  closed = delete_entry id s.closed;
  order = if has_key id s.order then remove_key id s.order else s.order;
}

-- `by_expiry` is sort.Slice by the time of expiry.
module _ (by_expiry : List (List ℕ × ℕ) → List (List ℕ × ℕ)) where
  pub ensure_closed_tracking : ClosedStreams → ClosedStreams
  ensure_closed_tracking s =
      if length s.order == length s.closed
      then s
      else record s { order = keys (by_expiry s.closed) }

  -- `for len(runtime.closed) >= limit`, on fuel: each turn takes an element from the order.
  pub evict : ℕ → ℕ → ClosedStreams → ClosedStreams
  unfolding remove_closed
  evict zero limit s = s
  evict (suc n) limit s = elim (leb limit (length s.closed)) [
    | false ↦ s
    | true ↦ elim s.order [ [] ↦ s | (id ∷ ids) ↦ evict n limit (remove_closed id s) ]
  ]

  pub insert_item : ℕ → List ℕ → ClosedStreams → ClosedStreams
  unfolding evict
  insert_item limit id s =
      let kept = evict (length s.order) limit s in record kept { order = kept.order ++ (id ∷ []) }

  pub note_item : ℕ → List ℕ → ClosedStreams → ClosedStreams
  unfolding insert_item
  note_item limit id s =
      if has_key id s.order
      then record s { order = remove_key id s.order ++ (id ∷ []) }
      else insert_item limit id s

  unfoldable pub remember_closed : ℕ → List ℕ → ℕ → ClosedStreams → ClosedStreams
  unfolding ensure_closed_tracking note_item
  remember_closed max_streams id now s =
      let noted = note_item (closed_limit max_streams) id (ensure_closed_tracking s) in
      record noted { closed = put_last id (now + tcp_server_closed_ttl) noted.closed }

  -- The loop of pruneClosedLocked, on fuel as above.
  pub prune_loop : ℕ → ℕ → ClosedStreams → ClosedStreams
  unfolding remove_closed
  prune_loop zero now s = s
  prune_loop (suc n) now s = elim s.order [
    | [] ↦ s
    | (id ∷ ids) ↦ elim (entry s.closed id) [
      | none ↦ prune_loop n now (record s { order = ids })
      | some expires_at ↦ elim (ltb now expires_at) [
        | true ↦ s
        | false ↦ prune_loop n now (remove_closed id s)
      ]
    ]
  ]

  unfoldable pub prune_closed : ℕ → ClosedStreams → ClosedStreams
  unfolding ensure_closed_tracking prune_loop
  prune_closed now s =
      let tracked = ensure_closed_tracking s in prune_loop (length tracked.order) now tracked
