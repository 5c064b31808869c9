-- ===== src/Serverrole/Streams/Laws.antt =====
-- internal/serverrole/tcp.go: what each operation on the streams keeps.
use engarde.Shared.{
  ℕ, suc, ◌+◌, ◌≡◌, ◌≤◌, ◌<◌, refl, sym, ap, ◌∙◌, List, [], ◌∷◌, none, some, length, Bool-cases,
  ◌⊎◌, inl, inr, arith, if◌then◌else◌,
}
use engarde.Shared.Maps.{bytes_key, entry, delete_entry}
use engarde.Shared.Maps.Laws.{entry-delete_entry-none}
use engarde.Serverrole.Closed.{
  ClosedStreams, closed_limit, tcp_server_closed_ttl, remove_closed, remember_closed, prune_closed,
}
use engarde.Serverrole.Closed.Tracking.{
  AllUntil, IsTracked, remove_closed-IsTracked, remove_closed-IsWithin,
}
use engarde.Serverrole.Closed.Remembering.{remember_closed-IsTracked}
use engarde.Serverrole.Closed.Pruning.{live, prune_closed-live, prune_closed-IsWithin}
use engarde.Serverrole.Streams.{Stream, Limits, update_stream}

-- What holds of the streams and the closed streams at the time `clock`.
pub record AreServed (limits : Limits) (clock : ℕ) (streams : List (List ℕ × Stream))
    (closed : ClosedStreams) : Type 0 where
  pub tracked : IsTracked closed
  pub bound : length closed.closed ≤ closed_limit limits.max_streams
  pub until : AllUntil (clock + tcp_server_closed_ttl) closed.closed
  pub apart : (id : List ℕ) → (entry streams id ≡ none) ⊎ (entry closed.closed id ≡ none)
  pub room : (0 < limits.max_streams) → length streams ≤ limits.max_streams

AllUntil-le : (t u : ℕ) (m : List (List ℕ × ℕ)) → t ≤ u → AllUntil t m → AllUntil u m
AllUntil-le t u [] le h = tt
AllUntil-le t u ((id, v) ∷ m) le (first, h) = (omega (arith, le, first), AllUntil-le t u m le h)

length-delete_stream :
    (id : List ℕ) (m : List (List ℕ × Stream)) → length (delete_entry id m) ≤ length m
length-delete_stream id [] = omega arith
length-delete_stream id ((a, v) ∷ m) = elim (Bool-cases (bytes_key.same a id)) [
  | inl e ↦ rw e (omega (arith, length-delete_stream id m))
  | inr e ↦ rw e (omega (arith, length-delete_stream id m))
]

pub length-update_stream :
    (number : ℕ) (change : Stream → Stream) (m : List (List ℕ × Stream))
    → length (update_stream number change m) ≡ length m
length-update_stream number change [] = refl
length-update_stream number change ((id, s) ∷ m) = ap suc (length-update_stream number change m)

update_stream-none :
    (number : ℕ) (change : Stream → Stream) (m : List (List ℕ × Stream)) (id : List ℕ)
    → entry m id ≡ none
    → entry (update_stream number change m) id ≡ none
update_stream-none number change [] id h = refl
update_stream-none number change ((a, s) ∷ m) id h = elim (Bool-cases (bytes_key.same a id)) [
  | inl e ↦ absurd (cc)
  | inr e ↦ rw e (
      update_stream-none number change m id
        (sym (ap (λ t. if t then some s else entry m id) e) ∙ h))
]

module _ (limits : Limits) where
  pub empty-AreServed : (now : ℕ) → AreServed limits now [] (record { closed = []; order = [] })
  empty-AreServed now = record {
    tracked = record { order_keys = refl; distinct = tt; sorted = tt };
    bound = ground arith;
    until = tt;
    apart = λ id. inl refl;
    room = λ some_limit. omega arith;
  }

  pub AreServed-later :
      {clock : ℕ} {streams : List (List ℕ × Stream)} {closed : ClosedStreams} (now : ℕ)
      → clock ≤ now
      → AreServed limits clock streams closed
      → AreServed limits now streams closed
  AreServed-later {clock} {streams} {closed} now later v = record {
    tracked = v.tracked;
    bound = v.bound;
    until =
        AllUntil-le (clock + tcp_server_closed_ttl) (now + tcp_server_closed_ttl) closed.closed
          (omega (arith, later)) v.until;
    apart = v.apart;
    room = v.room;
  }

  module _ (now : ℕ) (streams : List (List ℕ × Stream)) (closed : ClosedStreams)
      (v : AreServed limits now streams closed) where
    -- A stream leaves.
    pub delete_entry-AreServed :
        (id : List ℕ) → AreServed limits now (delete_entry id streams) closed
    delete_entry-AreServed id = record {
      tracked = v.tracked;
      bound = v.bound;
      until = v.until;
      apart = λ j. elim (v.apart j) [
        | inl e ↦ inl (entry-delete_entry-none id j streams e)
        | inr e ↦ inr e
      ];
      room = λ some_limit. omega (arith, length-delete_stream id streams, v.room some_limit);
    }

    -- A stream changes.
    pub update_stream-AreServed :
        (number : ℕ) (change : Stream → Stream)
        → AreServed limits now (update_stream number change streams) closed
    update_stream-AreServed number change = record {
      tracked = v.tracked;
      bound = v.bound;
      until = v.until;
      apart = λ j. elim (v.apart j) [
        | inl e ↦ inl (update_stream-none number change streams j e)
        | inr e ↦ inr e
      ];
      room = λ some_limit.
          omega (arith, length-update_stream number change streams, v.room some_limit);
    }

    -- An expired id is dropped.
    pub remove_closed-AreServed :
        (id : List ℕ) → AreServed limits now streams (remove_closed id closed)
    remove_closed-AreServed id = record {
      tracked = remove_closed-IsTracked id closed v.tracked;
      bound = omega (arith, v.bound, (remove_closed-IsWithin id closed).size);
      until = (remove_closed-IsWithin id closed).until (now + tcp_server_closed_ttl) v.until;
      apart = λ j. elim (v.apart j) [
        | inl e ↦ inl e
        | inr e ↦ inr ((remove_closed-IsWithin id closed).absent j e)
      ];
      room = v.room;
    }

    module _ (by_expiry : List (List ℕ × ℕ) → List (List ℕ × ℕ)) where
      -- An id without a stream is remembered.
      pub remember_closed-AreServed :
          (id : List ℕ)
          → entry streams id ≡ none
          → AreServed limits now streams
              (remember_closed by_expiry limits.max_streams id now closed)
      remember_closed-AreServed id gone =
          let (tracked, bound, until, _, others) =
            remember_closed-IsTracked by_expiry limits.max_streams id now closed v.tracked v.bound
              v.until in
          record {
            tracked = tracked;
            bound = bound;
            until = until;
            apart = λ j. elim (Bool-cases (bytes_key.same id j)) [
              | inl e ↦
                  let at : id ≡ j = (bytes_key.same_iff id j).0 e in
                  inl (ap (entry streams) (sym at) ∙ gone)
              | inr other ↦ elim (v.apart j) [ inl e ↦ inl e | inr e ↦ inr (others j other e) ]
            ];
            room = v.room;
          }

      -- The expired ids are dropped.
      pub prune_closed-AreServed : AreServed limits now streams (prune_closed by_expiry now closed)
      prune_closed-AreServed =
          let (tracked, entries) = prune_closed-live by_expiry now closed v.tracked in
          let within = prune_closed-IsWithin by_expiry now closed v.tracked in
          record {
            tracked = tracked;
            bound = omega (arith, v.bound, within.size);
            until = within.until (now + tcp_server_closed_ttl) v.until;
            apart =
                λ j. elim (v.apart j) [ inl e ↦ inl e | inr e ↦ inr (entries j ∙ ap (live now) e) ];
            room = v.room;
          }
