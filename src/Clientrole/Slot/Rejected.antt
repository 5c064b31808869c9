-- ===== src/Clientrole/Slot/Rejected.antt =====
-- internal/clientrole/tcp_group.go: an OPEN that the server has rejected is not sent again in the same session.
use engarde.Shared.{
  ℕ, suc, ◌≡◌, refl, ap, ◌∙◌, List, [], ◌∷◌, Bool, true, false, not, ◌&&◌, ◌||◌, ◌==◌, ◌!=◌,
  if◌then◌else◌, if-cases, arith,
}
use engarde.Clientrole.Slot.{
  Slot, Attempt, SlotEvent, reconciles, finishes, rejects, attaches, removes, retries, waits, holds,
  is_some, is_attempt, valid_open_attempt, finish_open_attempt, reject_open_attempt, reconcile_slot,
  attach_carrier, remove_carrier, retry_slot, retry_wait_ends, slot_step, attempts,
}

-- The server has rejected the slot's attempt in the session `a`.
pub record IsRejected (a : Attempt) (s : Slot) : Type 0 where
  pub same_session : (holds a.session s.session && s.generation == a.generation) ≡ true
  pub rejected : s.open_rejected ≡ true
  pub not_in_flight : s.in_flight ≡ false

module _ (current : Attempt) (s : Slot) (v : IsRejected current s) where
  abbrev IsStill : Slot × Bool → Type 0
  IsStill t = IsRejected current t.0 × (t.1 ≡ false)

  still : IsStill (s, false)
  still = (v, refl)

  reconcile_slot-IsStill :
      (blocked starts : Bool) → IsStill (reconcile_slot blocked starts current s)
  unfolding reconcile_slot
  reconcile_slot-IsStill blocked starts =
      let same = holds current.session s.session && s.generation == current.generation in
      if-cases IsStill (blocked || s.path != current.path) (λ over. still)
        (λ going.
          if-cases IsStill (is_some s.carrier && same) (λ carried. still)
            (λ bare.
              if-cases IsStill (same && (s.in_flight || s.retrying || s.open_rejected))
                (λ busy. still) (λ idle. absurd (ground (arith, v.same_session, v.rejected)))))

  attach_carrier-IsStill :
      (blocked : Bool) (a : Attempt) (n : ℕ) → IsStill (attach_carrier blocked a n s, false)
  unfolding attach_carrier valid_open_attempt
  attach_carrier-IsStill blocked a n =
      if-cases (λ r. IsStill (r, false)) (not blocked && is_attempt a s && s.in_flight)
        (λ valid. absurd (ground (arith, v.not_in_flight))) (λ invalid. still)

  slot_step-IsStill : (e : SlotEvent) → IsStill (slot_step current e s)
  unfolding slot_step finish_open_attempt reject_open_attempt remove_carrier retry_slot
      retry_wait_ends
  slot_step-IsStill (reconciles blocked starts) = reconcile_slot-IsStill blocked starts
  slot_step-IsStill (finishes a) =
      if-cases (λ r. IsStill (r, false)) (is_attempt a s)
        (λ own. (
          record { same_session = v.same_session; rejected = v.rejected; not_in_flight = refl },
          refl,
        ))
        (λ other. still)
  slot_step-IsStill (rejects a) =
      if-cases (λ r. IsStill (r, false)) (is_attempt a s)
        (λ own.
          (record { same_session = v.same_session; rejected = refl; not_in_flight = refl }, refl))
        (λ other. still)
  slot_step-IsStill (attaches blocked a n) = attach_carrier-IsStill blocked a n
  slot_step-IsStill (removes a n) =
      if-cases (λ (r : Slot × Bool). IsStill (r.0, false)) (is_attempt a s && holds n s.carrier)
        (λ own. (
          record {
            same_session = v.same_session;
            rejected = v.rejected;
            not_in_flight = v.not_in_flight;
          },
          refl,
        ))
        (λ other. still)
  slot_step-IsStill (retries blocked over starts reset a) =
      if-cases (λ r. IsStill (r, false))
        (blocked || not (is_attempt a s) || is_some s.carrier || over) (λ refused. still)
        (λ own.
          if-cases (λ r. IsStill (r, false)) s.retrying
            (λ again. (
              record { same_session = v.same_session; rejected = v.rejected; not_in_flight = refl },
              refl,
            ))
            (λ first. (
              record { same_session = v.same_session; rejected = v.rejected; not_in_flight = refl },
              refl,
            )))
  slot_step-IsStill (waits blocked over a) =
      if-cases (λ (r : Slot × Bool). IsStill (r.0, false))
        (blocked || not (is_attempt a s) || not s.retrying || is_some s.carrier || over)
        (λ refused. still)
        (λ own. (
          record {
            same_session = v.same_session;
            rejected = v.rejected;
            not_in_flight = v.not_in_flight;
          },
          refl,
        ))

-- Once the server has rejected the OPEN of a slot in a session, no attempt begins in it as long as that
-- is the session of the path, whatever workers, waits and reconciliations follow.
pub attempts-IsRejected :
    (current : Attempt) (events : List SlotEvent) (s : Slot)
    → IsRejected current s
    → attempts current events s ≡ 0
unfolding attempts
attempts-IsRejected current [] s v = refl
attempts-IsRejected current (e ∷ events) s v =
    let (v', none_begins) = slot_step-IsStill current s v e in
    let rest = attempts-IsRejected current events (slot_step current e s).0 v' in
    ap
      (λ b.
        if b
        then suc (attempts current events (slot_step current e s).0)
        else attempts current events (slot_step current e s).0)
      none_begins
    ∙ rest
