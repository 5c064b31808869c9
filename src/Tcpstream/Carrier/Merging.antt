-- ===== src/Tcpstream/Carrier/Merging.antt =====
-- internal/tcpstream/carrier.go: which acknowledgement is left of those that are merged.
use engarde.Shared.{
  ◌≤◌, ◌≡◌, refl, ◌∙◌, List, [], ◌∷◌, true, false, ◌&&◌, ◌||◌, none, some, ltb, ◌==◌, All,
  Bool-cases, inl, inr, arith, ◌⊎◌,
}
use engarde.Tcpstream.Frame.{Frame}
use engarde.Tcpstream.Flow.Lifecycle.{ack_has_fin}
use engarde.Tcpstream.Carrier.{Carrier, later_ack, merge_ack, enqueue_ack, enqueue_acks}

-- `f` does not come after `g`: by the offset, and at the same offset by the FIN flag. A frame with FIN
-- comes before one with a higher offset and without FIN.
abbrev pub IsNoLater : Frame → Frame → Type 0
IsNoLater f g =
    (f.offset ≤ g.offset) × (f.offset ≡ g.offset → ack_has_fin f ≡ true → ack_has_fin g ≡ true)

IsNoLater-refl : (f : Frame) → IsNoLater f f
IsNoLater-refl f = (omega arith, λ e h. h)

IsNoLater-trans : (f g h : Frame) → IsNoLater f g → IsNoLater g h → IsNoLater f h
IsNoLater-trans f g h (a, p) (b, q) = (omega arith, λ e k. q (omega arith) (p (omega arith) k))

later_ack-IsNoLater :
    (current next : Frame)
    → IsNoLater current (later_ack current next) × IsNoLater next (later_ack current next)
unfolding later_ack
later_ack-IsNoLater current next =
    elim (Bool-cases
      (ltb next.offset current.offset || (current.offset == next.offset && ack_has_fin current))) [
        | inl e ↦ rw e (IsNoLater-refl current, (ground arith, λ s h. ground arith))
        | inr e ↦ rw e ((ground arith, λ s h. ground arith), IsNoLater-refl next)
      ]

-- `g` is one of a list.
abbrev pub Among : Frame → List Frame → Type 0
Among g [] = ⊥
Among g (f ∷ fs) = (g ≡ f) ⊎ Among g fs

later_ack-cases :
    (current next : Frame) → (later_ack current next ≡ current) ⊎ (later_ack current next ≡ next)
unfolding later_ack
later_ack-cases current next =
    elim (Bool-cases
      (ltb next.offset current.offset || (current.offset == next.offset && ack_has_fin current))) [
        | inl e ↦ rw e (inl refl)
        | inr e ↦ rw e (inr refl)
      ]

All-trans :
    (f g : Frame) (fs : List Frame)
    → All (λ x. IsNoLater x f) fs
    → IsNoLater f g
    → All (λ x. IsNoLater x g) fs
All-trans f g [] h k = tt
All-trans f g (x ∷ fs) (h, hs) k = (IsNoLater-trans x f g h k, All-trans f g fs hs k)

-- What waits on a carrier on which `current` waited before.
IsMerged : Frame → List Frame → Carrier → Type 0
IsMerged current fs carrier =
    (g : Frame) × (carrier.pending_ack ≡ some g)
    × IsNoLater current g
    × All (λ f. IsNoLater f g) fs
    × Among g (current ∷ fs)

enqueue_ack-open :
    (current f : Frame) (carrier : Carrier)
    → carrier.closing ≡ false
    → carrier.done ≡ false
    → carrier.pending_ack ≡ some current
    → ((enqueue_ack f carrier).0.pending_ack ≡ some (later_ack current f))
      × ((enqueue_ack f carrier).0.closing ≡ false)
      × ((enqueue_ack f carrier).0.done ≡ false)
unfolding enqueue_ack merge_ack
enqueue_ack-open current f carrier c d e = ground arith

enqueue_acks-IsMerged :
    (current : Frame) (fs : List Frame) (carrier : Carrier)
    → carrier.closing ≡ false
    → carrier.done ≡ false
    → carrier.pending_ack ≡ some current
    → IsMerged current fs (enqueue_acks fs carrier)
unfolding enqueue_acks IsMerged
enqueue_acks-IsMerged current [] carrier c d e = (current, e, IsNoLater-refl current, tt, inl refl)
enqueue_acks-IsMerged current (f ∷ fs) carrier c d e =
    let (e', c', d') = enqueue_ack-open current f carrier c d e in
    let (g, waits, all, rest, from) =
      enqueue_acks-IsMerged (later_ack current f) fs (enqueue_ack f carrier).0 c' d' e' in
    let (first, second) = later_ack-IsNoLater current f in
    (
      g,
      waits,
      IsNoLater-trans current (later_ack current f) g first all,
      (IsNoLater-trans f (later_ack current f) g second all, rest),
      among from,
    )
  where
    among : {g : Frame} → Among g (later_ack current f ∷ fs) → Among g (current ∷ f ∷ fs)
    among (inr later) = inr (inr later)
    among (inl same) = elim (later_ack-cases current f) [
      | inl old ↦ inl (same ∙ old)
      | inr new ↦ inr (inl (same ∙ new))
    ]

-- On a carrier that is open and on which no acknowledgement waits, after any sequence of calls of
-- enqueueAck the last of their frames waits, in the order of the offsets and, at the same offset, of
-- the FIN flag: it is one of them, its offset is the highest, and it has FIN if one of them with the
-- same offset has it.
pub enqueue_acks_merged :
    (f : Frame) (fs : List Frame) (carrier : Carrier)
    → carrier.closing ≡ false
    → carrier.done ≡ false
    → carrier.pending_ack ≡ none
    → (g : Frame) × ((enqueue_acks (f ∷ fs) carrier).pending_ack ≡ some g)
      × All (λ x. IsNoLater x g) (f ∷ fs)
      × Among g (f ∷ fs)
unfolding enqueue_acks IsMerged
enqueue_acks_merged f fs carrier c d e =
    let (e', c', d') = first in
    let (g, waits, all, rest, from) =
      enqueue_acks-IsMerged f fs (enqueue_ack f carrier).0 c' d' e' in
    (g, waits, (all, rest), from)
  where
    first :
        ((enqueue_ack f carrier).0.pending_ack ≡ some f)
        × ((enqueue_ack f carrier).0.closing ≡ false)
        × ((enqueue_ack f carrier).0.done ≡ false)
    first = unfold enqueue_ack merge_ack in ground arith
