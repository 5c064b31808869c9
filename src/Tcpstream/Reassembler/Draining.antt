-- ===== src/Tcpstream/Reassembler/Draining.antt =====
-- internal/tcpstream/reassembler.go: DrainTo and SetFIN on a whole Reassembler.
use engarde.Shared.{
  ℕ, ◌+◌, ◌-◌, ◌^◌, ◌≤◌, ◌≡◌, refl, sym, ◌∙◌, ◌⊎◌, ◌↔◌, inl, inr, List, [], ◌∷◌, true, false, ltb,
  arith, length, Bool-cases, Option-cases, Option, none, some,
}
use mathlib.Core.Path.{subst}
use engarde.Wire.{WriteOutcome, invalid_fin}
use engarde.Tcpstream.Reassembler.{
  Segment, Reassembler, fine, failed, Drained, drain_loop, drain_to, is_at, set_fin,
  any_stops_after, is_other_fin,
}
use engarde.Tcpstream.Reassembler.Segments.{
  stop, stop_of-stop, Chain, Below, covers, Agree, Holds, All-map,
}
use engarde.Tcpstream.Reassembler.Invariant.{IsValid, FinAllows}
use engarde.Tcpstream.Reassembler.Delivery.{Delivers, drain_loop-Delivers}

drain_to-Delivers :
    (ws : List WriteOutcome) (r : Reassembler) → IsValid r → Delivers r.segments r (drain_to ws r).0
unfolding drain_to
drain_to-Delivers ws r v = drain_loop-Delivers r.segments ws r v.chain v.counted

FinAllows-drained :
    (fin fin' : Option ℕ) (r : Reassembler) (d : Drained)
    → Delivers r.segments r d
    → d.error ≡ none
    → fin' ≡ fin
    → FinAllows fin r.next_offset r.segments
    → FinAllows fin' d.state.next_offset d.state.segments
FinAllows-drained none fin' r d g h e k =
    subst (λ t. FinAllows t d.state.next_offset d.state.segments) (sym e) tt
FinAllows-drained (some fin) fin' r d g h e k =
    subst (λ t. FinAllows t d.state.next_offset d.state.segments) (sym e)
      (g.frontier fin h k.1 k.0, g.bound fin h k.1)

Delivers-IsValid :
    (r : Reassembler) (d : Drained)
    → IsValid r
    → Delivers r.segments r d
    → d.error ≡ none
    → IsValid d.state
Delivers-IsValid r d v g h = record {
  chain = g.chain h;
  counted = g.counted h;
  in_range = g.bound (2 ^ 64 - 1) h v.in_range;
  in_window =
      All-map (λ s. stop s ≤ r.next_offset + r.window_bytes)
        (λ s. stop s ≤ d.state.next_offset + d.state.window_bytes) d.state.segments
        (λ s l. omega (arith, g.moved, g.same_window))
        (g.bound (r.next_offset + r.window_bytes) h v.in_window);
  before_fin = FinAllows-drained r.fin_offset d.state.fin_offset r d g h g.same_fin v.before_fin;
}

-- DrainTo moves the frontier by the number of bytes it writes, and these are the bytes of the stream
-- from the old frontier on, on every outcome of the writes. If it reports no error, the invariant
-- holds again, and no byte that is held could still be written: the frontier is not covered.
pub drain_to_delivers :
    (ws : List WriteOutcome) (r : Reassembler)
    → IsValid r
    → let d = (drain_to ws r).0 in
      (d.state.next_offset ≡ r.next_offset + length d.sent)
      × ((f : ℕ → ℕ) → Holds f r.segments → Agree f r.next_offset d.sent × Holds f d.state.segments)
      × (d.error ≡ none → IsValid d.state × (covers d.state.segments d.state.next_offset ≡ false))
drain_to_delivers ws r v =
    let g = drain_to-Delivers ws r v in
    (g.moved, g.stream, λ h. (Delivers-IsValid r (drain_to ws r).0 v g h, g.nothing_ready h))

is_at_iff : (fin : Option ℕ) (next : ℕ) → (is_at fin next ≡ true) ↔ (fin ≡ some next)
unfolding is_at
is_at_iff none next = (λ h. cc, λ h. cc)
is_at_iff (some fin) next = (λ h. ground arith, λ h. ground arith)

Chain-empty : (lo : ℕ) (ss : List Segment) → Chain lo ss → Below lo ss → ss ≡ []
Chain-empty lo [] c b = refl
Chain-empty lo (s ∷ ss) (a, n, c) (b, others) = absurd (omega arith)

finished_iff :
    (ws : List WriteOutcome) (r : Reassembler)
    → (drain_to ws r).1 ≡ true ↔ (
        ((drain_to ws r).0.error ≡ none)
        × (is_at (drain_to ws r).0.state.fin_offset (drain_to ws r).0.state.next_offset ≡ true))
unfolding drain_to
finished_iff ws r = elim (Option-cases (drain_loop r.segments ws r).error) [
  | inl e ↦ (λ h. (e, ground arith), λ h. ground arith)
  | inr (x, e) ↦ (λ h. absurd (ground arith), λ h. absurd (ground arith))
]

-- DrainTo reports a finished stream exactly if it reports no error and the frontier has come to the
-- end that SetFIN recorded; then nothing is held any more.
pub drain_to_finished :
    (ws : List WriteOutcome) (r : Reassembler)
    → IsValid r
    → ((drain_to ws r).1 ≡ true ↔ (
        ((drain_to ws r).0.error ≡ none)
        × (r.fin_offset ≡ some (drain_to ws r).0.state.next_offset)))
      × ((drain_to ws r).1 ≡ true → (drain_to ws r).0.state.segments ≡ [])
drain_to_finished ws r v =
    let d = (drain_to ws r).0 in
    let g = drain_to-Delivers ws r v in
    let at_end = is_at_iff d.state.fin_offset d.state.next_offset in
    let whole = finished_iff ws r in
    (
      (
        λ h. ((whole.0 h).0, sym g.same_fin ∙ at_end.0 (whole.0 h).1),
        λ h. whole.1 (h.0, at_end.1 (g.same_fin ∙ h.1)),
      ),
      λ h.
          let valid = Delivers-IsValid r d v g (whole.0 h).0 in
          Chain-empty d.state.next_offset d.state.segments valid.chain
            (subst (λ t. FinAllows t d.state.next_offset d.state.segments) (at_end.0 (whole.0 h).1)
              valid.before_fin).1,
    )

stops_before :
    (offset : ℕ) (ss : List Segment)
    → Below (2 ^ 64 - 1) ss
    → any_stops_after offset ss ≡ false
    → Below offset ss
unfolding any_stops_after
stops_before offset [] b h = tt
stops_before offset (s ∷ ss) (b, others) h =
    (ground (arith, stop_of-stop s (omega arith)), stops_before offset ss others (ground arith))

-- SetFIN keeps the invariant on every branch. It fails without a change, or returns nil with the end
-- recorded and nothing else changed.
pub set_fin-IsValid :
    (offset : ℕ) (r : Reassembler)
    → IsValid r
    → IsValid (set_fin offset r).0
      × ((set_fin offset r ≡ (r, failed invalid_fin))
          ⊎ (set_fin offset r ≡ (record r { fin_offset = some offset }, fine)))
set_fin-IsValid offset r v = elim (Bool-cases (ltb offset r.next_offset)) [
  | inl e ↦ unfold set_fin in rw e (v, inl refl)
  | inr e ↦ elim (Bool-cases (any_stops_after offset r.segments)) [
    | inl f ↦ unfold set_fin in rw (e, f) (v, inl refl)
    | inr f ↦ elim (Bool-cases (is_other_fin r.fin_offset offset)) [
      | inl g ↦ unfold set_fin in rw (e, f, g) (v, inl refl)
      | inr g ↦
          unfold set_fin in
          rw (e, f, g)
            (
              record {
                chain = v.chain;
                counted = v.counted;
                in_range = v.in_range;
                in_window = v.in_window;
                before_fin = (ground arith, stops_before offset r.segments v.in_range f);
              },
              inr refl,
            )
    ]
  ]
]
