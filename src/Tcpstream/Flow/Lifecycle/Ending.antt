-- ===== src/Tcpstream/Flow/Lifecycle/Ending.antt =====
-- internal/tcpstream/stream.go: a Flow ends once.
use engarde.Shared.{
  ℕ, suc, ◌≤◌, ◌≡◌, refl, sym, ◌∙◌, inl, inr, List, [], ◌∷◌, Bool, true, false, not, ◌||◌, arith,
  Bool-cases, if◌then◌else◌, ◌==◌, length, Option, none, some,
}
use mathlib.Core.Path.{subst}
use engarde.Wire.{Error, no_carriers}
use engarde.Tcpstream.Flow.{Flow, prune_history, exchange_complete}
use engarde.Tcpstream.Flow.Lifecycle.{
  claim_reset, claim_last_reset, reset_after_last_carrier, reset_after_carrier_failure, detach,
  drop_carrier, is_abandoned, release_inbound, forget_carriers, finish_remote,
}

-- What can end a Flow, or happens around its end.
pub data Event : Type 0 where
  reset : Option Error → Bool → Event
  detached : ℕ → Bool → Event
  last_carrier carrier_failed released forgotten remote_finished : Event

-- The state after an event, and whether finishReset follows it.
unfoldable pub step : Event → Flow → Flow × Bool
step (reset e notify) flow = claim_reset e notify flow
step (detached c preserve) flow =
    let (left, skipped, claimed) = detach c preserve flow in (left, claimed)
step last_carrier flow = reset_after_last_carrier flow
step carrier_failed flow = reset_after_carrier_failure flow
step released flow = ((release_inbound flow).0, false)
step forgotten flow = (forget_carriers flow, false)
step remote_finished flow = ((finish_remote flow).0, false)

unfoldable pub run : List Event → Flow → Flow
unfolding step
run [] flow = flow
run (e ∷ es) flow = run es (step e flow).0

-- How often finishReset is called.
unfoldable pub claims : List Event → Flow → ℕ
unfolding step
claims [] flow = 0
claims (e ∷ es) flow =
    let rest = claims es (step e flow).0 in if (step e flow).1 then suc rest else rest

-- What an event does to the end of a Flow: it claims the reset only of an open one, which is closed
-- then, and changes nothing about the end of a closed one.
abbrev Respects : Flow → Flow × Bool → Type 0
Respects flow t =
    (t.1 ≡ true → (flow.closed ≡ false) × (t.0.closed ≡ true))
    × (flow.closed ≡ true
        → (t.1 ≡ false)
          × (t.0.closed ≡ true)
          × (t.0.terminal_err ≡ flow.terminal_err)
          × (t.0.terminal_notify ≡ flow.terminal_notify))

claim_reset-Respects :
    (e : Option Error) (notify : Bool) (flow : Flow) → Respects flow (claim_reset e notify flow)
unfolding claim_reset
claim_reset-Respects e notify flow = (λ h. ground arith, λ h. ground arith)

claim_last_reset-Respects : (flow : Flow) → Respects flow (claim_last_reset flow)
claim_last_reset-Respects flow = elim (Bool-cases (exchange_complete flow)) [
  | inl e ↦ unfold claim_last_reset in rw e (claim_reset-Respects none false flow)
  | inr e ↦ unfold claim_last_reset in rw e (claim_reset-Respects (some no_carriers) true flow)
]

Respects-kept :
    (flow flow' : Flow)
    → flow'.closed ≡ flow.closed
    → flow'.terminal_err ≡ flow.terminal_err
    → flow'.terminal_notify ≡ flow.terminal_notify
    → Respects flow (flow', false)
Respects-kept flow flow' c e n = (λ h. absurd (ff h), λ h. (refl, c ∙ h, e, n))
  where
    ff : false ≡ true → ⊥
    ff h = cc

drop_carrier-kept :
    (c : ℕ) (flow : Flow)
    → ((drop_carrier c flow).0.closed ≡ flow.closed)
      × ((drop_carrier c flow).0.terminal_err ≡ flow.terminal_err)
      × ((drop_carrier c flow).0.terminal_notify ≡ flow.terminal_notify)
unfolding drop_carrier prune_history
drop_carrier-kept c flow = ground arith

detach-Respects :
    (c : ℕ) (preserve : Bool) (flow : Flow)
    → let t = detach c preserve flow in Respects flow (t.0, t.2)
detach-Respects c preserve flow =
    let (same, err, notify) = drop_carrier-kept c flow in
    let (claims, keeps) = claim_last_reset-Respects (drop_carrier c flow).0 in
    elim (Bool-cases (is_abandoned preserve (drop_carrier c flow).0)) [
      | inl e ↦
          unfold detach in
          rw e (
            λ h. (sym same ∙ (claims h).0, (claims h).1),
            λ h. let (a, b, x, y) = keeps (same ∙ h) in (a, b, x ∙ err, y ∙ notify),
          )
      | inr e ↦ unfold detach in rw e (Respects-kept flow (drop_carrier c flow).0 same err notify)
    ]

step-Respects : (e : Event) (flow : Flow) → Respects flow (step e flow)
step-Respects (reset e notify) flow = unfold step in claim_reset-Respects e notify flow
step-Respects (detached c preserve) flow = unfold step in detach-Respects c preserve flow
step-Respects last_carrier flow =
    unfold step in
    elim (Bool-cases (flow.closed || not (length flow.carriers == 0))) [
      | inl e ↦ unfold reset_after_last_carrier in rw e (Respects-kept flow flow refl refl refl)
      | inr e ↦ unfold reset_after_last_carrier in rw e (claim_last_reset-Respects flow)
    ]
step-Respects carrier_failed flow =
    unfold step in
    elim (Bool-cases flow.closed) [
      | inl e ↦
          unfold reset_after_carrier_failure in
          subst (λ b. Respects flow (if b then (flow, false) else claim_last_reset flow)) (sym e)
            (Respects-kept flow flow refl refl refl)
      | inr e ↦
          unfold reset_after_carrier_failure in
          subst (λ b. Respects flow (if b then (flow, false) else claim_last_reset flow)) (sym e)
            (claim_last_reset-Respects flow)
    ]
step-Respects released flow =
    unfold step in
    Respects-kept flow (release_inbound flow).0 (unfold release_inbound in refl)
      (unfold release_inbound in refl) (unfold release_inbound in refl)
step-Respects forgotten flow =
    unfold step in
    Respects-kept flow (forget_carriers flow) (unfold forget_carriers in refl)
      (unfold forget_carriers in refl) (unfold forget_carriers in refl)
step-Respects remote_finished flow =
    unfold step in
    Respects-kept flow (finish_remote flow).0 (unfold finish_remote in ground arith)
      (unfold finish_remote in ground arith) (unfold finish_remote in ground arith)

claims-closed : (es : List Event) (flow : Flow) → flow.closed ≡ true → claims es flow ≡ 0
unfolding claims
claims-closed [] flow h = refl
claims-closed (e ∷ es) flow h =
    let (quiet, shut, _, _) = (step-Respects e flow).1 h in
    rw quiet (claims-closed es (step e flow).0 shut)

-- In any sequence of events around the end of a Flow, finishReset is called at most once.
pub claims-le-one : (es : List Event) (flow : Flow) → claims es flow ≤ 1
unfolding claims
claims-le-one [] flow = omega arith
claims-le-one (e ∷ es) flow = elim (Bool-cases (step e flow).1) [
  | inl c ↦ rw c (omega (arith, claims-closed es (step e flow).0 ((step-Respects e flow).0 c).1))
  | inr c ↦ rw c (claims-le-one es (step e flow).0)
]

-- Once a Flow is closed, no event opens it or changes its error or whether the peer is told.
pub run-closed :
    (es : List Event) (flow : Flow)
    → flow.closed ≡ true
    → ((run es flow).closed ≡ true)
      × ((run es flow).terminal_err ≡ flow.terminal_err)
      × ((run es flow).terminal_notify ≡ flow.terminal_notify)
unfolding run
run-closed [] flow h = (h, refl, refl)
run-closed (e ∷ es) flow h =
    let (_, shut, err, notify) = (step-Respects e flow).1 h in
    let (c, x, y) = run-closed es (step e flow).0 shut in (c, x ∙ err, y ∙ notify)
