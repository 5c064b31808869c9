-- ===== src/Tcpstream/Flow/Acknowledgement.antt =====
-- internal/tcpstream/stream.go: what an acknowledgement does to a Flow.
use engarde.Shared.{
  ℕ, ◌≤◌, ◌≡◌, refl, sym, ap, ◌∙◌, inl, inr, Bool, true, false, not, ◌||◌, ◌&&◌, arith, Bool-cases,
  ltb, ◌==◌,
}
use mathlib.Core.Path.{subst, subst₂, subst₃}
use engarde.Tcpstream.Flow.{
  Flow, acknowledge, apply_acknowledgement, record_acknowledgement, is_attached,
  acknowledgement_regresses, acknowledgement_written, acknowledgement_remembered,
  defer_acknowledgement,
}
use engarde.Tcpstream.Flow.History.{
  bytes_of, IsCounted, unacknowledged, AllOpen, unacknowledged-AllOpen, unacknowledged_open,
  prune_history_lem,
}

-- The history is counted, holds no acknowledged entry, and no acknowledgement passes what was written.
pub record IsTracked (flow : Flow) : Type 0 where
  pub counted : IsCounted flow
  pub opened : AllOpen flow.global_ack_offset flow.global_ack_fin flow.history
  pub not_ahead : flow.global_ack_offset ≤ flow.written_offset

-- What an acknowledgement may change.
pub record Acknowledges (flow flow' : Flow) : Type 0 where
  pub tracked : IsTracked flow'
  pub monotone : flow.global_ack_offset ≤ flow'.global_ack_offset
  pub fin_stays : flow.global_ack_fin ≡ true → flow'.global_ack_fin ≡ true
  pub history_left :
      flow'.history ≡ unacknowledged flow'.global_ack_offset flow'.global_ack_fin flow.history

Acknowledges-same :
    (flow flow' : Flow)
    → IsTracked flow
    → flow'.global_ack_offset ≡ flow.global_ack_offset
    → flow'.global_ack_fin ≡ flow.global_ack_fin
    → flow'.history ≡ flow.history
    → flow'.history_bytes ≡ flow.history_bytes
    → flow'.written_offset ≡ flow.written_offset
    → Acknowledges flow flow'
Acknowledges-same flow flow' t o f h b w = record {
  tracked = record {
    counted = b ∙ t.counted ∙ ap bytes_of (sym h);
    opened = subst₃ AllOpen (sym o) (sym f) (sym h) t.opened;
    not_ahead = omega arith;
  };
  monotone = omega arith;
  fin_stays = λ k. f ∙ k;
  history_left =
      h
      ∙ sym (
          unacknowledged_open flow'.global_ack_offset flow'.global_ack_fin flow.history
            (subst₂ (λ a b. AllOpen a b flow.history) (sym o) (sym f) t.opened));
}

apply_acknowledgement-Acknowledges :
    (flow : Flow) (offset : ℕ) (fin : Bool)
    → IsTracked flow
    → acknowledgement_regresses flow offset fin ≡ false
    → acknowledgement_written flow offset fin ≡ true
    → Acknowledges flow (apply_acknowledgement flow offset fin).0
unfolding apply_acknowledgement
apply_acknowledgement-Acknowledges flow offset fin t r w =
    subst (Acknowledges flow)
      (sym (
        prune_history_lem (record_acknowledgement flow offset fin)
          (unfold record_acknowledgement in t.counted)))
      (unfold record_acknowledgement in
        record {
          tracked = record {
            counted = refl;
            opened = unacknowledged-AllOpen offset (flow.global_ack_fin || fin) flow.history;
            not_ahead = written_bound;
          };
          monotone = no_regress;
          fin_stays = λ k. rw k;
          history_left = refl;
        })
  where
    written_bound : offset ≤ flow.written_offset
    written_bound = unfold acknowledgement_written in ground arith

    no_regress : flow.global_ack_offset ≤ offset
    no_regress = unfold acknowledgement_regresses in ground arith

-- On every branch of acknowledge the history stays counted and free of acknowledged entries, the
-- acknowledged offset never falls and never passes the written one, a FIN once acknowledged stays so,
-- and exactly the entries that the new offset and FIN acknowledge leave the history, the others
-- keeping their order.
pub acknowledge-Acknowledges :
    (flow : Flow) (carrier offset : ℕ) (fin : Bool)
    → IsTracked flow
    → Acknowledges flow (acknowledge flow carrier offset fin).0
acknowledge-Acknowledges flow carrier offset fin t =
    elim (Bool-cases (
      not (is_attached carrier flow.carrier_states) || acknowledgement_regresses flow offset fin)) [
        | inl e ↦ unfold acknowledge in rw e (same flow refl refl refl refl refl)
        | inr e ↦ elim (Bool-cases (acknowledgement_written flow offset fin)) [
          | inl w ↦
              unfold acknowledge in
              rw (e, w) (apply_acknowledgement-Acknowledges flow offset fin t (ground arith) w)
          | inr w ↦ elim (Bool-cases (acknowledgement_remembered flow offset fin)) [
            | inl k ↦ unfold acknowledge in rw (e, w, k) (deferred)
            | inr k ↦ unfold acknowledge in rw (e, w, k) (same flow refl refl refl refl refl)
          ]
        ]
      ]
  where
    same :
        (flow' : Flow)
        → flow'.global_ack_offset ≡ flow.global_ack_offset
        → flow'.global_ack_fin ≡ flow.global_ack_fin
        → flow'.history ≡ flow.history
        → flow'.history_bytes ≡ flow.history_bytes
        → flow'.written_offset ≡ flow.written_offset
        → Acknowledges flow flow'
    same flow' = Acknowledges-same flow flow' t

    deferred : Acknowledges flow (defer_acknowledgement flow offset fin)
    deferred =
        elim (Bool-cases (
          flow.has_deferred_ack
          && (ltb offset flow.deferred_ack_offset
              || (flow.deferred_ack_offset == offset && flow.deferred_ack_fin)))) [
                | inl e ↦ unfold defer_acknowledgement in rw e (same flow refl refl refl refl refl)
                | inr e ↦ unfold defer_acknowledgement in rw e (same _ refl refl refl refl refl)
              ]
