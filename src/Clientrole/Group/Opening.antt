-- ===== src/Clientrole/Group/Opening.antt =====
-- internal/clientrole/tcp_group.go: what the SOCKS client and the flow see of the opening, in every order of
-- attempts, failures and the end of the group.
use engarde.Shared.{
  ltb, ℕ, ◌+◌, ◌≡◌, ◌≤◌, refl, Bool, true, false, not, ◌&&◌, ◌||◌, Option, none, some, arith,
  if-cases,
}
use engarde.Wire.{Error}
use engarde.Tcpstream.Frame.{open_result_policy_denied}
use engarde.Clientrole.Group.{
  success_reported, flow_started, Group, new_group, does, Findings, fail_open, finish_attach,
  commit, attach, close_group, record_open_error, record_result, rejection,
}
use engarde.Clientrole.Group.Seen.{
  IsSeen, is_success, is_failure, is_start, is_unsure, count, count-does, fail_open-IsSeen,
  unsure-IsSeen,
}

reported-IsSeen :
    (g : Group)
    → g.committed ≡ false
    → g.failed ≡ false
    → IsSeen g
    → IsSeen (does success_reported (record g { committed = true }))
unfolding is_success is_failure is_start is_unsure
reported-IsSeen g fresh working v = record {
  success_once = ground (arith, count-does is_success g.effects success_reported, v.success_once);
  start_once = ground (arith, count-does is_start g.effects success_reported, v.start_once);
  failure_once = ground (arith, count-does is_failure g.effects success_reported, v.failure_once);
  unsure_failed = ground (
    arith,
    count-does is_unsure g.effects success_reported,
    count-does is_failure g.effects success_reported,
    v.unsure_failed,
  );
  start_committed = ground arith;
  start_working = v.start_working;
}

finish_attach-IsSeen :
    (f : Findings) (first : Bool) (g : Group)
    → g.committed ≡ true
    → g.failed ≡ false
    → (first ≡ true → g.started ≡ false)
    → IsSeen g
    → IsSeen (finish_attach f first g)
unfolding finish_attach is_success is_failure is_start is_unsure
finish_attach-IsSeen f first g committed working quiet v =
    if-cases IsSeen (f.done_committed || not f.valid_after) (λ gone. v)
      (λ good.
        if-cases IsSeen first
          (λ h.
            let silent : g.started ≡ false = quiet h in
            record {
              success_once =
                  ground (arith, count-does is_success g.effects flow_started, v.success_once);
              start_once =
                  ground (arith, count-does is_start g.effects flow_started, v.start_once, silent);
              failure_once =
                  ground (arith, count-does is_failure g.effects flow_started, v.failure_once);
              unsure_failed = ground (
                arith,
                count-does is_unsure g.effects flow_started,
                count-does is_failure g.effects flow_started,
                v.unsure_failed,
              );
              start_committed = ground arith;
              start_working = ground arith;
            })
          (λ later. v))

commit-IsSeen :
    (f : Findings) (o : Option Error) (g : Group)
    → g.started ≡ false
    → g.committed ≡ false
    → g.failed ≡ false
    → g.closed ≡ false
    → IsSeen g
    → IsSeen (commit f o g)
unfolding commit
commit-IsSeen f (some e) g quiet fresh working running v =
    unsure-IsSeen e g quiet fresh working running v
commit-IsSeen f none g quiet fresh working running v =
    finish_attach-IsSeen f true (does success_reported (record g { committed = true })) refl working
      (λ first. quiet) (reported-IsSeen g fresh working v)

attach-IsSeen : (f : Findings) (g : Group) → IsSeen g → IsSeen (attach f g)
unfolding attach
attach-IsSeen f g v =
    if-cases IsSeen
      (g.closed
        || g.failed
        || not f.valid_before
        || not f.flow_takes
        || not f.valid_attached
        || f.done_attached)
      (λ invalid. v)
      (λ valid.
        if-cases IsSeen (not g.started && not g.committed)
          (λ fresh.
            commit-IsSeen f f.commit_error g (ground arith) (ground arith) (ground arith)
              (ground arith) v)
          (λ later.
            finish_attach-IsSeen f (not g.started) g (ground (arith, v.start_committed))
              (ground arith) (λ first. ground arith) v))

record_open_error-IsSeen : (e : Error) (g : Group) → IsSeen g → IsSeen (record_open_error e g)
unfolding record_open_error record_result
record_open_error-IsSeen e g v = by_result (rejection e)
  where
    by_result : (o : Option ℕ) → IsSeen (record_result o g)
    by_result none = v
    by_result (some r) =
        if-cases IsSeen (ltb open_result_policy_denied r || g.started || g.failed || g.closed)
          (λ over. v)
          (λ noted. record {
            success_once = v.success_once;
            start_once = v.start_once;
            failure_once = v.failure_once;
            unsure_failed = v.unsure_failed;
            start_committed = v.start_committed;
            start_working = v.start_working;
          })

-- What may happen to a group.
pub data Step (g : Group) : Group → Type 0 where
  attempt_opens : (f : Findings) → Step g (attach f g)
  attempt_fails : (e : Error) → Step g (record_open_error e g)
  opening_fails : (e : Error) → Step g (fail_open e g)
  closes : Step g (close_group g)

pub data Life : Group → Type 0 where
  created : Life new_group
  goes : {g g' : Group} → Life g → Step g g' → Life g'

Step-IsSeen : {g g' : Group} → Step g g' → IsSeen g → IsSeen g'
unfolding close_group
Step-IsSeen {g} (attempt_opens f) v = attach-IsSeen f g v
Step-IsSeen {g} (attempt_fails e) v = record_open_error-IsSeen e g v
Step-IsSeen {g} (opening_fails e) v = fail_open-IsSeen e g v
Step-IsSeen {g} closes v = record {
  success_once = v.success_once;
  start_once = v.start_once;
  failure_once = v.failure_once;
  unsure_failed = v.unsure_failed;
  start_committed = v.start_committed;
  start_working = v.start_working;
}

seen : {g : Group} → Life g → IsSeen g
unfolding count
seen created = record {
  success_once = refl;
  start_once = refl;
  failure_once = omega arith;
  unsure_failed = omega arith;
  start_committed = omega arith;
  start_working = omega arith;
}
seen (goes before step) = Step-IsSeen step (seen before)

-- In every order of attempts, failures and the end of a group: beforeAttach is called at most once, and
-- onOpenFailed at most once and never if a beforeAttach has returned no error. If it has returned
-- one, onOpenFailed has been called, also where the reply that beforeAttach writes has arrived. The
-- flow is started at most once, only after a beforeAttach without an error, and never once the
-- opening has failed.
pub Life-IsSeen :
    {g : Group} → Life g → IsSeen g × (count is_success g.effects + count is_unsure g.effects ≤ 1)
Life-IsSeen life =
    let v = seen life in (v, ground (arith, v.success_once, v.failure_once, v.unsure_failed))
