-- ===== src/Clientrole/Group/Seen.antt =====
-- internal/clientrole/tcp_group.go: the calls by which the SOCKS client and the flow see an opening, counted, and
-- what a failure adds to them.
use engarde.Shared.{
  ℕ, ◌+◌, ◌≡◌, ◌≤◌, List, [], ◌∷◌, ◌++◌, Bool, true, false, not, ◌&&◌, ◌||◌, arith, if◌then◌else◌,
  if-cases,
}
use engarde.Wire.{Error}
use engarde.Clientrole.Group.{
  Effect, success_reported, success_unsure, flow_started, failure_reported, flow_reset, Group, does,
  fail_with, fail_open, is_no_carriers, preferred_open_error,
}

unfoldable pub is_success : Effect → Bool
is_success success_reported = true
is_success _ = false

unfoldable pub is_unsure : Effect → Bool
is_unsure success_unsure = true
is_unsure _ = false

unfoldable pub is_failure : Effect → Bool
is_failure (failure_reported e) = true
is_failure _ = false

unfoldable pub is_start : Effect → Bool
is_start flow_started = true
is_start _ = false

-- How often what the test asks for was seen.
unfoldable pub count : (Effect → Bool) → List Effect → ℕ
count test [] = 0
count test (e ∷ l) = (if test e then 1 else 0) + count test l

abbrev pub once : Bool → ℕ
once b = if b then 1 else 0

-- What is seen agrees with the group: a beforeAttach without an error and a start are seen once if the
-- group says so; a failure at most once, for a group that has failed and is not committed; and a
-- beforeAttach with an error only together with a failure.
pub record IsSeen (g : Group) : Type 0 where
  pub success_once : count is_success g.effects ≡ once g.committed
  pub start_once : count is_start g.effects ≡ once g.started
  pub failure_once : count is_failure g.effects ≤ once (g.failed && not g.committed)
  pub unsure_failed : count is_unsure g.effects ≤ count is_failure g.effects
  pub start_committed : once g.started ≤ once g.committed
  pub start_working : once g.started + once g.failed ≤ 1

pub count-does :
    (test : Effect → Bool) (l : List Effect) (e : Effect)
    → count test (l ++ (e ∷ [])) ≡ count test l + once (test e)
unfolding count
count-does test [] e = omega arith
count-does test (x ∷ l) e = omega (arith, count-does test l e)

fail_with-IsSeen :
    (e : Error) (g : Group)
    → g.started ≡ false
    → g.failed ≡ false
    → count is_success g.effects ≡ once g.committed
    → count is_start g.effects ≡ 0
    → count is_failure g.effects ≡ 0
    → count is_unsure g.effects ≤ once (not g.committed)
    → IsSeen (fail_with e g)
unfolding fail_with is_success is_failure is_start is_unsure
fail_with-IsSeen e g quiet working success start failure unsure =
    let l = g.effects in
    let m = l ++ (failure_reported e ∷ []) in
    if-cases (λ (r : Group). IsSeen (does (flow_reset e) r)) g.committed
      (λ committed. record {
        success_once = ground (arith, count-does is_success l (flow_reset e), success);
        start_once = ground (arith, count-does is_start l (flow_reset e), start);
        failure_once = ground (arith, count-does is_failure l (flow_reset e), failure);
        unsure_failed = ground (
          arith,
          count-does is_unsure l (flow_reset e),
          count-does is_failure l (flow_reset e),
          unsure,
        );
        start_committed = ground arith;
        start_working = ground arith;
      })
      (λ open_yet. record {
        success_once = ground (
          arith,
          count-does is_success m (flow_reset e),
          count-does is_success l (failure_reported e),
          success,
        );
        start_once = ground (
          arith,
          count-does is_start m (flow_reset e),
          count-does is_start l (failure_reported e),
          start,
        );
        failure_once = ground (
          arith,
          count-does is_failure m (flow_reset e),
          count-does is_failure l (failure_reported e),
          failure,
        );
        unsure_failed = ground (
          arith,
          count-does is_unsure m (flow_reset e),
          count-does is_unsure l (failure_reported e),
          count-does is_failure m (flow_reset e),
          count-does is_failure l (failure_reported e),
          unsure,
        );
        start_committed = ground arith;
        start_working = ground arith;
      })

pub fail_open-IsSeen : (e : Error) (g : Group) → IsSeen g → IsSeen (fail_open e g)
unfolding fail_open
fail_open-IsSeen e g v =
    if-cases IsSeen (g.started || g.failed || g.closed) (λ over. v)
      (λ open_yet.
        let none_yet : count is_failure g.effects ≡ 0 = ground (arith, v.failure_once) in
        fail_with-IsSeen (if is_no_carriers e then preferred_open_error e g else e) g (ground arith)
          (ground arith) v.success_once (ground (arith, v.start_once)) none_yet
          (omega (arith, v.unsure_failed, none_yet)))

-- After a beforeAttach with an error the opening fails.
pub unsure-IsSeen :
    (e : Error) (g : Group)
    → g.started ≡ false
    → g.committed ≡ false
    → g.failed ≡ false
    → g.closed ≡ false
    → IsSeen g
    → IsSeen (fail_open e (does success_unsure g))
unfolding fail_open is_success is_failure is_start is_unsure
unsure-IsSeen e g quiet fresh working running v =
    let l = g.effects in
    let failure : count is_failure l ≡ 0 = ground (arith, v.failure_once) in
    if-cases IsSeen (g.started || g.failed || g.closed) (λ over. absurd (ground arith))
      (λ open_yet.
        fail_with-IsSeen
          (if is_no_carriers e then preferred_open_error e (does success_unsure g) else e)
          (does success_unsure g) quiet working
          (ground (arith, count-does is_success l success_unsure, v.success_once))
          (ground (arith, count-does is_start l success_unsure, v.start_once))
          (ground (arith, count-does is_failure l success_unsure, failure))
          (ground (arith, count-does is_unsure l success_unsure, v.unsure_failed, failure)))
