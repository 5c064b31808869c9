-- ===== src/Clientrole/Group.antt =====
-- internal/clientrole/tcp_group.go: tcpCarrierGroup, the opening of a flow over its carriers. attach, failOpen and
-- close run under startMu, so that each is one operation here; what the code finds out in between is
-- an argument.
pub mod Seen
pub mod Opening
pub mod Preferred
use engarde.Shared.{
  ℕ, zero, suc, ◌+◌, List, [], ◌∷◌, ◌++◌, Bool, true, false, not, ◌&&◌, ◌||◌, Option, none, some,
  ltb, ◌==◌, if◌then◌else◌, get_or, replicate,
}
use engarde.Wire.{Error, open_rejected, no_carriers}
use engarde.Tcpstream.Frame.{open_result_policy_denied}

-- What the group does to the rest of the client: a call of beforeAttach, which writes the success reply
-- to the SOCKS client, by whether it returns an error; onOpenFailed, which writes a failure reply; and Start and
-- Reset of the flow. A beforeAttach that returns an error may have written all of the reply, a part of it or none.
pub data Effect : Type 0 where
  success_reported success_unsure flow_started : Effect
  failure_reported flow_reset : Error → Effect

pub record Group : Type 0 where
  pub started : Bool
  pub committed : Bool
  pub failed : Bool
  pub closed : Bool
  pub open_results : List Bool
  pub effects : List Effect

abbrev pub new_group : Group
new_group = record {
  started = false;
  committed = false;
  failed = false;
  closed = false;
  open_results = replicate 7 false;
  effects = [];
}

abbrev pub does : Effect → Group → Group
does e g = record g { effects = g.effects ++ (e ∷ []) }

-- errors.Is(err, tcpstream.ErrNoCarriers).
pub is_no_carriers : Error → Bool
is_no_carriers no_carriers = true
is_no_carriers _ = false

pub first_result : List ℕ → List Bool → Error → Error
first_result [] found fallback = fallback
first_result (r ∷ rs) found fallback =
    if get_or found r false then open_rejected r else first_result rs found fallback

-- policy denied, connection refused, host unreachable, network unreachable, timeout, general failure.
unfoldable pub preferred_open_error : Error → Group → Error
unfolding first_result
preferred_open_error fallback g = first_result (6 ∷ 2 ∷ 4 ∷ 3 ∷ 5 ∷ 1 ∷ []) g.open_results fallback

pub set_result : ℕ → List Bool → List Bool
set_result r [] = []
set_result zero (b ∷ found) = true ∷ found
set_result (suc r) (b ∷ found) = b ∷ set_result r found

-- The OpenError in the error.
pub rejection : Error → Option ℕ
rejection (open_rejected r) = some r
rejection _ = none

pub record_result : Option ℕ → Group → Group
unfolding set_result
record_result none g = g
record_result (some r) g =
    if ltb open_result_policy_denied r || g.started || g.failed || g.closed
    then g
    else record g { open_results = set_result r g.open_results }

unfoldable pub record_open_error : Error → Group → Group
unfolding rejection record_result
record_open_error e g = record_result (rejection e) g

-- failOpenLocked behind its test.
pub fail_with : Error → Group → Group
fail_with e g =
    let reported : Group =
      if g.committed
      then record g { failed = true }
      else does (failure_reported e) (record g { failed = true }) in
    does (flow_reset e) reported

unfoldable pub fail_open : Error → Group → Group
unfolding is_no_carriers preferred_open_error fail_with
fail_open e g =
    if g.started || g.failed || g.closed
    then g
    else fail_with (if is_no_carriers e then preferred_open_error e g else e) g

-- What attach finds: whether the attempt is valid at each of the three tests, whether the flow takes the carrier,
-- whether the carrier is done at either test, and what beforeAttach returns.
pub record Findings : Type 0 where
  pub valid_before : Bool
  pub flow_takes : Bool
  pub valid_attached : Bool
  pub done_attached : Bool
  pub commit_error : Option Error
  pub done_committed : Bool
  pub valid_after : Bool

-- attach once the flow is committed: the slot gets the carrier.
pub finish_attach : Findings → Bool → Group → Group
finish_attach f first g =
    if f.done_committed || not f.valid_after
    then g
    else if first
    then does flow_started (record g { started = true })
    else g

pub commit : Findings → Option Error → Group → Group
unfolding finish_attach fail_open
commit f (some e) g = fail_open e (does success_unsure g)
commit f none g = finish_attach f true (does success_reported (record g { committed = true }))

-- validOpenAttemptLocked asks for a group that is neither closed nor failed; `Findings` has the rest of it.
unfoldable pub attach : Findings → Group → Group
unfolding commit finish_attach
attach f g =
    if g.closed
      || g.failed
      || not f.valid_before
      || not f.flow_takes
      || not f.valid_attached
      || f.done_attached
    then g
    else if not g.started && not g.committed
    then commit f f.commit_error g
    else finish_attach f (not g.started) g

unfoldable pub close_group : Group → Group
close_group g = record g { closed = true }
