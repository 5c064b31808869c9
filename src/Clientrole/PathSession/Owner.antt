-- ===== src/Clientrole/PathSession/Owner.antt =====
-- internal/clientrole/tcp_group.go: a path session has one worker at most, and its flags say which.
use engarde.Shared.{
  ℕ, zero, suc, ◌≡◌, ◌≤◌, refl, sym, ap, List, [], ◌∷◌, ◌++◌, Bool, true, false, not, ◌||◌, Option,
  none, some, ◌==◌, ◌%◌, ◌^◌, ◌!=◌, length, length-append, arith, if◌then◌else◌, if-cases,
}
use mathlib.Core.Path.{subst}
use engarde.Clientrole.Backoff.{next_retry}
use engarde.Clientrole.PathSession.{
  Worker, dialling, waiting, watching, retry_due, reconcile_due, PathSession, new_path_session,
  reconcile, retry, establish, session_ends, wait_ends, close, work, Event, gives, proceeds,
  given_up, ends, finish_attempt,
}

abbrev pub state : Option ℕ → ℕ → Bool → Bool → ℕ → List Worker → PathSession
state session generation in_flight retrying retry_count workers = record {
  session = session;
  generation = generation;
  in_flight = in_flight;
  retrying = retrying;
  retry_count = retry_count;
  closed = false;
  workers = workers;
}

-- The flags of a path session and its one worker. Between two parts of a worker all flags are off. Once it
-- is closed a worker may still be at its last part.
pub data IsOwned : PathSession → Type 0 where
  rests : (g c : ℕ) → IsOwned (state none g false false c [])
  dials : (g c : ℕ) → IsOwned (state none g true false c (dialling g ∷ []))
  serves : (g c n : ℕ) → IsOwned (state (some n) g false false c (watching g n ∷ []))
  falls : (g c : ℕ) → IsOwned (state none g false false c (retry_due g ∷ []))
  waits : (g c : ℕ) → IsOwned (state none g false true c (waiting g ∷ []))
  resumes : (g c : ℕ) → IsOwned (state none g false false c (reconcile_due ∷ []))
  abandoned : (g c : ℕ) → IsOwned (state none g false true c [])
  shut : (s : PathSession) → s.closed ≡ true → length s.workers ≤ 1 → IsOwned s

pub only :
    (before after : List Worker) (w v : Worker)
    → v ∷ [] ≡ before ++ (w ∷ after)
    → (before ++ after ≡ []) × (w ≡ v)
only [] after w v h = (cc, cc)
only (b ∷ []) after w v h = absurd (cc)
only (b ∷ d ∷ before) after w v h = absurd (cc)

retry-IsOwned :
    (starts : Bool) (g c : ℕ) (flying : Bool)
    → IsOwned (retry starts g (state none g flying false c []))
unfolding retry
retry-IsOwned starts g c flying =
    if-cases IsOwned (g != g || false) (λ other. absurd (ground arith))
      (λ own.
        if-cases IsOwned starts (λ started. waits g (next_retry c).1)
          (λ refused. rests g (next_retry c).1))

reconcile-IsOwned :
    (starts : Bool) (g c : ℕ) → IsOwned (reconcile starts (state none g false false c []))
unfolding reconcile finish_attempt
reconcile-IsOwned starts g c =
    if-cases IsOwned starts (λ started. dials (suc g % 2 ^ 64) c)
      (λ refused.
        if-cases IsOwned (suc g % 2 ^ 64 == suc g % 2 ^ 64) (λ own. rests (suc g % 2 ^ 64) c)
          (λ other. absurd (ground arith)))

establish-IsOwned : (g c n : ℕ) → IsOwned (establish g n (state none g true false c [])).0
unfolding establish
establish-IsOwned g c n =
    if-cases (λ (t : PathSession × Bool). IsOwned t.0) (g != g) (λ other. absurd (ground arith))
      (λ own. serves g c n)

session_ends-IsOwned :
    (stable : Bool) (g c n : ℕ)
    → IsOwned (session_ends stable g n (state (some n) g false false c []))
unfolding session_ends
session_ends-IsOwned stable g c n =
    if-cases IsOwned (not (n == n)) (λ other. absurd (ground arith))
      (λ own. falls g (if stable then zero else c))

wait_ends-IsOwned : (g c : ℕ) → IsOwned (wait_ends g (state none g false true c []))
unfolding wait_ends
wait_ends-IsOwned g c =
    if-cases IsOwned (g != g || false || false) (λ other. absurd (ground arith))
      (λ own. resumes g c)

dialling-IsOwned :
    (starts : Bool) (g c : ℕ) (e : Event)
    → IsOwned (work starts (dialling g) e (state none g true false c []))
unfolding work
dialling-IsOwned starts g c (gives n) = establish-IsOwned g c n
dialling-IsOwned starts g c proceeds = retry-IsOwned starts g c true
dialling-IsOwned starts g c given_up = retry-IsOwned starts g c true
dialling-IsOwned starts g c (ends stable) = retry-IsOwned starts g c true

watching-IsOwned :
    (starts : Bool) (g c n : ℕ) (e : Event)
    → IsOwned (work starts (watching g n) e (state (some n) g false false c []))
unfolding work
watching-IsOwned starts g c n (ends stable) = session_ends-IsOwned stable g c n
watching-IsOwned starts g c n (gives m) = session_ends-IsOwned false g c n
watching-IsOwned starts g c n proceeds = session_ends-IsOwned false g c n
watching-IsOwned starts g c n given_up = session_ends-IsOwned false g c n

waiting-IsOwned :
    (starts : Bool) (g c : ℕ) (e : Event)
    → IsOwned (work starts (waiting g) e (state none g false true c []))
unfolding work
waiting-IsOwned starts g c given_up = abandoned g c
waiting-IsOwned starts g c (gives n) = wait_ends-IsOwned g c
waiting-IsOwned starts g c proceeds = wait_ends-IsOwned g c
waiting-IsOwned starts g c (ends stable) = wait_ends-IsOwned g c

close-IsOwned : (s : PathSession) → IsOwned s → IsOwned (close s).0
unfolding close
close-IsOwned s (rests g c) =
    shut (record (state none g false false c []) { closed = true }) refl (omega arith)
close-IsOwned s (abandoned g c) =
    shut (record (state none g false true c []) { closed = true }) refl (omega arith)
close-IsOwned s (dials g c) =
    shut (record (state none g true false c (dialling g ∷ [])) { closed = true }) refl (omega arith)
close-IsOwned s (serves g c n) =
    shut (record (state none g false false c (watching g n ∷ [])) { closed = true }) refl
      (omega arith)
close-IsOwned s (falls g c) =
    shut (record (state none g false false c (retry_due g ∷ [])) { closed = true }) refl
      (omega arith)
close-IsOwned s (waits g c) =
    shut (record (state none g false true c (waiting g ∷ [])) { closed = true }) refl (omega arith)
close-IsOwned s (resumes g c) =
    shut (record (state none g false false c (reconcile_due ∷ [])) { closed = true }) refl
      (omega arith)
close-IsOwned _ (shut s h one) =
    if-cases (λ (t : PathSession × Option ℕ). IsOwned t.0) s.closed (λ again. shut s h one)
      (λ running. absurd (cc))

pub nothing : (before after : List Worker) (w : Worker) → [] ≡ before ++ (w ∷ after) → ⊥
nothing [] after w h = cc
nothing (b ∷ before) after w h = cc

-- What a closed path session keeps.
abbrev pub StaysShut : PathSession → PathSession → Type 0
StaysShut s s' = (s'.closed ≡ true) × (s'.workers ≡ s.workers)

module _ (s : PathSession) (h : s.closed ≡ true) where
  retry-StaysShut : (starts : Bool) (g : ℕ) → StaysShut s (retry starts g s)
  unfolding retry
  retry-StaysShut starts g = (ground (arith, h), ground (arith, h))

  session_ends-StaysShut : (stable : Bool) (g n : ℕ) → StaysShut s (session_ends stable g n s)
  unfolding session_ends
  session_ends-StaysShut stable g n = (ground (arith, h), ground (arith, h))

  wait_ends-StaysShut : (g : ℕ) → StaysShut s (wait_ends g s)
  unfolding wait_ends
  wait_ends-StaysShut g = (ground (arith, h), ground (arith, h))

  pub work-StaysShut : (starts : Bool) (w : Worker) (e : Event) → StaysShut s (work starts w e s)
  unfolding work establish reconcile
  work-StaysShut starts (dialling g) (gives n) = (ground (arith, h), ground (arith, h))
  work-StaysShut starts (dialling g) proceeds = retry-StaysShut starts g
  work-StaysShut starts (dialling g) given_up = retry-StaysShut starts g
  work-StaysShut starts (dialling g) (ends stable) = retry-StaysShut starts g
  work-StaysShut starts (watching g n) (ends stable) = session_ends-StaysShut stable g n
  work-StaysShut starts (watching g n) (gives m) = session_ends-StaysShut false g n
  work-StaysShut starts (watching g n) proceeds = session_ends-StaysShut false g n
  work-StaysShut starts (watching g n) given_up = session_ends-StaysShut false g n
  work-StaysShut starts (waiting g) given_up = (h, refl)
  work-StaysShut starts (waiting g) (gives m) = wait_ends-StaysShut g
  work-StaysShut starts (waiting g) proceeds = wait_ends-StaysShut g
  work-StaysShut starts (waiting g) (ends stable) = wait_ends-StaysShut g
  work-StaysShut starts (retry_due g) e = retry-StaysShut starts g
  work-StaysShut starts reconcile_due e = (ground (arith, h), ground (arith, h))

-- A worker's next part at each of the states.
work-IsOwned :
    (starts : Bool) (w : Worker) (e : Event) (s : PathSession) (before after : List Worker)
    → s.workers ≡ before ++ (w ∷ after)
    → IsOwned s
    → IsOwned (work starts w e (record s { workers = before ++ after }))
unfolding work
work-IsOwned starts w e s before after at (rests g c) = absurd (nothing before after w at)
work-IsOwned starts w e s before after at (abandoned g c) = absurd (nothing before after w at)
work-IsOwned starts w e s before after at (dials g c) =
    let (left, same) = only before after w (dialling g) at in
    subst (λ v. IsOwned (work starts v e (state none g true false c (before ++ after)))) (sym same)
      (subst (λ l. IsOwned (work starts (dialling g) e (state none g true false c l))) (sym left)
        (dialling-IsOwned starts g c e))
work-IsOwned starts w e s before after at (serves g c n) =
    let (left, same) = only before after w (watching g n) at in
    subst (λ v. IsOwned (work starts v e (state (some n) g false false c (before ++ after))))
      (sym same)
      (subst (λ l. IsOwned (work starts (watching g n) e (state (some n) g false false c l)))
        (sym left) (watching-IsOwned starts g c n e))
work-IsOwned starts w e s before after at (falls g c) =
    let (left, same) = only before after w (retry_due g) at in
    subst (λ v. IsOwned (work starts v e (state none g false false c (before ++ after)))) (sym same)
      (subst (λ l. IsOwned (retry starts g (state none g false false c l))) (sym left)
        (retry-IsOwned starts g c false))
work-IsOwned starts w e s before after at (waits g c) =
    let (left, same) = only before after w (waiting g) at in
    subst (λ v. IsOwned (work starts v e (state none g false true c (before ++ after)))) (sym same)
      (subst (λ l. IsOwned (work starts (waiting g) e (state none g false true c l))) (sym left)
        (waiting-IsOwned starts g c e))
work-IsOwned starts w e s before after at (resumes g c) =
    let (left, same) = only before after w reconcile_due at in
    subst (λ v. IsOwned (work starts v e (state none g false false c (before ++ after)))) (sym same)
      (subst (λ l. IsOwned (reconcile starts (state none g false false c l))) (sym left)
        (reconcile-IsOwned starts g c))
work-IsOwned starts w e s before after at (shut _ h one) =
    let rest : PathSession = record s { workers = before ++ after } in
    let (still, same) = work-StaysShut rest h starts w e in
    shut (work starts w e rest) still (
      omega (
        arith,
        one,
        ap length same,
        ap length at,
        length-append before (w ∷ after),
        length-append before after,
      ))

-- What happens to a path session: refreshCarrierGroups starts it once, a worker does its next part, it is closed.
pub data Step (s : PathSession) : PathSession → Type 0 where
  works :
      (starts : Bool) (w : Worker) (e : Event) (before after : List Worker)
      → s.workers ≡ before ++ (w ∷ after)
      → Step s (work starts w e (record s { workers = before ++ after }))
  closes : Step s (close s).0

pub data Life : PathSession → Type 0 where
  created : (starts : Bool) → Life (reconcile starts new_path_session)
  goes : {s s' : PathSession} → Life s → Step s s' → Life s'

-- In every order of what happens to a path session it has at most one worker, and so at most one dial,
-- session or wait at a time; while it is not closed, its flags, its session and its generation are
-- those that the worker stands for.
pub Life-IsOwned : {s : PathSession} → Life s → IsOwned s
Life-IsOwned (created starts) = reconcile-IsOwned starts 0 0
Life-IsOwned (goes {s} before (works starts w e l r at)) =
    work-IsOwned starts w e s l r at (Life-IsOwned before)
Life-IsOwned (goes {s} before closes) = close-IsOwned s (Life-IsOwned before)
