-- ===== src/Clientrole/PathSession/Phases.antt =====
-- internal/clientrole/tcp_group.go: the path session as a machine of five phases, and what the code does as moves of it.
use engarde.Shared.{
  ℕ, suc, ◌≡◌, refl, sym, ap, List, [], ◌∷◌, ◌++◌, Bool, true, false, not, ◌||◌, Option, none, some,
  ◌==◌, ◌%◌, ◌^◌, ◌!=◌, arith, if◌then◌else◌, if-cases,
}
use mathlib.Core.Path.{subst}
use engarde.Clientrole.PathSession.{
  Worker, dialling, waiting, watching, retry_due, reconcile_due, PathSession, reconcile, retry,
  establish, session_ends, wait_ends, close, work, Event, gives, proceeds, given_up, ends,
  finish_attempt,
}
use engarde.Clientrole.PathSession.Owner.{
  IsOwned, rests, dials, serves, falls, waits, resumes, abandoned, shut, state, only, nothing,
  work-StaysShut, Step, works, closes, Life, Life-IsOwned,
}

pub data Phase : Type 0 where
  idle connecting backing_off ended : Phase
  connected : ℕ → Phase

-- The moves that a path session may make.
pub data Move : Phase → Phase → Type 0 where
  stays : (p : Phase) → Move p p
  dials_out : Move idle connecting
  comes_up : (n : ℕ) → Move connecting (connected n)
  dial_fails : Move connecting backing_off
  not_started : Move connecting idle
  goes_down : (n : ℕ) → Move (connected n) idle
  backs_off : Move idle backing_off
  wakes : Move backing_off idle
  ends_from : (p : Phase) → Move p ended

-- The phase that the flags show.
unfoldable pub phase : PathSession → Phase
phase s = if s.closed then ended else elim s.session [
  | some n ↦ connected n
  | none ↦ if s.in_flight then connecting else if s.retrying then backing_off else idle
]

retry-Move :
    (starts : Bool) (g c : ℕ) (flying : Bool)
    → Move
        (if flying then connecting else idle)
        (phase (retry starts g (state none g flying false c [])))
unfolding phase retry
retry-Move starts g c true =
    if-cases (λ s. Move connecting (phase s)) (g != g || false) (λ other. absurd (ground arith))
      (λ own.
        if-cases (λ s. Move connecting (phase s)) starts (λ started. dial_fails)
          (λ refused. not_started))
retry-Move starts g c false =
    if-cases (λ s. Move idle (phase s)) (g != g || false) (λ other. absurd (ground arith))
      (λ own.
        if-cases (λ s. Move idle (phase s)) starts (λ started. backs_off) (λ refused. stays idle))

reconcile-Move :
    (starts : Bool) (g c : ℕ) → Move idle (phase (reconcile starts (state none g false false c [])))
unfolding phase reconcile finish_attempt
reconcile-Move starts g c =
    if-cases (λ s. Move idle (phase s)) starts (λ started. dials_out)
      (λ refused.
        if-cases (λ s. Move idle (phase s)) (suc g % 2 ^ 64 == suc g % 2 ^ 64) (λ own. stays idle)
          (λ other. absurd (ground arith)))

establish-Move :
    (g c n : ℕ) → Move connecting (phase (establish g n (state none g true false c [])).0)
unfolding phase establish
establish-Move g c n =
    if-cases (λ (t : PathSession × Bool). Move connecting (phase t.0)) (g != g)
      (λ other. absurd (ground arith)) (λ own. comes_up n)

session_ends-Move :
    (stable : Bool) (g c n : ℕ)
    → Move (connected n) (phase (session_ends stable g n (state (some n) g false false c [])))
unfolding phase session_ends
session_ends-Move stable g c n =
    if-cases (λ s. Move (connected n) (phase s)) (not (n == n)) (λ other. absurd (ground arith))
      (λ own. goes_down n)

wait_ends-Move : (g c : ℕ) → Move backing_off (phase (wait_ends g (state none g false true c [])))
unfolding phase wait_ends
wait_ends-Move g c =
    if-cases (λ s. Move backing_off (phase s)) (g != g || false || false)
      (λ other. absurd (ground arith)) (λ own. wakes)

dialling-Move :
    (starts : Bool) (g c : ℕ) (e : Event)
    → Move connecting (phase (work starts (dialling g) e (state none g true false c [])))
unfolding work
dialling-Move starts g c (gives n) = establish-Move g c n
dialling-Move starts g c proceeds = retry-Move starts g c true
dialling-Move starts g c given_up = retry-Move starts g c true
dialling-Move starts g c (ends stable) = retry-Move starts g c true

watching-Move :
    (starts : Bool) (g c n : ℕ) (e : Event)
    → Move (connected n) (phase (work starts (watching g n) e (state (some n) g false false c [])))
unfolding work
watching-Move starts g c n (ends stable) = session_ends-Move stable g c n
watching-Move starts g c n (gives m) = session_ends-Move false g c n
watching-Move starts g c n proceeds = session_ends-Move false g c n
watching-Move starts g c n given_up = session_ends-Move false g c n

waiting-Move :
    (starts : Bool) (g c : ℕ) (e : Event)
    → Move backing_off (phase (work starts (waiting g) e (state none g false true c [])))
unfolding work phase
waiting-Move starts g c given_up = stays backing_off
waiting-Move starts g c (gives n) = wait_ends-Move g c
waiting-Move starts g c proceeds = wait_ends-Move g c
waiting-Move starts g c (ends stable) = wait_ends-Move g c

closed-ended : (s : PathSession) → s.closed ≡ true → phase s ≡ ended
unfolding phase
closed-ended s h =
    ap
      (λ b. if b then ended else elim s.session [
        | some n ↦ connected n
        | none ↦ if s.in_flight then connecting else if s.retrying then backing_off else idle
      ])
      h

close-ended : (s : PathSession) → phase (close s).0 ≡ ended
unfolding close
close-ended s =
    if-cases (λ (t : PathSession × Option ℕ). phase t.0 ≡ ended) s.closed
      (λ again. closed-ended s again)
      (λ first. closed-ended (record s { closed = true; session = none }) refl)

work-Move :
    (starts : Bool) (w : Worker) (e : Event) (s : PathSession) (before after : List Worker)
    → s.workers ≡ before ++ (w ∷ after)
    → IsOwned s
    → Move (phase s) (phase (work starts w e (record s { workers = before ++ after })))
unfolding phase work
work-Move starts w e s before after at (rests g c) = absurd (nothing before after w at)
work-Move starts w e s before after at (abandoned g c) = absurd (nothing before after w at)
work-Move starts w e s before after at (dials g c) =
    let (left, same) = only before after w (dialling g) at in
    subst
      (λ v. Move connecting (phase (work starts v e (state none g true false c (before ++ after)))))
      (sym same)
      (subst
        (λ l. Move connecting (phase (work starts (dialling g) e (state none g true false c l))))
        (sym left) (dialling-Move starts g c e))
work-Move starts w e s before after at (serves g c n) =
    let (left, same) = only before after w (watching g n) at in
    subst
      (λ v.
        Move (connected n)
          (phase (work starts v e (state (some n) g false false c (before ++ after)))))
      (sym same)
      (subst
        (λ l.
          Move (connected n)
            (phase (work starts (watching g n) e (state (some n) g false false c l))))
        (sym left) (watching-Move starts g c n e))
work-Move starts w e s before after at (falls g c) =
    let (left, same) = only before after w (retry_due g) at in
    subst (λ v. Move idle (phase (work starts v e (state none g false false c (before ++ after)))))
      (sym same)
      (subst (λ l. Move idle (phase (retry starts g (state none g false false c l)))) (sym left)
        (retry-Move starts g c false))
work-Move starts w e s before after at (waits g c) =
    let (left, same) = only before after w (waiting g) at in
    subst
      (λ v.
        Move backing_off (phase (work starts v e (state none g false true c (before ++ after)))))
      (sym same)
      (subst
        (λ l. Move backing_off (phase (work starts (waiting g) e (state none g false true c l))))
        (sym left) (waiting-Move starts g c e))
work-Move starts w e s before after at (resumes g c) =
    let (left, same) = only before after w reconcile_due at in
    subst (λ v. Move idle (phase (work starts v e (state none g false false c (before ++ after)))))
      (sym same)
      (subst (λ l. Move idle (phase (reconcile starts (state none g false false c l)))) (sym left)
        (reconcile-Move starts g c))
work-Move starts w e s before after at (shut _ h one) =
    let rest : PathSession = record s { workers = before ++ after } in
    let (still, _) = work-StaysShut rest h starts w e in
    subst (λ p. Move p (phase (work starts w e rest))) (sym (closed-ended s h))
      (subst (Move ended) (sym (closed-ended (work starts w e rest) still)) (stays ended))

-- Whatever happens to a path session at any time of its life is a move of the machine of phases: a session
-- comes up only from a dial, what follows a session or a failed dial is a wait, or idleness before
-- it, a dial begins only from idleness, and a closed path session stays closed.
pub Step-Move : {s s' : PathSession} → Life s → Step s s' → Move (phase s) (phase s')
Step-Move {s} life (works starts w e before after at) =
    work-Move starts w e s before after at (Life-IsOwned life)
Step-Move {s} life closes = subst (Move (phase s)) (sym (close-ended s)) (ends_from (phase s))
