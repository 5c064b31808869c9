-- ===== src/Clientrole/PathSession.antt =====
-- internal/clientrole/tcp_group.go: tcpPathSession, which owns the session of a path. Each part of a
-- function that runs under its lock is one operation, with what it undoes where no worker starts;
-- `starts` says whether the runtime starts a worker, and a session is known by a number.
pub mod Owner
pub mod Phases
use engarde.Shared.{
  ℕ, zero, suc, ◌≡◌, List, [], ◌∷◌, ◌++◌, Bool, true, false, not, ◌&&◌, ◌||◌, Option, none, some,
  ◌==◌, ◌!=◌, ◌%◌, ◌^◌, if◌then◌else◌,
}
use engarde.Clientrole.Backoff.{next_retry}

-- The goroutines, with what they carry: dial, its wait for the end of the session, waitToRetry, and either of the
-- two where it has given the lock up and is about to call retry or reconcile.
pub data Worker : Type 0 where
  dialling waiting retry_due : ℕ → Worker
  reconcile_due : Worker
  watching : ℕ → ℕ → Worker

pub record PathSession : Type 0 where
  pub session : Option ℕ
  pub generation : ℕ
  pub in_flight : Bool
  pub retrying : Bool
  pub retry_count : ℕ
  pub closed : Bool
  pub workers : List Worker

-- newTCPPathSession.
abbrev pub new_path_session : PathSession
new_path_session = record {
  session = none;
  generation = 0;
  in_flight = false;
  retrying = false;
  retry_count = 0;
  closed = false;
  workers = [];
}

abbrev pub has_session : Option ℕ → Bool
has_session none = false
has_session (some n) = true

abbrev pub is_session : ℕ → Option ℕ → Bool
is_session n none = false
is_session n (some m) = m == n

abbrev start_worker : Worker → PathSession → PathSession
start_worker w s = record s { workers = w ∷ s.workers }

pub finish_attempt : ℕ → PathSession → PathSession
finish_attempt generation s =
    if s.generation == generation then record s { in_flight = false } else s

unfoldable pub reconcile : Bool → PathSession → PathSession
unfolding finish_attempt
reconcile starts s =
    if s.closed || has_session s.session || s.in_flight || s.retrying
    then s
    else let begun : PathSession = record s {
      in_flight = true;
      generation = suc s.generation % 2 ^ 64;
    } in
      if starts
      then start_worker (dialling (suc s.generation % 2 ^ 64)) begun
      else finish_attempt (suc s.generation % 2 ^ 64) begun

-- retry: the delay is that of the count before.
unfoldable pub retry : Bool → ℕ → PathSession → PathSession
unfolding next_retry
retry starts generation s =
    if s.closed || s.generation != generation || has_session s.session
    then s
    else if s.retrying
    then record s { in_flight = false }
    else let waits : PathSession = record s {
      in_flight = false;
      retry_count = (next_retry s.retry_count).1;
    } in
      if starts then start_worker (waiting generation) (record waits { retrying = true }) else waits

-- dial after the handshake: whether the session is kept, and so watched. It is closed otherwise.
pub establish : ℕ → ℕ → PathSession → PathSession × Bool
establish generation n s =
    if s.closed || not s.in_flight || s.generation != generation then (s, false) else (
      start_worker (watching generation n)
          (record s { session = some n; in_flight = false; retrying = false }),
      true,
    )

-- dial once its session has ended, up to the call of retry; `stable` is tcpSessionWasStable.
unfoldable pub session_ends : Bool → ℕ → ℕ → PathSession → PathSession
session_ends stable generation n s =
    let ended : PathSession = record s {
      session = none;
      retry_count = if stable then zero else s.retry_count;
    } in
    if not (is_session n s.session)
    then s
    else if s.closed
    then ended
    else start_worker (retry_due generation) ended

-- waitToRetry after the delay, up to the call of reconcile.
unfoldable pub wait_ends : ℕ → PathSession → PathSession
wait_ends generation s =
    if s.closed || s.generation != generation || not s.retrying || has_session s.session
    then s
    else start_worker reconcile_due (record s { retrying = false })

-- close: the session that is to be closed with it.
unfoldable pub close : PathSession → PathSession × Option ℕ
close s = if s.closed then (s, none) else (record s { closed = true; session = none }, s.session)

-- The session that carriers may use on a path: `same_path` is that it is this one's, and `is_open` that the session
-- has not been closed.
pub current : Bool → Bool → PathSession → Option (ℕ × ℕ)
current same_path is_open s =
    if s.closed || not same_path || not is_open
    then none
    else elim s.session [ none ↦ none | some n ↦ some (n, s.generation) ]

-- How a worker goes on: a dial fails or gives a session; a session ends, stable or not; a wait is over or is given up
-- because the runtime is done.
pub data Event : Type 0 where
  proceeds given_up : Event
  gives : ℕ → Event
  ends : Bool → Event

-- The next operation of a worker.
unfoldable pub work : Bool → Worker → Event → PathSession → PathSession
unfolding retry establish session_ends wait_ends reconcile
work starts (dialling g) (gives n) s = (establish g n s).0
work starts (dialling g) _ s = retry starts g s
work starts (watching g n) (ends stable) s = session_ends stable g n s
work starts (watching g n) _ s = session_ends false g n s
work starts (waiting g) given_up s = s
work starts (waiting g) _ s = wait_ends g s
work starts (retry_due g) _ s = retry starts g s
work starts reconcile_due _ s = reconcile starts s
