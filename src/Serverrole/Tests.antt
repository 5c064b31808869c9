-- ===== src/Serverrole/Tests.antt =====
-- The theorems about the server at a few streams and clients.
use engarde.Shared.{
  ℕ, ◌+◌, ◌≡◌, ◌≤◌, refl, List, [], ◌∷◌, ◌++◌, true, false, none, some, length, replicate, arith,
  bytes_eq, ◌==◌, ◌&&◌, get_or, if◌then◌else◌,
}
use engarde.Shared.Int.{pos}
use engarde.Shared.Maps.{put_last, bytes_key, entry}
use engarde.Wire.{Conn, closed, done, ◌>>=◌}
use engarde.Tcpstream.Destination.{Netip}
use engarde.Tcpstream.Frame.{read_frame, write_frame, is_zero_id}
use engarde.Tcpstream.Session.{Session, accept_result}
use engarde.Serverrole.Closed.{
  ClosedStreams, closed_limit, tcp_server_closed_ttl, remember_closed, prune_closed,
}
use engarde.Serverrole.Closed.Tracking.{IsTracked, AllUntil}
use engarde.Serverrole.Closed.Remembering.{remember_closed-IsTracked}
use engarde.Serverrole.Closed.Pruning.{live, prune_closed-live}
use engarde.Serverrole.Streams.{
  Stream, flowing, Limits, Runtime, new_runtime, refused, stream_is_closed, StreamError,
  dial_failed, is_closing, begin_stream, finish_flow, finish_dial, prune_state, connecting,
  DialError,
}
use engarde.Serverrole.Streams.Opening.{IsBegun, begin_stream-IsBegun}
use engarde.Serverrole.Streams.Keeping.{IsServing}
use engarde.Serverrole.Streams.Remembered.{begin_stream-finish_flow}
use engarde.Serverrole.Streams.Reachable.{
  Run, begins, later, opens, connects, dial_ends, prunes, Run-IsServing,
}
use engarde.Serverrole.Streams.Meanwhile.{Meanwhile, at_once, then_later}
use engarde.Serverrole.Admission.{try_acquire_pending}
use engarde.Serverrole.Admission.Clients.{
  NetText, parse_allowed_clients, client_ip_allowed, AnyNames, client_ip_allowed-AnyNames,
}
use engarde.Serverrole.Admission.Answers.{
  open_result_for_error, answer_frame, understood, accept_result-write_frame,
}

abbrev as_given : List (List ℕ × ℕ) → List (List ℕ × ℕ)
as_given m = m

abbrev first_id : List ℕ
first_id = replicate 16 1

abbrev second_id : List ℕ
second_id = replicate 16 2

-- One stream that ended ten nanoseconds after the start.
abbrev one_closed : ClosedStreams
one_closed = record { closed = (first_id, 10 + tcp_server_closed_ttl) ∷ []; order = first_id ∷ [] }

one_closed-IsTracked : IsTracked one_closed
one_closed-IsTracked = record { order_keys = refl; distinct = (refl, tt); sorted = (tt, tt) }

remember_closed-IsTracked_example :
    IsTracked (remember_closed as_given 1 second_id 20 one_closed)
    × (length (remember_closed as_given 1 second_id 20 one_closed).closed ≤ closed_limit 1)
    × AllUntil
        (20 + tcp_server_closed_ttl)
        (remember_closed as_given 1 second_id 20 one_closed).closed
    × (entry (remember_closed as_given 1 second_id 20 one_closed).closed second_id
        ≡ some (20 + tcp_server_closed_ttl))
    × ((j : List ℕ)
        → bytes_key.same second_id j ≡ false
        → entry one_closed.closed j ≡ none
        → entry (remember_closed as_given 1 second_id 20 one_closed).closed j ≡ none)
remember_closed-IsTracked_example =
    remember_closed-IsTracked as_given 1 second_id 20 one_closed one_closed-IsTracked (omega arith)
      (omega arith, tt)

prune_closed-live_example :
    IsTracked (prune_closed as_given 15 one_closed)
    × ((j : List ℕ)
        → entry (prune_closed as_given 15 one_closed).closed j
          ≡ live 15 (entry one_closed.closed j))
prune_closed-live_example = prune_closed-live as_given 15 one_closed one_closed-IsTracked

abbrev limits : Limits
limits = record {
  max_streams = 1;
  max_sessions = 2;
  max_pending_streams = 3;
  max_pending_connections = 4;
  max_carriers_per_stream = 5;
  open_timeout = 6;
}

abbrev site : List ℕ
site = 97 ∷ 58 ∷ 56 ∷ 48 ∷ []

abbrev stream : Stream
stream = record {
  number = 0;
  version = 4;
  destination = site;
  principal = [];
  phase = flowing;
  has_timer = true;
  started = false;
}

abbrev busy : Runtime
busy = record new_runtime { streams = (second_id, stream) ∷ []; closed = one_closed; next = 1 }

begin_stream-IsBegun_example :
    IsBegun limits second_id 4 site [] 30 busy
      (begin_stream limits second_id 4 site [] 30 busy).0
      (begin_stream limits second_id 4 site [] 30 busy).1
begin_stream-IsBegun_example = begin_stream-IsBegun limits second_id 4 site [] 30 busy

-- With two streams: one ends at 20, the dial of the other fails at 25, and ids are pruned at 30.
abbrev two : Limits
two = record limits { max_streams = 2 }

abbrev serving : Runtime
serving = (begin_stream two second_id 4 site [] 7 new_runtime).0

abbrev begun : ℕ → Stream
begun number = record stream { number = number; phase = connecting; has_timer = false }

second_serving : entry serving.streams second_id ≡ some (begun 0)
unfolding begin_stream bytes_eq put_last
second_serving = refl

serving_runs : is_closing serving ≡ false
unfolding is_closing begin_stream
serving_runs = refl

serving_lives : Run as_given two 7 serving
serving_lives = later 7 begins (omega arith) (opens second_id 4 site [])

abbrev timed_out : DialError
timed_out = record {
  deadline_exceeded = true;
  timeout = true;
  not_found = false;
  connection_refused = false;
  network_unreachable = false;
  host_unreachable = false;
}

abbrev ended : Runtime
ended = finish_flow as_given two second_id 0 20 serving

abbrev joined : Runtime
joined = (begin_stream two first_id 4 site [] 22 ended).0

abbrev failing : Runtime
failing = finish_dial as_given two first_id 1 25 (some timed_out) joined

first_joined : entry joined.streams first_id ≡ some (begun 1)
unfolding begin_stream finish_flow bytes_eq put_last
first_joined = refl

between : Meanwhile as_given two 20 ended 30 1 (prune_state as_given two 30 failing)
between =
    then_later 30
      (then_later 25 (then_later 22 at_once (omega arith) (opens first_id 4 site []) refl)
        (omega arith) (dial_ends first_id (begun 1) (some timed_out) first_joined refl) refl)
      (omega arith) prunes refl

begin_stream-finish_flow_example :
    (begin_stream two second_id 4 site [] 40 (prune_state as_given two 30 failing)).1
    ≡ refused stream_is_closed
begin_stream-finish_flow_example =
    begin_stream-finish_flow as_given two second_id (begun 0) 20 serving 4 site [] 40 serving_lives
      (omega arith) serving_runs second_serving between (omega arith) (omega arith) (omega arith)

-- A connection, and a stream that it opens.
abbrev connected : Runtime
connected = (try_acquire_pending limits new_runtime).0

Run-IsServing_example : IsServing limits 7 (begin_stream limits first_id 4 site [] 7 connected).0
Run-IsServing_example =
    Run-IsServing as_given limits
      (later 7 (later 3 begins (omega arith) connects) (omega arith) (opens first_id 4 site []))

-- Addresses of one byte; a network is the addresses with its first byte.
abbrev text : NetText ℕ
text = record {
  trim_space = λ t. t;
  parse_ip = λ t. if length t == 1 then some t else none;
  parse_cidr = λ t. if length t == 2 then some (get_or t 0 0) else none;
  equal = bytes_eq;
  contains = λ n ip. get_or ip 0 0 == n;
}

abbrev allowed : List (List ℕ)
allowed = (5 ∷ []) ∷ (9 ∷ 0 ∷ []) ∷ []

some_client :
    (length (parse_allowed_clients text allowed).0 == 0
      && length (parse_allowed_clients text allowed).1 == 0)
    ≡ false
unfolding parse_allowed_clients bytes_eq
some_client = refl

nine_allowed : client_ip_allowed text (parse_allowed_clients text allowed) (9 ∷ []) ≡ true
unfolding parse_allowed_clients client_ip_allowed bytes_eq
nine_allowed = refl

client_ip_allowed-AnyNames_example : AnyNames text (9 ∷ []) allowed
client_ip_allowed-AnyNames_example =
    client_ip_allowed-AnyNames text (9 ∷ []) allowed some_client nine_allowed

abbrev refused_connection : StreamError
refused_connection = dial_failed (record {
  deadline_exceeded = false;
  timeout = false;
  not_found = false;
  connection_refused = true;
  network_unreachable = false;
  host_unreachable = false;
})

refused_answer : open_result_for_error refused_connection ≡ 2
unfolding open_result_for_error
refused_answer = refl

abbrev net : Netip
net = record { parse_addr = λ h. none; addr_string = λ a. [] }

abbrev quiet : Conn
quiet = record { input = []; at_end = closed; output = []; writes = []; deadlines = [] }

abbrev session : Session
session = record {
  max_payload = 1024;
  config = record {
    version = 2;
    keepalive_interval = pos 1;
    keepalive_timeout = pos 3;
    max_frame_size = 32768;
    max_receive_buffer = pos 4;
    max_stream_buffer = pos 4;
  };
}

some_id : is_zero_id first_id ≡ false
unfolding is_zero_id bytes_eq
some_id = refl

accept_result-write_frame_example :
    (out' : Conn) × (write_frame net (answer_frame first_id 2) quiet ≡ done tt out')
    × ((read_frame net 1024 >>= accept_result net session first_id)
          (record quiet { input = out'.output ++ (8 ∷ []) })
        ≡ done (understood session 2) (record quiet { input = 8 ∷ [] }))
accept_result-write_frame_example =
    accept_result-write_frame net session first_id 2 (8 ∷ []) quiet quiet refl some_id (omega arith)
      refl refl refl
