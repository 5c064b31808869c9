-- ===== src/Serverrole/Admission/Answers.antt =====
-- internal/serverrole: the answer to an OPEN frame. tcp.go's openResultForError and writeOpenResult, and
-- platformOpenResult of open_result_default.go; open_result_windows.go has the same with Windows' numbers.
use engarde.Shared.{
  ℕ, ◌≡◌, ◌≤◌, ◌<◌, refl, ◌∙◌, List, [], ◌∷◌, ◌++◌, Bool, true, false, ◌||◌, length, ◌==◌, ◌!=◌,
  arith, if◌then◌else◌,
}
use engarde.Wire.{Conn, done, fail, ignore, set_deadline, ◌>>=◌}
use engarde.Wire.Runs.{>>=-done}
use engarde.Tcpstream.Destination.{Netip}
use engarde.Tcpstream.Frame.{
  Frame, frame_open_result, server_to_client, open_result_policy_denied, is_zero_id, write_frame,
  read_frame,
}
use engarde.Tcpstream.Frame.Codec.{IsFrame, read_frame-write_frame}
use engarde.Tcpstream.Frame.Accepted.{validate_frame-answer, payload_limit-one}
use engarde.Tcpstream.Session.Opening.{accept_result-answer}
use engarde.Tcpstream.Session.{
  Session, Answer, accepted, rejected, accept_result, open_result_success,
}
use engarde.Serverrole.Streams.{
  DialError, StreamError, runtime_closed, stream_is_closed, destination_mismatch, maximum_streams,
  dial_failed,
}

abbrev pub open_result_general_failure : ℕ
open_result_general_failure = 1

abbrev pub open_result_connection_refused : ℕ
open_result_connection_refused = 2

abbrev pub open_result_network_unreachable : ℕ
open_result_network_unreachable = 3

abbrev pub open_result_host_unreachable : ℕ
open_result_host_unreachable = 4

abbrev pub open_result_timeout : ℕ
open_result_timeout = 5

unfoldable pub platform_open_result : DialError → ℕ
platform_open_result e =
    if e.connection_refused
    then open_result_connection_refused
    else if e.network_unreachable
    then open_result_network_unreachable
    else if e.host_unreachable
    then open_result_host_unreachable
    else open_result_general_failure

-- openResultForError; the errors that getOrCreate makes itself have none of the tested properties.
unfoldable pub open_result_for_error : StreamError → ℕ
unfolding platform_open_result
open_result_for_error (dial_failed e) =
    if e.deadline_exceeded || e.timeout
    then open_result_timeout
    else if e.not_found
    then open_result_host_unreachable
    else if platform_open_result e != open_result_general_failure
    then platform_open_result e
    else open_result_general_failure
open_result_for_error _ = open_result_general_failure

abbrev pub answer_frame : List ℕ → ℕ → Frame
answer_frame id result = record {
  type_code = frame_open_result;
  direction = server_to_client;
  stream_id = id;
  offset = 0;
  payload = result ∷ [];
}

-- writeOpenResult: whether the frame was written. The errors of SetWriteDeadline are dropped.
pub write_open_result : Netip → List ℕ → ℕ → Conn → Conn × Bool
write_open_result net id result c = elim (ignore set_deadline c) [
  | fail e c1 ↦ (c1, false)
  | done u c1 ↦ elim (write_frame net (answer_frame id result) c1) [
    | fail e c2 ↦ (c2, false)
    | done u c2 ↦ elim (ignore set_deadline c2) [ fail e c3 ↦ (c3, true) | done u c3 ↦ (c3, true) ]
  ]
]

-- A stream that could not be had is never answered by a success, and always by a result that a frame
-- may carry: the answer to a request that failed is one of the five failures below policy-denied.
pub open_result_for_error-IsFailure :
    (e : StreamError)
    → (open_result_success < open_result_for_error e)
      × (open_result_for_error e < open_result_policy_denied)
unfolding open_result_for_error platform_open_result
open_result_for_error-IsFailure runtime_closed = (omega arith, omega arith)
open_result_for_error-IsFailure stream_is_closed = (omega arith, omega arith)
open_result_for_error-IsFailure destination_mismatch = (omega arith, omega arith)
open_result_for_error-IsFailure maximum_streams = (omega arith, omega arith)
open_result_for_error-IsFailure (dial_failed e) = (ground arith, ground arith)

-- What the client makes of a result.
abbrev pub understood : Session → ℕ → Answer
understood session result =
    if result == open_result_success then accepted session.max_payload else rejected result

-- An answer of the server reaches the client: on a connection that takes everything, the bytes that
-- WriteFrame sends for a stream that is not the zero id are read by the client of that stream as the
-- same result, and what follows them is left.
pub accept_result-write_frame :
    (net : Netip) (session : Session) (id : List ℕ) (result : ℕ) (rest : List ℕ) (out c : Conn)
    → length id ≡ 16
    → is_zero_id id ≡ false
    → result ≤ open_result_policy_denied
    → out.writes ≡ []
    → out.output ≡ []
    → c.deadlines ≡ []
    → (out' : Conn) × (write_frame net (answer_frame id result) out ≡ done tt out')
      × ((read_frame net session.max_payload >>= accept_result net session id)
            (record c { input = out'.output ++ rest })
          ≡ done (understood session result) (record c { input = rest }))
accept_result-write_frame net session id result rest out c size some_id range w o d =
    let f = answer_frame id result in
    let valid = validate_frame-answer net id result some_id range in
    let v : IsFrame f = record {
      id_size = size;
      offset_range = omega arith;
      payload_range = omega arith;
    } in
    let (out', sent, taken) =
      read_frame-write_frame net f session.max_payload rest out c v valid
        (payload_limit-one session.max_payload) w o in
    (
      out',
      sent,
      >>=-done (read_frame net session.max_payload) (accept_result net session id)
            (record c { input = out'.output ++ rest }) taken
          ∙ accept_result-answer net session id f result (record c { input = rest }) refl refl refl
              d,
    )
