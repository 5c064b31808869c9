-- ===== src/Tcpstream/Session/Tests.antt =====
-- The theorems about sessions at one handshake and at one opening.
use engarde.Shared.{
  bytes_eq, ℕ, ◌≡◌, refl, List, [], ◌∷◌, ◌++◌, none, some, true, length, replicate, get_or,
}
use engarde.Shared.Int.{pos, negsuc}
use engarde.Wire.{Conn, closed, done, set_deadline, write_full, read_full}
use engarde.Tcpstream.Destination.{Netip, Destination}
use engarde.Tcpstream.Frame.Preface.{marshal_preface, preface_bytes, read_preface, write_preface}
use engarde.Tcpstream.Auth.{
  record_header, challenge_type, result_type, peer_auth_success, response_bytes,
  authenticate_peer_client, authenticate_peer_server,
}
use engarde.Tcpstream.Session.{
  Mux, SessionConfig, Session, smux_session_config, dial_session_with_auth, accept_session,
  open_destination,
}
use engarde.Tcpstream.Session.Handshake.{
  IsDialled, IsAdmitted, dial_session_with_auth-IsDialled, accept_session-IsAdmitted,
}
use engarde.Tcpstream.Session.Opening.{IsConcluded, open_destination-IsConcluded}

abbrev digest : List ℕ → List ℕ → List ℕ
digest key text = length text ∷ get_or key 0 0 ∷ replicate 30 5

abbrev hash : List ℕ → List ℕ
hash text = replicate 32 (length text)

abbrev mux : Mux
mux = record { default_interval = pos 10; default_timeout = pos 30; accepts = λ m. true }

abbrev unset : SessionConfig
unset = record {
  keepalive_interval = pos 0;
  keepalive_timeout = negsuc 4;
  receive_buffer = pos 1;
  stream_buffer = pos 2;
}

abbrev greeting : ℕ → List ℕ
greeting flags = preface_bytes (record { version = 4; flags = flags; max_payload = 1024 })

abbrev bob : List ℕ
bob = 98 ∷ 111 ∷ 98 ∷ []

abbrev dialled : Conn
dialled = record {
  input =
      greeting 1
      ++ (record_header challenge_type 0
          ++ (replicate 32 7
              ++ (record_header result_type peer_auth_success ++ (169 ∷ 42 ∷ replicate 30 5))));
  at_end = closed;
  output = [];
  writes = [];
  deadlines = [];
}

abbrev session : Session
session = record { max_payload = 1024; config = smux_session_config mux unset }

abbrev dialled_after : Conn
dialled_after = record dialled {
  input = [];
  output = greeting 0 ++ response_bytes bob (replicate 32 8) (129 ∷ 42 ∷ replicate 30 5);
}

dialled_session :
    dial_session_with_auth digest mux
      (some (replicate 32 8))
      (some (record { username = bob; password = 42 ∷ [] }))
      true
      1024
      unset
      dialled
    ≡ done session dialled_after
unfolding dial_session_with_auth set_deadline marshal_preface write_full read_preface read_full
    record_header preface_bytes authenticate_peer_client response_bytes bytes_eq
dialled_session = refl

dial_session_with_auth-IsDialled_example :
    IsDialled digest mux
      (some (replicate 32 8))
      (some (record { username = bob; password = 42 ∷ [] }))
      1024
      session
      dialled.input
      []
dial_session_with_auth-IsDialled_example =
    dial_session_with_auth-IsDialled digest mux (some (replicate 32 8))
      (some (record { username = bob; password = 42 ∷ [] })) unset true 1024 dialled session
      dialled_after dialled_session

abbrev accepting : Conn
accepting = record dialled {
  input = greeting 0 ++ response_bytes bob (replicate 32 8) (129 ∷ 42 ∷ replicate 30 5);
}

abbrev accepted_after : Conn
accepted_after = record dialled { input = []; output = dialled.input }

accepted_session :
    accept_session digest mux hash
      (some (replicate 32 7))
      none
      (some ((bob, 42 ∷ []) ∷ []))
      true
      1024
      unset
      accepting
    ≡ done (session, bob) accepted_after
unfolding accept_session set_deadline marshal_preface write_full read_preface write_preface
    read_full record_header preface_bytes authenticate_peer_server response_bytes bytes_eq
accepted_session = refl

accept_session-IsAdmitted_example :
    IsAdmitted digest mux hash
      (some (replicate 32 7))
      none
      (some ((bob, 42 ∷ []) ∷ []))
      1024
      session
      bob
      accepting.input
      []
accept_session-IsAdmitted_example =
    accept_session-IsAdmitted digest mux hash (some (replicate 32 7)) none
      (some ((bob, 42 ∷ []) ∷ [])) unset true 1024 accepting session bob accepted_after
      accepted_session

-- A domain needs no address.
abbrev net : Netip
net = record { parse_addr = λ h. none; addr_string = λ a. [] }

abbrev id : List ℕ
id = replicate 16 7

abbrev answer_bytes : ℕ → List ℕ
answer_bytes r = 6 ∷ 1 ∷ 0 ∷ 32 ∷ 0 ∷ 0 ∷ 0 ∷ 1 ∷ (id ++ (replicate 8 0 ++ (r ∷ [])))

abbrev site : Destination
site = record { type_code = 3; host = 97 ∷ []; port = 80 }

open_destination-IsConcluded_example :
    IsConcluded net session id site
      (some (record dialled { input = answer_bytes 3 }))
      (open_destination net session id true site
        (some (record dialled { input = answer_bytes 3 }))).0
      (open_destination net session id true site
        (some (record dialled { input = answer_bytes 3 }))).1
open_destination-IsConcluded_example =
    open_destination-IsConcluded net session id true site
      (some (record dialled { input = answer_bytes 3 }))
