-- ===== src/Tcpstream/Auth/Tests.antt =====
-- The theorems about the authentication of the peers at one exchange.
use engarde.Shared.{
  ℕ, ◌≡◌, refl, List, [], ◌∷◌, ◌++◌, none, some, length, replicate, arith, bytes_eq, false, get_or,
}
use engarde.Shared.Maps.{entry, bytes_key}
use engarde.Wire.{fail, peer_authentication_failed, write_full, read_full, Conn, closed, ok, done}
use engarde.Tcpstream.Frame.Preface.{preface_bytes, Preface, marshal_preface}
use engarde.Tcpstream.Auth.{
  Transcript, result_type, peer_auth_failure, response_bytes, record_header, challenge_type,
  peer_auth_mac, peer_auth_server_proof, peer_auth_success, authenticate_peer_client,
  authenticate_peer_server,
}
use engarde.Tcpstream.Auth.Exchange.{Exchange, credentials, answer_bytes, client_and_server_agree}

-- A digest that depends on the key and on the length of the text.
abbrev digest : List ℕ → List ℕ → List ℕ
digest key text = length text ∷ get_or key 0 0 ∷ replicate 30 5

abbrev hash : List ℕ → List ℕ
hash text = replicate 32 (length text)

abbrev quiet_conn : Conn
quiet_conn = record { input = []; at_end = closed; output = []; writes = []; deadlines = [] }

abbrev plain : Preface
plain = record { version = 0; flags = 0; max_payload = 0 }

abbrev asking : Preface
asking = record { version = 0; flags = 1; max_payload = 0 }

abbrev bob : List ℕ
bob = 98 ∷ 111 ∷ 98 ∷ []

abbrev said : Transcript
said = record {
  client_preface = plain;
  server_preface = asking;
  challenge = record_header challenge_type 0 ++ replicate 32 7;
  client_nonce = replicate 32 8;
  username = bob;
}

abbrev mac : List ℕ
mac = 129 ∷ 42 ∷ replicate 30 5

abbrev proof : List ℕ
proof = 169 ∷ 42 ∷ replicate 30 5

mac_made : peer_auth_mac digest said (42 ∷ []) ≡ ok mac
unfolding peer_auth_mac marshal_preface record_header
mac_made = refl

proof_made : peer_auth_server_proof digest said mac peer_auth_success (42 ∷ []) ≡ ok proof
unfolding peer_auth_server_proof marshal_preface record_header
proof_made = refl

some_secret : bytes_eq (42 ∷ []) [] ≡ false
unfolding bytes_eq
some_secret = refl

abbrev meeting : Exchange digest
meeting = record {
  said = said;
  secret = 42 ∷ [];
  nonce = replicate 32 7;
  mac = mac;
  proof = proof;
  challenge_drawn = refl;
  nonce_size = refl;
  client_nonce_size = refl;
  some_name = omega arith;
  short_name = omega arith;
  some_secret = some_secret;
  mac_made = mac_made;
  mac_size = refl;
  proof_made = proof_made;
  proof_size = refl;
}

abbrev users : List (List ℕ × List ℕ)
users = (bob, 42 ∷ []) ∷ []

bob_known : entry users bob ≡ some (42 ∷ [])
unfolding bytes_eq
bob_known = refl

client_and_server_agree_example :
    (sent : List ℕ) × (answer : List ℕ) × (authenticate_peer_client digest
        (some (replicate 32 8))
        plain
        asking
        (credentials meeting)
        (record quiet_conn { input = sent ++ (1 ∷ []) })
      ≡ done tt (record quiet_conn { input = 1 ∷ []; output = [] ++ answer }))
    × (authenticate_peer_server digest hash
          (some (replicate 32 7))
          none
          plain
          asking
          users
          (record quiet_conn { input = answer ++ (2 ∷ []) })
        ≡ done bob (record quiet_conn { input = 2 ∷ []; output = [] ++ sent }))
client_and_server_agree_example =
    client_and_server_agree meeting hash none users bob_known quiet_conn quiet_conn (1 ∷ [])
      (2 ∷ []) refl refl

-- Another password: the server answers with a failure and refuses.
abbrev answered : Conn
answered = record quiet_conn { input = answer_bytes meeting ++ (2 ∷ []) }

other_password :
    authenticate_peer_server digest hash
      (some (replicate 32 7))
      (some (replicate 32 1))
      plain
      asking
      ((bob, 43 ∷ []) ∷ [])
      answered
    ≡ fail peer_authentication_failed (record answered {
      input = 2 ∷ [];
      output = said.challenge ++ (record_header result_type peer_auth_failure ++ replicate 32 1);
    })
unfolding authenticate_peer_server marshal_preface record_header write_full read_full response_bytes
    bytes_eq preface_bytes
other_password = refl
