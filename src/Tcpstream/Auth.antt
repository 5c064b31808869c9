-- ===== src/Tcpstream/Auth.antt =====
-- internal/tcpstream/auth.go: the peers prove to each other that they know a password. `hmac key text` is
-- HMAC-SHA256 and `sha256` its hash; what crypto/rand gives is an argument, `none` for its error.
pub mod Messages
pub mod Client
pub mod Server
pub mod Exchange
pub mod Tests
use engarde.Shared.{
  ℕ, ◌+◌, List, [], ◌∷◌, ◌++◌, Bool, true, false, not, ◌&&◌, ◌||◌, Option, none, some, ltb, leb,
  ◌==◌, ◌!=◌, if◌then◌else◌, length, take, drop, get_or, bytes_eq, replicate,
}
use engarde.Shared.Maps.{Key, bytes_key, entry}
use engarde.Wire.{
  Error, Result, ok, err, Io, ◌>>=◌, ◌>>◌, return, throw, guard, lift, read_full, write_full,
  invalid_peer_auth, peer_authentication_failed, random_failed,
}
use engarde.Wire.BigEndian.{put, get}
use engarde.Tcpstream.Frame.Preface.{Preface, marshal_preface}

abbrev pub peer_auth_magic : ℕ
peer_auth_magic = 0x45474155

abbrev pub peer_auth_version : ℕ
peer_auth_version = 1

abbrev pub challenge_type : ℕ
challenge_type = 1

abbrev pub response_type : ℕ
response_type = 2

abbrev pub result_type : ℕ
result_type = 3

abbrev pub peer_auth_success : ℕ
peer_auth_success = 0

abbrev pub peer_auth_failure : ℕ
peer_auth_failure = 1

abbrev pub challenge_size : ℕ
challenge_size = 40

abbrev pub response_header_size : ℕ
response_header_size = 8

abbrev pub result_size : ℕ
result_size = 40

-- sha256.Size.
abbrev pub digest_size : ℕ
digest_size = 32

pub record PeerCredentials : Type 0 where
  pub username : List ℕ
  pub password : List ℕ

-- The eight bytes that each record begins with.
unfoldable pub record_header : ℕ → ℕ → List ℕ
record_header record_type field =
    put 4 peer_auth_magic ++ (peer_auth_version ∷ record_type ∷ field ∷ 0 ∷ [])

unfoldable pub valid_peer_auth_record : List ℕ → ℕ → Bool
valid_peer_auth_record bytes record_type =
    if ltb (length bytes) response_header_size
      || get (take 4 bytes) != peer_auth_magic
      || get_or bytes 4 0 != peer_auth_version
      || get_or bytes 5 0 != record_type
      || get_or bytes 7 0 != 0
    then false
    else if record_type == challenge_type
    then length bytes == challenge_size && get_or bytes 6 0 == 0
    else if record_type == response_type
    then length bytes == response_header_size && get_or bytes 6 0 != 0
    else if record_type == result_type
    then length bytes == result_size && leb (get_or bytes 6 0) peer_auth_failure
    else false

-- "engarde-peer-auth-v1\x00".
abbrev pub mac_label : List ℕ
mac_label =
    b'e' ∷ b'n' ∷ b'g' ∷ b'a' ∷ b'r' ∷ b'd' ∷ b'e' ∷ b'-' ∷ b'p' ∷ b'e' ∷ b'e' ∷ b'r' ∷ b'-' ∷ b'a'
    ∷ b'u' ∷ b't' ∷ b'h' ∷ b'-' ∷ b'v' ∷ b'1' ∷ 0 ∷ []

-- "engarde-peer-auth-server-v1\x00".
abbrev pub proof_label : List ℕ
proof_label =
    b'e' ∷ b'n' ∷ b'g' ∷ b'a' ∷ b'r' ∷ b'd' ∷ b'e' ∷ b'-' ∷ b'p' ∷ b'e' ∷ b'e' ∷ b'r' ∷ b'-' ∷ b'a'
    ∷ b'u' ∷ b't' ∷ b'h' ∷ b'-' ∷ b's' ∷ b'e' ∷ b'r' ∷ b'v' ∷ b'e' ∷ b'r' ∷ b'-' ∷ b'v' ∷ b'1' ∷ 0
    ∷ []

-- "engarde-peer-auth-unknown-user:".
abbrev pub unknown_user_label : List ℕ
unknown_user_label =
    b'e' ∷ b'n' ∷ b'g' ∷ b'a' ∷ b'r' ∷ b'd' ∷ b'e' ∷ b'-' ∷ b'p' ∷ b'e' ∷ b'e' ∷ b'r' ∷ b'-' ∷ b'a'
    ∷ b'u' ∷ b't' ∷ b'h' ∷ b'-' ∷ b'u' ∷ b'n' ∷ b'k' ∷ b'n' ∷ b'o' ∷ b'w' ∷ b'n' ∷ b'-' ∷ b'u'
    ∷ b's' ∷ b'e' ∷ b'r' ∷ b':' ∷ []

-- What both ends know of one exchange.
pub record Transcript : Type 0 where
  pub client_preface : Preface
  pub server_preface : Preface
  pub challenge : List ℕ
  pub client_nonce : List ℕ
  pub username : List ℕ

-- The text under either digest, with the two prefaces as they are sent.
unfoldable pub transcript_bytes : Transcript → List ℕ → List ℕ → List ℕ
transcript_bytes t client server =
    client ++ (server ++ (t.challenge ++ (t.client_nonce ++ (length t.username ∷ t.username))))

pub marshalled : Result (List ℕ × Preface) → Result (List ℕ)
marshalled (ok (bytes, p)) = ok bytes
marshalled (err e) = err e

pub both_prefaces : Result (List ℕ) → Result (List ℕ) → (List ℕ → List ℕ → List ℕ) → Result (List ℕ)
both_prefaces (err e) server digest = err e
both_prefaces (ok client) (err e) digest = err e
both_prefaces (ok client) (ok server) digest = ok (digest client server)

-- `username` is sent with its length in one byte.
unfoldable pub response_bytes : List ℕ → List ℕ → List ℕ → List ℕ
unfolding record_header
response_bytes username nonce mac =
    record_header response_type (length username) ++ (username ++ (nonce ++ mac))

pub draw : Option (List ℕ) → Io (List ℕ)
draw none = throw random_failed
draw (some bytes) = return bytes

module _ (hmac : List ℕ → List ℕ → List ℕ) where
  unfoldable pub peer_auth_mac : Transcript → List ℕ → Result (List ℕ)
  unfolding marshalled both_prefaces transcript_bytes
  peer_auth_mac t secret =
      both_prefaces (marshalled (marshal_preface t.client_preface))
        (marshalled (marshal_preface t.server_preface))
        (λ client server. hmac secret (mac_label ++ transcript_bytes t client server))

  unfoldable pub peer_auth_server_proof : Transcript → List ℕ → ℕ → List ℕ → Result (List ℕ)
  unfolding marshalled both_prefaces transcript_bytes
  peer_auth_server_proof t client_mac status secret =
      both_prefaces (marshalled (marshal_preface t.client_preface))
        (marshalled (marshal_preface t.server_preface))
        (λ client server.
          hmac secret
            (proof_label ++ (transcript_bytes t client server ++ (client_mac ++ (status ∷ [])))))

  -- The client's checks of the result.
  pub check_result : Transcript → List ℕ → List ℕ → List ℕ → Io (Unit {0})
  unfolding valid_peer_auth_record peer_auth_server_proof
  check_result t mac secret result = do
    guard (not (valid_peer_auth_record result result_type)) invalid_peer_auth
    guard (get_or result 6 0 != peer_auth_success) peer_authentication_failed
    proof ← lift (peer_auth_server_proof t mac (get_or result 6 0) secret)
    guard (not (bytes_eq (drop 8 result) proof)) peer_authentication_failed

  pub respond : Transcript → List ℕ → Io (Unit {0})
  unfolding peer_auth_mac response_bytes check_result
  respond t secret = do
    mac ← lift (peer_auth_mac t secret)
    write_full (response_bytes t.username t.client_nonce mac)
    result ← read_full result_size
    check_result t mac secret result

  pub answer_challenge :
      Option (List ℕ) → Preface → Preface → PeerCredentials → List ℕ → Io (Unit {0})
  unfolding valid_peer_auth_record draw respond
  answer_challenge random client server cr challenge = do
    guard (not (valid_peer_auth_record challenge challenge_type)) invalid_peer_auth
    nonce ← draw random
    respond
        (record {
          client_preface = client;
          server_preface = server;
          challenge = challenge;
          client_nonce = nonce;
          username = cr.username;
        })
        cr.password

  unfoldable pub authenticate_peer_client :
      Option (List ℕ) → Preface → Preface → PeerCredentials → Io (Unit {0})
  unfolding answer_challenge
  authenticate_peer_client random client server cr =
      if length cr.username == 0 || ltb 255 (length cr.username) || bytes_eq cr.password []
      then throw invalid_peer_auth
      else do
        challenge ← read_full challenge_size
        answer_challenge random client server cr challenge

  pub write_peer_auth_result : ℕ → List ℕ → Io (Unit {0})
  unfolding record_header
  write_peer_auth_result status proof = write_full (record_header result_type status ++ proof)

  -- The end of AuthenticatePeerServer: `password` is the user's entry.
  pub settle : Option (List ℕ) → Transcript → List ℕ → Option (List ℕ) → List ℕ → Io (List ℕ)
  unfolding peer_auth_server_proof draw write_peer_auth_result
  settle random t mac none expected = do
    proof ← draw random
    write_peer_auth_result peer_auth_failure proof
    throw peer_authentication_failed
  settle random t mac (some secret) expected =
      if bytes_eq mac expected
      then (do
        proof ← lift (peer_auth_server_proof t mac peer_auth_success secret)
        write_peer_auth_result peer_auth_success proof
        return t.username)
      else (do
        proof ← draw random
        write_peer_auth_result peer_auth_failure proof
        throw peer_authentication_failed)

  pub secret_of : (List ℕ → List ℕ) → List ℕ → Option (List ℕ) → List ℕ
  secret_of sha256 username none = sha256 (unknown_user_label ++ username)
  secret_of sha256 username (some secret) = secret

  pub decide_peer :
      (List ℕ → List ℕ)
      → Option (List ℕ)
      → List (List ℕ × List ℕ)
      → Transcript
      → List ℕ
      → Io (List ℕ)
  unfolding peer_auth_mac secret_of settle
  decide_peer sha256 random users t mac = do
    expected ← lift (peer_auth_mac t (secret_of sha256 t.username (entry users t.username)))
    settle random t mac (entry users t.username) expected

  -- What follows the username: the nonce and the MAC.
  module _ (sha256 : List ℕ → List ℕ) (random : Option (List ℕ))
      (users : List (List ℕ × List ℕ)) where
    pub read_mac : Transcript → Io (List ℕ)
    unfolding decide_peer
    read_mac t = do mac ← read_full digest_size; decide_peer sha256 random users t mac

    pub read_nonce : Preface → Preface → List ℕ → List ℕ → Io (List ℕ)
    unfolding read_mac
    read_nonce client server challenge username = do
      nonce ← read_full digest_size
      read_mac (record {
        client_preface = client;
        server_preface = server;
        challenge = challenge;
        client_nonce = nonce;
        username = username;
      })

    -- The response's header has been read.
    pub read_response : Preface → Preface → List ℕ → List ℕ → Io (List ℕ)
    unfolding valid_peer_auth_record read_nonce
    read_response client server challenge header = do
      guard (not (valid_peer_auth_record header response_type)) invalid_peer_auth
      username ← read_full (get_or header 6 0)
      read_nonce client server challenge username

  -- `random` is drawn for the challenge and `fallback` for the proof of a failure.
  unfoldable pub authenticate_peer_server :
      (List ℕ → List ℕ)
      → Option (List ℕ)
      → Option (List ℕ)
      → Preface
      → Preface
      → List (List ℕ × List ℕ)
      → Io (List ℕ)
  unfolding draw record_header read_response
  authenticate_peer_server sha256 random fallback client server users = do
    nonce ← draw random
    write_full (record_header challenge_type 0 ++ nonce)
    header ← read_full response_header_size
    read_response sha256 fallback users client server (record_header challenge_type 0 ++ nonce)
        header
