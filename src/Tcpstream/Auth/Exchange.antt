-- ===== src/Tcpstream/Auth/Exchange.antt =====
-- internal/tcpstream/auth.go: a client and a server with the same password let each other in.
use engarde.Shared.{
  ℕ, ◌≡◌, ◌≤◌, ◌<◌, refl, ap, ◌∙◌, List, [], ◌++◌, true, false, Option, some, get_or, length, drop,
  bytes_eq, bytes_eq_refl, arith,
}
use mathlib.Core.List.{append_assoc}
use engarde.Shared.Maps.{entry, bytes_key}
use engarde.Wire.{Conn, done, ok}
use engarde.Wire.Writes.{read_full_done, write_full_free}
use engarde.Tcpstream.Auth.{
  Transcript, PeerCredentials, peer_auth_mac, peer_auth_server_proof, record_header, challenge_type,
  response_type, result_type, result_size, challenge_size, response_header_size, digest_size,
  peer_auth_success, valid_peer_auth_record, draw, check_result, respond, answer_challenge,
  authenticate_peer_client, response_bytes, settle, decide_peer, secret_of, read_mac, read_nonce,
  read_response, authenticate_peer_server, write_peer_auth_result,
}

valid_challenge :
    (nonce : List ℕ)
    → length nonce ≡ digest_size
    → valid_peer_auth_record (record_header challenge_type 0 ++ nonce) challenge_type ≡ true
unfolding valid_peer_auth_record record_header
valid_challenge nonce h = ground (arith, h)

valid_result :
    (proof : List ℕ)
    → length proof ≡ digest_size
    → valid_peer_auth_record (record_header result_type peer_auth_success ++ proof) result_type
      ≡ true
unfolding valid_peer_auth_record record_header
valid_result proof h = ground (arith, h)

valid_header :
    (n : ℕ) → 0 < n → valid_peer_auth_record (record_header response_type n) response_type ≡ true
unfolding valid_peer_auth_record record_header
valid_header n h = ground arith

-- One successful exchange: what is shared, and what was computed from it.
pub record Exchange (hmac : List ℕ → List ℕ → List ℕ) : Type 0 where
  pub said : Transcript
  pub secret : List ℕ
  pub nonce : List ℕ
  pub mac : List ℕ
  pub proof : List ℕ
  pub challenge_drawn : said.challenge ≡ record_header challenge_type 0 ++ nonce
  pub nonce_size : length nonce ≡ digest_size
  pub client_nonce_size : length said.client_nonce ≡ digest_size
  pub some_name : 0 < length said.username
  pub short_name : length said.username ≤ 255
  pub some_secret : bytes_eq secret [] ≡ false
  pub mac_made : peer_auth_mac hmac said secret ≡ ok mac
  pub mac_size : length mac ≡ digest_size
  pub proof_made : peer_auth_server_proof hmac said mac peer_auth_success secret ≡ ok proof
  pub proof_size : length proof ≡ digest_size

module _ {hmac : List ℕ → List ℕ → List ℕ} (x : Exchange hmac) where
  abbrev pub result_bytes : List ℕ
  result_bytes = record_header result_type peer_auth_success ++ x.proof

  abbrev pub answer_bytes : List ℕ
  answer_bytes = response_bytes x.said.username x.said.client_nonce x.mac

  length-result_bytes : length result_bytes ≡ result_size
  unfolding record_header
  length-result_bytes = omega (arith, x.proof_size)

  result_fields : (get_or result_bytes 6 0 ≡ peer_auth_success) × (drop 8 result_bytes ≡ x.proof)
  unfolding record_header
  result_fields = (refl, refl)

  check_result-ok : (c : Conn) → check_result hmac x.said x.mac x.secret result_bytes c ≡ done tt c
  unfolding check_result
  check_result-ok c =
      ground (
        arith,
        valid_result x.proof x.proof_size,
        result_fields,
        x.proof_made,
        bytes_eq_refl x.proof,
      )

  respond-ok :
      (rest : List ℕ) (c : Conn)
      → c.writes ≡ []
      → c.input ≡ result_bytes ++ rest
      → respond hmac x.said x.secret c
        ≡ done tt (record c { input = rest; output = c.output ++ answer_bytes })
  unfolding respond
  respond-ok rest c w e =
      let d : Conn = record c { output = c.output ++ answer_bytes } in
      ground (
        arith,
        x.mac_made,
        write_full_free answer_bytes c w,
        read_full_done result_size result_bytes rest d length-result_bytes e,
        check_result-ok (record d { input = rest }),
      )

  -- The credentials that the client has been given.
  abbrev pub credentials : PeerCredentials
  credentials = record { username = x.said.username; password = x.secret }

  length-challenge : length x.said.challenge ≡ challenge_size
  unfolding record_header
  length-challenge = ap length x.challenge_drawn ∙ omega (arith, x.nonce_size)

  challenge_valid : valid_peer_auth_record x.said.challenge challenge_type ≡ true
  challenge_valid =
      ap (λ t. valid_peer_auth_record t challenge_type) x.challenge_drawn
      ∙ valid_challenge x.nonce x.nonce_size

  pub client-ok :
      (rest : List ℕ) (c : Conn)
      → c.writes ≡ []
      → c.input ≡ x.said.challenge ++ (result_bytes ++ rest)
      → authenticate_peer_client hmac
          (some x.said.client_nonce)
          x.said.client_preface
          x.said.server_preface
          credentials
          c
        ≡ done tt (record c { input = rest; output = c.output ++ answer_bytes })
  unfolding authenticate_peer_client answer_challenge draw
  client-ok rest c w e =
      let d : Conn = record c { input = result_bytes ++ rest } in
      ground (
        arith,
        x.some_name,
        x.short_name,
        x.some_secret,
        read_full_done challenge_size x.said.challenge (result_bytes ++ rest) c length-challenge e,
        challenge_valid,
        respond-ok rest d w refl,
      )

  settle-ok :
      (fallback : Option (List ℕ)) (c : Conn)
      → c.writes ≡ []
      → settle hmac fallback x.said x.mac (some x.secret) x.mac c
        ≡ done x.said.username (record c { output = c.output ++ result_bytes })
  unfolding settle write_peer_auth_result
  settle-ok fallback c w =
      ground (arith, bytes_eq_refl x.mac, x.proof_made, write_full_free result_bytes c w)

  module _ (sha256 : List ℕ → List ℕ) (fallback : Option (List ℕ)) (users : List (List ℕ × List ℕ))
      (known : entry users x.said.username ≡ some x.secret) where
    decide_peer-ok :
        (c : Conn)
        → c.writes ≡ []
        → decide_peer hmac sha256 fallback users x.said x.mac c
          ≡ done x.said.username (record c { output = c.output ++ result_bytes })
    unfolding decide_peer secret_of
    decide_peer-ok c w = rw known (ground (arith, x.mac_made, settle-ok fallback c w))

    read_nonce-ok :
        (rest : List ℕ) (c : Conn)
        → c.writes ≡ []
        → c.input ≡ x.said.client_nonce ++ (x.mac ++ rest)
        → read_nonce hmac sha256 fallback users x.said.client_preface x.said.server_preface
            x.said.challenge x.said.username c
          ≡ done x.said.username (record c { input = rest; output = c.output ++ result_bytes })
    unfolding read_nonce read_mac
    read_nonce-ok rest c w e =
        let d : Conn = record c { input = x.mac ++ rest } in
        ground (
          arith,
          read_full_done digest_size x.said.client_nonce (x.mac ++ rest) c x.client_nonce_size e,
          read_full_done digest_size x.mac rest d x.mac_size refl,
          decide_peer-ok (record d { input = rest }) w,
        )

    header_field :
        get_or (record_header response_type (length x.said.username)) 6 0 ≡ length x.said.username
    unfolding record_header
    header_field = refl

    read_response-ok :
        (rest : List ℕ) (c : Conn)
        → c.writes ≡ []
        → c.input ≡ x.said.username ++ (x.said.client_nonce ++ (x.mac ++ rest))
        → read_response hmac sha256 fallback users x.said.client_preface x.said.server_preface
            x.said.challenge
            (record_header response_type (length x.said.username))
            c
          ≡ done x.said.username (record c { input = rest; output = c.output ++ result_bytes })
    unfolding read_response
    read_response-ok rest c w e =
        let after = x.said.client_nonce ++ (x.mac ++ rest) in
        ground (
          arith,
          valid_header (length x.said.username) x.some_name,
          header_field,
          read_full_done (length x.said.username) x.said.username after c refl e,
          read_nonce-ok rest (record c { input = after }) w refl,
        )

    answer_layout :
        (rest : List ℕ)
        → answer_bytes ++ rest
          ≡ record_header response_type (length x.said.username)
            ++ (x.said.username ++ (x.said.client_nonce ++ (x.mac ++ rest)))
    unfolding response_bytes
    answer_layout rest =
        append_assoc (record_header response_type (length x.said.username))
          (x.said.username ++ (x.said.client_nonce ++ x.mac)) rest
        ∙ ap (λ t. record_header response_type (length x.said.username) ++ t)
            (append_assoc x.said.username (x.said.client_nonce ++ x.mac) rest
              ∙ ap (λ t. x.said.username ++ t) (append_assoc x.said.client_nonce x.mac rest))

    length-header :
        length (record_header response_type (length x.said.username)) ≡ response_header_size
    unfolding record_header
    length-header = refl

    pub server-ok :
        (rest : List ℕ) (c : Conn)
        → c.writes ≡ []
        → c.input ≡ answer_bytes ++ rest
        → authenticate_peer_server hmac sha256
            (some x.nonce)
            fallback
            x.said.client_preface
            x.said.server_preface
            users
            c
          ≡ done x.said.username
              (record c { input = rest; output = (c.output ++ x.said.challenge) ++ result_bytes })
    unfolding authenticate_peer_server draw
    server-ok rest c w e =
        let header = record_header response_type (length x.said.username) in
        let body = x.said.username ++ (x.said.client_nonce ++ (x.mac ++ rest)) in
        let d : Conn = record c { output = c.output ++ x.said.challenge } in
        rw (← x.challenge_drawn) (
          ground (
            arith,
            write_full_free x.said.challenge c w,
            read_full_done response_header_size header body d length-header
                (e ∙ answer_layout rest),
            read_response-ok rest (record d { input = body }) w refl,
          ))

    -- A client and a server that hold the same prefaces and the same password for the client's name let
    -- each other in: on connections that take everything, each reads what the other writes, neither
    -- reports an error, the server returns the name, and what follows in either input is left.
    pub client_and_server_agree :
        (c d : Conn) (rest rest' : List ℕ)
        → c.writes ≡ []
        → d.writes ≡ []
        → (sent : List ℕ) × (answer : List ℕ) × (authenticate_peer_client hmac
              (some x.said.client_nonce)
              x.said.client_preface
              x.said.server_preface
              credentials
              (record c { input = sent ++ rest })
            ≡ done tt (record c { input = rest; output = c.output ++ answer }))
          × (authenticate_peer_server hmac sha256
                (some x.nonce)
                fallback
                x.said.client_preface
                x.said.server_preface
                users
                (record d { input = answer ++ rest' })
              ≡ done x.said.username (record d { input = rest'; output = d.output ++ sent }))
    client_and_server_agree c d rest rest' w w' = (
      x.said.challenge ++ result_bytes,
      answer_bytes,
      client-ok rest (record c { input = (x.said.challenge ++ result_bytes) ++ rest }) w
          (append_assoc x.said.challenge result_bytes rest),
      server-ok rest' (record d { input = answer_bytes ++ rest' }) w' refl
          ∙ ap (λ t. done x.said.username (record d { input = rest'; output = t }))
              (append_assoc d.output x.said.challenge result_bytes),
    )
