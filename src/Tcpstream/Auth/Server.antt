-- ===== src/Tcpstream/Auth/Server.antt =====
-- internal/tcpstream/auth.go: whom AuthenticatePeerServer lets in.
use engarde.Shared.{
  ℕ, ◌≡◌, refl, sym, ap, ◌∙◌, List, ◌++◌, true, not, Option, none, some, get_or, length, bytes_eq,
  bytes_eq→eq, Bool-cases, inl, inr, arith,
}
use mathlib.Core.Path.{subst}
use engarde.Shared.Maps.{entry, bytes_key}
use engarde.Wire.{
  Conn, Io, done, ok, return, throw, ◌>>=◌, ◌>>◌, read_full, write_full, invalid_peer_auth,
  peer_authentication_failed,
}
use engarde.Wire.Runs.{
  >>=-eq-done, >>-eq-done, guard-then-eq-done, lift-bind-eq-done, read_full-eq-done,
  write_full-input,
}
use engarde.Tcpstream.Frame.Preface.{Preface}
use engarde.Tcpstream.Auth.{
  Transcript, peer_auth_mac, peer_auth_server_proof, record_header, challenge_type, response_type,
  digest_size, response_header_size, peer_auth_success, peer_auth_failure, valid_peer_auth_record,
  draw, settle, decide_peer, read_response, read_nonce, read_mac, authenticate_peer_server,
  write_peer_auth_result, secret_of,
}
use engarde.Tcpstream.Auth.Messages.{draw-eq-done}

module _ (hmac : List ℕ → List ℕ → List ℕ) where
  refusal_never :
      (random : Option (List ℕ)) (c : Conn) {name : List ℕ} {c' : Conn}
      → (draw random >>= λ proof.
            write_peer_auth_result hmac peer_auth_failure proof
            >> throw {A = List ℕ} peer_authentication_failed)
          c
        ≡ done name c'
      → ⊥
  refusal_never random c h =
      let (proof, d, _, more) = >>=-eq-done (draw random) _ c h in
      let (_, e, _, last) =
        >>-eq-done (write_peer_auth_result hmac peer_auth_failure proof)
          (throw {A = List ℕ} peer_authentication_failed) d more in
      cc

  settle-eq-done :
      (random : Option (List ℕ)) (t : Transcript) (mac : List ℕ) (user : Option (List ℕ))
      (expected : List ℕ) (c : Conn) {name : List ℕ} {c' : Conn}
      → settle hmac random t mac user expected c ≡ done name c'
      → (secret : List ℕ) × (user ≡ some secret)
        × (mac ≡ expected)
        × (name ≡ t.username)
        × (c'.input ≡ c.input)
  unfolding settle
  settle-eq-done random t mac none expected c h = absurd (refusal_never random c h)
  settle-eq-done random t mac (some secret) expected c {name} {c'} h =
      elim (Bool-cases (bytes_eq mac expected)) [
        | inr differs ↦ absurd (refusal_never random c {name = name} {c' = c'} (ground arith))
        | inl same ↦
            let (proof, _, more) =
              lift-bind-eq-done (peer_auth_server_proof hmac t mac peer_auth_success secret)
                (λ proof. write_peer_auth_result hmac peer_auth_success proof >> return t.username)
                c {b = name} {c' = c'} (ground arith) in
            let (_, d, sent, last) =
              >>-eq-done (write_peer_auth_result hmac peer_auth_success proof) (return t.username) c
                more in
            let kept : d.input ≡ c.input =
              unfold write_peer_auth_result in write_full-input _ c sent in
            (secret, refl, bytes_eq→eq mac expected same, cc, cc)
      ]

  -- What the server has read before it lets `name` in.
  abbrev pub IsAuthentic :
      List (List ℕ × List ℕ) → Preface → Preface → List ℕ → List ℕ → List ℕ → List ℕ → Type 0
  IsAuthentic users client server challenge name before after =
      (header : List ℕ) × (nonce : List ℕ) × (mac : List ℕ) × (secret : List ℕ)
      × (valid_peer_auth_record header response_type ≡ true)
      × (before ≡ header ++ (name ++ (nonce ++ (mac ++ after))))
      × (length name ≡ get_or header 6 0)
      × (length nonce ≡ digest_size)
      × (entry users name ≡ some secret)
      × (peer_auth_mac hmac
            (record {
              client_preface = client;
              server_preface = server;
              challenge = challenge;
              client_nonce = nonce;
              username = name;
            })
            secret
          ≡ ok mac)

  module _ (sha256 : List ℕ → List ℕ) (random : Option (List ℕ))
      (users : List (List ℕ × List ℕ)) where
    decide_peer-eq-done :
        (t : Transcript) (mac : List ℕ) (c : Conn) {name : List ℕ} {c' : Conn}
        → decide_peer hmac sha256 random users t mac c ≡ done name c'
        → (secret : List ℕ) × (entry users t.username ≡ some secret)
          × (peer_auth_mac hmac t secret ≡ ok mac)
          × (name ≡ t.username)
          × (c'.input ≡ c.input)
    unfolding decide_peer
    decide_peer-eq-done t mac c h =
        let (expected, made, more) = lift-bind-eq-done _ _ c h in
        let (secret, known, same, name, kept) =
          settle-eq-done random t mac (entry users t.username) expected c more in
        let own : peer_auth_mac hmac t secret ≡ ok expected =
          subst (λ user. peer_auth_mac hmac t (secret_of hmac sha256 t.username user) ≡ ok expected)
            known made in
        (secret, known, own ∙ ap ok (sym same), name, kept)

    read_response-IsAuthentic :
        (client server : Preface) (challenge header : List ℕ) (c : Conn) {name : List ℕ} {c' : Conn}
        → read_response hmac sha256 random users client server challenge header c ≡ done name c'
        → IsAuthentic users client server challenge name (header ++ c.input) c'.input
    unfolding read_response read_nonce read_mac
    read_response-IsAuthentic client server challenge header c {name} {c'} h =
        let (invalid, h1) =
          guard-then-eq-done (not (valid_peer_auth_record header response_type)) invalid_peer_auth
            (read_full (get_or header 6 0)
              >>= read_nonce hmac sha256 random users client server challenge)
            c h in
        let (username, c1, taken1, h2) =
          >>=-eq-done (read_full (get_or header 6 0))
            (read_nonce hmac sha256 random users client server challenge) c h1 in
        let (input1, size1, _) = read_full-eq-done (get_or header 6 0) c taken1 in
        let said : List ℕ → Transcript = λ nonce. record {
          client_preface = client;
          server_preface = server;
          challenge = challenge;
          client_nonce = nonce;
          username = username;
        } in
        let (nonce, c2, taken2, h3) =
          >>=-eq-done (read_full digest_size)
            (λ nonce. read_mac hmac sha256 random users (said nonce)) c1 h2 in
        let (input2, size2, _) = read_full-eq-done digest_size c1 taken2 in
        let (mac, c3, taken3, h4) =
          >>=-eq-done (read_full digest_size) (decide_peer hmac sha256 random users (said nonce)) c2
            h3 in
        let (input3, size3, _) = read_full-eq-done digest_size c2 taken3 in
        let (secret, known, made, named, kept) = decide_peer-eq-done (said nonce) mac c3 h4 in
        subst (λ n. IsAuthentic users client server challenge n (header ++ c.input) c'.input)
          (sym named)
          (
            header,
            nonce,
            mac,
            secret,
            ground arith,
            ap (◌++◌ header) (
                input1
                ∙ ap (◌++◌ username)
                    (input2 ∙ ap (◌++◌ nonce) (input3 ∙ ap (◌++◌ mac) (sym kept)))),
            size1,
            size2,
            known,
            made,
          )

  -- AuthenticatePeerServer returns a name only if the name is one of `users`, and what it read is a
  -- valid response header, the name, a nonce and the MAC, under that user's password, of both
  -- prefaces, the challenge it drew, the nonce and the name.
  pub authenticate_peer_server-IsAuthentic :
      (sha256 : List ℕ → List ℕ) (random fallback : Option (List ℕ)) (client server : Preface)
      (users : List (List ℕ × List ℕ)) (c : Conn) (name : List ℕ) (c' : Conn)
      → authenticate_peer_server hmac sha256 random fallback client server users c ≡ done name c'
      → (nonce : List ℕ) × (random ≡ some nonce)
        × IsAuthentic users client server
            (record_header challenge_type 0 ++ nonce)
            name
            c.input
            c'.input
  unfolding authenticate_peer_server
  authenticate_peer_server-IsAuthentic sha256 random fallback client server users c name c' h =
      let challenge : List ℕ → List ℕ = λ nonce. record_header challenge_type 0 ++ nonce in
      let step : List ℕ → Io (List ℕ) = λ nonce.
        read_full response_header_size
        >>= read_response hmac sha256 fallback users client server (challenge nonce) in
      let (nonce, c0, drawn, h1) =
        >>=-eq-done (draw random) (λ nonce. write_full (challenge nonce) >> step nonce) c h in
      let (given, same) = draw-eq-done random c drawn in
      let (_, c1, sent, h2) = >>-eq-done (write_full (challenge nonce)) (step nonce) c0 h1 in
      let (header, c2, taken, h3) =
        >>=-eq-done (read_full response_header_size)
          (read_response hmac sha256 fallback users client server (challenge nonce)) c1 h2 in
      let (input, _, _) = read_full-eq-done response_header_size c1 taken in
      let unread : c1.input ≡ c.input =
        write_full-input (challenge nonce) c0 sent ∙ ap (λ (d : Conn). d.input) same in
      (
        nonce,
        given,
        subst (λ t. IsAuthentic users client server (challenge nonce) name t c'.input)
            (sym input ∙ unread)
            (read_response-IsAuthentic sha256 fallback users client server (challenge nonce) header
              c2 h3),
      )
