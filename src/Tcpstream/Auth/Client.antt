-- ===== src/Tcpstream/Auth/Client.antt =====
-- internal/tcpstream/auth.go: which server AuthenticatePeerClient trusts.
use engarde.Shared.{
  ℕ, ◌≡◌, sym, ap, ◌∙◌, List, [], ◌++◌, true, not, ◌||◌, Option, some, get_or, length, drop,
  bytes_eq, bytes_eq→eq, Bool-cases, inl, inr, arith, ltb, ◌==◌, ◌!=◌,
}
use mathlib.Core.Path.{subst}
use engarde.Wire.{
  Conn, Io, done, ok, lift, guard, ◌>>=◌, ◌>>◌, read_full, write_full, invalid_peer_auth,
  peer_authentication_failed,
}
use engarde.Wire.Runs.{
  >>=-eq-done, >>-eq-done, guard-eq-done, guard-then-eq-done, lift-bind-eq-done, read_full-eq-done,
  write_full-input,
}
use engarde.Tcpstream.Frame.Preface.{Preface}
use engarde.Tcpstream.Auth.{
  Transcript, PeerCredentials, peer_auth_mac, peer_auth_server_proof, challenge_type, result_type,
  result_size, challenge_size, peer_auth_success, valid_peer_auth_record, draw, check_result,
  respond, answer_challenge, authenticate_peer_client, response_bytes,
}
use engarde.Tcpstream.Auth.Messages.{draw-eq-done}

module _ (hmac : List ℕ → List ℕ → List ℕ) where
  check_result-eq-done :
      (t : Transcript) (mac secret result : List ℕ) (c : Conn) {u : Unit {0}} {c' : Conn}
      → check_result hmac t mac secret result c ≡ done u c'
      → (valid_peer_auth_record result result_type ≡ true)
        × (peer_auth_server_proof hmac t mac peer_auth_success secret ≡ ok (drop 8 result))
        × (c' ≡ c)
  unfolding check_result
  check_result-eq-done t mac secret result c h =
      let status = get_or result 6 0 in
      let last : List ℕ → Io (Unit {0}) =
        λ proof. guard (not (bytes_eq (drop 8 result) proof)) peer_authentication_failed in
      let prove : Io (Unit {0}) = lift (peer_auth_server_proof hmac t mac status secret) >>= last in
      let (invalid, h1) =
        guard-then-eq-done (not (valid_peer_auth_record result result_type)) invalid_peer_auth
          (guard (status != peer_auth_success) peer_authentication_failed >> prove) c h in
      let (passed, h2) =
        guard-then-eq-done (status != peer_auth_success) peer_authentication_failed prove c h1 in
      let (proof, made, h3) =
        lift-bind-eq-done (peer_auth_server_proof hmac t mac status secret) last c h2 in
      let (differs, rest) =
        guard-eq-done (not (bytes_eq (drop 8 result) proof)) peer_authentication_failed c h3 in
      let zero_status : status ≡ peer_auth_success = ground arith in
      let equal : drop 8 result ≡ proof = bytes_eq→eq (drop 8 result) proof (ground arith) in
      (
        ground arith,
        subst (λ s. peer_auth_server_proof hmac t mac s secret ≡ ok (drop 8 result)) zero_status
            (made ∙ ap ok (sym equal)),
        rest,
      )

  -- What the client has read before it trusts the server.
  abbrev pub IsProved : Preface → Preface → PeerCredentials → List ℕ → List ℕ → List ℕ → Type 0
  IsProved client server cr nonce before after =
      (challenge : List ℕ) × (mac : List ℕ) × (result : List ℕ) × (valid_peer_auth_record challenge
          challenge_type
        ≡ true)
      × (valid_peer_auth_record result result_type ≡ true)
      × (before ≡ challenge ++ (result ++ after))
      × (let t : Transcript = record {
        client_preface = client;
        server_preface = server;
        challenge = challenge;
        client_nonce = nonce;
        username = cr.username;
      } in
          (peer_auth_mac hmac t cr.password ≡ ok mac)
          × (peer_auth_server_proof hmac t mac peer_auth_success cr.password ≡ ok (drop 8 result)))

  respond-eq-done :
      (t : Transcript) (secret : List ℕ) (c : Conn) {u : Unit {0}} {c' : Conn}
      → respond hmac t secret c ≡ done u c'
      → (mac : List ℕ) × (result : List ℕ) × (valid_peer_auth_record result result_type ≡ true)
        × (c.input ≡ result ++ c'.input)
        × (peer_auth_mac hmac t secret ≡ ok mac)
        × (peer_auth_server_proof hmac t mac peer_auth_success secret ≡ ok (drop 8 result))
  unfolding respond
  respond-eq-done t secret c h =
      let check : List ℕ → Io (Unit {0}) =
        λ mac. read_full result_size >>= check_result hmac t mac secret in
      let (mac, made, h1) =
        lift-bind-eq-done (peer_auth_mac hmac t secret)
          (λ mac. write_full (response_bytes t.username t.client_nonce mac) >> check mac) c h in
      let (_, c1, sent, h2) =
        >>-eq-done (write_full (response_bytes t.username t.client_nonce mac)) (check mac) c h1 in
      let (result, c2, taken, h3) =
        >>=-eq-done (read_full result_size) (check_result hmac t mac secret) c1 h2 in
      let (input, _, _) = read_full-eq-done result_size c1 taken in
      let (valid, proved, same) = check_result-eq-done t mac secret result c2 h3 in
      let unread = write_full-input (response_bytes t.username t.client_nonce mac) c sent in
      (
        mac,
        result,
        valid,
        sym unread ∙ (input ∙ ap (λ (d : Conn). result ++ d.input) (sym same)),
        made,
        proved,
      )

  -- AuthenticatePeerClient reports no error only if what it read is a valid challenge and a valid
  -- result whose proof is the digest, under the password, that binds both prefaces, the challenge,
  -- the client's nonce and name, and the client's own MAC.
  pub authenticate_peer_client-IsProved :
      (random : Option (List ℕ)) (client server : Preface) (cr : PeerCredentials) (c c' : Conn)
      → authenticate_peer_client hmac random client server cr c ≡ done tt c'
      → (nonce : List ℕ) × (random ≡ some nonce) × IsProved client server cr nonce c.input c'.input
  unfolding authenticate_peer_client answer_challenge
  authenticate_peer_client-IsProved random client server cr c c' h =
      elim (Bool-cases
        (length cr.username == 0 || ltb 255 (length cr.username) || bytes_eq cr.password [])) [
          | inl bad ↦ absurd (ground arith)
          | inr good ↦
              let (challenge, c1, taken, h1) =
                >>=-eq-done (read_full challenge_size)
                  (answer_challenge hmac random client server cr) c {b = tt} {c'' = c'}
                  (ground arith) in
              let (input, _, _) = read_full-eq-done challenge_size c taken in
              let said : List ℕ → Transcript = λ nonce. record {
                client_preface = client;
                server_preface = server;
                challenge = challenge;
                client_nonce = nonce;
                username = cr.username;
              } in
              let answer : List ℕ → Io (Unit {0}) =
                λ nonce. respond hmac (said nonce) cr.password in
              let (invalid, h2) =
                guard-then-eq-done (not (valid_peer_auth_record challenge challenge_type))
                  invalid_peer_auth (draw random >>= answer) c1 {b = tt} {c' = c'} h1 in
              let (nonce, c2, drawn, h3) =
                >>=-eq-done (draw random) answer c1 {b = tt} {c'' = c'} h2 in
              let (given, same) = draw-eq-done random c1 drawn in
              let (mac, result, valid, rest, made, proved) =
                respond-eq-done (said nonce) cr.password c2 {u = tt} {c' = c'} h3 in
              (
                nonce,
                given,
                (
                  challenge,
                  mac,
                  result,
                  ground arith,
                  valid,
                  input ∙ ap (◌++◌ challenge) (ap (λ (d : Conn). d.input) (sym same) ∙ rest),
                  (made, proved),
                ),
              )
        ]
