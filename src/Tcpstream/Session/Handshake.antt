-- ===== src/Tcpstream/Session/Handshake.antt =====
-- internal/tcpstream/session.go: what a session that comes about has made sure of.
use engarde.Shared.{
  ℕ, ◌≡◌, refl, sym, ap, ◌∙◌, List, [], ◌++◌, Bool, true, false, Option, none, some, Bool-cases,
  inl, inr, arith, ◌!=◌, ◌==◌, ◌≢◌, if◌then◌else◌,
}
use mathlib.Core.Path.{subst}
use Prim.Native.Nat.{bit_and}
use engarde.Wire.{
  Conn, Io, Result, done, ok, err, return, ◌>>=◌, ◌>>◌, write_full, set_deadline, invalid_preface,
}
use engarde.Wire.Runs.{
  >>=-eq-done, >>-eq-done, guard-then-eq-done, write_full-input, set_deadline-input,
}
use engarde.Tcpstream.Frame.Preface.{
  Preface, marshal_preface, marshal_preface-IsPreface, with_defaults, write_preface,
  write_preface-input, read_preface, IsHello, decoded, read_preface-IsHello, current_version,
  max_payload_bound,
}
use engarde.Tcpstream.Auth.{PeerCredentials, record_header, challenge_type}
use engarde.Tcpstream.Auth.Client.{IsProved, authenticate_peer_client-IsProved}
use engarde.Tcpstream.Auth.Server.{IsAuthentic, authenticate_peer_server-IsAuthentic}
use engarde.Tcpstream.Session.{
  Mux, SessionConfig, Session, open_mux, set_timeout, requires_auth, prove_peer, demanded,
  undemanded, enter_session, greet, dial_session_with_auth, identify, offered_flags, admit, welcome,
  accept_session,
}

open_mux-eq-done :
    (mux : Mux) (config : SessionConfig) (max : ℕ) (c : Conn) {s : Session} {c' : Conn}
    → open_mux mux config max c ≡ done s c'
    → (s.max_payload ≡ max) × (c' ≡ c)
unfolding open_mux
open_mux-eq-done mux config max c h = ground arith

pub set_timeout-input :
    (timed : Bool) (c : Conn) {u : Unit {0}} {c' : Conn}
    → set_timeout timed c ≡ done u c'
    → c'.input ≡ c.input
set_timeout-input true c h = set_deadline-input c h
set_timeout-input false c h = cc

module _ (hmac : List ℕ → List ℕ → List ℕ) (mux : Mux) where
  -- How a client knows its server: with credentials the server must ask for them, in the lowest bit of
  -- its flags, and prove itself; without, it must not ask.
  abbrev pub IsTrusted :
      Option (List ℕ) → Option PeerCredentials → Preface → Preface → List ℕ → List ℕ → Type 0
  IsTrusted random none client server before after = (bit_and server.flags 1 ≡ 0) × (before ≡ after)
  IsTrusted random (some cr) client server before after =
      (bit_and server.flags 1 ≢ 0)
      × (nonce : List ℕ) × (random ≡ some nonce)
      × IsProved hmac client server cr nonce before after

  module _ (random : Option (List ℕ)) where
    prove_peer-IsTrusted :
        (credentials : Option PeerCredentials) (client server : Preface) (c c' : Conn)
        → prove_peer hmac mux random credentials client server c ≡ done tt c'
        → IsTrusted random credentials client server c.input c'.input
    unfolding prove_peer demanded undemanded requires_auth
    prove_peer-IsTrusted none client server c c' h = elim (Bool-cases (requires_auth server)) [
      | inl asks ↦ absurd (ground arith)
      | inr quiet ↦ (ground arith, ground arith)
    ]
    prove_peer-IsTrusted (some cr) client server c c' h = elim (Bool-cases (requires_auth server)) [
      | inl asks ↦
          let (nonce, drawn, proved) =
            authenticate_peer_client-IsProved hmac random client server cr c c' (ground arith) in
          (λ (z : bit_and server.flags 1 ≡ 0). absurd (ground arith), nonce, drawn, proved)
      | inr quiet ↦ absurd (ground arith)
    ]

    -- The preface that a client sends: no flags, and 65536 for a limit of 0.
    abbrev pub sent_preface : ℕ → Preface
    sent_preface max = record {
      version = current_version;
      flags = 0;
      max_payload = if max == 0 then max_payload_bound else max;
    }

    -- What a client's session rests on: the server's preface is what the first bytes of the input say.
    abbrev pub IsDialled : Option PeerCredentials → ℕ → Session → List ℕ → List ℕ → Type 0
    IsDialled credentials max s before after =
        (hello : List ℕ) × (between : List ℕ) × IsHello hello
        × (before ≡ hello ++ between)
        × (s.max_payload ≡ (decoded hello).max_payload)
        × IsTrusted random credentials (sent_preface max) (decoded hello) between after

    module _ (credentials : Option PeerCredentials) (config : SessionConfig) where
      enter_session-eq-done :
          (client server : Preface) (c : Conn) {s : Session} {c' : Conn}
          → enter_session hmac mux random credentials config client server c ≡ done s c'
          → (s.max_payload ≡ server.max_payload)
            × IsTrusted random credentials client server c.input c'.input
      unfolding enter_session
      enter_session-eq-done client server c {s} {c'} h =
          let last : Io Session = open_mux mux config server.max_payload in
          let (_, c1, proved, h1) =
            >>-eq-done (prove_peer hmac mux random credentials client server) (set_deadline >> last)
              c h in
          let (_, c2, set, h2) = >>-eq-done set_deadline last c1 h1 in
          let (limit, same) = open_mux-eq-done mux config server.max_payload c2 h2 in
          (
            limit,
            subst (λ t. IsTrusted random credentials client server c.input t)
                (sym (ap (λ (d : Conn). d.input) same ∙ set_deadline-input c1 set))
                (prove_peer-IsTrusted credentials client server c c1 proved),
          )

      meet-IsDialled :
          (max : ℕ) (c : Conn) {s : Session} {c' : Conn}
          → (read_preface >>= enter_session hmac mux random credentials config (sent_preface max)) c
            ≡ done s c'
          → IsDialled credentials max s c.input c'.input
      meet-IsDialled max c {s} {c'} h =
          let enter : Preface → Io Session =
            enter_session hmac mux random credentials config (sent_preface max) in
          let (server, c2, taken, h2) = >>=-eq-done read_preface enter c h in
          let (hello, valid, says, input) = read_preface-IsHello c server c2 taken in
          let (limit, trusted) = enter_session-eq-done (sent_preface max) server c2 h2 in
          (
            hello,
            c2.input,
            valid,
            input,
            limit ∙ ap (λ (p : Preface). p.max_payload) says,
            subst (λ p. IsTrusted random credentials (sent_preface max) p c2.input c'.input) says
                trusted,
          )

      greet-IsDialled :
          (max : ℕ) (m : Result (List ℕ × Preface)) (c : Conn) {s : Session} {c' : Conn}
          → marshal_preface (record { version = 0; flags = 0; max_payload = max }) ≡ m
          → greet hmac mux random credentials config m c ≡ done s c'
          → IsDialled credentials max s c.input c'.input
      unfolding greet with_defaults
      greet-IsDialled max (err e) c own h = absurd (cc)
      greet-IsDialled max (ok (bytes, client)) c {s} {c'} own h =
          let enter : Preface → Preface → Io Session =
            enter_session hmac mux random credentials config in
          let (_, c1, sent, h1) =
            >>-eq-done (write_full bytes) (read_preface >>= enter client) c h in
          let (_, _, filled) =
            marshal_preface-IsPreface (record { version = 0; flags = 0; max_payload = max }) client
              bytes own in
          subst (λ t. IsDialled credentials max s t c'.input) (write_full-input bytes c sent)
            (meet-IsDialled max c1
              (subst (λ p. (read_preface >>= enter p) c1 ≡ done s c') filled h1))

      -- A session that DialSessionWithAuth returns carries the payload limit in the server preface that
      -- the first 16 bytes of the input are, which is valid. With credentials that preface asks for
      -- authentication, and the server has proved that it knows the password, for the client's and
      -- this preface; without, it does not ask, and nothing else has been read.
      pub dial_session_with_auth-IsDialled :
          (timed : Bool) (max : ℕ) (c : Conn) (s : Session) (c' : Conn)
          → dial_session_with_auth hmac mux random credentials timed max config c ≡ done s c'
          → IsDialled credentials max s c.input c'.input
      unfolding dial_session_with_auth
      dial_session_with_auth-IsDialled timed max c s c' h =
          let hello = marshal_preface (record { version = 0; flags = 0; max_payload = max }) in
          let (_, c1, set, h1) =
            >>-eq-done (set_timeout timed) (greet hmac mux random credentials config hello) c h in
          subst (λ t. IsDialled credentials max s t c'.input) (set_timeout-input timed c set)
            (greet-IsDialled max hello c1 refl h1)

  module _ (sha256 : List ℕ → List ℕ) (random fallback : Option (List ℕ))
      (users : Option (List (List ℕ × List ℕ))) where
    -- How a server knows its client.
    abbrev pub IsIdentified :
        Option (List (List ℕ × List ℕ)) → Preface → Preface → List ℕ → List ℕ → List ℕ → Type 0
    IsIdentified none client server principal before after = (principal ≡ []) × (before ≡ after)
    IsIdentified (some entries) client server principal before after =
        (nonce : List ℕ) × (random ≡ some nonce)
        × IsAuthentic hmac entries client server (record_header challenge_type 0 ++ nonce) principal
            before after

    identify-IsIdentified :
        (who : Option (List (List ℕ × List ℕ))) (client server : Preface) (c : Conn) {name : List ℕ}
        {c' : Conn}
        → identify hmac mux sha256 random fallback users client server who c ≡ done name c'
        → IsIdentified who client server name c.input c'.input
    unfolding identify
    identify-IsIdentified none client server c h = (cc, cc)
    identify-IsIdentified (some entries) client server c {name} {c'} h =
        authenticate_peer_server-IsAuthentic hmac sha256 random fallback client server entries c
          name c' h

    -- The preface that a server answers with: the lowest flag if it has users.
    abbrev pub answered_preface : ℕ → Option (List (List ℕ × List ℕ)) → Preface
    answered_preface max none = record { version = 0; flags = 0; max_payload = max }
    answered_preface max (some entries) = record { version = 0; flags = 1; max_payload = max }

    -- What a server's session rests on: the client's preface is what the first bytes of the input say.
    abbrev pub IsAdmitted : ℕ → Session → List ℕ → List ℕ → List ℕ → Type 0
    IsAdmitted max s principal before after =
        (hello : List ℕ) × (between : List ℕ) × IsHello hello
        × ((decoded hello).flags ≡ 0)
        × (before ≡ hello ++ between)
        × (s.max_payload ≡ (decoded hello).max_payload)
        × IsIdentified users (decoded hello) (answered_preface max users) principal between after

    module _ (config : SessionConfig) where
      admit-eq-done :
          (client : Preface) (principal : List ℕ) (c : Conn) {r : Session × List ℕ} {c' : Conn}
          → admit hmac mux sha256 random fallback users config client principal c ≡ done r c'
          → (r.0.max_payload ≡ client.max_payload) × (r.1 ≡ principal) × (c'.input ≡ c.input)
      unfolding admit
      admit-eq-done client principal c {r} {c'} h =
          let give : Session → Io (Session × List ℕ) = λ s. return (s, principal) in
          let (_, c1, set, h1) =
            >>-eq-done set_deadline (open_mux mux config client.max_payload >>= give) c h in
          let (s, c2, opened, h2) =
            >>=-eq-done (open_mux mux config client.max_payload) give c1 h1 in
          let (limit, same) = open_mux-eq-done mux config client.max_payload c1 opened in
          let whole : (s, principal) ≡ r = cc in
          (
            sym (ap (λ (t : Session × List ℕ). t.0.max_payload) whole) ∙ limit,
            sym (ap (λ (t : Session × List ℕ). t.1) whole),
            cc (set_deadline-input c set),
          )

      answers :
          (max : ℕ) (who : Option (List (List ℕ × List ℕ)))
          → answered_preface max who ≡ record {
            version = 0;
            flags = offered_flags hmac mux sha256 random fallback users who;
            max_payload = max;
          }
      unfolding offered_flags
      answers max none = refl
      answers max (some entries) = refl

      welcome-IsAdmitted :
          (max : ℕ) (hello : List ℕ) (c : Conn) {r : Session × List ℕ} {c' : Conn}
          → IsHello hello
          → welcome hmac mux sha256 random fallback users max config (decoded hello) c ≡ done r c'
          → IsAdmitted max r.0 r.1 (hello ++ c.input) c'.input
      unfolding welcome
      welcome-IsAdmitted max hello c {r} {c'} valid h =
          let client : Preface = decoded hello in
          let server : Preface = record {
            version = 0;
            flags = offered_flags hmac mux sha256 random fallback users users;
            max_payload = max;
          } in
          let enter : List ℕ → Io (Session × List ℕ) =
            admit hmac mux sha256 random fallback users config client in
          let who : Io (List ℕ) =
            identify hmac mux sha256 random fallback users client server users in
          let (flagged, h1) =
            guard-then-eq-done (client.flags != 0) invalid_preface
              (write_preface server >> (who >>= enter)) c h in
          let (_, c1, sent, h2) = >>-eq-done (write_preface server) (who >>= enter) c h1 in
          let (principal, c2, known, h3) = >>=-eq-done who enter c1 h2 in
          let (limit, named, kept) = admit-eq-done client principal c2 h3 in
          let identified : IsIdentified users client server principal c.input c'.input =
            subst (λ t. IsIdentified users client server principal t c'.input)
              (write_preface-input server c sent)
              (subst (λ t. IsIdentified users client server principal c1.input t) (sym kept)
                (identify-IsIdentified users client server c1 known)) in
          (
            hello,
            c.input,
            valid,
            ground arith,
            refl,
            limit,
            subst (λ p. IsIdentified users client p r.1 c.input c'.input) (sym (answers max users))
                (subst (λ n. IsIdentified users client server n c.input c'.input) (sym named)
                  identified),
          )

      -- A session that AcceptSession returns carries the payload limit in the client preface that the
      -- first 16 bytes of the input are, which is valid and has no flags. With users the principal is
      -- one of them and has proved that it knows the password, for this and the server's preface;
      -- without, the principal is empty, and nothing else has been read.
      pub accept_session-IsAdmitted :
          (timed : Bool) (max : ℕ) (c : Conn) (s : Session) (principal : List ℕ) (c' : Conn)
          → accept_session hmac mux sha256 random fallback users timed max config c
            ≡ done (s, principal) c'
          → IsAdmitted max s principal c.input c'.input
      unfolding accept_session
      accept_session-IsAdmitted timed max c s principal c' h =
          let meet : Preface → Io (Session × List ℕ) =
            welcome hmac mux sha256 random fallback users max config in
          let (_, c1, set, h1) = >>-eq-done (set_timeout timed) (read_preface >>= meet) c h in
          let (client, c2, taken, h2) = >>=-eq-done read_preface meet c1 h1 in
          let (hello, valid, says, input) = read_preface-IsHello c1 client c2 taken in
          subst (λ t. IsAdmitted max s principal t c'.input)
            (sym input ∙ set_timeout-input timed c set)
            (welcome-IsAdmitted max hello c2 valid
              (subst (λ p. meet p c2 ≡ done (s, principal) c') says h2))
