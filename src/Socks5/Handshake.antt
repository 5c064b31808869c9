-- ===== src/Socks5/Handshake.antt =====
-- internal/socks5/socks5.go: what a whole handshake that asks for credentials has read.
use engarde.Shared.{
  ℕ, ◌≡◌, ap, ◌∙◌, List, [], ◌∷◌, ◌++◌, Bool, true, ◌||◌, some, ◌==◌, ◌!=◌, length, get_or, arith,
  Bool-cases, inl, inr,
}
use mathlib.Core.Path.{subst}
use engarde.Wire.{
  done, Conn, ◌>>=◌, ◌>>◌, read_full, write_full, set_deadline, throw, no_acceptable_method,
}
use engarde.Wire.Runs.{
  >>-eq-done, write_full-input, set_deadline-input, >>=-eq-done, read_full-eq-done,
}
use engarde.Tcpstream.Destination.{Netip, Destination}
use engarde.Socks5.{
  Credentials, authenticate, valid_credentials, choose_method, read_greeting,
  read_connect_with_auth, offers, method_username_password, login, refuse_methods, version5,
  method_unavailable, misconfigured, required_method, read_request,
}
use engarde.Socks5.Login.{ignore-throw, LoggedIn, authenticate-LoggedIn}

module _ (net : Netip) (hash ip_text : List ℕ → List ℕ) (timed : Bool) (cr : Credentials) where
  refuse_methods_never :
      (c : Conn) (d : Destination) (c' : Conn) → refuse_methods net hash ip_text c ≡ done d c' → ⊥
  unfolding refuse_methods
  refuse_methods_never c d c' h =
      ignore-throw (write_full (version5 ∷ method_unavailable ∷ [])) (throw no_acceptable_method) c
        (λ e b c'' k. cc) d c' h

  -- What is known once a method has been chosen.
  abbrev pub IsAgreed : List ℕ → List ℕ → Type 0
  IsAgreed methods input =
      (valid_credentials cr ≡ true)
      × (offers method_username_password methods ≡ true)
      × (rest : List ℕ) × LoggedIn hash cr input rest

  choose_method-IsAgreed :
      (methods : List ℕ) (c : Conn) {d : Destination} {c' : Conn}
      → choose_method net hash ip_text timed (some cr) methods c ≡ done d c'
      → IsAgreed methods c.input
  unfolding choose_method misconfigured required_method login
  choose_method-IsAgreed methods c {d} {c'} h = elim (Bool-cases (valid_credentials cr)) [
    | inr bad ↦ absurd (ground arith)
    | inl good ↦ elim (Bool-cases (offers method_username_password methods)) [
      | inr missing ↦ absurd (refuse_methods_never c d c' (ground arith))
      | inl offered ↦
          let (_, c1, sent, more) =
            >>-eq-done (write_full (version5 ∷ method_username_password ∷ []))
              (authenticate hash cr >> (read_full 4 >>= read_request net hash ip_text timed)) c
              {b = d} {c'' = c'} (ground arith) in
          let (_, c2, logged, _) =
            >>-eq-done (authenticate hash cr) (read_full 4 >>= read_request net hash ip_text timed)
              c1 more in
          (
            good,
            offered,
            c2.input,
            subst (λ t. LoggedIn hash cr t c2.input)
                (write_full-input (version5 ∷ method_username_password ∷ []) c sent)
                (authenticate-LoggedIn hash cr c1 logged),
          )
    ]
  ]

  -- A greeting, the methods it counts, and a login among what was read.
  abbrev pub IsAuthorised : List ℕ → Type 0
  IsAuthorised input =
      (greeting : List ℕ) × (methods : List ℕ) × (after : List ℕ) × (input
        ≡ greeting ++ (methods ++ after))
      × (length greeting ≡ 2)
      × (get_or greeting 0 0 ≡ version5)
      × (length methods ≡ get_or greeting 1 0)
      × IsAgreed methods after

  read_greeting-IsAuthorised :
      (c : Conn) {d : Destination} {c' : Conn}
      → (read_full 2 >>= read_greeting net hash ip_text timed (some cr)) c ≡ done d c'
      → IsAuthorised c.input
  unfolding read_greeting
  read_greeting-IsAuthorised c {d} {c'} h =
      let (greeting, c1, taken, more) =
        >>=-eq-done (read_full 2) (read_greeting net hash ip_text timed (some cr)) c h in
      let (input, two, _) = read_full-eq-done 2 c taken in
      elim (Bool-cases (get_or greeting 0 0 != version5 || get_or greeting 1 0 == 0)) [
        | inl bad ↦ absurd (ground arith)
        | inr good ↦
            let (methods, c2, taken', last) =
              >>=-eq-done (read_full (get_or greeting 1 0))
                (choose_method net hash ip_text timed (some cr)) c1 {b = d} {c'' = c'}
                (ground arith) in
            let (input', counted, _) = read_full-eq-done (get_or greeting 1 0) c1 taken' in
            (
              greeting,
              methods,
              c2.input,
              input ∙ ap (◌++◌ greeting) input',
              two,
              ground arith,
              counted,
              choose_method-IsAgreed methods c2 last,
            )
      ]

  -- If ReadConnectWithAuth is given credentials and returns a destination, then the credentials were
  -- valid, and what it read begins with a greeting of version 5 that offers the username and password
  -- method, followed by a login, neither of whose parts is empty, with the same hashes as the
  -- credentials.
  pub read_connect_with_auth-IsAuthorised :
      (c : Conn) (d : Destination) (c' : Conn)
      → read_connect_with_auth net hash ip_text timed (some cr) c ≡ done d c'
      → IsAuthorised c.input
  unfolding read_connect_with_auth
  read_connect_with_auth-IsAuthorised c d c' h = elim (Bool-cases timed) [
    | inr off ↦ read_greeting-IsAuthorised c {d = d} {c' = c'} (ground arith)
    | inl on ↦
        let (_, c1, set, more) =
          >>-eq-done set_deadline (read_full 2 >>= read_greeting net hash ip_text timed (some cr)) c
            {b = d} {c'' = c'} (ground arith) in
        subst IsAuthorised (set_deadline-input c set) (read_greeting-IsAuthorised c1 more)
  ]
