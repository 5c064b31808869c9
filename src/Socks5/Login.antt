-- ===== src/Socks5/Login.antt =====
-- internal/socks5/socks5.go: a handshake that asks for credentials ends well only with a matching login.
use engarde.Shared.{
  ℕ, ◌<◌, ◌≡◌, refl, sym, ap, ◌∙◌, List, [], ◌∷◌, ◌++◌, ◌&&◌, ◌||◌, ◌==◌, ◌!=◌, length, get_or,
  bytes_eq→eq, arith, Bool-cases, inl, inr,
}
use mathlib.Core.Path.{subst}
use engarde.Wire.{
  done, Conn, Io, ◌>>=◌, ◌>>◌, read_full, write_full, ignore, throw, authentication_failed,
}
use engarde.Wire.Runs.{>>-eq-done, write_full-input, >>=-eq-done, read_full-eq-done}
use engarde.Socks5.{
  Credentials, auth_version, decide_login, read_password, read_username, authenticate, refuse_login,
  constant_time_equal,
}

pub ignore-throw {ℓ} :
    {B : Type ℓ} (m : Io (Unit {0})) (k : Io B) (c : Conn)
    → ((d : Conn) (b : B) (c' : Conn) → k d ≡ done b c' → ⊥)
    → (b : B) (c' : Conn) → (ignore m >> k) c ≡ done b c'
    → ⊥
ignore-throw m k c none_done b c' h =
    let (_, d, _, last) = >>-eq-done (ignore m) k c h in none_done d b c' last

refuse_login_never : (c : Conn) (u : Unit {0}) (c' : Conn) → refuse_login c ≡ done u c' → ⊥
unfolding refuse_login
refuse_login_never c u c' h =
    ignore-throw (write_full (auth_version ∷ 1 ∷ [])) (throw authentication_failed) c
      (λ d b c'' e. cc) u c' h

module _ (hash : List ℕ → List ℕ) (cr : Credentials) where
  -- A login whose names and passwords have the same hashes as those asked for.
  abbrev pub IsLogin : List ℕ → List ℕ → Type 0
  IsLogin username password =
      (hash username ≡ hash cr.username)
      × (hash password ≡ hash cr.password)
      × (0 < length username)
      × (0 < length password)

  decide_login-eq-done :
      (username password : List ℕ) (c : Conn) {u : Unit {0}} {c' : Conn}
      → decide_login hash cr username password c ≡ done u c'
      → (hash username ≡ hash cr.username)
        × (hash password ≡ hash cr.password)
        × (c'.input ≡ c.input)
  unfolding decide_login
  decide_login-eq-done username password c {u} {c'} h =
      elim (Bool-cases (
        constant_time_equal hash username cr.username
        && constant_time_equal hash password cr.password)) [
          | inl same ↦
              let name =
                bytes_eq→eq (hash username) (hash cr.username)
                  (unfold constant_time_equal in ground arith) in
              let word =
                bytes_eq→eq (hash password) (hash cr.password)
                  (unfold constant_time_equal in ground arith) in
              (
                name,
                word,
                write_full-input (auth_version ∷ 0 ∷ []) c {u = u} {c' = c'} (ground arith),
              )
          | inr other ↦ absurd (refuse_login_never c u c' (ground arith))
        ]

  read_password-eq-done :
      (username size : List ℕ) (c : Conn) {u : Unit {0}} {c' : Conn}
      → read_password hash cr username size c ≡ done u c'
      → (password : List ℕ) × (hash username ≡ hash cr.username)
        × (hash password ≡ hash cr.password)
        × (length password ≡ get_or size 0 0)
        × (0 < length password)
        × (c.input ≡ password ++ c'.input)
  unfolding read_password
  read_password-eq-done username size c {u} {c'} h = elim (Bool-cases (get_or size 0 0 == 0)) [
    | inl e ↦ absurd (refuse_login_never c u c' (ground arith))
    | inr e ↦
        let (password, d, taken, last) =
          >>=-eq-done (read_full (get_or size 0 0)) (decide_login hash cr username) c {b = u}
            {c'' = c'} (ground arith) in
        let (input, long, _) = read_full-eq-done (get_or size 0 0) c taken in
        let (name, word, rest) = decide_login-eq-done username password d last in
        (password, name, word, long, ground arith, input ∙ ap (◌++◌ password) (sym rest))
  ]

  -- What authenticate has read when it reports no error.
  abbrev pub LoggedIn : List ℕ → List ℕ → Type 0
  LoggedIn before after =
      (version : ℕ) × (username : List ℕ) × (password : List ℕ) × (version ≡ auth_version)
      × IsLogin username password
      × (before ≡ version ∷ length username ∷ username ++ (length password ∷ password ++ after))

  two_bytes : (xs : List ℕ) → length xs ≡ 2 → xs ≡ get_or xs 0 0 ∷ get_or xs 1 0 ∷ []
  two_bytes [] h = absurd (omega arith)
  two_bytes (a ∷ []) h = absurd (omega arith)
  two_bytes (a ∷ b ∷ []) h = refl
  two_bytes (a ∷ b ∷ x ∷ xs) h = absurd (omega arith)

  one_byte : (xs : List ℕ) → length xs ≡ 1 → xs ≡ get_or xs 0 0 ∷ []
  one_byte [] h = absurd (omega arith)
  one_byte (a ∷ []) h = refl
  one_byte (a ∷ b ∷ xs) h = absurd (omega arith)

  read_username-LoggedIn :
      (header : List ℕ) (c : Conn) {u : Unit {0}} {c' : Conn}
      → length header ≡ 2
      → read_username hash cr header c ≡ done u c'
      → LoggedIn (header ++ c.input) c'.input
  unfolding read_username
  read_username-LoggedIn header c {u} {c'} two h =
      elim (Bool-cases (get_or header 0 0 != auth_version || get_or header 1 0 == 0)) [
        | inl e ↦ absurd (refuse_login_never c u c' (ground arith))
        | inr e ↦
            let (username, d, taken, more) =
              >>=-eq-done (read_full (get_or header 1 0))
                (λ username. read_full 1 >>= read_password hash cr username) c {b = u} {c'' = c'}
                (ground arith) in
            let (input, long, _) = read_full-eq-done (get_or header 1 0) c taken in
            let (size, d', taken', last) =
              >>=-eq-done (read_full 1) (read_password hash cr username) d more in
            let (input', one, _) = read_full-eq-done 1 d taken' in
            let (password, name, word, size_of, some_byte, rest) =
              read_password-eq-done username size d' last in
            (
              get_or header 0 0,
              username,
              password,
              ground arith,
              (name, word, ground arith, some_byte),
              layout header username size password c.input d.input d'.input c'.input two long one
                  size_of input input' rest,
            )
      ]
    where
      layout :
          (header username size password i0 i1 i2 i3 : List ℕ)
          → length header ≡ 2
          → length username ≡ get_or header 1 0
          → length size ≡ 1
          → length password ≡ get_or size 0 0
          → i0 ≡ username ++ i1
          → i1 ≡ size ++ i2
          → i2 ≡ password ++ i3
          → header ++ i0
            ≡ get_or header 0 0 ∷ length username ∷ username ++ (length password ∷ password ++ i3)
      layout header username size password i0 i1 i2 i3 two long one size_of e0 e1 e2 =
          rw (e0, e1, e2, long, size_of)
            (λ i. two_bytes header two i ++ (username ++ (one_byte size one i ++ (password ++ i3))))

  pub authenticate-LoggedIn :
      (c : Conn) {u : Unit {0}} {c' : Conn}
      → authenticate hash cr c ≡ done u c'
      → LoggedIn c.input c'.input
  unfolding authenticate
  authenticate-LoggedIn c {u} {c'} h =
      let (header, d, taken, last) = >>=-eq-done (read_full 2) (read_username hash cr) c h in
      let (input, two, _) = read_full-eq-done 2 c taken in
      subst (λ t. LoggedIn t c'.input) (sym input) (read_username-LoggedIn header d two last)
