-- ===== src/Config/Guards.antt =====
-- internal/config/config.go: what the checks of users, of allowed clients and of the listen address of a
-- front end make sure of.
use engarde.Shared.{
  ℕ, ◌<◌, ◌≤◌, ◌≡◌, refl, ◌⊎◌, inl, inr, List, [], ◌∷◌, true, Option, none, some, length, All,
  arith, Bool-cases,
}
use engarde.Wire.{Error, Result, ok, err}
use engarde.Config.{is_some, Credentials}
use engarde.Config.Checks.{
  Std, localhost, validate_credentials, validate_users, validate_server_peer_auth,
  validate_allowed_clients, is_loopback_listen_address, loopback_host,
}

-- Credentials of a length that the protocol can carry, neither part of them empty.
pub record IsUser (c : Credentials) : Type 0 where
  pub some_name : 0 < length c.username
  pub name_bound : length c.username ≤ 255
  pub some_password : 0 < length c.password
  pub password_bound : length c.password ≤ 1024

validate_credentials-IsUser : (c : Credentials) → validate_credentials 1024 c ≡ ok tt → IsUser c
unfolding validate_credentials
validate_credentials-IsUser c h = record {
  some_name = ground arith;
  name_bound = ground arith;
  some_password = ground arith;
  password_bound = ground arith;
}

Result-cases : (r : Result (Unit {0})) → (r ≡ ok tt) ⊎ ((e : Error) × (r ≡ err e))
Result-cases (ok u) = inl refl
Result-cases (err e) = inr (e, refl)

validate_users-IsUser : (cs : List Credentials) → validate_users cs ≡ ok tt → All IsUser cs
unfolding validate_users
validate_users-IsUser [] h = tt
validate_users-IsUser (c ∷ cs) h = elim (Result-cases (validate_credentials 1024 c)) [
  | inl good ↦ (validate_credentials-IsUser c good, validate_users-IsUser cs (ground (arith, good)))
  | inr (e, bad) ↦ absurd (ground (arith, bad))
]

-- The users of a server: there is one, and each has a name and a password.
abbrev pub HasUsers : Option (List Credentials) → Type 0
HasUsers auth = (cs : List Credentials) × (auth ≡ some cs) × (0 < length cs) × All IsUser cs

pub validate_server_peer_auth-HasUsers :
    (auth : Option (List Credentials))
    → validate_server_peer_auth auth ≡ ok tt
    → is_some auth ≡ true
    → HasUsers auth
unfolding validate_server_peer_auth
validate_server_peer_auth-HasUsers none h k = absurd (ground arith)
validate_server_peer_auth-HasUsers (some cs) h k =
    (cs, refl, ground arith, validate_users-IsUser cs (ground arith))

module _ (std : Std) where
  -- An address or a network, with spaces around it.
  abbrev pub IsPlace : List ℕ → Type 0
  IsPlace value =
      (std.is_ip (std.trim_space value) ≡ true) ⊎ (std.is_cidr (std.trim_space value) ≡ true)

  pub validate_allowed_clients-IsPlace :
      (values : List (List ℕ)) → validate_allowed_clients std values ≡ ok tt → All IsPlace values
  unfolding validate_allowed_clients
  validate_allowed_clients-IsPlace [] h = tt
  validate_allowed_clients-IsPlace (value ∷ values) h =
      elim (Bool-cases (std.is_ip (std.trim_space value))) [
        | inl ip ↦ (inl ip, validate_allowed_clients-IsPlace values (ground (arith, ip)))
        | inr other ↦
            (inr (ground (arith, other)), validate_allowed_clients-IsPlace values (ground arith))
      ]

  -- A listen address whose host is the name localhost or a loopback address.
  abbrev pub IsLocal : List ℕ → Type 0
  IsLocal address =
      (host : List ℕ) × (std.split_host address ≡ some host)
      × ((std.equal_fold host localhost ≡ true) ⊎ (std.is_loopback_ip host ≡ true))

  loopback_host-IsLocal :
      (address : List ℕ) (o : Option (List ℕ))
      → std.split_host address ≡ o
      → loopback_host std o ≡ true
      → IsLocal address
  unfolding loopback_host
  loopback_host-IsLocal address none e h = absurd (ground arith)
  loopback_host-IsLocal address (some host) e h =
      elim (Bool-cases (std.equal_fold host localhost)) [
        | inl named ↦ (host, e, inl named)
        | inr other ↦ (host, e, inr (ground arith))
      ]

  pub is_loopback_listen_address-IsLocal :
      (address : List ℕ) → is_loopback_listen_address std address ≡ true → IsLocal address
  unfolding is_loopback_listen_address
  is_loopback_listen_address-IsLocal address h =
      loopback_host-IsLocal address (std.split_host address) refl h
