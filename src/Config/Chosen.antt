-- ===== src/Config/Chosen.antt =====
-- ResolveRole of internal/config/config.go: which configurations are of a role.
use engarde.Shared.{
  ℕ, ◌≡◌, refl, ◌⊎◌, inl, inr, List, [], ◌∷◌, true, false, arith, Bool-cases, ◌≢◌, bytes_eq, sym,
}
use mathlib.Core.Path.{subst}
use engarde.Wire.{ok}
use engarde.Config.{
  is_blank, Role, role_client, role_server, Config, resolve_role, client_complete, server_complete,
  client_present, server_present,
}
use engarde.Config.Presence.{
  IsUnsetClient, IsUnsetServer, client_present-IsUnsetClient, server_present-IsUnsetServer,
  IsUnsetClient-client_present, IsUnsetServer-server_present,
}

-- What a configuration of a role consists of: the addresses that the role needs, and nothing of the
-- other role.
abbrev pub IsOf : Config → Role → Type 0
IsOf cfg role_client =
    (cfg.client.listen_addr ≢ []) × (cfg.client.dst_addr ≢ []) × IsUnsetServer cfg
IsOf cfg role_server = (cfg.server.listen_addr ≢ []) × IsUnsetClient cfg

given : (text : List ℕ) → is_blank text ≡ false → text ≢ []
unfolding bytes_eq
given [] h = absurd (ground arith)
given (b ∷ bs) h = λ e. absurd (cc)

not_blank : (text : List ℕ) → text ≢ [] → is_blank text ≡ false
unfolding bytes_eq
not_blank [] h = absurd (h refl)
not_blank (b ∷ bs) h = refl

empty_is_blank : (text : List ℕ) → text ≡ [] → is_blank text ≡ true
unfolding bytes_eq
empty_is_blank text e = rw e refl

resolve_role-cases :
    (cfg : Config) (role : Role)
    → resolve_role cfg ≡ ok role
    → ((role ≡ role_client) × (client_complete cfg ≡ true) × (server_present cfg ≡ false))
      ⊎ ((role ≡ role_server) × (server_complete cfg ≡ true) × (client_present cfg ≡ false))
unfolding resolve_role
resolve_role-cases cfg role h = elim (Bool-cases (client_complete cfg)) [
  | inl c ↦ inl (ground arith)
  | inr c ↦ inr (ground arith)
]

client_complete-given :
    (cfg : Config)
    → client_complete cfg ≡ true
    → (cfg.client.listen_addr ≢ []) × (cfg.client.dst_addr ≢ [])
unfolding client_complete
client_complete-given cfg h = (given _ (ground arith), given _ (ground arith))

server_complete-given : (cfg : Config) → server_complete cfg ≡ true → cfg.server.listen_addr ≢ []
unfolding server_complete
server_complete-given cfg h = given _ (ground arith)

pub resolve_role-IsOf : (cfg : Config) (role : Role) → resolve_role cfg ≡ ok role → IsOf cfg role
resolve_role-IsOf cfg role h = elim (resolve_role-cases cfg role h) [
  | inl (client, complete, absent) ↦
      let (listens, dials) = client_complete-given cfg complete in
      subst (IsOf cfg) (sym client) (listens, dials, server_present-IsUnsetServer cfg absent)
  | inr (server, complete, absent) ↦
      subst (IsOf cfg) (sym server)
        (server_complete-given cfg complete, client_present-IsUnsetClient cfg absent)
]

pub IsOf-resolve_role : (cfg : Config) (role : Role) → IsOf cfg role → resolve_role cfg ≡ ok role
unfolding resolve_role client_complete server_complete
IsOf-resolve_role cfg role_client (listens, dials, unset) = ground (
  arith,
  not_blank _ listens,
  not_blank _ dials,
  empty_is_blank _ unset.no_listen_addr,
  IsUnsetServer-server_present cfg unset,
)
IsOf-resolve_role cfg role_server (listens, unset) = ground (
  arith,
  not_blank _ listens,
  empty_is_blank _ unset.no_listen_addr,
  IsUnsetClient-client_present cfg unset,
)
