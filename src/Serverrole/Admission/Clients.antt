-- ===== src/Serverrole/Admission/Clients.antt =====
-- internal/serverrole/server.go: the clients that AllowedClients names. An address is its bytes; the functions of
-- net and strings are the record `NetText`.
use engarde.Shared.{
  ℕ, ◌≡◌, sym, ap, ◌∙◌, List, [], ◌∷◌, Bool, true, false, Option, none, some, length, ◌==◌, ◌&&◌,
  bytes_eq, Bool-cases, Option-cases, arith, ◌⊎◌, inl, inr, if◌then◌else◌,
}

-- strings.TrimSpace, net.ParseIP, net.ParseCIDR, IP.Equal and IPNet.Contains. `none` is a failure to parse.
pub record NetText (Network : Type 0) : Type 0 where
  pub trim_space : List ℕ → List ℕ
  pub parse_ip : List ℕ → Option (List ℕ)
  pub parse_cidr : List ℕ → Option Network
  pub equal : List ℕ → List ℕ → Bool
  pub contains : Network → List ℕ → Bool

module _ {Network : Type 0} (net : NetText Network) where
  pub add_network : Option Network → List (List ℕ) × List Network → List (List ℕ) × List Network
  add_network none rest = rest
  add_network (some network) (ips, networks) = (ips, network ∷ networks)

  pub add_client :
      List ℕ → Option (List ℕ) → List (List ℕ) × List Network → List (List ℕ) × List Network
  unfolding add_network
  add_client value (some ip) (ips, networks) = (ip ∷ ips, networks)
  add_client value none rest = add_network (net.parse_cidr value) rest

  unfoldable pub parse_allowed_clients : List (List ℕ) → List (List ℕ) × List Network
  unfolding add_client
  parse_allowed_clients [] = ([], [])
  parse_allowed_clients (v ∷ values) =
      let rest = parse_allowed_clients values in
      let value = net.trim_space v in
      if bytes_eq value [] then rest else add_client value (net.parse_ip value) rest

  pub any_equal : List ℕ → List (List ℕ) → Bool
  any_equal ip [] = false
  any_equal ip (allowed ∷ ips) = if net.equal allowed ip then true else any_equal ip ips

  pub any_contains : List ℕ → List Network → Bool
  any_contains ip [] = false
  any_contains ip (network ∷ networks) =
      if net.contains network ip then true else any_contains ip networks

  unfoldable pub client_ip_allowed : List (List ℕ) × List Network → List ℕ → Bool
  unfolding any_equal any_contains
  client_ip_allowed (ips, networks) ip =
      if length ips == 0 && length networks == 0
      then true
      else if any_equal ip ips
      then true
      else any_contains ip networks

  -- A value of the list that stands for the address: it is read as an address first.
  abbrev pub Names : List ℕ → List ℕ → Type 0
  Names ip v =
      (bytes_eq (net.trim_space v) [] ≡ false)
      × (((a : List ℕ) × (net.parse_ip (net.trim_space v) ≡ some a) × (net.equal a ip ≡ true))
          ⊎ ((n : Network) × (net.parse_ip (net.trim_space v) ≡ none)
              × (net.parse_cidr (net.trim_space v) ≡ some n)
              × (net.contains n ip ≡ true)))

  abbrev pub AnyNames : List ℕ → List (List ℕ) → Type 0
  AnyNames ip [] = ⊥
  AnyNames ip (v ∷ values) = Names ip v ⊎ AnyNames ip values

  module _ (ip : List ℕ) where
    abbrev listed : List (List ℕ) × List Network → Bool
    listed t = if any_equal ip t.0 then true else any_contains ip t.1

    listed-network :
        (network : Network) (t : List (List ℕ) × List Network)
        → listed (add_network (some network) t) ≡ true
        → (net.contains network ip ≡ true) ⊎ (listed t ≡ true)
    unfolding add_network any_contains
    listed-network network t h = elim (Bool-cases (net.contains network ip)) [
      | inl e ↦ inl e
      | inr e ↦ inr (ground arith)
    ]

    listed-address :
        (a : List ℕ) (t : List (List ℕ) × List Network)
        → listed (a ∷ t.0, t.1) ≡ true
        → (net.equal a ip ≡ true) ⊎ (listed t ≡ true)
    unfolding any_equal
    listed-address a t h = elim (Bool-cases (net.equal a ip)) [
      | inl e ↦ inl e
      | inr e ↦ inr (ground arith)
    ]

    listed-AnyNames :
        (values : List (List ℕ)) → listed (parse_allowed_clients values) ≡ true → AnyNames ip values
    unfolding parse_allowed_clients add_client add_network any_equal any_contains
    listed-AnyNames [] h = absurd (cc)
    listed-AnyNames (v ∷ values) h =
        let rest = parse_allowed_clients values in
        let value = net.trim_space v in
        elim (Bool-cases (bytes_eq value [])) [
          | inl blank ↦ inr (
              listed-AnyNames values (
                sym (
                  ap (λ b. listed (if b then rest else add_client value (net.parse_ip value) rest))
                    blank)
                ∙ h))
          | inr text ↦
              let h1 : listed (add_client value (net.parse_ip value) rest) ≡ true =
                sym (
                  ap (λ b. listed (if b then rest else add_client value (net.parse_ip value) rest))
                    text)
                ∙ h in
              elim (Option-cases (net.parse_ip value)) [
                | inr (a, e) ↦
                    elim (listed-address a rest
                      (sym (ap (λ o. listed (add_client value o rest)) e) ∙ h1)) [
                        | inl same ↦ inl (text, inl (a, e, same))
                        | inr others ↦ inr (listed-AnyNames values others)
                      ]
                | inl e ↦
                    let h2 : listed (add_network (net.parse_cidr value) rest) ≡ true =
                      sym (ap (λ o. listed (add_client value o rest)) e) ∙ h1 in
                    elim (Option-cases (net.parse_cidr value)) [
                      | inl none_either ↦ inr (
                          listed-AnyNames values
                            (sym (ap (λ o. listed (add_network o rest)) none_either) ∙ h2))
                      | inr (n, e') ↦
                          elim (listed-network n rest
                            (sym (ap (λ o. listed (add_network o rest)) e') ∙ h2)) [
                              | inl inside ↦ inl (text, inr (n, e, e', inside))
                              | inr others ↦ inr (listed-AnyNames values others)
                            ]
                    ]
              ]
        ]

    -- Once a value of AllowedClients has been read as an address or a network, clientIPAllowed lets in only
    -- addresses that a value of the list names: it is read as an equal address, or as no address but a
    -- network that contains it.
    pub client_ip_allowed-AnyNames :
        (values : List (List ℕ))
        → (length (parse_allowed_clients values).0 == 0
            && length (parse_allowed_clients values).1 == 0)
          ≡ false
        → client_ip_allowed (parse_allowed_clients values) ip ≡ true
        → AnyNames ip values
    unfolding client_ip_allowed
    client_ip_allowed-AnyNames values some_client h = listed-AnyNames values (ground arith)
