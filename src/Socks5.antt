-- ===== src/Socks5.antt =====
-- internal/socks5/socks5.go: the front end's handshake. The parameters are `net` for net/netip, `hash`
-- for sha256.Sum256 and `ip_text` for net.IP.String; `timed` says that the timeout is positive.
pub mod Login
pub mod Handshake
pub mod Tests
use engarde.Shared.{
  ℕ, ◌+◌, ◌*◌, List, [], ◌∷◌, Bool, true, false, not, ◌&&◌, ◌||◌, Option, none, some, ltb, leb,
  ◌==◌, ◌!=◌, if◌then◌else◌, length, get_or, bytes_eq, replicate, ◌++◌,
}
use engarde.Wire.{
  Error, Result, ok, err, Io, ◌>>=◌, ◌>>◌, return, throw, ignore, guard, lift, read_full,
  write_full, set_deadline, Outcome, done, fail, Conn, invalid_request, invalid_reply,
  no_acceptable_method, authentication_failed, command_not_supported,
}
use engarde.Tcpstream.Destination.{Netip, Destination, new_destination}

abbrev pub version5 : ℕ
version5 = 0x05

abbrev pub method_no_auth : ℕ
method_no_auth = 0x00

abbrev pub method_username_password : ℕ
method_username_password = 0x02

abbrev pub method_unavailable : ℕ
method_unavailable = 0xff

abbrev pub auth_version : ℕ
auth_version = 0x01

abbrev pub auth_succeeded : ℕ
auth_succeeded = 0x00

abbrev pub auth_failed : ℕ
auth_failed = 0x01

abbrev pub command_connect : ℕ
command_connect = 0x01

abbrev pub address_ipv4 : ℕ
address_ipv4 = 0x01

abbrev pub address_domain : ℕ
address_domain = 0x03

abbrev pub address_ipv6 : ℕ
address_ipv6 = 0x04

abbrev pub reply_general_failure : ℕ
reply_general_failure = 1

abbrev pub reply_command_not_supported : ℕ
reply_command_not_supported = 7

abbrev pub reply_address_not_supported : ℕ
reply_address_not_supported = 8

pub record Credentials : Type 0 where
  pub username : List ℕ
  pub password : List ℕ

unfoldable pub valid_credentials : Credentials → Bool
valid_credentials c =
    ltb 0 (length c.username)
    && leb (length c.username) 255
    && ltb 0 (length c.password)
    && leb (length c.password) 255

abbrev pub reply_bytes : ℕ → List ℕ
reply_bytes reply = version5 ∷ reply ∷ 0 ∷ address_ipv4 ∷ replicate 6 0

-- The deferred reset of the deadline: its error counts if there is no other.
clear_deadline : Outcome (Unit {0}) → Outcome (Unit {0})
clear_deadline (done u c) = set_deadline c
clear_deadline (fail e c) = elim (set_deadline c) [ done u c' ↦ fail e c' | fail e' c' ↦ fail e c' ]

send_reply : ℕ → Io (Unit {0})
unfolding clear_deadline
send_reply reply c = clear_deadline (write_full (reply_bytes reply) c)

unfoldable pub write_reply : ℕ → Bool → Io (Unit {0})
unfolding send_reply
write_reply reply timed =
    if ltb reply_address_not_supported reply
    then throw invalid_reply
    else if timed
    then (do set_deadline; send_reply reply)
    else write_full (reply_bytes reply)

-- `_ = WriteReply(conn, reply, 0); return e`.
unfoldable pub reject {ℓ} : {A : Type ℓ} → ℕ → Error → Io A
unfolding write_reply
reject reply e = do ignore (write_reply reply false); throw e

unfoldable pub refuse_login : Io (Unit {0})
refuse_login = do ignore (write_full (auth_version ∷ auth_failed ∷ [])); throw authentication_failed

-- ReplyForError of an OpenError's result; any other error gives ReplyGeneralFailure.
unfoldable pub reply_for_error : Option ℕ → ℕ
reply_for_error none = reply_general_failure
reply_for_error (some result) =
    if result == 2
    then 5
    else if result == 3
    then 3
    else if result == 4
    then 4
    else if result == 5
    then 6
    else if result == 6
    then 2
    else reply_general_failure

module _ (hash : List ℕ → List ℕ) where
  unfoldable pub constant_time_equal : List ℕ → List ℕ → Bool
  constant_time_equal actual expected = bytes_eq (hash actual) (hash expected)

  unfoldable pub decide_login : Credentials → List ℕ → List ℕ → Io (Unit {0})
  unfolding constant_time_equal refuse_login
  decide_login c username password =
      if constant_time_equal username c.username && constant_time_equal password c.password
      then write_full (auth_version ∷ auth_succeeded ∷ [])
      else refuse_login

  unfoldable pub read_password : Credentials → List ℕ → List ℕ → Io (Unit {0})
  unfolding decide_login refuse_login
  read_password c username size =
      if get_or size 0 0 == 0
      then refuse_login
      else do password ← read_full (get_or size 0 0); decide_login c username password

  unfoldable pub read_username : Credentials → List ℕ → Io (Unit {0})
  unfolding read_password refuse_login
  read_username c header =
      if get_or header 0 0 != auth_version || get_or header 1 0 == 0 then refuse_login else do
        username ← read_full (get_or header 1 0)
        size ← read_full 1
        read_password c username size

  unfoldable pub authenticate : Credentials → Io (Unit {0})
  unfolding read_username
  authenticate c = do header ← read_full 2; read_username c header

pub offers : ℕ → List ℕ → Bool
offers method [] = false
offers method (m ∷ ms) = m == method || offers method ms

-- readHost; `none` is its ErrInvalidRequest.
module _ (ip_text : List ℕ → List ℕ) where
  read_ip : ℕ → Io (Option (List ℕ))
  read_ip size = do value ← read_full size; return (some (ip_text value))

  read_domain : List ℕ → Io (Option (List ℕ))
  read_domain size =
      if get_or size 0 0 == 0
      then return none
      else do value ← read_full (get_or size 0 0); return (some value)

  unfoldable pub read_host : ℕ → Io (Option (List ℕ))
  unfolding read_ip read_domain
  read_host address_type =
      if address_type == address_ipv4
      then read_ip 4
      else if address_type == address_ipv6
      then read_ip 16
      else if address_type == address_domain
      then (do size ← read_full 1; read_domain size)
      else return none

module _ (net : Netip) (hash ip_text : List ℕ → List ℕ) where
  finish_connect : Bool → Result Destination → Io Destination
  unfolding reject
  finish_connect timed (err e) = reject reply_general_failure invalid_request
  finish_connect timed (ok d) = if timed then (do set_deadline; return d) else return d

  read_port : Bool → Option (List ℕ) → Io Destination
  unfolding reject finish_connect
  read_port timed none = reject reply_general_failure invalid_request
  read_port timed (some host) = do
    port ← read_full 2
    finish_connect timed (new_destination net host (get_or port 0 0 * 256 + get_or port 1 0))

  -- The request behind its four header bytes.
  unfoldable pub read_request : Bool → List ℕ → Io Destination
  unfolding reject read_host read_port
  read_request timed header =
      let kind = get_or header 3 0 in
      if get_or header 0 0 != version5 || get_or header 2 0 != 0
      then reject reply_general_failure invalid_request
      else if get_or header 1 0 != command_connect
      then reject reply_command_not_supported command_not_supported
      else if kind != address_ipv4 && kind != address_ipv6 && kind != address_domain
      then reject reply_address_not_supported invalid_request
      else do host ← read_host ip_text kind; read_port timed host

  unfoldable pub login : Option Credentials → Io (Unit {0})
  unfolding authenticate
  login none = return tt
  login (some c) = authenticate hash c

  unfoldable pub required_method : Option Credentials → ℕ
  required_method none = method_no_auth
  required_method (some c) = method_username_password

  pub misconfigured : Option Credentials → Bool
  unfolding valid_credentials
  misconfigured none = false
  misconfigured (some c) = not (valid_credentials c)

  pub refuse_methods : Io Destination
  refuse_methods = do
    ignore (write_full (version5 ∷ method_unavailable ∷ []))
    throw no_acceptable_method

  unfoldable pub choose_method : Bool → Option Credentials → List ℕ → Io Destination
  unfolding misconfigured required_method offers refuse_methods login read_request
  choose_method timed credentials methods =
      if misconfigured credentials
      then throw authentication_failed
      else if not (offers (required_method credentials) methods)
      then refuse_methods
      else do
        write_full (version5 ∷ required_method credentials ∷ [])
        login credentials
        header ← read_full 4
        read_request timed header

  unfoldable pub read_greeting : Bool → Option Credentials → List ℕ → Io Destination
  unfolding choose_method
  read_greeting timed credentials greeting =
      if get_or greeting 0 0 != version5 || get_or greeting 1 0 == 0
      then throw invalid_request
      else do methods ← read_full (get_or greeting 1 0); choose_method timed credentials methods

  unfoldable pub read_connect_with_auth : Bool → Option Credentials → Io Destination
  unfolding read_greeting
  read_connect_with_auth timed credentials =
      if timed
      then (do set_deadline; greeting ← read_full 2; read_greeting timed credentials greeting)
      else (do greeting ← read_full 2; read_greeting timed credentials greeting)

  unfoldable pub read_connect : Bool → Io Destination
  unfolding read_connect_with_auth
  read_connect timed = read_connect_with_auth timed none
