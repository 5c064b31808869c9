-- ===== src/Tcpstream/Frame/Preface.antt =====
-- internal/tcpstream/frame.go: the 16-byte preface that both sides send first.
use engarde.Shared.{
  ℕ, ◌*◌, ◌<◌, ◌≤◌, ◌≡◌, refl, sym, ap, ◌∙◌, List, ◌∷◌, ◌++◌, ◌||◌, ltb, ◌==◌, ◌!=◌, if◌then◌else◌,
  length, take, drop, replicate, get_or, arith,
}
use Prim.Native.Nat.{bit_and}
use engarde.Wire.{
  Result, ok, err, Conn, done, Io, ◌>>=◌, return, throw, read_full, write_full, invalid_preface,
}
use engarde.Wire.BigEndian.{put, get, get-put_u32}
use engarde.Wire.Writes.{read_full_done}
use engarde.Wire.Runs.{write_full-input, >>=-done, >>=-eq-done, read_full-eq-done}

abbrev pub magic : ℕ
magic = 0x45475443

abbrev pub current_version : ℕ
current_version = 4

abbrev pub preface_size : ℕ
preface_size = 16

abbrev pub max_payload_bound : ℕ
max_payload_bound = 64 * 1024

-- `^prefaceKnownFlags` on a uint8.
abbrev pub unknown_flags : ℕ
unknown_flags = 0xfe

pub record Preface : Type 0 where
  pub version : ℕ
  pub flags : ℕ
  pub max_payload : ℕ

-- `version == 0` and `maxPayload == 0` stand for the defaults.
unfoldable pub with_defaults : Preface → Preface
with_defaults p = record {
  version = if p.version == 0 then current_version else p.version;
  flags = p.flags;
  max_payload = if p.max_payload == 0 then max_payload_bound else p.max_payload;
}

unfoldable pub preface_bytes : Preface → List ℕ
preface_bytes p =
    put 4 magic
    ++ (p.version ∷ p.flags ∷ put 2 preface_size ++ put 4 p.max_payload ++ replicate 4 0)

check_preface : Preface → Result (List ℕ × Preface)
unfolding preface_bytes
check_preface p =
    if p.version != current_version
    then err invalid_preface
    else if bit_and p.flags unknown_flags != 0
    then err invalid_preface
    else if ltb max_payload_bound p.max_payload
    then err invalid_preface
    else ok (preface_bytes p, p)

unfoldable pub marshal_preface : Preface → Result (List ℕ × Preface)
unfolding with_defaults check_preface
marshal_preface p = check_preface (with_defaults p)

send_marshalled : Result (List ℕ × Preface) → Io (Unit {0})
send_marshalled (ok (bytes, p)) = write_full bytes
send_marshalled (err e) = throw e

unfoldable pub write_preface : Preface → Io (Unit {0})
unfolding send_marshalled marshal_preface
write_preface p = send_marshalled (marshal_preface p)

parse_preface : List ℕ → Io Preface
parse_preface buffer =
    let version = get_or buffer 4 0 in
    let max_payload = get (take 4 (drop 8 buffer)) in
    let flags = get_or buffer 5 0 in
    if get (take 4 buffer) != magic
      || version != current_version
      || bit_and flags unknown_flags != 0
      || get (take 2 (drop 6 buffer)) != preface_size
      || max_payload == 0
      || ltb max_payload_bound max_payload
      || get (take 4 (drop 12 buffer)) != 0
    then throw invalid_preface
    else return (record { version = version; flags = flags; max_payload = max_payload })

unfoldable pub read_preface : Io Preface
unfolding parse_preface
read_preface = do buffer ← read_full preface_size; parse_preface buffer

-- What both ends hold of a preface after the exchange.
pub record IsPreface (p : Preface) : Type 0 where
  pub is_current : p.version ≡ current_version
  pub known_flags : bit_and p.flags unknown_flags ≡ 0
  pub some_payload : 0 < p.max_payload
  pub payload_bound : p.max_payload ≤ max_payload_bound

pub marshal_preface-IsPreface :
    (p q : Preface) (bytes : List ℕ)
    → marshal_preface p ≡ ok (bytes, q)
    → IsPreface q × (bytes ≡ preface_bytes q) × (q ≡ with_defaults p)
unfolding marshal_preface with_defaults
marshal_preface-IsPreface p q bytes h = ground arith

pub length-preface_bytes : (p : Preface) → length (preface_bytes p) ≡ preface_size
unfolding preface_bytes
length-preface_bytes p = refl

parse_preface-bytes :
    (q : Preface) (c : Conn) → IsPreface q → parse_preface (preface_bytes q) c ≡ done q c
unfolding parse_preface preface_bytes
parse_preface-bytes q c v =
    ground (arith, get-put_u32 q.max_payload (omega (arith, v.payload_bound)))

read-preface_bytes :
    (q : Preface) (rest : List ℕ) (c : Conn)
    → IsPreface q
    → c.input ≡ preface_bytes q ++ rest
    → read_preface c ≡ done q (record c { input = rest })
unfolding read_preface
read-preface_bytes q rest c v e =
    >>=-done (read_full preface_size) parse_preface c
      (read_full_done preface_size (preface_bytes q) rest c (length-preface_bytes q) e)
    ∙ parse_preface-bytes q (record c { input = rest }) v

-- What 16 bytes say of the end that sent them.
abbrev pub decoded : List ℕ → Preface
decoded hello = record {
  version = get_or hello 4 0;
  flags = get_or hello 5 0;
  max_payload = get (take 4 (drop 8 hello));
}

-- Bytes that a preface may consist of.
abbrev pub IsHello : List ℕ → Type 0
IsHello hello =
    (length hello ≡ preface_size)
    × (get (take 4 hello) ≡ magic)
    × (get (take 2 (drop 6 hello)) ≡ preface_size)
    × (get (take 4 (drop 12 hello)) ≡ 0)
    × IsPreface (decoded hello)

parse_preface-IsPreface :
    (buffer : List ℕ) (c : Conn) {p : Preface} {c' : Conn}
    → length buffer ≡ preface_size
    → parse_preface buffer c ≡ done p c'
    → IsHello buffer × (p ≡ decoded buffer) × (c' ≡ c)
unfolding parse_preface
parse_preface-IsPreface buffer c size h =
    ((size, ground arith, ground arith, ground arith, ground arith), ground arith, ground arith)

-- A preface that can be marshalled is read back by the other end with its defaults filled in, and
-- the bytes that follow it stay in the input.
pub read-marshal :
    (p q : Preface) (bytes rest : List ℕ) (c : Conn)
    → marshal_preface p ≡ ok (bytes, q)
    → c.input ≡ bytes ++ rest
    → (read_preface c ≡ done q (record c { input = rest })) × (q ≡ with_defaults p)
read-marshal p q bytes rest c h e =
    let (valid, layout, filled) = marshal_preface-IsPreface p q bytes h in
    (read-preface_bytes q rest c valid (e ∙ ap (λ t. t ++ rest) layout), filled)

-- A preface that is accepted is what the first 16 bytes of the input say: they begin with the magic
-- number, and have the current version, no unknown flag and a payload limit between 1 and 65536.
pub read_preface-IsHello :
    (c : Conn) (p : Preface) (c' : Conn)
    → read_preface c ≡ done p c'
    → (hello : List ℕ) × IsHello hello × (p ≡ decoded hello) × (c.input ≡ hello ++ c'.input)
unfolding read_preface
read_preface-IsHello c p c' h =
    let (buffer, d, taken, last) = >>=-eq-done (read_full preface_size) parse_preface c h in
    let (input, size, _) = read_full-eq-done preface_size c taken in
    let (valid, says, rest) = parse_preface-IsPreface buffer d size last in
    (buffer, valid, says, input ∙ ap (λ (t : Conn). buffer ++ t.input) (sym rest))

send_marshalled-input :
    (m : Result (List ℕ × Preface)) (c : Conn) {u : Unit {0}} {c' : Conn}
    → send_marshalled m c ≡ done u c'
    → c'.input ≡ c.input
unfolding send_marshalled
send_marshalled-input (ok (bytes, p)) c h = write_full-input bytes c h
send_marshalled-input (err e) c h = absurd (cc)

pub write_preface-input :
    (p : Preface) (c : Conn) {u : Unit {0}} {c' : Conn}
    → write_preface p c ≡ done u c'
    → c'.input ≡ c.input
unfolding write_preface
write_preface-input p c h = send_marshalled-input (marshal_preface p) c h
