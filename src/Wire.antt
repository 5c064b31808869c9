-- ===== src/Wire.antt =====
-- What the code uses of Go's encoding/binary and io over a net.Conn: big-endian numbers, io.ReadFull,
-- and the writeFull loops of internal/tcpstream/frame.go and internal/socks5/socks5.go.
pub mod BigEndian
pub mod Writes
pub mod Runs
pub mod Tests
use engarde.Shared.{
  ℕ, zero, suc, List, [], ◌∷◌, ◌++◌, Bool, true, false, ltb, Option, none, some, if◌then◌else◌,
  length, take, drop,
}

-- The errors of the modelled packages, Go's wrapped details left out.
pub data Error : Type 0 where
  eof unexpected_eof read_failed write_failed short_write deadline_failed : Error
  invalid_preface invalid_frame payload_length invalid_destination : Error
  invalid_peer_auth peer_authentication_failed : Error
  peer_authentication_required peer_authentication_downgrade : Error
  invalid_request invalid_reply no_acceptable_method authentication_failed : Error
  command_not_supported random_failed : Error
  reorder_window overlap_mismatch invalid_fin segment_limit : Error
  no_carriers net_closed maximum_carriers endpoint_failed : Error
  both_roles other_role_present no_role invalid_setting unsafe_frontend open_server : Error
  invalid_mux_config mux_failed : Error
  -- OpenError, with its Result.
  open_rejected : ℕ → Error

pub data Result {ℓ} (A : Type ℓ) : Type ℓ where
  ok : A → Result A
  err : Error → Result A

-- What one call of Write does: takes at most `n` bytes, and reports an error or not.
pub data WriteOutcome : Type 0 where
  accepts fails : ℕ → WriteOutcome

-- How a read ends when the peer's bytes are used up.
pub data ReadEnd : Type 0 where
  closed broken : ReadEnd

-- A connection: the bytes still to be read, the bytes written, and what the environment will answer.
-- A write with no outcome left takes all it is given; a deadline call with none left succeeds.
pub record Conn : Type 0 where
  pub input : List ℕ
  pub at_end : ReadEnd
  pub output : List ℕ
  pub writes : List WriteOutcome
  pub deadlines : List Bool

pub data Outcome {ℓ} (A : Type ℓ) : Type ℓ where
  done : A → Conn → Outcome A
  fail : Error → Conn → Outcome A

abbrev pub Io {ℓ} : Type ℓ → Type ℓ
Io A = Conn → Outcome A

infixl 5 ◌>>=◌ ◌>>◌
abbrev pub ◌>>=◌ {ℓ κ} : {A : Type ℓ} {B : Type κ} → Io A → (A → Io B) → Io B
◌>>=◌ m f c = elim (m c) [ done a c' ↦ f a c' | fail e c' ↦ fail e c' ]

abbrev pub ◌>>◌ {ℓ κ} : {A : Type ℓ} {B : Type κ} → Io A → Io B → Io B
◌>>◌ m k c = elim (m c) [ done a c' ↦ k c' | fail e c' ↦ fail e c' ]

abbrev pub return {ℓ} : {A : Type ℓ} → A → Io A
return a c = done a c

abbrev pub throw {ℓ} : {A : Type ℓ} → Error → Io A
throw e c = fail e c

abbrev pub lift {ℓ} : {A : Type ℓ} → Result A → Io A
lift (ok a) c = done a c
lift (err e) c = fail e c

-- `_ = m()`: the error is dropped.
abbrev pub ignore {ℓ} : {A : Type ℓ} → Io A → Io (Unit {0})
ignore m c = elim (m c) [ done a c' ↦ done tt c' | fail e c' ↦ done tt c' ]

-- `if test { return e }`.
abbrev pub guard : Bool → Error → Io (Unit {0})
guard true e c = fail e c
guard false e c = done tt c

read_end_error : ReadEnd → ℕ → Error
read_end_error closed zero = eof
read_end_error closed (suc n) = unexpected_eof
read_end_error broken n = read_failed

-- io.ReadFull into a buffer of `n` bytes.
unfoldable pub read_full : ℕ → Io (List ℕ)
unfolding read_end_error
read_full n c =
    if ltb (length c.input) n
    then fail (read_end_error c.at_end (length c.input)) (record c { input = [] })
    else done (take n c.input) (record c { input = drop n c.input })

-- `for len(payload) > 0 { written, err := writer.Write(payload) … }`, along the outcomes.
write_loop : List WriteOutcome → List ℕ → List ℕ → Option Error × List ℕ × List WriteOutcome
write_loop ws [] out = (none, out, ws)
write_loop [] (b ∷ bs) out = (none, out ++ (b ∷ bs), [])
write_loop (accepts zero ∷ ws) (b ∷ bs) out = (some short_write, out, ws)
write_loop (accepts (suc n) ∷ ws) (b ∷ bs) out = write_loop ws (drop n bs) (out ++ (b ∷ take n bs))
write_loop (fails n ∷ ws) (b ∷ bs) out = (some write_failed, out ++ take n (b ∷ bs), ws)

use_written : Conn → Option Error × List ℕ × List WriteOutcome → Outcome (Unit {0})
use_written c (none, out, ws) = done tt (record c { output = out; writes = ws })
use_written c (some e, out, ws) = fail e (record c { output = out; writes = ws })

unfoldable pub write_full : List ℕ → Io (Unit {0})
unfolding write_loop use_written
write_full payload c = use_written c (write_loop c.writes payload c.output)

pop_deadline : List Bool → Conn → Outcome (Unit {0})
pop_deadline [] c = done tt c
pop_deadline (true ∷ ds) c = done tt (record c { deadlines = ds })
pop_deadline (false ∷ ds) c = fail deadline_failed (record c { deadlines = ds })

-- conn.SetDeadline and conn.SetWriteDeadline.
unfoldable pub set_deadline : Io (Unit {0})
unfolding pop_deadline
set_deadline c = pop_deadline c.deadlines c
