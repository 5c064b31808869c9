-- ===== src/Tcpstream/Frame.antt =====
-- internal/tcpstream/frame.go: the preface that opens a connection and the frames that follow it.
-- A byte is a number below 256, a stream id the list of its 16 bytes; the buffer pools are left out.
pub mod Preface
pub mod Codec
pub mod Accepted
pub mod Tests
use engarde.Shared.{
  ℕ, ◌+◌, ◌-◌, ◌*◌, ◌^◌, ◌<◌, ◌≤◌, ◌≡◌, List, [], ◌∷◌, ◌++◌, Bool, true, false, not, ◌&&◌, ◌||◌,
  ltb, ◌==◌, ◌!=◌, if◌then◌else◌, length, take, drop, replicate, bytes_eq, All, get_or,
}
use engarde.Wire.{
  Result, ok, err, Io, ◌>>=◌, ◌>>◌, return, lift, guard, read_full, write_full, invalid_frame,
  payload_length,
}
use engarde.Wire.BigEndian.{put, get}
use engarde.Tcpstream.Destination.{Netip, Destination, decode_destination}

abbrev pub header_size : ℕ
header_size = 32

abbrev pub max_payload_size : ℕ
max_payload_size = 64 * 1024

-- FrameType: any byte can arrive, these are the known ones.
abbrev pub frame_open : ℕ
frame_open = 1

abbrev pub frame_data : ℕ
frame_data = 2

abbrev pub frame_fin : ℕ
frame_fin = 3

abbrev pub frame_rst : ℕ
frame_rst = 4

abbrev pub frame_ack : ℕ
frame_ack = 5

abbrev pub frame_open_result : ℕ
frame_open_result = 6

abbrev pub open_result_policy_denied : ℕ
open_result_policy_denied = 6

abbrev pub client_to_server : ℕ
client_to_server = 0

abbrev pub server_to_client : ℕ
server_to_client = 1

pub record Frame : Type 0 where
  pub type_code : ℕ
  pub direction : ℕ
  pub stream_id : List ℕ
  pub offset : ℕ
  pub payload : List ℕ

-- `frame.StreamID == (StreamID{})`.
unfoldable pub is_zero_id : List ℕ → Bool
is_zero_id id = bytes_eq id (replicate 16 0)

-- `return ErrInvalidFrame` under a test, and nil otherwise.
abbrev pub refuse : Bool → Result (Unit {0})
refuse true = err invalid_frame
refuse false = ok tt

-- The 32 header bytes of `f`: the length field is `uint32(len(frame.Payload))`.
pub header_bytes : Frame → List ℕ
header_bytes f =
    f.type_code ∷ f.direction ∷ put 2 header_size
    ++ put 4 (length f.payload)
    ++ f.stream_id
    ++ put 8 f.offset

-- `if maxPayload == 0 || maxPayload > MaxPayloadSize { maxPayload = MaxPayloadSize }`.
pub payload_limit : ℕ → ℕ
payload_limit max = if max == 0 || ltb max_payload_size max then max_payload_size else max

-- The frame that a header and a payload make.
unfoldable pub assemble : List ℕ → List ℕ → Frame
assemble header payload = record {
  type_code = get_or header 0 0;
  direction = get_or header 1 0;
  stream_id = take 16 (drop 8 header);
  offset = get (take 8 (drop 24 header));
  payload = payload;
}

read_payload : ℕ → Io (List ℕ)
read_payload n c = if n == 0 then return [] c else read_full n c

first_byte : List ℕ → ℕ
first_byte p = get_or p 0 0

validate_destination : Result Destination → Result (Unit {0})
validate_destination (ok d) = ok tt
validate_destination (err e) = err invalid_frame

module _ (net : Netip) where
  validate_open : Frame → Result (Unit {0})
  unfolding is_zero_id validate_destination
  validate_open f =
      if f.direction != client_to_server || f.offset != 0
      then err invalid_frame
      else if is_zero_id f.stream_id
      then err invalid_frame
      else validate_destination (decode_destination net f.payload)

  -- The arms of the switch, each with its own test.
  validate_type : Frame → Result (Unit {0})
  unfolding validate_open first_byte
  validate_type f =
      if f.type_code == frame_open
      then validate_open f
      else if f.type_code == frame_data
      then refuse (length f.payload == 0 || ltb (2 ^ 64 - 1 - length f.payload) f.offset)
      else if f.type_code == frame_fin
      then refuse (length f.payload != 0)
      else if f.type_code == frame_rst
      then refuse (length f.payload != 2)
      else if f.type_code == frame_ack
      then refuse (length f.payload != 1 || ltb 1 (first_byte f.payload))
      else if f.type_code == frame_open_result
      then refuse (
          f.direction != server_to_client
          || f.offset != 0
          || is_zero_id f.stream_id
          || length f.payload != 1
          || ltb open_result_policy_denied (first_byte f.payload))
      else err invalid_frame

  pub validate_frame : Frame → Result (Unit {0})
  unfolding validate_type
  validate_frame f =
      if f.direction != client_to_server && f.direction != server_to_client
      then err invalid_frame
      else if ltb max_payload_size (length f.payload)
      then err payload_length
      else validate_type f

  pub write_frame : Frame → Io (Unit {0})
  unfolding header_bytes
  write_frame f = do lift (validate_frame f); write_full (header_bytes f ++ f.payload)

  accept_frame : List ℕ → List ℕ → Io Frame
  unfolding assemble
  accept_frame header payload = do
    lift (validate_frame (assemble header payload))
    return (assemble header payload)

  read_body : ℕ → List ℕ → Io Frame
  unfolding payload_limit read_payload accept_frame
  read_body max header = do
    guard (get (take 2 (drop 2 header)) != header_size) invalid_frame
    guard (ltb (payload_limit max) (get (take 4 (drop 4 header)))) payload_length
    payload ← read_payload (get (take 4 (drop 4 header)))
    accept_frame header payload

  pub read_frame : ℕ → Io Frame
  unfolding read_body
  read_frame max = do header ← read_full header_size; read_body max header
