-- ===== src/Tcpstream/Frame/Tests.antt =====
-- The theorems about frames and prefaces at an exchange of a preface and a data frame.
use engarde.Shared.{
  ℕ, ◌≡◌, refl, List, [], ◌∷◌, ◌++◌, none, arith, ◌≤◌, length, replicate, take, drop,
}
use engarde.Wire.{Conn, closed, ok, done}
use engarde.Wire.BigEndian.{get}
use engarde.Tcpstream.Destination.{Netip}
use engarde.Tcpstream.Frame.{
  Frame, frame_data, client_to_server, validate_frame, write_frame, read_frame, payload_limit,
  header_bytes, header_size, max_payload_size, assemble,
}
use engarde.Tcpstream.Frame.Preface.{
  Preface, marshal_preface, preface_bytes, with_defaults, read_preface, read-marshal,
}
use engarde.Tcpstream.Frame.Codec.{IsFrame, read-header_bytes, read_frame-write_frame}
use engarde.Tcpstream.Frame.Accepted.{read_frame_accepts}

-- A data frame holds no address.
abbrev no_addresses : Netip
no_addresses = record { parse_addr = λ h. none; addr_string = λ a. [] }

abbrev hello : Frame
hello = record {
  type_code = frame_data;
  direction = client_to_server;
  stream_id = replicate 16 7;
  offset = 513;
  payload = 104 ∷ 105 ∷ [];
}

hello_valid : validate_frame no_addresses hello ≡ ok tt
unfolding validate_frame
hello_valid = refl

hello-IsFrame : IsFrame hello
hello-IsFrame = record { id_size = refl; offset_range = omega arith; payload_range = omega arith }

abbrev quiet_conn : Conn
quiet_conn = record { input = []; at_end = closed; output = []; writes = []; deadlines = [] }

hello_fits : length hello.payload ≤ payload_limit 4
unfolding payload_limit
hello_fits = omega arith

read_frame-write_frame_example :
    (sent : Conn) × (write_frame no_addresses hello quiet_conn ≡ done tt sent)
    × (read_frame no_addresses 4 (record quiet_conn { input = sent.output ++ (1 ∷ []) })
        ≡ done hello (record quiet_conn { input = 1 ∷ [] }))
read_frame-write_frame_example =
    read_frame-write_frame no_addresses hello 4 (1 ∷ []) quiet_conn quiet_conn hello-IsFrame
      hello_valid hello_fits refl refl

abbrev received : Conn
received = record quiet_conn { input = header_bytes hello ++ (hello.payload ++ (1 ∷ [])) }

received-hello :
    read_frame no_addresses 4 received ≡ done hello (record received { input = 1 ∷ [] })
received-hello =
    read-header_bytes no_addresses hello 4 (1 ∷ []) received hello-IsFrame hello_valid hello_fits
      refl

read_frame_accepts_example :
    (validate_frame no_addresses hello ≡ ok tt)
    × (length hello.payload ≤ payload_limit 4)
    × (length hello.payload ≤ max_payload_size)
    × (header : List ℕ) × (length header ≡ header_size)
    × (hello ≡ assemble header hello.payload)
    × (get (take 4 (drop 4 header)) ≡ length hello.payload)
    × (received.input ≡ header ++ (hello.payload ++ (1 ∷ [])))
read_frame_accepts_example =
    read_frame_accepts no_addresses 4 received hello (record received { input = 1 ∷ [] })
      received-hello

-- Without a version and a limit: both are filled in.
abbrev plain : Preface
plain = record { version = 0; flags = 0; max_payload = 0 }

plain_marshalled :
    marshal_preface plain ≡ ok (preface_bytes (with_defaults plain), with_defaults plain)
unfolding marshal_preface with_defaults
plain_marshalled = refl

abbrev greeted : Conn
greeted = record quiet_conn { input = preface_bytes (with_defaults plain) ++ (1 ∷ []) }

read-marshal_example :
    (read_preface greeted ≡ done (with_defaults plain) (record greeted { input = 1 ∷ [] }))
    × (with_defaults plain ≡ with_defaults plain)
read-marshal_example =
    read-marshal plain (with_defaults plain) (preface_bytes (with_defaults plain)) (1 ∷ []) greeted
      plain_marshalled refl
