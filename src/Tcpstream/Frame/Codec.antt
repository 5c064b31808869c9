-- ===== src/Tcpstream/Frame/Codec.antt =====
-- internal/tcpstream/frame.go: WriteFrame and ReadFrame against each other.
use engarde.Shared.{
  ℕ, suc, ◌^◌, ◌<◌, ◌≤◌, ◌≡◌, refl, ap, ◌∙◌, List, [], ◌∷◌, ◌++◌, arith, length, take, drop,
  take-append, drop-append, length-append,
}
use mathlib.Core.List.{append_assoc}
use engarde.Wire.{ok, Conn, done}
use engarde.Wire.BigEndian.{put, get, get-put_u32, get-put_u64}
use engarde.Wire.Writes.{read_full_done, write_full_free}
use engarde.Tcpstream.Destination.{Netip}
use engarde.Tcpstream.Frame.{
  Frame, header_size, header_bytes, payload_limit, assemble, validate_frame, write_frame,
  read_frame, read_payload,
}

-- The ranges of the Go types: a 16-byte id, a uint64 offset; the payload fits one frame.
pub record IsFrame (f : Frame) : Type 0 where
  pub id_size : length f.stream_id ≡ 16
  pub offset_range : f.offset < 2 ^ 64
  pub payload_range : length f.payload < 2 ^ 32

module _ (f : Frame) (v : IsFrame f) where
  length-header : length (header_bytes f) ≡ header_size
  unfolding header_bytes
  length-header = omega (arith, v.id_size, length-append f.stream_id (put 8 f.offset))

  header_length_field : get (take 4 (drop 4 (header_bytes f))) ≡ length f.payload
  unfolding header_bytes
  header_length_field = get-put_u32 (length f.payload) v.payload_range

  header_size_field : get (take 2 (drop 2 (header_bytes f))) ≡ header_size
  unfolding header_bytes
  header_size_field = refl

  header_id : take 16 (drop 8 (header_bytes f)) ≡ f.stream_id
  unfolding header_bytes
  header_id = take-append 16 f.stream_id (put 8 f.offset) v.id_size

  header_offset : get (take 8 (drop 24 (header_bytes f))) ≡ f.offset
  unfolding header_bytes
  header_offset =
      ap (λ t. get (take 8 t)) (drop-append 16 f.stream_id (put 8 f.offset) v.id_size)
      ∙ get-put_u64 f.offset v.offset_range

  assemble-header : assemble (header_bytes f) f.payload ≡ f
  unfolding assemble header_bytes
  assemble-header = λ i. record {
    type_code = f.type_code;
    direction = f.direction;
    stream_id = header_id i;
    offset = header_offset i;
    payload = f.payload;
  }

read_payload_done :
    (p rest : List ℕ) (c : Conn)
    → c.input ≡ p ++ rest
    → read_payload (length p) c ≡ done p (record c { input = rest })
unfolding read_payload
read_payload_done [] rest c e = λ i. done [] (record c { input = e i })
read_payload_done (b ∷ bs) rest c e =
    ground (arith, read_full_done (suc (length bs)) (b ∷ bs) rest c refl e)

module _ (net : Netip) where
  -- A valid frame that fits the reader's limit is read back whole from the bytes that WriteFrame
  -- sends for it, and what follows them stays in the input.
  pub read-header_bytes :
      (f : Frame) (max : ℕ) (rest : List ℕ) (c : Conn)
      → IsFrame f
      → validate_frame net f ≡ ok tt
      → length f.payload ≤ payload_limit max
      → c.input ≡ header_bytes f ++ (f.payload ++ rest)
      → read_frame net max c ≡ done f (record c { input = rest })
  unfolding read_frame
  read-header_bytes f max rest c v valid fits e = ground (
    arith,
    read_full_done header_size (header_bytes f) (f.payload ++ rest) c (length-header f v) e,
    header_length_field f v,
    header_size_field f v,
    assemble-header f v,
    read_payload_done f.payload rest (record c { input = f.payload ++ rest }) refl,
  )

  -- What WriteFrame puts on a connection that takes everything.
  pub write_frame_free :
      (f : Frame) (c : Conn)
      → c.writes ≡ []
      → validate_frame net f ≡ ok tt
      → write_frame net f c
        ≡ done tt (record c { output = c.output ++ (header_bytes f ++ f.payload) })
  unfolding write_frame
  write_frame_free f c w valid = ground (arith, write_full_free (header_bytes f ++ f.payload) c w)

  -- A frame that WriteFrame sends is read back by ReadFrame at the other end: if the connection takes
  -- every byte and the reader gets the bytes written, followed by any others, then it returns the
  -- frame and leaves those others.
  pub read_frame-write_frame :
      (f : Frame) (max : ℕ) (rest : List ℕ) (out c : Conn)
      → IsFrame f
      → validate_frame net f ≡ ok tt
      → length f.payload ≤ payload_limit max
      → out.writes ≡ []
      → out.output ≡ []
      → (out' : Conn) × (write_frame net f out ≡ done tt out')
        × (read_frame net max (record c { input = out'.output ++ rest })
            ≡ done f (record c { input = rest }))
  read_frame-write_frame f max rest out c v valid fits w empty = (
    record out { output = out.output ++ (header_bytes f ++ f.payload) },
    write_frame_free f out w valid,
    rw empty (
        read-header_bytes f max rest (record c { input = (header_bytes f ++ f.payload) ++ rest }) v
          valid fits (append_assoc (header_bytes f) f.payload rest)),
  )
