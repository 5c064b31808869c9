-- ===== src/Tcpstream/Frame/Accepted.antt =====
-- internal/tcpstream/frame.go: what ReadFrame says of the frames that it accepts.
use engarde.Shared.{
  ℕ, ◌≤◌, ◌≡◌, sym, ap, ◌∙◌, List, [], ◌∷◌, ◌++◌, false, arith, length, take, drop, get_or, ◌==◌,
  Bool-cases, inl, inr, ◌!=◌, ltb,
}
use mathlib.Core.Path.{ap₂}
use engarde.Wire.{ok, Conn, done, read_full, write_full, invalid_frame, payload_length, return}
use engarde.Wire.BigEndian.{get}
use engarde.Wire.Runs.{
  >>=-eq-done, guard-then-eq-done, lift-then-eq-done, read_full-eq-done, write_full-input,
}
use engarde.Tcpstream.Destination.{Netip}
use engarde.Tcpstream.Frame.{
  server_to_client, is_zero_id, validate_type, first_byte, frame_open_result,
  open_result_policy_denied, Frame, header_size, max_payload_size, payload_limit, assemble,
  header_bytes, write_frame, validate_frame, read_frame, accept_frame, read_body, read_payload,
}

read_payload-eq-done :
    (n : ℕ) (c : Conn) {x : List ℕ} {c' : Conn}
    → read_payload n c ≡ done x c'
    → (c.input ≡ x ++ c'.input) × (length x ≡ n)
unfolding read_payload
read_payload-eq-done n c {x} {c'} h = elim (Bool-cases (n == 0)) [
  | inl e ↦ (ground arith, ground arith)
  | inr e ↦ let (i, l, o) = read_full-eq-done n c {x = x} {c' = c'} (ground arith) in (i, l)
]

payload_limit-le : (max : ℕ) → payload_limit max ≤ max_payload_size
unfolding payload_limit
payload_limit-le max = ground arith

module _ (net : Netip) (max : ℕ) where
  -- What is known of a frame made from a header that was read before.
  abbrev IsAccepted : List ℕ → Frame → Conn → Conn → Type 0
  IsAccepted header f c c' =
      (validate_frame net f ≡ ok tt)
      × (length f.payload ≤ payload_limit max)
      × (f ≡ assemble header f.payload)
      × (get (take 4 (drop 4 header)) ≡ length f.payload)
      × (c.input ≡ f.payload ++ c'.input)

  accept_frame-eq-done :
      (header payload : List ℕ) (c : Conn) {f : Frame} {c' : Conn}
      → accept_frame net header payload c ≡ done f c'
      → (validate_frame net f ≡ ok tt) × (f ≡ assemble header payload) × (c' ≡ c)
  unfolding accept_frame
  accept_frame-eq-done header payload c {f} {c'} h =
      let (u, valid, rest) =
        lift-then-eq-done (validate_frame net (assemble header payload))
          (return (assemble header payload)) c {b = f} {c' = c'} h in
      let same : f ≡ assemble header payload = unfold assemble in cc in (rw same valid, same, cc)

  fits_limit : (n : ℕ) → ltb (payload_limit max) n ≡ false → n ≤ payload_limit max
  fits_limit n h = ground arith

  read_body-IsAccepted :
      (header : List ℕ) (c : Conn) {f : Frame} {c' : Conn}
      → read_body net max header c ≡ done f c'
      → IsAccepted header f c c'
  unfolding read_body
  read_body-IsAccepted header c {f} {c'} h =
      let n = get (take 4 (drop 4 header)) in
      let (_, after_size) =
        guard-then-eq-done (get (take 2 (drop 2 header)) != header_size) invalid_frame _ c h in
      let (small, after_length) =
        guard-then-eq-done (ltb (payload_limit max) n) payload_length _ c after_size in
      let (p, d, taken, last) =
        >>=-eq-done (read_payload n) (accept_frame net header) c after_length in
      let (input, size) = read_payload-eq-done n c taken in
      let (valid, same, rest) = accept_frame-eq-done header p d last in
      let whole : f.payload ≡ p = unfold assemble in ap (λ (t : Frame). t.payload) same in
      (
        valid,
        omega (arith, fits_limit n small, ap length whole),
        same ∙ ap (assemble header) (sym whole),
        omega (arith, ap length whole),
        input ∙ ap₂ ◌++◌ (sym whole) (ap (λ (t : Conn). t.input) (sym rest)),
      )

  -- A frame that ReadFrame returns is valid, its payload is within the limit of the call and of the
  -- protocol, and the bytes taken are a 32-byte header with the fields of the frame, whose length
  -- field is the payload's length, and then the payload.
  pub read_frame_accepts :
      (c : Conn) (f : Frame) (c' : Conn)
      → read_frame net max c ≡ done f c'
      → (validate_frame net f ≡ ok tt)
        × (length f.payload ≤ payload_limit max)
        × (length f.payload ≤ max_payload_size)
        × (header : List ℕ) × (length header ≡ header_size)
        × (f ≡ assemble header f.payload)
        × (get (take 4 (drop 4 header)) ≡ length f.payload)
        × (c.input ≡ header ++ (f.payload ++ c'.input))
  unfolding read_frame
  read_frame_accepts c f c' h =
      let (header, d, taken, last) = >>=-eq-done (read_full header_size) (read_body net max) c h in
      let (input, size, _) = read_full-eq-done header_size c taken in
      let (valid, fits, same, field, body) = read_body-IsAccepted header d last in
      (
        valid,
        fits,
        omega (arith, fits, payload_limit-le max),
        header,
        size,
        same,
        field,
        input ∙ ap (◌++◌ header) body,
      )

-- A valid OPEN_RESULT frame carries one byte, one of the results.
pub validate_frame-result :
    (net : Netip) (f : Frame)
    → validate_frame net f ≡ ok tt
    → f.type_code ≡ frame_open_result
    → (length f.payload ≡ 1) × (get_or f.payload 0 0 ≤ open_result_policy_denied)
unfolding validate_frame validate_type first_byte
validate_frame-result net f h e = (ground arith, ground arith)

pub write_frame-input :
    (net : Netip) (f : Frame) (c : Conn) {u : Unit {0}} {c' : Conn}
    → write_frame net f c ≡ done u c'
    → c'.input ≡ c.input
unfolding write_frame
write_frame-input net f c h =
    let (_, _, sent) =
      lift-then-eq-done (validate_frame net f) (write_full (header_bytes f ++ f.payload)) c h in
    write_full-input (header_bytes f ++ f.payload) c sent

-- An answer to an OPEN frame with one of the results is valid.
pub validate_frame-answer :
    (net : Netip) (id : List ℕ) (r : ℕ)
    → is_zero_id id ≡ false
    → r ≤ open_result_policy_denied
    → validate_frame net (record {
      type_code = frame_open_result;
      direction = server_to_client;
      stream_id = id;
      offset = 0;
      payload = r ∷ [];
    })
      ≡ ok tt
unfolding validate_frame validate_type first_byte
validate_frame-answer net id r h k = ground arith

pub payload_limit-one : (max : ℕ) → 1 ≤ payload_limit max
unfolding payload_limit
payload_limit-one max = ground arith
