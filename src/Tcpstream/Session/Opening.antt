-- ===== src/Tcpstream/Session/Opening.antt =====
-- internal/tcpstream/session.go: what the ways out of OpenDestination mean.
use engarde.Shared.{
  ℕ, ◌≡◌, ◌≢◌, ◌≤◌, refl, sym, ap, ◌∙◌, List, [], ◌∷◌, Bool, not, ◌||◌, Option, none, some, length,
  get_or, take, drop, ◌++◌, bytes_eq→eq, bytes_eq_refl, bytes_eq, Bool-cases, inl, inr, arith, ◌==◌,
  ◌!=◌, if◌then◌else◌,
}
use mathlib.Core.Path.{subst}
use engarde.Wire.{
  Conn, Io, Result, Outcome, done, fail, ok, err, return, ◌>>=◌, ◌>>◌, set_deadline, open_rejected,
}
use engarde.Wire.Runs.{>>=-eq-done, >>-eq-done, set_deadline-input, set_deadline_free}
use engarde.Tcpstream.Destination.{Netip, Destination, encode}
use engarde.Tcpstream.Frame.{
  Frame, header_size, assemble, frame_open_result, open_result_policy_denied, write_frame,
  read_frame,
}
use engarde.Tcpstream.Frame.Accepted.{read_frame_accepts, validate_frame-result, write_frame-input}
use engarde.Tcpstream.Session.Handshake.{set_timeout-input}
use engarde.Tcpstream.Session.{
  Session, Leaves, all_open, stream_closed, all_closed, Answer, accepted, rejected, conclude,
  set_timeout, open_frame, accept_result, request_stream, open_encoded, open_destination,
  open_result_success,
}

-- The stream has answered with the result `r`: a frame of one byte that carries the stream's id.
pub record HasAnswered (stream_id : List ℕ) (r : ℕ) (input rest : List ℕ) : Type 0 where
  header : List ℕ
  header_length : length header ≡ header_size
  id_matches : take 16 (drop 8 header) ≡ stream_id
  layout : input ≡ header ++ (r ∷ rest)
  known : r ≤ open_result_policy_denied

one_byte : (p : List ℕ) → length p ≡ 1 → p ≡ get_or p 0 0 ∷ []
one_byte [] h = absurd (cc)
one_byte (b ∷ []) h = refl
one_byte (b ∷ d ∷ p) h = absurd (omega (arith, h))

module _ (net : Netip) (session : Session) (stream_id : List ℕ) where
  -- What an answer says of the bytes that were read for it.
  abbrev IsFaithful : Answer → List ℕ → List ℕ → Type 0
  IsFaithful (accepted n) input rest =
      (n ≡ session.max_payload) × HasAnswered stream_id open_result_success input rest
  IsFaithful (rejected r) input rest =
      (r ≢ open_result_success) × HasAnswered stream_id r input rest

  frame-HasAnswered :
      (f : Frame) (d c : Conn)
      → read_frame net session.max_payload d ≡ done f c
      → f.type_code ≡ frame_open_result
      → f.stream_id ≡ stream_id
      → HasAnswered stream_id (get_or f.payload 0 0) d.input c.input
  unfolding assemble
  frame-HasAnswered f d c taken type same =
      let (valid, _, _, header, size, fields, _, input) =
        read_frame_accepts net session.max_payload d f c taken in
      let (one, range) = validate_frame-result net f valid type in
      record {
        header = header;
        header_length = size;
        id_matches = sym (ap (λ (g : Frame). g.stream_id) fields) ∙ same;
        layout = input ∙ ap (λ p. header ++ (p ++ c.input)) (one_byte f.payload one);
        known = range;
      }

  accept_result-IsFaithful :
      (f : Frame) (d c : Conn) {a : Answer} {c' : Conn}
      → read_frame net session.max_payload d ≡ done f c
      → accept_result net session stream_id f c ≡ done a c'
      → IsFaithful a d.input c'.input
  unfolding accept_result
  accept_result-IsFaithful f d c {a} {c'} taken h =
      let wrong = f.type_code != frame_open_result || not (bytes_eq f.stream_id stream_id) in
      elim (Bool-cases wrong) [
        | inl refused ↦ absurd (ground arith)
        | inr right ↦
            let answered : HasAnswered stream_id (get_or f.payload 0 0) d.input c.input =
              frame-HasAnswered f d c taken (ground arith)
                (bytes_eq→eq f.stream_id stream_id (ground arith)) in
            elim (Bool-cases (get_or f.payload 0 0 != open_result_success)) [
              | inl bad ↦
                  let same : rejected (get_or f.payload 0 0) ≡ a = ground arith in
                  let kept : c ≡ c' = ground arith in
                  subst (λ t. IsFaithful t d.input c'.input) same
                    (subst
                      (λ (e : Conn). IsFaithful (rejected (get_or f.payload 0 0)) d.input e.input)
                      kept (λ e. ground arith, answered))
              | inr good ↦
                  let last : Io Answer = return (accepted session.max_payload) in
                  let (_, e, set, h1) =
                    >>-eq-done set_deadline last c {b = a} {c'' = c'} (ground arith) in
                  let same : accepted session.max_payload ≡ a = cc in
                  let kept : c.input ≡ c'.input = cc (set_deadline-input c set) in
                  subst (λ t. IsFaithful t d.input c'.input) same
                    (subst (λ i. IsFaithful (accepted session.max_payload) d.input i) kept
                      (
                        refl,
                        subst (λ r. HasAnswered stream_id r d.input c.input) (ground arith)
                            answered,
                      ))
            ]
      ]

  -- An exchange of an OPEN frame and its answer.
  request_stream-IsFaithful :
      (timed : Bool) (payload : List ℕ) (c : Conn) {a : Answer} {c' : Conn}
      → request_stream net session stream_id timed payload c ≡ done a c'
      → IsFaithful a c.input c'.input
  unfolding request_stream
  request_stream-IsFaithful timed payload c {a} {c'} h =
      let read : Io Frame = read_frame net session.max_payload in
      let finish : Frame → Io Answer = accept_result net session stream_id in
      let ask : Io (Unit {0}) = write_frame net (open_frame net session stream_id payload) in
      let (_, c1, set, h1) = >>-eq-done (set_timeout timed) (ask >> (read >>= finish)) c h in
      let (_, c2, sent, h2) = >>-eq-done ask (read >>= finish) c1 h1 in
      let (f, c3, taken, h3) = >>=-eq-done read finish c2 h2 in
      subst (λ i. IsFaithful a i c'.input)
        (write_frame-input net (open_frame net session stream_id payload) c1 sent
          ∙ set_timeout-input timed c set)
        (accept_result-IsFaithful f c2 c3 taken h3)

  -- What the results of OpenDestination and what it leaves open say of each other.
  abbrev pub IsConcluded : Destination → Option Conn → Result (ℕ × Conn) → Leaves → Type 0
  IsConcluded destination opened (ok (n, c')) l =
      (l ≡ all_open)
      × (c : Conn) × (opened ≡ some c)
      × (n ≡ session.max_payload)
      × HasAnswered stream_id open_result_success c.input c'.input
  IsConcluded destination opened (err e) all_open = encode net destination ≡ err e
  IsConcluded destination opened (err e) stream_closed =
      (r : ℕ) × (c : Conn) × (rest : List ℕ) × (e ≡ open_rejected r)
      × (opened ≡ some c)
      × (r ≢ open_result_success)
      × HasAnswered stream_id r c.input rest
  IsConcluded destination opened (err e) all_closed =
      (payload : List ℕ) × (encode net destination ≡ ok payload)

  conclude-IsConcluded :
      (destination : Destination) (payload : List ℕ) (c : Conn) (timed : Bool) (o : Outcome Answer)
      → encode net destination ≡ ok payload
      → request_stream net session stream_id timed payload c ≡ o
      → IsConcluded destination (some c) (conclude o).0 (conclude o).1
  unfolding conclude
  conclude-IsConcluded destination payload c timed (done (accepted n) c') e h =
      let (same, answered) = request_stream-IsFaithful timed payload c h in
      (refl, c, refl, same, answered)
  conclude-IsConcluded destination payload c timed (done (rejected r) c') e h =
      let (bad, answered) = request_stream-IsFaithful timed payload c h in
      (r, c, c'.input, refl, refl, bad, answered)
  conclude-IsConcluded destination payload c timed (fail x c') e h = (payload, e)

  -- However OpenDestination ends, what it leaves open fits: it reports a stream, with the session's payload
  -- limit, only after a frame of the stream's id whose one byte says success; it closes the stream alone
  -- only for an OpenError whose result stands in such a frame; an error leaves the session and any
  -- stream as they are only if the destination has no encoding; any other error closes the session.
  pub open_destination-IsConcluded :
      (timed : Bool) (destination : Destination) (opened : Option Conn)
      → IsConcluded destination opened
          (open_destination net session stream_id timed destination opened).0
          (open_destination net session stream_id timed destination opened).1
  unfolding open_destination open_encoded
  open_destination-IsConcluded timed destination opened =
      by_encoding (encode net destination) refl opened
    where
      by_encoding :
          (r : Result (List ℕ))
          → encode net destination ≡ r
          → (opened : Option Conn)
          → IsConcluded destination opened
              (open_encoded net session stream_id timed opened r).0
              (open_encoded net session stream_id timed opened r).1
      by_encoding (err x) e opened = e
      by_encoding (ok payload) e none = (payload, e)
      by_encoding (ok payload) e (some c) =
          conclude-IsConcluded destination payload c timed
            (request_stream net session stream_id timed payload c) e refl

-- What OpenDestination makes of a result for its stream.
pub accept_result-answer :
    (net : Netip) (session : Session) (id : List ℕ) (f : Frame) (r : ℕ) (c : Conn)
    → f.type_code ≡ frame_open_result
    → f.stream_id ≡ id
    → f.payload ≡ r ∷ []
    → c.deadlines ≡ []
    → accept_result net session id f c
      ≡ done (if r == open_result_success then accepted session.max_payload else rejected r) c
unfolding accept_result
accept_result-answer net session id f r c type same byte d =
    ground
      (arith, type, byte, ap (λ t. bytes_eq t id) same ∙ bytes_eq_refl id, set_deadline_free c d)
