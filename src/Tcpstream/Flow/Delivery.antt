-- ===== src/Tcpstream/Flow/Delivery.antt =====
-- internal/tcpstream/stream.go: writeEndpoint and deliverInbound, which carry the frames that arrive to
-- the endpoint through the Reassembler.
use engarde.Shared.{
  ℕ, ◌+◌, ◌≡◌, refl, sym, ◌≢◌, inl, inr, List, [], ◌∷◌, ◌++◌, Bool, ◌==◌, ◌⊎◌, if◌then◌else◌, arith,
  length, length-append, Option, none, some, All, Bool-cases, Option-cases,
}
use mathlib.Core.Path.{subst}
use engarde.Wire.{Error, WriteOutcome, invalid_frame, invalid_fin, deadline_failed}
use engarde.Tcpstream.Frame.{Frame, frame_data, frame_fin}
use engarde.Tcpstream.Reassembler.{
  Reassembler, Verdict, fine, panics, failed, push, set_fin, drain_to, Drained, new_reassembler,
}
use engarde.Tcpstream.Reassembler.Segments.{Agree, Holds}
use engarde.Tcpstream.Reassembler.Merging.{Agree-append}
use engarde.Tcpstream.Reassembler.Invariant.{IsValid, new_reassembler-IsValid}
use engarde.Tcpstream.Reassembler.Coverage.{push-IsValid, push-Holds, push-next_offset}
use engarde.Tcpstream.Reassembler.Draining.{drain_to_delivers, set_fin-IsValid}

-- A frame that arrived, what the endpoint will answer while it is delivered, and whether the write
-- deadline can be cleared afterwards.
pub record Arrival : Type 0 where
  pub frame : Frame
  pub writes : List WriteOutcome
  pub clears : Bool

-- The result of deliverInbound: its error, and the offset and FIN flag it acknowledges.
pub record Delivered : Type 0 where
  pub state : Reassembler
  pub sent : List ℕ
  pub verdict : Verdict
  pub ack : Option (ℕ × Bool)

-- What follows DrainTo: its error, or clearDeadline and the acknowledgement.
conclude : Arrival → Drained → Bool → Option Error → Delivered
conclude a d finished (some e) = record {
  state = d.state;
  sent = d.sent;
  verdict = failed e;
  ack = none;
}
conclude a d finished none =
    if a.clears
    then record {
      state = d.state;
      sent = d.sent;
      verdict = fine;
      ack = some (d.state.next_offset, finished);
    }
    else record { state = d.state; sent = d.sent; verdict = failed deadline_failed; ack = none }

pub drain_and_ack : Arrival → Reassembler → Delivered
unfolding conclude
drain_and_ack a r = let (d, finished) = drain_to a.writes r in conclude a d finished d.error

pub after_update : Arrival → Reassembler × Verdict → Delivered
unfolding drain_and_ack
after_update a (r, fine) = drain_and_ack a r
after_update a (r, failed e) = record { state = r; sent = []; verdict = failed e; ack = none }
after_update a (r, panics) = record { state = r; sent = []; verdict = panics; ack = none }

unfoldable pub deliver_inbound : Arrival → Reassembler → Delivered
unfolding after_update
deliver_inbound a r =
    if a.frame.type_code == frame_data
    then after_update a (push a.frame.offset a.frame.payload r)
    else if a.frame.type_code == frame_fin
    then after_update a (set_fin a.frame.offset r)
    else record { state = r; sent = []; verdict = failed invalid_frame; ack = none }

-- writeEndpoint over the frames in the order in which the queue gives them: an error ends it. The
-- result is the state, all that was written to the endpoint, and the error.
unfoldable pub write_endpoint : List Arrival → Reassembler → List ℕ → Reassembler × List ℕ × Verdict
unfolding deliver_inbound
write_endpoint [] r out = (r, out, fine)
write_endpoint (a ∷ more) r out =
    let d = deliver_inbound a r in
    let rest = write_endpoint more d.state (out ++ d.sent) in
    elim d.verdict [
      | fine ↦ rest
      | failed e ↦ (d.state, out ++ d.sent, failed e)
      | panics ↦ (d.state, out ++ d.sent, panics)
    ]

-- The data frames of a sequence carry parts of the stream `f`; the others are free.
abbrev pub FromStream : (ℕ → ℕ) → List Arrival → Type 0
FromStream f = All (λ a. a.frame.type_code ≡ frame_data → Agree f a.frame.offset a.frame.payload)

-- What one delivery has done, on every branch.
record Passes (f : ℕ → ℕ) (r : Reassembler) (d : Delivered) : Type 0 where
  moved : d.state.next_offset ≡ r.next_offset + length d.sent
  stream : Agree f r.next_offset d.sent
  holds : Holds f d.state.segments
  valid : d.verdict ≡ fine → IsValid d.state
  no_panic : d.verdict ≢ panics
  acked : (n : ℕ) (b : Bool) → d.ack ≡ some (n, b) → n ≡ r.next_offset + length d.sent

failed-ne-fine : {e : Error} → failed e ≡ fine → ⊥
failed-ne-fine k = cc

none-ne-some : {x : ℕ × Bool} → none ≡ some x → ⊥
none-ne-some k = cc

-- An end without an acknowledgement.
Passes-failed :
    (f : ℕ → ℕ) (r : Reassembler) (state : Reassembler) (sent : List ℕ) (e : Error)
    → state.next_offset ≡ r.next_offset + length sent
    → Agree f r.next_offset sent
    → Holds f state.segments
    → Passes f r (record { state = state; sent = sent; verdict = failed e; ack = none })
Passes-failed f r state sent e m s h = record {
  moved = m;
  stream = s;
  holds = h;
  valid = λ k. absurd (failed-ne-fine k);
  no_panic = λ k. cc;
  acked = λ n b k. absurd (none-ne-some k);
}

drain_and_ack-Passes :
    (f : ℕ → ℕ) (a : Arrival) (r : Reassembler)
    → IsValid r
    → Holds f r.segments
    → Passes f r (drain_and_ack a r)
drain_and_ack-Passes f a r v h =
    let d = (drain_to a.writes r).0 in
    let (moved, stream, valid) = drain_to_delivers a.writes r v in
    let (sent, held) = stream f h in
    elim (Option-cases d.error) [
      | inr (e, k) ↦
          unfold drain_and_ack in
          subst (concludes d) (sym k) (Passes-failed f r d.state d.sent e moved sent held)
      | inl k ↦ elim (Bool-cases a.clears) [
        | inr c ↦
            unfold drain_and_ack in
            subst (concludes d) (sym k)
              (rw c (Passes-failed f r d.state d.sent deadline_failed moved sent held))
        | inl c ↦
            unfold drain_and_ack in
            subst (concludes d) (sym k) (
              rw c (record {
                moved = moved;
                stream = sent;
                holds = held;
                valid = λ _. (valid k).0;
                no_panic = λ q. cc;
                acked = λ n b q. omega (arith, acked_offset q, moved);
              }))
      ]
    ]
  where
    concludes : Drained → Option Error → Type 0
    concludes d x = Passes f r (conclude a d (drain_to a.writes r).1 x)

    acked_offset :
        {m n : ℕ} {b c : Bool} → ◌≡◌ {A = Option (ℕ × Bool)} (some (m, b)) (some (n, c)) → m ≡ n
    acked_offset q = cc

after_update-Passes :
    (f : ℕ → ℕ) (a : Arrival) (r r' : Reassembler) (v : Verdict)
    → r'.next_offset ≡ r.next_offset
    → v ≢ panics
    → IsValid r'
    → Holds f r'.segments
    → Passes f r (after_update a (r', v))
after_update-Passes f a r r' fine m np v h =
    let p = drain_and_ack-Passes f a r' v h in
    unfold after_update in
    record {
      moved = omega (arith, p.moved, m);
      stream = subst (λ t. Agree f t (drain_and_ack a r').sent) m p.stream;
      holds = p.holds;
      valid = p.valid;
      no_panic = p.no_panic;
      acked = λ n b q. omega (arith, p.acked n b q, m);
    }
after_update-Passes f a r r' panics m np v h = absurd (np refl)
after_update-Passes f a r r' (failed e) m np v h =
    unfold after_update in Passes-failed f r r' [] e (omega arith) tt h

set_fin-Passes :
    (f : ℕ → ℕ) (a : Arrival) (o : ℕ) (r : Reassembler)
    → IsValid r
    → Holds f r.segments
    → Passes f r (after_update a (set_fin o r))
set_fin-Passes f a o r v h =
    let (v', cases) = set_fin-IsValid o r v in
    elim cases [
      | inl e ↦ rw e (after_update-Passes f a r r (failed invalid_fin) refl (λ k. cc) v h)
      | inr e ↦ rw e (
          after_update-Passes f a r (record r { fin_offset = some o }) fine refl (λ k. cc)
            (subst (λ (t : Reassembler × Verdict). IsValid t.0) e v') h)
    ]

deliver_inbound-Passes :
    (f : ℕ → ℕ) (a : Arrival) (r : Reassembler)
    → (a.frame.type_code ≡ frame_data → Agree f a.frame.offset a.frame.payload)
    → IsValid r
    → Holds f r.segments
    → Passes f r (deliver_inbound a r)
deliver_inbound-Passes f a r from v h = elim (Bool-cases (a.frame.type_code == frame_data)) [
  | inl e ↦
      let (v', np) = push-IsValid a.frame.offset a.frame.payload r v in
      unfold deliver_inbound in
      rw e (
        after_update-Passes f a r (push a.frame.offset a.frame.payload r).0
          (push a.frame.offset a.frame.payload r).1
          (push-next_offset a.frame.offset a.frame.payload r v) np v'
          (push-Holds f a.frame.offset a.frame.payload r v h (from (ground arith))))
  | inr e ↦ elim (Bool-cases (a.frame.type_code == frame_fin)) [
    | inl k ↦ unfold deliver_inbound in rw (e, k) (set_fin-Passes f a a.frame.offset r v h)
    | inr k ↦
        unfold deliver_inbound in
        rw (e, k) (Passes-failed f r r [] invalid_frame (omega arith) tt h)
  ]
]

-- The two ways of a round of writeEndpoint.
write_endpoint_on :
    (a : Arrival) (more : List Arrival) (r : Reassembler) (out : List ℕ)
    → (deliver_inbound a r).verdict ≡ fine
    → write_endpoint (a ∷ more) r out
      ≡ write_endpoint more (deliver_inbound a r).state (out ++ (deliver_inbound a r).sent)
unfolding write_endpoint
write_endpoint_on a more r out e = ground arith

write_endpoint_off :
    (a : Arrival) (more : List Arrival) (r : Reassembler) (out : List ℕ) (x : Error)
    → (deliver_inbound a r).verdict ≡ failed x
    → write_endpoint (a ∷ more) r out
      ≡ ((deliver_inbound a r).state, out ++ (deliver_inbound a r).sent, failed x)
unfolding write_endpoint
write_endpoint_off a more r out x e = ground arith

Verdict-cases : (v : Verdict) → v ≢ panics → (v ≡ fine) ⊎ ((e : Error) × (v ≡ failed e))
Verdict-cases fine np = inl refl
Verdict-cases panics np = absurd (np refl)
Verdict-cases (failed e) np = inr (e, refl)

abbrev Written : (ℕ → ℕ) → Reassembler × List ℕ × Verdict → Type 0
Written f t = Agree f 0 t.1 × (t.0.next_offset ≡ length t.1) × (t.2 ≢ panics)

write_endpoint-Written :
    (f : ℕ → ℕ) (arrivals : List Arrival) (r : Reassembler) (out : List ℕ)
    → FromStream f arrivals
    → IsValid r
    → Holds f r.segments
    → Agree f 0 out
    → r.next_offset ≡ length out
    → Written f (write_endpoint arrivals r out)
write_endpoint-Written f [] r out from v h a n = unfold write_endpoint in (a, n, λ k. cc)
write_endpoint-Written f (a ∷ more) r out (from, others) v h g n =
    let p = deliver_inbound-Passes f a r from v h in
    let d = deliver_inbound a r in
    let so_far : Agree f 0 (out ++ d.sent) =
      Agree-append f 0 out d.sent g (subst (λ t. Agree f t d.sent) (omega (arith, n)) p.stream) in
    let reached : d.state.next_offset ≡ length (out ++ d.sent) =
      omega (arith, p.moved, length-append out d.sent, n) in
    elim (Verdict-cases d.verdict p.no_panic) [
      | inl e ↦ subst (Written f) (sym (write_endpoint_on a more r out e)) (
          write_endpoint-Written f more d.state (out ++ d.sent) others (p.valid e) p.holds so_far
            reached)
      | inr (x, e) ↦
          subst (Written f) (sym (write_endpoint_off a more r out x e)) (so_far, reached, λ k. cc)
    ]

-- Whatever frames arrive, in any order and cut, doubled or overlapping in any way, as long as the data
-- frames carry parts of one stream `f`, and whatever the endpoint answers: the bytes written to the
-- endpoint are the stream's from its start on, without a gap or a repetition, nextOffset is their
-- number, and the Reassembler never panics.
pub write_endpoint_in_order :
    (f : ℕ → ℕ) (window : ℕ) (arrivals : List Arrival)
    → FromStream f arrivals
    → let t = write_endpoint arrivals (new_reassembler window) [] in
      Agree f 0 t.1 × (t.0.next_offset ≡ length t.1) × (t.2 ≢ panics)
write_endpoint_in_order f window arrivals from =
    write_endpoint-Written f arrivals (new_reassembler window) [] from
      (new_reassembler-IsValid window) (unfold new_reassembler in tt) tt
      (unfold new_reassembler in refl)

-- The acknowledgement that follows a delivery names the frontier: the old one and what was written.
pub deliver_inbound_ack :
    (f : ℕ → ℕ) (a : Arrival) (r : Reassembler) (n : ℕ) (b : Bool)
    → (a.frame.type_code ≡ frame_data → Agree f a.frame.offset a.frame.payload)
    → IsValid r
    → Holds f r.segments
    → (deliver_inbound a r).ack ≡ some (n, b)
    → n ≡ r.next_offset + length (deliver_inbound a r).sent
deliver_inbound_ack f a r n b from v h e = (deliver_inbound-Passes f a r from v h).acked n b e
