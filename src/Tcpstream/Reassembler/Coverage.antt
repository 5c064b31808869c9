-- ===== src/Tcpstream/Reassembler/Coverage.antt =====
-- internal/tcpstream/reassembler.go: push as a whole, against the set of offsets and the bytes held.
use engarde.Shared.{
  ℕ, ◌+◌, ◌-◌, ◌^◌, ◌≤◌, ◌≡◌, refl, sym, ap, ◌∙◌, ◌≢◌, ◌⊎◌, inl, inr, List, true, false, ◌&&◌, ◌||◌,
  leb, ltb, ◌==◌, arith, length, Bool-cases, drop, length-drop,
}
use mathlib.Core.Path.{subst}
use engarde.Wire.{Error, reorder_window, overlap_mismatch, invalid_frame, invalid_fin}
use engarde.Tcpstream.Reassembler.{
  Reassembler, Verdict, fine, panics, failed, any_differs, push_trimmed, push, ends_after, max_u64,
  settle, fill, merge_segments,
}
use engarde.Tcpstream.Reassembler.Segments.{covers, Agree, Holds}
use engarde.Tcpstream.Reassembler.Gaps.Contents.{between, Agree-drop}
use engarde.Tcpstream.Reassembler.Invariant.{IsValid, Inserts, settle-Inserts}

-- The state after a payload was taken in: the same frontier, and more of the stream.
pub record Grows (offset : ℕ) (payload : List ℕ) (r r' : Reassembler) : Type 0 where
  pub valid : IsValid r'
  pub same_next : r'.next_offset ≡ r.next_offset
  pub same_fin : r'.fin_offset ≡ r.fin_offset
  pub cover :
      (x : ℕ)
      → covers r'.segments x ≡ (
          covers r.segments x
          || (leb r.next_offset x && between offset (offset + length payload) x))
  pub bytes : (f : ℕ → ℕ) → Holds f r.segments → Agree f offset payload → Holds f r'.segments

-- Either nothing changes and push fails, or the state grows and push succeeds or fails.
abbrev pub Pushed : ℕ → List ℕ → Reassembler → Reassembler × Verdict → Type 0
Pushed o p r out =
    ((e : Error) × (out ≡ (r, failed e)))
    ⊎ ((r' : Reassembler) × Grows o p r r'
        × ((out ≡ (r', fine)) ⊎ ((e : Error) × (out ≡ (r', failed e)))))

Inserts-Grows :
    (o : ℕ) (p : List ℕ) (r r' : Reassembler)
    → r.next_offset ≤ o
    → Inserts o p r r'
    → Grows o p r r'
Inserts-Grows o p r r' low i = record {
  valid = i.valid;
  same_next = i.same_next;
  same_fin = i.same_fin;
  cover = λ x. ground (arith, i.cover x);
  bytes = i.bytes;
}

Grows-trimmed :
    (o : ℕ) (p : List ℕ) (r r' : Reassembler)
    → o ≤ r.next_offset
    → r.next_offset ≤ o + length p
    → Grows r.next_offset (drop (r.next_offset - o) p) r r'
    → Grows o p r r'
Grows-trimmed o p r r' low enough g = record {
  valid = g.valid;
  same_next = g.same_next;
  same_fin = g.same_fin;
  cover = λ x. ground (arith, g.cover x, length-drop (r.next_offset - o) p);
  bytes = λ f h k. g.bytes f h (
      subst (λ t. Agree f t (drop (r.next_offset - o) p)) (omega arith)
        (Agree-drop f o (r.next_offset - o) p k));
}

Pushed-trimmed :
    (o : ℕ) (p : List ℕ) (r : Reassembler) (out : Reassembler × Verdict)
    → o ≤ r.next_offset
    → r.next_offset ≤ o + length p
    → Pushed r.next_offset (drop (r.next_offset - o) p) r out
    → Pushed o p r out
Pushed-trimmed o p r out low enough (inl failure) = inl failure
Pushed-trimmed o p r out low enough (inr (r', g, verdict)) =
    inr (r', Grows-trimmed o p r r' low enough g, verdict)

Grows-nothing :
    (o : ℕ) (p : List ℕ) (r : Reassembler)
    → IsValid r
    → o + length p ≤ r.next_offset
    → Grows o p r r
Grows-nothing o p r v old = record {
  valid = v;
  same_next = refl;
  same_fin = refl;
  cover = λ x. ground arith;
  bytes = λ f h k. h;
}

push_trimmed_accepted :
    (o : ℕ) (p : List ℕ) (r : Reassembler)
    → (r.window_bytes == 0 || ltb r.window_bytes (o + length p - r.next_offset)) ≡ false
    → any_differs o (o + length p) p r.segments ≡ false
    → push_trimmed o p r
      ≡ settle
          (fill o (o + length p) p r.segments o r)
          (merge_segments (fill o (o + length p) p r.segments o r).segments)
unfolding push_trimmed
push_trimmed_accepted o p r h k = rw (h, k)

push_trimmed-Pushed :
    (o : ℕ) (p : List ℕ) (r : Reassembler)
    → IsValid r
    → r.next_offset ≤ o
    → o + length p ≤ 2 ^ 64 - 1
    → ends_after r.fin_offset (o + length p) ≡ false
    → Pushed o p r (push_trimmed o p r)
push_trimmed-Pushed o p r v low range before =
    elim (Bool-cases (r.window_bytes == 0 || ltb r.window_bytes (o + length p - r.next_offset))) [
      | inl closed ↦ inl (reorder_window, unfold push_trimmed in rw closed)
      | inr opened ↦ elim (Bool-cases (any_differs o (o + length p) p r.segments)) [
        | inl clash ↦ inl (overlap_mismatch, unfold push_trimmed in rw (opened, clash))
        | inr same ↦
            let (r', i, verdict) = settle-Inserts o p r v low range (ground arith) before in
            inr (
              r',
              Inserts-Grows o p r r' low i,
              subst
                  (λ (q : Reassembler × Verdict).
                    (q ≡ (r', fine)) ⊎ ((e : Error) × (q ≡ (r', failed e))))
                  (sym (push_trimmed_accepted o p r opened same)) verdict,
            )
      ]
    ]

-- The last two branches of push.
module _ (o : ℕ) (p : List ℕ) (r : Reassembler)
    (good : (length p == 0 || ltb max_u64 (o + length p)) ≡ false)
    (young : leb (o + length p) r.next_offset ≡ false)
    (before : ends_after r.fin_offset (o + length p) ≡ false) where
  push_cut :
      ltb o r.next_offset ≡ true
      → push o p r ≡ push_trimmed r.next_offset (drop (r.next_offset - o) p) r
  unfolding push
  push_cut cut = rw (good, young, before, cut)

  push_ahead : ltb o r.next_offset ≡ false → push o p r ≡ push_trimmed o p r
  unfolding push
  push_ahead ahead = rw (good, young, before, ahead)

in_range : (o n : ℕ) → (n == 0 || ltb max_u64 (o + n)) ≡ false → o + n ≤ 2 ^ 64 - 1
in_range o n h = ground arith

-- Every call of push ends in one of the two ways.
pub push-Pushed : (o : ℕ) (p : List ℕ) (r : Reassembler) → IsValid r → Pushed o p r (push o p r)
push-Pushed o p r v = elim (Bool-cases (length p == 0 || ltb max_u64 (o + length p))) [
  | inl bad ↦ inl (invalid_frame, unfold push in rw bad)
  | inr good ↦ elim (Bool-cases (leb (o + length p) r.next_offset)) [
    | inl old ↦ inr (r, Grows-nothing o p r v (ground arith), inl (unfold push in rw (good, old)))
    | inr young ↦ elim (Bool-cases (ends_after r.fin_offset (o + length p))) [
      | inl late ↦ inl (invalid_fin, unfold push in rw (good, young, late))
      | inr before ↦ elim (Bool-cases (ltb o r.next_offset)) [
        | inl cut ↦
            let fits = in_range o (length p) good in
            let reaches : r.next_offset ≤ o + length p = ground arith in
            let shorter = length-drop (r.next_offset - o) p in
            let below : o ≤ r.next_offset = ground arith in
            subst (Pushed o p r) (sym (push_cut o p r good young before cut)) (
              Pushed-trimmed o p r (push_trimmed r.next_offset (drop (r.next_offset - o) p) r) below
                reaches
                (push_trimmed-Pushed r.next_offset (drop (r.next_offset - o) p) r v (omega arith)
                  (omega arith)
                  (subst (λ e. ends_after r.fin_offset e ≡ false) (omega arith) before)))
        | inr ahead ↦
            subst (Pushed o p r) (sym (push_ahead o p r good young before ahead))
              (push_trimmed-Pushed o p r v (ground arith) (in_range o (length p) good) before)
      ]
    ]
  ]
]

-- push keeps the invariant whatever it returns, and never panics: mergeSegments meets no overlap.
pub push-IsValid :
    (o : ℕ) (p : List ℕ) (r : Reassembler)
    → IsValid r
    → IsValid (push o p r).0 × ((push o p r).1 ≢ panics)
push-IsValid o p r v = elim (push-Pushed o p r v) [
  | inl (e, q) ↦ rw q (v, λ h. cc)
  | inr (r', g, inl q) ↦ rw q (g.valid, λ h. cc)
  | inr (r', g, inr (e, q)) ↦ rw q (g.valid, λ h. cc)
]

-- A push that returns nil makes the covered offsets those covered before and those of the payload
-- from the frontier on, and moves neither the frontier nor the end of the stream.
pub push-covers :
    (o : ℕ) (p : List ℕ) (r r' : Reassembler)
    → IsValid r
    → push o p r ≡ (r', fine)
    → (r'.next_offset ≡ r.next_offset)
      × (r'.fin_offset ≡ r.fin_offset)
      × ((x : ℕ)
          → covers r'.segments x
            ≡ (covers r.segments x || (leb r.next_offset x && (leb o x && ltb x (o + length p)))))
push-covers o p r r' v q = elim (push-Pushed o p r v) [
  | inl (e, h) ↦ absurd (cc)
  | inr (s, g, inl h) ↦
      let same : s ≡ r' = ap (λ (t : Reassembler × Verdict). t.0) (sym h ∙ q) in
      (
        ap (λ (t : Reassembler). t.next_offset) (sym same) ∙ g.same_next,
        ap (λ (t : Reassembler). t.fin_offset) (sym same) ∙ g.same_fin,
        λ x. ap (λ (t : Reassembler). covers t.segments x) (sym same) ∙ g.cover x,
      )
  | inr (s, g, inr (e, h)) ↦ absurd (cc)
]

-- If the bytes held and the payload are parts of one stream, so are the bytes held afterwards,
-- whatever push returns.
pub push-Holds :
    (f : ℕ → ℕ) (o : ℕ) (p : List ℕ) (r : Reassembler)
    → IsValid r
    → Holds f r.segments
    → Agree f o p
    → Holds f (push o p r).0.segments
push-Holds f o p r v h k = elim (push-Pushed o p r v) [
  | inl (e, q) ↦ rw q h
  | inr (r', g, inl q) ↦ rw q (g.bytes f h k)
  | inr (r', g, inr (e, q)) ↦ rw q (g.bytes f h k)
]

pub push-next_offset :
    (o : ℕ) (p : List ℕ) (r : Reassembler) → IsValid r → (push o p r).0.next_offset ≡ r.next_offset
push-next_offset o p r v = elim (push-Pushed o p r v) [
  | inl (e, q) ↦ rw q
  | inr (r', g, inl q) ↦ rw q g.same_next
  | inr (r', g, inr (e, q)) ↦ rw q g.same_next
]
