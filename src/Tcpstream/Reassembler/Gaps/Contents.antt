-- ===== src/Tcpstream/Reassembler/Gaps/Contents.antt =====
-- internal/tcpstream/reassembler.go: what the segments that push adds hold.
use engarde.Shared.{
  ℕ, zero, suc, ◌+◌, ◌-◌, ◌^◌, ◌≤◌, ◌<◌, ◌≡◌, refl, inl, inr, List, [], ◌∷◌, ◌++◌, Bool, ◌&&◌, ◌||◌,
  leb, ltb, arith, length, All-append, Bool-cases, drop, take, length-drop,
}
use mathlib.Core.Path.{subst}
use engarde.Tcpstream.Reassembler.{Segment, slice}
use engarde.Tcpstream.Reassembler.Segments.{stop, Below, within, covers, Agree, Holds}
use engarde.Tcpstream.Reassembler.Gaps.{
  pieces, gap, piece, next, end, cursor-le-next, next_cases, piece-All, length-slice,
}

abbrev pub between : ℕ → ℕ → ℕ → Bool
between lo hi x = leb lo x && ltb x hi

pub covers-append :
    (ss ts : List Segment) (x : ℕ) → covers (ss ++ ts) x ≡ (covers ss x || covers ts x)
covers-append [] ts x = refl
covers-append (s ∷ ss) ts x = ground (arith, covers-append ss ts x)

covers-piece : (o : ℕ) (c : List ℕ) (x : ℕ) → covers (piece o c) x ≡ between o (o + length c) x
unfolding piece
covers-piece o [] x = ground arith
covers-piece o (b ∷ bs) x = ground arith

pub Agree-drop : (f : ℕ → ℕ) (o i : ℕ) (p : List ℕ) → Agree f o p → Agree f (o + i) (drop i p)
Agree-drop f o zero p h = subst (λ t. Agree f t p) (omega arith) h
Agree-drop f o (suc i) [] h = tt
Agree-drop f o (suc i) (b ∷ bs) h =
    subst (λ t. Agree f t (drop i bs)) (omega arith) (Agree-drop f (suc o) i bs h.1)

Agree-take : (f : ℕ → ℕ) (o n : ℕ) (p : List ℕ) → Agree f o p → Agree f o (take n p)
Agree-take f o zero p h = tt
Agree-take f o (suc n) [] h = tt
Agree-take f o (suc n) (b ∷ bs) h = (h.0, Agree-take f (suc o) n bs h.1)

module _ (offset : ℕ) (payload : List ℕ) where
  -- Where the cursor comes to and what was added so far make up the part of the payload behind it.
  covers-gap :
      (t : Segment) (cursor x : ℕ)
      → stop t < 2 ^ 64
      → offset ≤ cursor
      → (within t x
          || (covers (gap offset (end offset payload) payload t cursor) x
              || between (next offset payload t cursor) (end offset payload) x))
        ≡ (within t x || between cursor (end offset payload) x)
  covers-gap t cursor x h lo = elim (next_cases offset payload t cursor h) [
    | inl (e, n, c) ↦ unfold gap in rw (e, n)
    | inr (e, n, a, b) ↦ elim (Bool-cases (ltb cursor t.offset)) [
      | inr f ↦ unfold gap in rw (e, f, n) (ground arith)
      | inl f ↦
          unfold gap in
          rw (e, f, n)
            (ground (
              arith,
              covers-piece cursor (slice (cursor - offset) (t.offset - cursor) payload) x,
              length-slice (cursor - offset) (t.offset - cursor) payload,
            ))
    ]
  ]

  pub covers-pieces :
      (ss : List Segment) (cursor x : ℕ)
      → Below (2 ^ 64 - 1) ss
      → offset ≤ cursor
      → (covers ss x || covers (pieces offset (end offset payload) payload ss cursor) x)
        ≡ (covers ss x || between cursor (end offset payload) x)
  unfolding pieces
  covers-pieces [] cursor x b lo = ground (
    arith,
    covers-piece cursor (drop (cursor - offset) payload) x,
    length-drop (cursor - offset) payload,
  )
  covers-pieces (t ∷ ts) cursor x (b, others) lo = ground (
    arith,
    covers-append (gap offset (end offset payload) payload t cursor)
        (pieces offset (end offset payload) payload ts (next offset payload t cursor)) x,
    covers-gap t cursor x (omega arith) lo,
    covers-pieces ts (next offset payload t cursor) x others
        (omega (arith, cursor-le-next offset payload t cursor (omega arith))),
  )

  module _ (f : ℕ → ℕ) (agrees : Agree f offset payload) where
    part : (cursor : ℕ) → offset ≤ cursor → Agree f cursor (drop (cursor - offset) payload)
    part cursor lo =
        subst (λ t. Agree f t (drop (cursor - offset) payload)) (omega arith)
          (Agree-drop f offset (cursor - offset) payload agrees)

    gap-Holds :
        (t : Segment) (cursor : ℕ)
        → offset ≤ cursor
        → Holds f (gap offset (end offset payload) payload t cursor)
    unfolding gap
    gap-Holds t cursor lo = ground (
      arith,
      piece-All (λ s. Agree f s.offset s.content) cursor
          (slice (cursor - offset) (t.offset - cursor) payload)
          (λ h. Agree-take f cursor (t.offset - cursor) _ (part cursor lo)),
    )

    -- If the payload is a part of the stream `f`, so is all that is added.
    pub pieces-Holds :
        (ss : List Segment) (cursor : ℕ)
        → Below (2 ^ 64 - 1) ss
        → offset ≤ cursor
        → Holds f (pieces offset (end offset payload) payload ss cursor)
    unfolding pieces
    pieces-Holds [] cursor b lo = ground (
      arith,
      piece-All (λ s. Agree f s.offset s.content) cursor (drop (cursor - offset) payload)
          (λ h. part cursor lo),
    )
    pieces-Holds (t ∷ ts) cursor (b, others) lo =
        All-append (λ s. Agree f s.offset s.content)
          (gap offset (end offset payload) payload t cursor) _ (gap-Holds t cursor lo)
          (pieces-Holds ts (next offset payload t cursor) others
            (omega (arith, cursor-le-next offset payload t cursor (omega arith))))
