-- ===== src/Tcpstream/Reassembler/Gaps/Disjoint.antt =====
-- internal/tcpstream/reassembler.go: the segments that push adds overlap none of those held.
use engarde.Shared.{
  ℕ, suc, ◌-◌, ◌^◌, ◌≤◌, ◌<◌, inl, inr, List, [], ◌∷◌, ◌++◌, arith, All, All-append, drop,
}
use engarde.Tcpstream.Reassembler.{Segment, slice}
use engarde.Tcpstream.Reassembler.Segments.{
  stop, Chain, Chain-Run, Run-lower, Below, Apart, AllApart, All-map,
}
use engarde.Tcpstream.Reassembler.Gaps.{
  pieces, gap, piece, next, end, gap_bounds, pieces_bounds, cursor-le-next, next_cases, All-zip,
  AllApart-append,
}

piece-AllApart : (o : ℕ) (c : List ℕ) → AllApart (piece o c)
unfolding piece
piece-AllApart o [] = tt
piece-AllApart o (b ∷ bs) = (tt, tt)

module _ (offset : ℕ) (payload : List ℕ) where
  abbrev added : List Segment → ℕ → List Segment
  added = pieces offset (end offset payload) payload

  abbrev hole : Segment → ℕ → List Segment
  hole = gap offset (end offset payload) payload

  hole-AllApart : (t : Segment) (cursor : ℕ) → AllApart (hole t cursor)
  unfolding gap
  hole-AllApart t cursor =
      ground (arith, piece-AllApart cursor (slice (cursor - offset) (t.offset - cursor) payload))

  pub pieces-AllApart :
      (ss : List Segment) (cursor : ℕ)
      → Below (2 ^ 64 - 1) ss
      → offset ≤ cursor
      → AllApart (added ss cursor)
  unfolding pieces
  pieces-AllApart [] cursor b lo =
      ground (arith, piece-AllApart cursor (drop (cursor - offset) payload))
  pieces-AllApart (t ∷ ts) cursor (b, others) lo =
      let later =
        pieces_bounds offset payload ts (next offset payload t cursor) others
          (omega (arith, cursor-le-next offset payload t cursor (omega arith), lo)) in
      AllApart-append (hole t cursor) (added ts (next offset payload t cursor))
        (hole-AllApart t cursor)
        (pieces-AllApart ts (next offset payload t cursor) others
          (omega (arith, cursor-le-next offset payload t cursor (omega arith), lo)))
        (All-map _ _ _ (λ s h. All-map _ (Apart s) _ (λ u k. inl (omega arith)) later)
          (gap_bounds offset payload t cursor (omega arith) lo))

  -- What is added behind an entry does not overlap it.
  later-Apart :
      (t : Segment) (ts : List Segment) (cursor : ℕ)
      → stop t < 2 ^ 64
      → Below (2 ^ 64 - 1) ts
      → offset ≤ cursor
      → All (Apart t) (added ts (next offset payload t cursor))
  later-Apart t ts cursor b others lo =
      let later =
        pieces_bounds offset payload ts (next offset payload t cursor) others
          (omega (arith, cursor-le-next offset payload t cursor b, lo)) in
      elim (next_cases offset payload t cursor b) [
        | inl (_, n, inl before) ↦ All-map _ (Apart t) _ (λ u k. inl (omega arith)) later
        | inl (_, n, inr behind) ↦ All-map _ (Apart t) _ (λ u k. inr (omega arith)) later
        | inr (_, n, _, _) ↦ All-map _ (Apart t) _ (λ u k. inl (omega arith)) later
      ]

  -- No entry that is held overlaps an added one.
  pub held-Apart-pieces :
      (lo : ℕ) (ss : List Segment) (cursor : ℕ)
      → Chain lo ss
      → Below (2 ^ 64 - 1) ss
      → offset ≤ cursor
      → All (λ s. All (Apart s) (added ss cursor)) ss
  unfolding pieces
  held-Apart-pieces lo [] cursor c b h = tt
  held-Apart-pieces lo (t ∷ ts) cursor (a, n, c) (b, others) h =
      let holes = gap_bounds offset payload t cursor (omega arith) h in
      let step = cursor-le-next offset payload t cursor (omega arith) in
      let rest = added ts (next offset payload t cursor) in
      (
        All-append (Apart t) (hole t cursor) rest
            (All-map _ (Apart t) _ (λ u k. inr (omega arith)) holes)
            (later-Apart t ts cursor (omega arith) others h),
        All-zip _ _ (λ s. All (Apart s) (hole t cursor ++ rest)) ts
            (λ s low apart.
              All-append (Apart s) (hole t cursor) rest
                (All-map _ (Apart s) _ (λ u k. inr (omega arith)) holes) apart)
            (Run-lower (suc (stop t)) ts (Chain-Run (suc (stop t)) ts c))
            (held-Apart-pieces (suc (stop t)) ts (next offset payload t cursor) c others
              (omega arith)),
      )

  -- All of them together are apart.
  pub filled-AllApart :
      (lo : ℕ) (ss : List Segment)
      → Chain lo ss
      → Below (2 ^ 64 - 1) ss
      → AllApart (ss ++ added ss offset)
  filled-AllApart lo ss c b =
      AllApart-append ss (added ss offset) (chain-AllApart lo ss c)
        (pieces-AllApart ss offset b (omega arith))
        (held-Apart-pieces lo ss offset c b (omega arith))
    where
      chain-AllApart : (lo : ℕ) (ss : List Segment) → Chain lo ss → AllApart ss
      chain-AllApart lo [] c = tt
      chain-AllApart lo (t ∷ ts) (a, n, c) = (
        All-map _ (Apart t) ts (λ u k. inl (omega arith))
            (Run-lower (suc (stop t)) ts (Chain-Run (suc (stop t)) ts c)),
        chain-AllApart (suc (stop t)) ts c,
      )
