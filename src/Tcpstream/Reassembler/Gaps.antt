-- ===== src/Tcpstream/Reassembler/Gaps.antt =====
-- internal/tcpstream/reassembler.go: the loop of push that fills the gaps between the segments held.
pub mod Disjoint
pub mod Contents
use engarde.Shared.{
  ℕ, zero, suc, ◌+◌, ◌-◌, ◌^◌, ◌≤◌, ◌<◌, ◌≡◌, refl, sym, ap, ◌∙◌, ◌⊎◌, inl, inr, List, [], ◌∷◌,
  ◌++◌, Bool, true, false, ◌&&◌, ◌||◌, leb, ltb, ◌==◌, if◌then◌else◌, arith, length, All,
  Bool-cases, drop, take, length-append, length-take, length-drop, All-append,
}
use mathlib.Core.List.{append_assoc, append-nil}
use engarde.Tcpstream.Reassembler.{
  Segment, Reassembler, stop_of, slice, add_segment, fill, is_skipped, next_cursor, fill_gap,
}
use engarde.Tcpstream.Reassembler.Segments.{
  stop, stop_of-stop, IsNonempty, Chain, Chain-Run, Run-lower, Below, Apart, AllApart, total,
  within, covers, Agree, Holds, All-map,
}

piece : ℕ → List ℕ → List Segment
piece o [] = []
piece o (b ∷ bs) = record { offset = o; content = b ∷ bs } ∷ []

-- `r` with more segments behind its own.
pub extend : List Segment → Reassembler → Reassembler
extend ps r = record r { segments = r.segments ++ ps; buffered = r.buffered + total ps }

pub extend_lem :
    (ps : List Segment) (r : Reassembler)
    → extend ps r ≡ record r { segments = r.segments ++ ps; buffered = r.buffered + total ps }
unfolding extend
extend_lem ps r = refl

extend-nil : (r : Reassembler) → extend [] r ≡ r
unfolding extend
extend-nil r = ground (arith, append-nil r.segments)

pub total-append : (ps qs : List Segment) → total (ps ++ qs) ≡ total ps + total qs
total-append [] qs = omega arith
total-append (p ∷ ps) qs = omega (arith, total-append ps qs)

extend-extend :
    (ps qs : List Segment) (r : Reassembler) → extend qs (extend ps r) ≡ extend (ps ++ qs) r
unfolding extend
extend-extend ps qs r = ground (arith, append_assoc r.segments ps qs, total-append ps qs)

add-piece :
    (o : ℕ) (content : List ℕ) (r : Reassembler)
    → add_segment o content r ≡ extend (piece o content) r
add-piece o [] r = unfold add_segment piece in sym (extend-nil r)
add-piece o (b ∷ bs) r = unfold add_segment piece extend in ground arith

module _ (offset end : ℕ) (payload : List ℕ) where
  gap : Segment → ℕ → List Segment
  unfolding piece
  gap t cursor =
      if is_skipped offset end payload t cursor
      then []
      else if ltb cursor t.offset
      then piece cursor (slice (cursor - offset) (t.offset - cursor) payload)
      else []

  -- The segments that the loop adds.
  pub pieces : List Segment → ℕ → List Segment
  unfolding gap
  pieces [] cursor = if ltb cursor end then piece cursor (drop (cursor - offset) payload) else []
  pieces (t ∷ ts) cursor = gap t cursor ++ pieces ts (next_cursor offset end payload t cursor)

  fill_gap-gap :
      (t : Segment) (cursor : ℕ) (r : Reassembler)
      → fill_gap offset end payload t cursor r ≡ extend (gap t cursor) r
  unfolding fill_gap gap
  fill_gap-gap t cursor r = ground (
    arith,
    sym (extend-nil r),
    add-piece cursor (slice (cursor - offset) (t.offset - cursor) payload) r,
  )

  pub fill-pieces :
      (ss : List Segment) (cursor : ℕ) (r : Reassembler)
      → fill offset end payload ss cursor r ≡ extend (pieces ss cursor) r
  unfolding fill pieces
  fill-pieces [] cursor r =
      ground (arith, sym (extend-nil r), add-piece cursor (drop (cursor - offset) payload) r)
  fill-pieces (t ∷ ts) cursor r =
      let next = next_cursor offset end payload t cursor in
      fill-pieces ts next (fill_gap offset end payload t cursor r)
      ∙ ap (extend (pieces ts next)) (fill_gap-gap t cursor r)
      ∙ extend-extend (gap t cursor) (pieces ts next) r

piece-All {κ} :
    (P : Segment → Type κ) (o : ℕ) (c : List ℕ)
    → (0 < length c → P (record { offset = o; content = c }))
    → All P (piece o c)
unfolding piece
piece-All P o [] h = tt
piece-All P o (b ∷ bs) h = (h (omega arith), tt)

All-zip {κ ι μ} :
    (P : Segment → Type κ) (Q : Segment → Type ι) (R : Segment → Type μ) (xs : List Segment)
    → ((s : Segment) → P s → Q s → R s)
    → All P xs
    → All Q xs
    → All R xs
All-zip P Q R [] k h j = tt
All-zip P Q R (x ∷ xs) k h j = (k x h.0 j.0, All-zip P Q R xs k h.1 j.1)

AllApart-append :
    (xs ys : List Segment)
    → AllApart xs
    → AllApart ys
    → All (λ x. All (Apart x) ys) xs
    → AllApart (xs ++ ys)
AllApart-append [] ys h k c = k
AllApart-append (x ∷ xs) ys (h, hs) k (c, cs) =
    (All-append (Apart x) xs ys h c, AllApart-append xs ys hs k cs)

length-slice : (i n : ℕ) (p : List ℕ) → i + n ≤ length p → length (slice i n p) ≡ n
length-slice i n p h = omega (arith, length-take n (drop i p), length-drop i p)

-- Where a new segment lies: from the cursor on, and not past `hi`.
abbrev pub Lies : ℕ → ℕ → Segment → Type 0
Lies cursor hi s = (cursor ≤ s.offset) × IsNonempty s × (stop s ≤ hi)

module _ (offset : ℕ) (payload : List ℕ) where
  abbrev pub end : ℕ
  end = offset + length payload

  abbrev next : Segment → ℕ → ℕ
  next = next_cursor offset end payload

  -- A round either skips the entry or moves the cursor to its end.
  next_cases :
      (t : Segment) (cursor : ℕ)
      → stop t < 2 ^ 64
      → ((is_skipped offset end payload t cursor ≡ true)
          × (next t cursor ≡ cursor)
          × ((stop t ≤ cursor) ⊎ (end ≤ t.offset)))
        ⊎ ((is_skipped offset end payload t cursor ≡ false)
            × (next t cursor ≡ stop t)
            × (cursor < stop t)
            × (t.offset < end))
  unfolding next_cursor is_skipped
  next_cases t cursor h = elim (Bool-cases (is_skipped offset end payload t cursor)) [
    | inl e ↦ inl (e, ground (arith, stop_of-stop t h), ground (arith, stop_of-stop t h))
    | inr e ↦ inr (
      e,
      ground (arith, stop_of-stop t h),
      ground (arith, stop_of-stop t h),
      ground (arith, stop_of-stop t h),
    )
  ]

  gap_bounds :
      (t : Segment) (cursor : ℕ)
      → stop t < 2 ^ 64
      → offset ≤ cursor
      → All
          (λ s. Lies cursor end s × (stop s ≤ t.offset) × (stop s ≤ next t cursor))
          (gap offset end payload t cursor)
  gap_bounds t cursor h lo = elim (next_cases t cursor h) [
    | inl (e, n, c) ↦ unfold gap in rw e tt
    | inr (e, n, a, b) ↦ elim (Bool-cases (ltb cursor t.offset)) [
      | inr f ↦ unfold gap in rw (e, f) tt
      | inl f ↦
          unfold gap in
          rw (e, f)
            (piece-All (λ s. Lies cursor end s × (stop s ≤ t.offset) × (stop s ≤ next t cursor))
              cursor (slice (cursor - offset) (t.offset - cursor) payload)
              λ some_byte.
                let size : length (slice (cursor - offset) (t.offset - cursor) payload)
                    ≡ t.offset - cursor =
                  length-slice (cursor - offset) (t.offset - cursor) payload (ground arith) in
                let before : cursor < t.offset = ground arith in
                ((omega arith, some_byte, omega arith), omega arith, omega arith))
    ]
  ]

  cursor-le-next : (t : Segment) (cursor : ℕ) → stop t < 2 ^ 64 → cursor ≤ next t cursor
  cursor-le-next t cursor h = elim (next_cases t cursor h) [
    | inl (e, n, c) ↦ omega arith
    | inr (e, n, a, b) ↦ omega arith
  ]

  pub pieces_bounds :
      (ss : List Segment) (cursor : ℕ)
      → Below (2 ^ 64 - 1) ss
      → offset ≤ cursor
      → All (Lies cursor end) (pieces offset end payload ss cursor)
  unfolding pieces
  pieces_bounds [] cursor b lo = elim (Bool-cases (ltb cursor end)) [
    | inl e ↦ rw e (
        piece-All (Lies cursor end) cursor (drop (cursor - offset) payload) λ some_byte.
          (omega arith, some_byte, omega (arith, length-drop (cursor - offset) payload)))
    | inr e ↦ rw e tt
  ]
  pieces_bounds (t ∷ ts) cursor (b, others) lo =
      All-append (Lies cursor end) (gap offset end payload t cursor)
        (pieces offset end payload ts (next t cursor))
        (All-map _ _ _ (λ s h. h.0) (gap_bounds t cursor (omega arith) lo))
        (All-map _ _ _ (λ s h. (omega (arith, cursor-le-next t cursor (omega arith)), h.1, h.2))
          (pieces_bounds ts (next t cursor) others
            (omega (arith, cursor-le-next t cursor (omega arith)))))
