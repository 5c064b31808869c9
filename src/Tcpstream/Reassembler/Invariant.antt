-- ===== src/Tcpstream/Reassembler/Invariant.antt =====
-- internal/tcpstream/reassembler.go: the invariant of a Reassembler, and what push keeps of it.
use engarde.Shared.{
  ℕ, ◌+◌, ◌-◌, ◌^◌, ◌≤◌, ◌≡◌, refl, sym, ◌∙◌, inl, inr, List, ◌++◌, false, ◌||◌, ltb, arith, length,
  All, All-append, Bool-cases, Option, none, some, ◌⊎◌,
}
use mathlib.Core.Path.{subst}
use engarde.Wire.{Error, reorder_window, segment_limit}
use engarde.Tcpstream.Reassembler.{
  Segment, Reassembler, Verdict, fine, failed, fill, merge_segments, settle, ends_after,
  max_reorder_segments, new_reassembler,
}
use engarde.Tcpstream.Reassembler.Segments.{
  stop, IsNonempty, Chain, Chain-Run, Run-lower, Below, total, covers, Agree, Holds, All-map,
}
use engarde.Tcpstream.Reassembler.Merging.{Merges, merge_segments-Merges}
use engarde.Tcpstream.Reassembler.Gaps.{
  Lies, pieces, pieces_bounds, extend_lem, fill-pieces, total-append, end,
}
use engarde.Tcpstream.Reassembler.Gaps.Disjoint.{filled-AllApart}
use engarde.Tcpstream.Reassembler.Gaps.Contents.{
  covers-append, covers-pieces, pieces-Holds, between,
}

-- The stream's end, once known, is not before what was delivered or is held.
abbrev pub FinAllows : Option ℕ → ℕ → List Segment → Type 0
FinAllows none next ss = Unit {0}
FinAllows (some fin) next ss = (next ≤ fin) × Below fin ss

pub record IsValid (r : Reassembler) : Type 0 where
  pub chain : Chain r.next_offset r.segments
  pub counted : r.buffered ≡ total r.segments
  pub in_range : Below (2 ^ 64 - 1) r.segments
  pub in_window : Below (r.next_offset + r.window_bytes) r.segments
  pub before_fin : FinAllows r.fin_offset r.next_offset r.segments

pub new_reassembler-IsValid : (window : ℕ) → IsValid (new_reassembler window)
unfolding new_reassembler
new_reassembler-IsValid window = record {
  chain = tt;
  counted = refl;
  in_range = tt;
  in_window = tt;
  before_fin = tt;
}

-- What an accepted payload makes of the state, before the last two tests.
pub record Inserts (offset : ℕ) (payload : List ℕ) (r r' : Reassembler) : Type 0 where
  pub valid : IsValid r'
  pub same_next : r'.next_offset ≡ r.next_offset
  pub same_window : r'.window_bytes ≡ r.window_bytes
  pub same_fin : r'.fin_offset ≡ r.fin_offset
  pub cover :
      (x : ℕ)
      → covers r'.segments x ≡ (covers r.segments x || between offset (offset + length payload) x)
  pub bytes : (f : ℕ → ℕ) → Holds f r.segments → Agree f offset payload → Holds f r'.segments

FinAllows-out :
    (fin : Option ℕ) (next hi : ℕ) (ss ps out : List Segment)
    → ((u : ℕ) → Below u (ss ++ ps) → Below u out)
    → All (λ s. stop s ≤ hi) ps
    → ends_after fin hi ≡ false
    → FinAllows fin next ss
    → FinAllows fin next out
unfolding ends_after
FinAllows-out none next hi ss ps out keep b e h = tt
FinAllows-out (some fin) next hi ss ps out keep b e h = (
  h.0,
  keep fin (
      All-append (λ s. stop s ≤ fin) ss ps h.1
        (All-map (λ s. stop s ≤ hi) (λ s. stop s ≤ fin) ps (λ s k. ground arith) b)),
)

module _ (offset : ℕ) (payload : List ℕ) (r : Reassembler) (v : IsValid r)
    (low : r.next_offset ≤ offset) (range : offset + length payload ≤ 2 ^ 64 - 1)
    (window : offset + length payload ≤ r.next_offset + r.window_bytes)
    (before : ends_after r.fin_offset (offset + length payload) ≡ false) where
  abbrev new_segments : List Segment
  new_segments = pieces offset (end offset payload) payload r.segments offset

  abbrev filled : Reassembler
  filled = fill offset (end offset payload) payload r.segments offset r

  new_bounds : All (Lies offset (end offset payload)) new_segments
  new_bounds = pieces_bounds offset payload r.segments offset v.in_range (omega arith)

  new-Below :
      (hi : ℕ)
      → offset + length payload ≤ hi
      → Below hi r.segments
      → Below hi (r.segments ++ new_segments)
  new-Below hi h b =
      All-append (λ s. stop s ≤ hi) r.segments new_segments b
        (All-map _ (λ s. stop s ≤ hi) new_segments (λ s k. omega arith) new_bounds)

  low_and_some : All (λ s. (r.next_offset ≤ s.offset) × IsNonempty s) (r.segments ++ new_segments)
  low_and_some =
      All-append _ r.segments new_segments
        (Run-lower r.next_offset r.segments (Chain-Run r.next_offset r.segments v.chain))
        (All-map _ _ new_segments (λ s k. (omega (arith, k.0, low), k.1)) new_bounds)

  merged :
      (out : List Segment) × (merge_segments (r.segments ++ new_segments) ≡ some out)
      × Merges r.next_offset (r.segments ++ new_segments) out
  merged =
      merge_segments-Merges r.next_offset (r.segments ++ new_segments) low_and_some
        (filled-AllApart offset payload r.next_offset r.segments v.chain v.in_range)
        (new-Below (2 ^ 64 - 1) range v.in_range)

  abbrev stored : List Segment → Reassembler
  stored out = record r { segments = out; buffered = r.buffered + total new_segments }

  stored-Inserts :
      (out : List Segment)
      → Merges r.next_offset (r.segments ++ new_segments) out
      → Inserts offset payload r (stored out)
  stored-Inserts out m = record {
    valid = record {
      chain = m.chain;
      counted = omega (arith, v.counted, m.same_total, total-append r.segments new_segments);
      in_range = m.same_bound (2 ^ 64 - 1) (new-Below (2 ^ 64 - 1) range v.in_range);
      in_window =
          m.same_bound (r.next_offset + r.window_bytes)
            (new-Below (r.next_offset + r.window_bytes) window v.in_window);
      before_fin =
          FinAllows-out r.fin_offset r.next_offset (offset + length payload) r.segments new_segments
            out m.same_bound (All-map _ _ new_segments (λ s k. k.2) new_bounds) before v.before_fin;
    };
    same_next = refl;
    same_window = refl;
    same_fin = refl;
    cover = λ x.
        m.same_cover x
        ∙ covers-append r.segments new_segments x
        ∙ covers-pieces offset payload r.segments offset x v.in_range (omega arith);
    bytes = λ f h k. m.same_bytes f (
        All-append (λ s. Agree f s.offset s.content) r.segments new_segments h
          (pieces-Holds offset payload f k r.segments offset v.in_range (omega arith)));
  }

  filled_lem : filled ≡ record r {
    segments = r.segments ++ new_segments;
    buffered = r.buffered + total new_segments;
  }
  filled_lem =
      fill-pieces offset (end offset payload) payload r.segments offset r
      ∙ extend_lem new_segments r

  abbrev Settles : Reassembler → Reassembler × Verdict → Type 0
  Settles r' p = (p ≡ (r', fine)) ⊎ ((e : Error) × (p ≡ (r', failed e)))

  settle-stored :
      (out : List Segment) (r0 : Reassembler)
      → Settles (record r0 { segments = out }) (settle r0 (some out))
  unfolding settle
  settle-stored out r0 = elim (Bool-cases (ltb max_reorder_segments (length out))) [
    | inl many ↦ inr (segment_limit, rw many)
    | inr few ↦ elim (Bool-cases (ltb r0.window_bytes r0.buffered)) [
      | inl over ↦ inr (reorder_window, rw (few, over))
      | inr fits ↦ inl (rw (few, fits))
    ]
  ]

  -- The end of push on segments that were filled and merged.
  pub settle-Inserts :
      (r' : Reassembler) × Inserts offset payload r r'
      × Settles r' (settle filled (merge_segments filled.segments))
  settle-Inserts =
      let (out, e, m) = merged in
      (
        stored out,
        stored-Inserts out m,
        subst (λ (q : Reassembler). Settles (stored out) (settle q (merge_segments q.segments)))
            (sym filled_lem)
            (subst (λ o. Settles (stored out) (settle (stored (r.segments ++ new_segments)) o))
              (sym e) (settle-stored out (stored (r.segments ++ new_segments)))),
      )
