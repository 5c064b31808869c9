-- ===== src/Tcpstream/Reassembler.antt =====
-- internal/tcpstream/reassembler.go: puts the segments of a stream back in order. The mutex makes each
-- method one step. Offsets are uint64: `stop_of` wraps as the source does, and the subtractions of
-- the source stand behind tests that keep them from wrapping. `buffered` is an int that the
-- invariant keeps equal to the bytes held, so that it is subtracted without a sign.
pub mod Segments
pub mod Gaps
pub mod Merging
pub mod Invariant
pub mod Coverage
pub mod Delivery
pub mod Draining
pub mod Tests
use engarde.Shared.{
  ℕ, zero, suc, ◌+◌, ◌-◌, ◌*◌, ◌%◌, ◌^◌, List, [], ◌∷◌, ◌++◌, Bool, true, false, not, ◌||◌, Option,
  none, some, ltb, leb, ◌==◌, if◌then◌else◌, length, take, drop, bytes_eq,
}
use Prim.Native.Nat.{min, max}
use engarde.Wire.{
  Error, WriteOutcome, accepts, fails, invalid_frame, reorder_window, overlap_mismatch, invalid_fin,
  segment_limit, write_failed, short_write,
}
use mathlib.Core.Option

abbrev pub max_reorder_segments : ℕ
max_reorder_segments = 4096

abbrev pub max_u64 : ℕ
max_u64 = 2 ^ 64 - 1

pub record Segment : Type 0 where
  pub offset : ℕ
  pub content : List ℕ

pub record Reassembler : Type 0 where
  pub next_offset : ℕ
  pub buffered : ℕ
  pub window_bytes : ℕ
  pub fin_offset : Option ℕ
  pub segments : List Segment

-- Go's error or nil, or a panic.
pub data Verdict : Type 0 where
  fine panics : Verdict
  failed : Error → Verdict

unfoldable pub new_reassembler : ℕ → Reassembler
new_reassembler window = record {
  next_offset = 0;
  buffered = 0;
  window_bytes = window;
  fin_offset = none;
  segments = [];
}

-- `item.offset + uint64(len(item.data))`.
pub stop_of : Segment → ℕ
stop_of s = (s.offset + length s.content) % 2 ^ 64

abbrev pub slice : ℕ → ℕ → List ℕ → List ℕ
slice i n p = take n (drop i p)

-- addSegment. The copy that Push makes and pushOwned does not is no difference here: nothing changes
-- the bytes of a segment.
pub add_segment : ℕ → List ℕ → Reassembler → Reassembler
add_segment offset [] r = r
add_segment offset (b ∷ bs) r = record r {
  segments = r.segments ++ (record { offset = offset; content = b ∷ bs } ∷ []);
  buffered = r.buffered + length (b ∷ bs);
}

-- slices.SortFunc by offset.
pub insert_segment : Segment → List Segment → List Segment
insert_segment s [] = s ∷ []
insert_segment s (t ∷ ts) = if leb s.offset t.offset then s ∷ t ∷ ts else t ∷ insert_segment s ts

pub sort_segments : List Segment → List Segment
unfolding insert_segment
sort_segments [] = []
sort_segments (s ∷ ss) = insert_segment s (sort_segments ss)

-- The loop of mergeSegments from the entry `last` on; `none` is its panic.
pub merge_from : Segment → List Segment → Option (List Segment)
unfolding stop_of
merge_from last [] = some (last ∷ [])
merge_from last (item ∷ rest) =
    let joined =
      merge_from (record { offset = last.offset; content = last.content ++ item.content }) rest in
    let apart = Option.map (◌∷◌ last) (merge_from item rest) in
    if stop_of last == item.offset
    then joined
    else if ltb item.offset (stop_of last)
    then none
    else apart

merge_sorted : List Segment → Option (List Segment)
unfolding merge_from
merge_sorted [] = some []
merge_sorted (s ∷ ss) = merge_from s ss

pub merge_segments : List Segment → Option (List Segment)
unfolding merge_sorted sort_segments
merge_segments ss = if ltb (length ss) 2 then some ss else merge_sorted (sort_segments ss)

-- The loops of push over the segments that were held before, for a payload that ends at `end`.
module _ (offset end : ℕ) (payload : List ℕ) where
  differs : Segment → Bool
  unfolding stop_of
  differs s =
      let start = max offset s.offset in
      let stop = min end (stop_of s) in
      if ltb start stop
      then not (
          bytes_eq (slice (start - offset) (stop - start) payload)
            (slice (start - s.offset) (stop - start) s.content))
      else false

  pub any_differs : List Segment → Bool
  unfolding differs
  any_differs [] = false
  any_differs (s ∷ ss) = differs s || any_differs ss

  -- `if existingEnd <= cursor || existing.offset >= end { continue }`.
  pub is_skipped : Segment → ℕ → Bool
  unfolding stop_of
  is_skipped t cursor = leb (stop_of t) cursor || leb end t.offset

  pub next_cursor : Segment → ℕ → ℕ
  unfolding is_skipped
  next_cursor t cursor =
      if is_skipped t cursor then cursor else if ltb cursor (stop_of t) then stop_of t else cursor

  pub fill_gap : Segment → ℕ → Reassembler → Reassembler
  unfolding is_skipped add_segment
  fill_gap t cursor r =
      if is_skipped t cursor
      then r
      else if ltb cursor t.offset
      then add_segment cursor (slice (cursor - offset) (t.offset - cursor) payload) r
      else r

  pub fill : List Segment → ℕ → Reassembler → Reassembler
  unfolding next_cursor fill_gap
  fill [] cursor r =
      if ltb cursor end then add_segment cursor (drop (cursor - offset) payload) r else r
  fill (t ∷ ts) cursor r = fill ts (next_cursor t cursor) (fill_gap t cursor r)

pub settle : Reassembler → Option (List Segment) → Reassembler × Verdict
settle r none = (r, panics)
settle r (some ss) =
    let r' : Reassembler = record r { segments = ss } in
    if ltb max_reorder_segments (length ss)
    then (r', failed segment_limit)
    else if ltb r.window_bytes r.buffered
    then (r', failed reorder_window)
    else (r', fine)

-- push from the window test on; `offset` is not below nextOffset.
pub push_trimmed : ℕ → List ℕ → Reassembler → Reassembler × Verdict
unfolding any_differs fill merge_segments settle
push_trimmed offset payload r =
    let end = offset + length payload in
    if r.window_bytes == 0 || ltb r.window_bytes (end - r.next_offset)
    then (r, failed reorder_window)
    else if any_differs offset end payload r.segments
    then (r, failed overlap_mismatch)
    else let filled = fill offset end payload r.segments offset r in
      settle filled (merge_segments filled.segments)

pub ends_after : Option ℕ → ℕ → Bool
ends_after none end = false
ends_after (some fin) end = ltb fin end

-- Push and pushOwned. The overflow test is `offset > ^uint64(0)-uint64(len(payload))`, with the length,
-- an int, on the other side.
unfoldable pub push : ℕ → List ℕ → Reassembler → Reassembler × Verdict
unfolding push_trimmed ends_after
push offset payload r =
    if length payload == 0 || ltb max_u64 (offset + length payload)
    then (r, failed invalid_frame)
    else if leb (offset + length payload) r.next_offset
    then (r, fine)
    else if ends_after r.fin_offset (offset + length payload)
    then (r, failed invalid_fin)
    else if ltb offset r.next_offset
    then push_trimmed r.next_offset (drop (r.next_offset - offset) payload) r
    else push_trimmed offset payload r

any_stops_after : ℕ → List Segment → Bool
unfolding stop_of
any_stops_after offset [] = false
any_stops_after offset (s ∷ ss) = ltb offset (stop_of s) || any_stops_after offset ss

is_other_fin : Option ℕ → ℕ → Bool
is_other_fin none offset = false
is_other_fin (some fin) offset = not (fin == offset)

unfoldable pub set_fin : ℕ → Reassembler → Reassembler × Verdict
unfolding any_stops_after is_other_fin
set_fin offset r =
    if ltb offset r.next_offset
    then (r, failed invalid_fin)
    else if any_stops_after offset r.segments
    then (r, failed invalid_fin)
    else if is_other_fin r.fin_offset offset
    then (r, failed invalid_fin)
    else (record r { fin_offset = some offset }, fine)

-- The inner loop of DrainTo: the bytes of one entry that the calls of Write take, those left, the
-- outcomes not used, and the error that ends the loop early.
pub record ItemRun : Type 0 where
  pub sent : List ℕ
  pub left : List ℕ
  pub writes : List WriteOutcome
  pub error : Option Error

pub write_item : List WriteOutcome → List ℕ → ItemRun
write_item ws [] = record { sent = []; left = []; writes = ws; error = none }
write_item [] (b ∷ bs) = record { sent = b ∷ bs; left = []; writes = []; error = none }
write_item (accepts zero ∷ ws) (b ∷ bs) = record {
  sent = [];
  left = b ∷ bs;
  writes = ws;
  error = some short_write;
}
write_item (accepts (suc n) ∷ ws) (b ∷ bs) =
    let more = write_item ws (drop n bs) in record more { sent = (b ∷ take n bs) ++ more.sent }
write_item (fails n ∷ ws) (b ∷ bs) = record {
  sent = take n (b ∷ bs);
  left = drop n (b ∷ bs);
  writes = ws;
  error = some write_failed;
}

-- `nextOffset += written; buffered -= written`, over the writes of one entry.
pub advance : ℕ → Reassembler → Reassembler
advance n r = record r { next_offset = r.next_offset + n; buffered = r.buffered - n }

pub record Drained : Type 0 where
  pub state : Reassembler
  pub sent : List ℕ
  pub writes : List WriteOutcome
  pub error : Option Error

-- The outer loop over the entries that are left; those written are dropped as by the deferred copy.
pub drain_loop : List Segment → List WriteOutcome → Reassembler → Drained
unfolding write_item advance
drain_loop [] ws r = record {
  state = record r { segments = [] };
  sent = [];
  writes = ws;
  error = none;
}
drain_loop (s ∷ ss) ws r =
    let run = write_item ws s.content in
    let r' = advance (length run.sent) r in
    let more = drain_loop ss run.writes r' in
    let left : Segment = record { offset = s.offset + length run.sent; content = run.left } in
    let stopped : Drained = record {
      state = record r { segments = s ∷ ss };
      sent = [];
      writes = ws;
      error = none;
    } in
    let broken : Drained = record {
      state = record r' { segments = left ∷ ss };
      sent = run.sent;
      writes = run.writes;
      error = run.error;
    } in
    let whole : Drained = record more { sent = run.sent ++ more.sent } in
    if s.offset == r.next_offset then elim run.error [ none ↦ whole | some e ↦ broken ] else stopped

is_at : Option ℕ → ℕ → Bool
is_at none next = false
is_at (some fin) next = next == fin

-- DrainTo: the run, and whether the stream is finished (false beside an error).
unfoldable pub drain_to : List WriteOutcome → Reassembler → Drained × Bool
unfolding drain_loop is_at
drain_to ws r =
    let run = drain_loop r.segments ws r in
    (
      run,
      elim run.error [ none ↦ is_at run.state.fin_offset run.state.next_offset | some e ↦ false ],
    )
