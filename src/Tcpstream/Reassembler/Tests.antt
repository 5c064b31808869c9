-- ===== src/Tcpstream/Reassembler/Tests.antt =====
-- Runs of the Reassembler, and its theorems at a state that holds the bytes 3 to 5 of a stream.
use engarde.Shared.{
  ℕ, ◌+◌, ◌≡◌, refl, List, [], ◌∷◌, true, false, none, some, arith, ◌≢◌, ◌⊎◌, ◌↔◌, length, leb,
  bytes_eq, ltb, ◌&&◌, ◌||◌,
}
use mathlib.Core.Path.{subst}
use engarde.Wire.{accepts, fails, invalid_fin}
use engarde.Tcpstream.Reassembler.{
  Reassembler, Verdict, fine, panics, failed, push, set_fin, drain_to,
}
use engarde.Tcpstream.Reassembler.Segments.{covers, Holds, Agree}
use engarde.Tcpstream.Reassembler.Invariant.{IsValid}
use engarde.Tcpstream.Reassembler.Coverage.{push-IsValid, push-covers}
use engarde.Tcpstream.Reassembler.Draining.{drain_to_delivers, drain_to_finished, set_fin-IsValid}

-- The stream 10, 11, 12, ...
abbrev stream : ℕ → ℕ
stream x = x + 10

abbrev middle : Reassembler
middle = record {
  next_offset = 1;
  buffered = 3;
  window_bytes = 100;
  fin_offset = some 9;
  segments = record { offset = 3; content = 13 ∷ 14 ∷ 15 ∷ [] } ∷ [];
}

abbrev after : Reassembler
after = record {
  next_offset = 1;
  buffered = 6;
  window_bytes = 100;
  fin_offset = some 9;
  segments = record { offset = 1; content = 11 ∷ 12 ∷ 13 ∷ 14 ∷ 15 ∷ 16 ∷ [] } ∷ [];
}

-- Overlaps what is held on both sides and what was delivered.
abbrev whole : List ℕ
whole = 10 ∷ 11 ∷ 12 ∷ 13 ∷ 14 ∷ 15 ∷ 16 ∷ []

middle-IsValid : IsValid middle
middle-IsValid = record {
  chain = (omega arith, omega arith, tt);
  counted = refl;
  in_range = (omega arith, tt);
  in_window = (omega arith, tt);
  before_fin = (omega arith, (omega arith, tt));
}

push-whole : push 0 whole middle ≡ (after, fine)
unfolding push bytes_eq
push-whole = refl

push-IsValid_example : IsValid (push 0 whole middle).0 × ((push 0 whole middle).1 ≢ panics)
push-IsValid_example = push-IsValid 0 whole middle middle-IsValid

push-covers_example :
    (after.next_offset ≡ middle.next_offset)
    × (after.fin_offset ≡ middle.fin_offset)
    × ((x : ℕ)
        → covers after.segments x
          ≡ (covers middle.segments x || (leb 1 x && (leb 0 x && ltb x (0 + length whole)))))
push-covers_example = push-covers 0 whole middle after middle-IsValid push-whole

-- The endpoint takes four bytes, then two, then fails.
drain_after : (drain_to (accepts 4 ∷ fails 2 ∷ []) after).0.sent ≡ 11 ∷ 12 ∷ 13 ∷ 14 ∷ 15 ∷ 16 ∷ []
unfolding drain_to
drain_after = refl

after-IsValid : IsValid after
after-IsValid = subst (λ (t : Reassembler × Verdict). IsValid t.0) push-whole push-IsValid_example.0

drain_to_delivers_example :
    let d = (drain_to (accepts 4 ∷ fails 2 ∷ []) after).0 in
    (d.state.next_offset ≡ 1 + length d.sent)
    × ((f : ℕ → ℕ) → Holds f after.segments → Agree f 1 d.sent × Holds f d.state.segments)
    × (d.error ≡ none → IsValid d.state × (covers d.state.segments d.state.next_offset ≡ false))
drain_to_delivers_example = drain_to_delivers (accepts 4 ∷ fails 2 ∷ []) after after-IsValid

drain_to_finished_example :
    ((drain_to [] after).1 ≡ true ↔ (
      ((drain_to [] after).0.error ≡ none)
      × (some 9 ≡ some (drain_to [] after).0.state.next_offset)))
    × ((drain_to [] after).1 ≡ true → (drain_to [] after).0.state.segments ≡ [])
drain_to_finished_example = drain_to_finished [] after after-IsValid

set_fin-IsValid_example :
    IsValid (set_fin 9 middle).0
    × ((set_fin 9 middle ≡ (middle, failed invalid_fin))
        ⊎ (set_fin 9 middle ≡ (record middle { fin_offset = some 9 }, fine)))
set_fin-IsValid_example = set_fin-IsValid 9 middle middle-IsValid
