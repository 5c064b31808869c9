-- ===== src/Tcpstream/Reassembler/Delivery.antt =====
-- internal/tcpstream/reassembler.go: what DrainTo writes.
use engarde.Shared.{
  ℕ, zero, suc, ◌+◌, ◌-◌, ◌≤◌, ◌<◌, ◌≡◌, refl, sym, ap, ◌∙◌, inl, inr, List, [], ◌∷◌, ◌++◌, true,
  false, ◌==◌, arith, length, Bool-cases, Option-cases, drop, take, none, some, length-append,
  take-append-drop,
}
use mathlib.Core.Path.{subst}
use mathlib.Core.List.{append_assoc, append-nil}
use engarde.Wire.{Error, WriteOutcome, accepts, fails}
use engarde.Tcpstream.Reassembler.{Segment, Reassembler, ItemRun, write_item, Drained, drain_loop}
use engarde.Tcpstream.Reassembler.Segments.{stop, Chain, Below, total, covers, Agree, Holds}
use engarde.Tcpstream.Reassembler.Merging.{Agree-append}

pub Agree-split :
    (f : ℕ → ℕ) (o : ℕ) (xs ys : List ℕ)
    → Agree f o (xs ++ ys)
    → Agree f o xs × Agree f (o + length xs) ys
Agree-split f o [] ys h = (tt, subst (λ t. Agree f t ys) (omega arith) h)
Agree-split f o (x ∷ xs) ys (h, k) =
    let (a, b) = Agree-split f (suc o) xs ys k in
    ((h, a), subst (λ t. Agree f t ys) (omega arith) b)

-- The bytes of an entry are those written, then those left; with no error none are left.
write_item-split :
    (ws : List WriteOutcome) (content : List ℕ)
    → ((write_item ws content).sent ++ (write_item ws content).left ≡ content)
      × ((write_item ws content).error ≡ none → (write_item ws content).left ≡ [])
unfolding write_item
write_item-split [] [] = (refl, λ h. refl)
write_item-split (w ∷ ws) [] = (refl, λ h. refl)
write_item-split [] (b ∷ bs) = (append-nil (b ∷ bs), λ h. refl)
write_item-split (accepts zero ∷ ws) (b ∷ bs) = (refl, λ h. cc)
write_item-split (accepts (suc n) ∷ ws) (b ∷ bs) =
    let (same, none_left) = write_item-split ws (drop n bs) in
    (
      ap (◌∷◌ b) (
          append_assoc (take n bs) (write_item ws (drop n bs)).sent (write_item ws (drop n bs)).left
          ∙ ap (◌++◌ (take n bs)) same
          ∙ take-append-drop n bs),
      none_left,
    )
write_item-split (fails n ∷ ws) (b ∷ bs) = (take-append-drop n (b ∷ bs), λ h. cc)

none-ne-some : {e : Error} → none ≡ some e → ⊥
none-ne-some h = cc

Chain-mono : (m n : ℕ) (ss : List Segment) → n ≤ m → Chain m ss → Chain n ss
Chain-mono m n [] h c = tt
Chain-mono m n (s ∷ ss) h (a, b, c) = (omega arith, b, c)

covers-below : (lo : ℕ) (ss : List Segment) (x : ℕ) → Chain lo ss → x < lo → covers ss x ≡ false
covers-below lo [] x c h = refl
covers-below lo (s ∷ ss) x (a, b, c) h =
    ground (arith, covers-below (suc (stop s)) ss x c (omega arith))

-- What a run of DrainTo over the entries `ss` of `r` has done.
pub record Delivers (ss : List Segment) (r : Reassembler) (d : Drained) : Type 0 where
  pub moved : d.state.next_offset ≡ r.next_offset + length d.sent
  pub same_fin : d.state.fin_offset ≡ r.fin_offset
  pub same_window : d.state.window_bytes ≡ r.window_bytes
  pub stream : (f : ℕ → ℕ) → Holds f ss → Agree f r.next_offset d.sent × Holds f d.state.segments
  pub chain : d.error ≡ none → Chain d.state.next_offset d.state.segments
  pub counted : d.error ≡ none → d.state.buffered ≡ total d.state.segments
  pub nothing_ready : d.error ≡ none → covers d.state.segments d.state.next_offset ≡ false
  pub bound : (hi : ℕ) → d.error ≡ none → Below hi ss → Below hi d.state.segments
  pub frontier :
      (hi : ℕ) → d.error ≡ none → Below hi ss → r.next_offset ≤ hi → d.state.next_offset ≤ hi

module _ (s : Segment) (ss : List Segment) (ws : List WriteOutcome) (r : Reassembler) where
  abbrev run : ItemRun
  run = write_item ws s.content

  abbrev moved_on : Reassembler
  moved_on = record r {
    next_offset = r.next_offset + length run.sent;
    buffered = r.buffered - length run.sent;
  }

  abbrev stopped : Drained
  stopped = record { state = record r { segments = s ∷ ss }; sent = []; writes = ws; error = none }

  abbrev broken : Drained
  broken = record {
    state = record moved_on {
      segments = record { offset = s.offset + length run.sent; content = run.left } ∷ ss;
    };
    sent = run.sent;
    writes = run.writes;
    error = run.error;
  }

  abbrev whole : Drained
  whole =
      let more = drain_loop ss run.writes moved_on in record more { sent = run.sent ++ more.sent }

  drain_stopped : (s.offset == r.next_offset) ≡ false → drain_loop (s ∷ ss) ws r ≡ stopped
  unfolding drain_loop
  drain_stopped e = rw e

  drain_broken :
      (e : Error)
      → (s.offset == r.next_offset) ≡ true
      → run.error ≡ some e
      → drain_loop (s ∷ ss) ws r ≡ broken
  unfolding drain_loop
  drain_broken e h k = ground arith

  drain_whole :
      (s.offset == r.next_offset) ≡ true → run.error ≡ none → drain_loop (s ∷ ss) ws r ≡ whole
  unfolding drain_loop
  drain_whole h k = ground arith

  module _ (c : Chain r.next_offset (s ∷ ss)) (n : r.buffered ≡ total (s ∷ ss)) where
    Delivers-stopped : (s.offset == r.next_offset) ≡ false → Delivers (s ∷ ss) r stopped
    Delivers-stopped e = record {
      moved = omega arith;
      same_fin = refl;
      same_window = refl;
      stream = λ f h. (tt, h);
      chain = λ h. c;
      counted = λ h. n;
      nothing_ready = λ h.
          ground
            (arith, c.0, covers-below (suc (stop s)) ss r.next_offset c.2 (omega (arith, c.0)));
      bound = λ hi h b. b;
      frontier = λ hi h b lo. lo;
    }

    Agree-run :
        (f : ℕ → ℕ)
        → s.offset ≡ r.next_offset
        → Agree f s.offset s.content
        → Agree f r.next_offset run.sent × Agree f (s.offset + length run.sent) run.left
    Agree-run f e h =
        let (a, b) =
          Agree-split f s.offset run.sent run.left
            (subst (Agree f s.offset) (sym (write_item-split ws s.content).0) h) in
        (subst (λ t. Agree f t run.sent) e a, b)

    Delivers-broken :
        (x : Error) → s.offset ≡ r.next_offset → run.error ≡ some x → Delivers (s ∷ ss) r broken
    Delivers-broken x e k = record {
      moved = refl;
      same_fin = refl;
      same_window = refl;
      stream = λ f h. let (a, b) = Agree-run f e h.0 in (a, (b, h.1));
      chain = λ h. absurd (none-ne-some (sym h ∙ k));
      counted = λ h. absurd (none-ne-some (sym h ∙ k));
      nothing_ready = λ h. absurd (none-ne-some (sym h ∙ k));
      bound = λ hi h b. absurd (none-ne-some (sym h ∙ k));
      frontier = λ hi h b lo. absurd (none-ne-some (sym h ∙ k));
    }

    length-run : run.error ≡ none → length run.sent ≡ length s.content
    length-run k =
        let (same, left) = write_item-split ws s.content in
        omega (arith, ap length same, length-append run.sent run.left, ap length (left k))

    moved_on-Chain : s.offset ≡ r.next_offset → run.error ≡ none → Chain moved_on.next_offset ss
    moved_on-Chain e k =
        Chain-mono (suc (stop s)) moved_on.next_offset ss (omega (arith, length-run k)) c.2

    moved_on-counted : run.error ≡ none → moved_on.buffered ≡ total ss
    moved_on-counted k = omega (arith, length-run k, n)

    Delivers-whole :
        s.offset ≡ r.next_offset
        → run.error ≡ none
        → Delivers ss moved_on (drain_loop ss run.writes moved_on)
        → Delivers (s ∷ ss) r whole
    Delivers-whole e k d = record {
      moved =
          omega (arith, d.moved, length-append run.sent (drain_loop ss run.writes moved_on).sent);
      same_fin = d.same_fin;
      same_window = d.same_window;
      stream = λ f h.
          let (a, b) = d.stream f h.1 in
          (Agree-append f r.next_offset run.sent _ (Agree-run f e h.0).0 a, b);
      chain = d.chain;
      counted = d.counted;
      nothing_ready = d.nothing_ready;
      bound = λ hi h b. d.bound hi h b.1;
      frontier = λ hi h b lo. d.frontier hi h b.1 (omega (arith, length-run k, b.0));
    }

pub drain_loop-Delivers :
    (ss : List Segment) (ws : List WriteOutcome) (r : Reassembler)
    → Chain r.next_offset ss
    → r.buffered ≡ total ss
    → Delivers ss r (drain_loop ss ws r)
drain_loop-Delivers [] ws r c n =
    unfold drain_loop in
    record {
      moved = omega arith;
      same_fin = refl;
      same_window = refl;
      stream = λ f h. (tt, tt);
      chain = λ h. tt;
      counted = λ h. n;
      nothing_ready = λ h. refl;
      bound = λ hi h b. tt;
      frontier = λ hi h b lo. lo;
    }
drain_loop-Delivers (s ∷ ss) ws r c n = elim (Bool-cases (s.offset == r.next_offset)) [
  | inr away ↦
      subst (Delivers (s ∷ ss) r) (sym (drain_stopped s ss ws r away))
        (Delivers-stopped s ss ws r c n away)
  | inl here ↦ elim (Option-cases (write_item ws s.content).error) [
    | inr (x, k) ↦
        subst (Delivers (s ∷ ss) r) (sym (drain_broken s ss ws r x here k))
          (Delivers-broken s ss ws r c n x (ground arith) k)
    | inl k ↦
        let at : s.offset ≡ r.next_offset = ground arith in
        subst (Delivers (s ∷ ss) r) (sym (drain_whole s ss ws r here k)) (
          Delivers-whole s ss ws r c n at k (
            drain_loop-Delivers ss (write_item ws s.content).writes (moved_on s ss ws r)
              (moved_on-Chain s ss ws r c n at k) (moved_on-counted s ss ws r c n k)))
  ]
]
