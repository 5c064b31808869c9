-- ===== src/Wire/Writes.antt =====
-- The writeFull loops: what reaches the peer, whatever the calls of Write answer.
use engarde.Shared.{
  ℕ, zero, suc, ◌≡◌, refl, sym, ap, ◌∙◌, List, [], ◌∷◌, ◌++◌, Option, none, some, arith, length,
  take, drop, take-append-drop, length-append, take-append, drop-append,
}
use engarde.Wire.{
  Error, Conn, Outcome, done, fail, WriteOutcome, accepts, fails, write_loop, use_written,
  write_full, read_full,
}
use mathlib.Core.List.{append_assoc, append-nil}

-- A run of the loop with no error has appended the whole payload; with one, a prefix of it.
abbrev pub Written : List ℕ → List ℕ → Option Error × List ℕ × List WriteOutcome → Type 0
Written p out (none, out', ws) = out' ≡ out ++ p
Written p out (some e, out', ws) = (q : List ℕ) × (r : List ℕ) × (p ≡ q ++ r) × (out' ≡ out ++ q)

Written-cut :
    (n b : ℕ) (bs out : List ℕ) (r : Option Error × List ℕ × List WriteOutcome)
    → Written (drop n bs) (out ++ (b ∷ take n bs)) r
    → Written (b ∷ bs) out r
Written-cut n b bs out (none, out', ws) h =
    h
    ∙ append_assoc out (b ∷ take n bs) (drop n bs)
    ∙ ap (λ t. out ++ (b ∷ t)) (take-append-drop n bs)
Written-cut n b bs out (some e, out', ws) (q, r, hp, ho) = (
  (b ∷ take n bs) ++ q,
  r,
  ap (◌∷◌ b)
      (sym (take-append-drop n bs) ∙ ap (◌++◌ (take n bs)) hp ∙ sym (append_assoc (take n bs) q r)),
  ho ∙ append_assoc out (b ∷ take n bs) q,
)

write_loop-Written : (ws : List WriteOutcome) (p out : List ℕ) → Written p out (write_loop ws p out)
unfolding write_loop
write_loop-Written [] [] out = sym (append-nil out)
write_loop-Written (w ∷ ws) [] out = sym (append-nil out)
write_loop-Written [] (b ∷ bs) out = refl
write_loop-Written (accepts zero ∷ ws) (b ∷ bs) out = ([], b ∷ bs, refl, sym (append-nil out))
write_loop-Written (accepts (suc n) ∷ ws) (b ∷ bs) out =
    Written-cut n b bs out (write_loop ws (drop n bs) (out ++ (b ∷ take n bs)))
      (write_loop-Written ws (drop n bs) (out ++ (b ∷ take n bs)))
write_loop-Written (fails n ∷ ws) (b ∷ bs) out =
    (take n (b ∷ bs), drop n (b ∷ bs), sym (take-append-drop n (b ∷ bs)), refl)

-- Nothing but the output and the outcomes left changes.
abbrev pub Sends : List ℕ → Conn → Outcome (Unit {0}) → Type 0
Sends p c (done u c') =
    (c'.output ≡ c.output ++ p) × (c'.input ≡ c.input) × (c'.deadlines ≡ c.deadlines)
Sends p c (fail e c') =
    (q : List ℕ) × (r : List ℕ) × (p ≡ q ++ r) × (c'.output ≡ c.output ++ q) × (c'.input ≡ c.input)

use_written-Sends :
    (p : List ℕ) (c : Conn) (r : Option Error × List ℕ × List WriteOutcome)
    → Written p c.output r
    → Sends p c (use_written c r)
unfolding use_written
use_written-Sends p c (none, out, ws) h = (h, refl, refl)
use_written-Sends p c (some e, out, ws) (q, r, hp, ho) = (q, r, hp, ho, refl)

-- Whatever the writer answers, writeFull appends the whole payload to the output when it reports
-- success, and a prefix of the payload when it reports an error; the input is left alone.
pub write_full-Sends : (p : List ℕ) (c : Conn) → Sends p c (write_full p c)
unfolding write_full
write_full-Sends p c = use_written-Sends p c _ (write_loop-Written c.writes p c.output)

-- A writer that takes everything.
pub write_full_free :
    (p : List ℕ) (c : Conn)
    → c.writes ≡ []
    → write_full p c ≡ done tt (record c { output = c.output ++ p })
unfolding write_full write_loop use_written
write_full_free [] c h = rw h (ground (arith, append-nil c.output))
write_full_free (b ∷ bs) c h = rw h (ground arith)

-- io.ReadFull of a buffer that is at hand.
pub read_full_done :
    (n : ℕ) (front rest : List ℕ) (c : Conn)
    → length front ≡ n
    → c.input ≡ front ++ rest
    → read_full n c ≡ done front (record c { input = rest })
unfolding read_full
read_full_done n front rest c h e =
    ground (arith, take-append n front rest h, drop-append n front rest h, length-append front rest)
