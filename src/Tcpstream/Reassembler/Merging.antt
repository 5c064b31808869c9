-- ===== src/Tcpstream/Reassembler/Merging.antt =====
-- internal/tcpstream/reassembler.go: mergeSegments on segments that do not overlap.
use engarde.Shared.{
  ℕ, suc, ◌+◌, ◌-◌, ◌^◌, ◌≤◌, ◌<◌, ◌≡◌, refl, sym, ap, ◌∙◌, inl, inr, List, [], ◌∷◌, ◌++◌, ◌||◌,
  ltb, ◌==◌, arith, length, All, Bool-cases, some, length-append,
}
use mathlib.Core.Option
use mathlib.Core.Path.{subst}
use native.Mathlib.Nat.{add-zero}
use engarde.Tcpstream.Reassembler.{Segment, merge_from, merge_segments, merge_sorted, sort_segments}
use engarde.Tcpstream.Reassembler.Segments.{
  stop, stop_of-stop, IsNonempty, Chain, Run, Below, total, within, covers, Agree, Holds, sort-Run,
  All-sort, covers-sort, total-sort, AllApart,
}

join : Segment → Segment → Segment
join s t = record { offset = s.offset; content = s.content ++ t.content }

-- The three ways of one round of the loop.
merge_adjacent :
    (s t : Segment) (ts : List Segment)
    → stop s < 2 ^ 64
    → stop s ≡ t.offset
    → merge_from s (t ∷ ts) ≡ merge_from (join s t) ts
unfolding merge_from join
merge_adjacent s t ts h e = ground (arith, stop_of-stop s h)

merge_apart :
    (s t : Segment) (ts : List Segment)
    → stop s < 2 ^ 64
    → stop s < t.offset
    → merge_from s (t ∷ ts) ≡ Option.map (◌∷◌ s) (merge_from t ts)
unfolding merge_from
merge_apart s t ts h e = ground (arith, stop_of-stop s h)

stop-join : (s t : Segment) → stop s ≡ t.offset → stop (join s t) ≡ stop t
unfolding join
stop-join s t e = omega (arith, length-append s.content t.content)

within-join :
    (s t : Segment) (x : ℕ) → stop s ≡ t.offset → within (join s t) x ≡ (within s x || within t x)
unfolding join
within-join s t x e = ground (arith, length-append s.content t.content)

pub Agree-append :
    (f : ℕ → ℕ) (o : ℕ) (xs ys : List ℕ)
    → Agree f o xs
    → Agree f (o + length xs) ys
    → Agree f o (xs ++ ys)
Agree-append f o [] ys h k = rw (add-zero o) at k
Agree-append f o (x ∷ xs) ys h k =
    let shift : o + length (x ∷ xs) ≡ suc o + length xs = omega arith in
    (h.0, Agree-append f (suc o) xs ys h.1 (rw shift at k))

-- What merging leaves of a list in order: the bytes, the offsets covered, every bound and every
-- stream that the entries agree with. Neighbours now have a gap.
pub record Merges (lo : ℕ) (ss out : List Segment) : Type 0 where
  pub chain : Chain lo out
  pub same_total : total out ≡ total ss
  pub same_cover : (x : ℕ) → covers out x ≡ covers ss x
  pub same_bound : (hi : ℕ) → Below hi ss → Below hi out
  pub same_bytes : (f : ℕ → ℕ) → Holds f ss → Holds f out

Merges-one : (lo : ℕ) (s : Segment) → lo ≤ s.offset → IsNonempty s → Merges lo (s ∷ []) (s ∷ [])
Merges-one lo s h n = record {
  chain = (h, n, tt);
  same_total = refl;
  same_cover = λ x. refl;
  same_bound = λ hi b. b;
  same_bytes = λ f b. b;
}

Merges-cons :
    (lo : ℕ) (s : Segment) (ss out : List Segment)
    → lo ≤ s.offset
    → IsNonempty s
    → Merges (suc (stop s)) ss out
    → Merges lo (s ∷ ss) (s ∷ out)
Merges-cons lo s ss out h n m = record {
  chain = (h, n, m.chain);
  same_total = ap (λ t. length s.content + t) m.same_total;
  same_cover = λ x. ap (◌||◌ (within s x)) (m.same_cover x);
  same_bound = λ hi b. (b.0, m.same_bound hi b.1);
  same_bytes = λ f b. (b.0, m.same_bytes f b.1);
}

Merges-join :
    (lo : ℕ) (s t : Segment) (ts out : List Segment)
    → stop s ≡ t.offset
    → Merges lo (join s t ∷ ts) out
    → Merges lo (s ∷ t ∷ ts) out
unfolding join
Merges-join lo s t ts out e m = record {
  chain = m.chain;
  same_total = omega (arith, m.same_total, length-append s.content t.content);
  same_cover = λ x. ground (arith, m.same_cover x, within-join s t x e);
  same_bound = λ hi b. m.same_bound hi (omega (arith, b.1.0, stop-join s t e), b.1.1);
  same_bytes = λ f b. m.same_bytes f (
    Agree-append f s.offset s.content t.content b.0
        (subst (λ o. Agree f o t.content) (sym e) b.1.0),
    b.1.1,
  );
}

abbrev Merged : ℕ → Segment → List Segment → Type 0
Merged lo s ss = (out : List Segment) × (merge_from s ss ≡ some out) × Merges lo (s ∷ ss) out

merge-Merged :
    (lo : ℕ) (s : Segment) (ss : List Segment)
    → Run lo (s ∷ ss)
    → Below (2 ^ 64 - 1) (s ∷ ss)
    → Merged lo s ss
merge-Merged lo s [] (h, n, r) b = (s ∷ [], unfold merge_from in refl, Merges-one lo s h n)
merge-Merged lo s (t ∷ ts) (h, n, r) (b, (c, d)) = elim (Bool-cases (stop s == t.offset)) [
  | inl e ↦
      let touch : stop s ≡ t.offset = ground arith in
      let (out, eq, m) =
        merge-Merged lo (join s t) ts (joined-Run touch)
          (omega (arith, stop-join s t touch, c), d) in
      (out, merge_adjacent s t ts (omega arith) touch ∙ eq, Merges-join lo s t ts out touch m)
  | inr e ↦
      let gap : stop s < t.offset = ground arith in
      let (out, eq, m) = merge-Merged (suc (stop s)) t ts (gap, r.1, r.2) (c, d) in
      (
        s ∷ out,
        merge_apart s t ts (omega arith) gap ∙ ap (Option.map (◌∷◌ s)) eq,
        Merges-cons lo s (t ∷ ts) out h n m,
      )
]
  where
    joined-Run : stop s ≡ t.offset → Run lo (join s t ∷ ts)
    joined-Run e =
        (unfold join in h, joined_nonempty, subst (λ o. Run o ts) (sym (stop-join s t e)) r.2)
      where
        joined_nonempty : IsNonempty (join s t)
        joined_nonempty = unfold join in omega (arith, n, length-append s.content t.content)

Merges-sort : (lo : ℕ) (ss out : List Segment) → Merges lo (sort_segments ss) out → Merges lo ss out
Merges-sort lo ss out m = record {
  chain = m.chain;
  same_total = m.same_total ∙ total-sort ss;
  same_cover = λ x. m.same_cover x ∙ covers-sort ss x;
  same_bound = λ hi b. m.same_bound hi (All-sort (λ s. stop s ≤ hi) ss b);
  same_bytes = λ f b. m.same_bytes f (All-sort (λ s. Agree f s.offset s.content) ss b);
}

merge_sorted-Merges :
    (lo : ℕ) (ss : List Segment)
    → Run lo ss
    → Below (2 ^ 64 - 1) ss
    → (out : List Segment) × (merge_sorted ss ≡ some out) × Merges lo ss out
merge_sorted-Merges lo [] r b = (
  [],
  unfold merge_sorted in refl,
  record {
    chain = tt;
    same_total = refl;
    same_cover = λ x. refl;
    same_bound = λ hi h. h;
    same_bytes = λ f h. h;
  },
)
merge_sorted-Merges lo (s ∷ ss) r b =
    let (out, e, m) = merge-Merged lo s ss r b in (out, unfold merge_sorted in e, m)

merge_short :
    (s : Segment) (ss : List Segment)
    → length (s ∷ ss) < 2
    → merge_segments (s ∷ ss) ≡ merge_sorted (sort_segments (s ∷ ss))
unfolding merge_segments merge_sorted sort_segments
merge_short s [] h = refl
merge_short s (t ∷ ts) h = absurd (omega arith)

merge_segments-sorted : (ss : List Segment) → merge_segments ss ≡ merge_sorted (sort_segments ss)
merge_segments-sorted [] = unfold merge_segments merge_sorted sort_segments in refl
merge_segments-sorted (s ∷ ss) = elim (Bool-cases (ltb (length (s ∷ ss)) 2)) [
  | inl short ↦ merge_short s ss (ground arith)
  | inr long ↦ unfold merge_segments in ground arith
]

-- Merging segments that do not overlap never panics, and keeps what they hold.
pub merge_segments-Merges :
    (lo : ℕ) (ss : List Segment)
    → All (λ s. (lo ≤ s.offset) × IsNonempty s) ss
    → AllApart ss
    → Below (2 ^ 64 - 1) ss
    → (out : List Segment) × (merge_segments ss ≡ some out) × Merges lo ss out
merge_segments-Merges lo ss h a b =
    let (out, e, m) =
      merge_sorted-Merges lo (sort_segments ss) (sort-Run lo ss h a)
        (All-sort (λ s. stop s ≤ 2 ^ 64 - 1) ss b) in
    (out, merge_segments-sorted ss ∙ e, Merges-sort lo ss out m)
