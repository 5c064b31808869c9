-- ===== src/Tcpstream/Reassembler/Segments.antt =====
-- internal/tcpstream/reassembler.go: what a list of segments satisfies, and sorting it.
use engarde.Shared.{
  ℕ, suc, ◌+◌, ◌^◌, ◌≤◌, ◌<◌, ◌≡◌, refl, ap, ◌∙◌, ◌⊎◌, inl, inr, List, [], ◌∷◌, Bool, false, ◌&&◌,
  ◌||◌, leb, ltb, arith, length, All, Bool-cases,
}
use engarde.Tcpstream.Reassembler.{Segment, stop_of, insert_segment, sort_segments}

-- The end of a segment without wrapping.
abbrev pub stop : Segment → ℕ
stop s = s.offset + length s.content

pub stop_of-stop : (s : Segment) → stop s < 2 ^ 64 → stop_of s ≡ stop s
unfolding stop_of
stop_of-stop s h = omega arith

abbrev pub IsNonempty : Segment → Type 0
IsNonempty s = 0 < length s.content

-- In order, nonempty, from `lo` on; `Chain` has a gap between neighbours, `Run` may have none.
abbrev pub Chain : ℕ → List Segment → Type 0
Chain lo [] = Unit {0}
Chain lo (s ∷ ss) = (lo ≤ s.offset) × IsNonempty s × Chain (suc (stop s)) ss

abbrev pub Run : ℕ → List Segment → Type 0
Run lo [] = Unit {0}
Run lo (s ∷ ss) = (lo ≤ s.offset) × IsNonempty s × Run (stop s) ss

-- No segment goes past `hi`.
abbrev pub Below : ℕ → List Segment → Type 0
Below hi = All (λ s. stop s ≤ hi)

abbrev pub Apart : Segment → Segment → Type 0
Apart s t = (stop s ≤ t.offset) ⊎ (stop t ≤ s.offset)

abbrev pub AllApart : List Segment → Type 0
AllApart [] = Unit {0}
AllApart (s ∷ ss) = All (Apart s) ss × AllApart ss

-- The bytes held.
abbrev pub total : List Segment → ℕ
total [] = 0
total (s ∷ ss) = length s.content + total ss

abbrev pub within : Segment → ℕ → Bool
within s x = leb s.offset x && ltb x (stop s)

-- Some segment holds the byte at offset `x`.
abbrev pub covers : List Segment → ℕ → Bool
covers [] x = false
covers (s ∷ ss) x = within s x || covers ss x

-- The bytes of the stream `f` from an offset on.
abbrev pub Agree : (ℕ → ℕ) → ℕ → List ℕ → Type 0
Agree f o [] = Unit {0}
Agree f o (b ∷ bs) = (b ≡ f o) × Agree f (suc o) bs

abbrev pub Holds : (ℕ → ℕ) → List Segment → Type 0
Holds f = All (λ s. Agree f s.offset s.content)

pub All-map {ℓ κ ι} :
    {A : Type ℓ} (P : A → Type κ) (Q : A → Type ι) (xs : List A)
    → ((x : A) → P x → Q x)
    → All P xs
    → All Q xs
All-map P Q [] k h = tt
All-map P Q (x ∷ xs) k h = (k x h.0, All-map P Q xs k h.1)

pub Run-lower :
    (lo : ℕ) (ss : List Segment) → Run lo ss → All (λ s. (lo ≤ s.offset) × IsNonempty s) ss
Run-lower lo [] h = tt
Run-lower lo (s ∷ ss) (a, b, c) =
    ((a, b), All-map _ _ ss (λ t k. (omega arith, k.1)) (Run-lower (stop s) ss c))

pub Chain-Run : (lo : ℕ) (ss : List Segment) → Chain lo ss → Run lo ss
Chain-Run lo [] h = tt
Chain-Run lo (s ∷ ss) (a, b, c) =
    (a, b, Run-mono (suc (stop s)) (stop s) ss (omega arith) (Chain-Run (suc (stop s)) ss c))
  where
    Run-mono : (m n : ℕ) (ss : List Segment) → n ≤ m → Run m ss → Run n ss
    Run-mono m n [] h k = tt
    Run-mono m n (t ∷ ts) h (i, j, l) = (omega arith, j, l)

module _ {κ} (P : Segment → Type κ) where
  pub All-insert : (s : Segment) (ts : List Segment) → P s → All P ts → All P (insert_segment s ts)
  unfolding insert_segment
  All-insert s [] h k = (h, tt)
  All-insert s (t ∷ ts) h k = elim (Bool-cases (leb s.offset t.offset)) [
    | inl e ↦ rw e (h, k)
    | inr e ↦ rw e (k.0, All-insert s ts h k.1)
  ]

  pub All-sort : (ss : List Segment) → All P ss → All P (sort_segments ss)
  unfolding sort_segments
  All-sort [] h = tt
  All-sort (s ∷ ss) h = All-insert s (sort_segments ss) h.0 (All-sort ss h.1)

insert-Run :
    (lo : ℕ) (s : Segment) (ts : List Segment)
    → lo ≤ s.offset
    → IsNonempty s
    → All (Apart s) ts
    → Run lo ts
    → Run lo (insert_segment s ts)
unfolding insert_segment
insert-Run lo s [] h n a r = (h, n, tt)
insert-Run lo s (t ∷ ts) h n (a, others) (i, j, k) = elim (Bool-cases (leb s.offset t.offset)) [
  | inl e ↦ rw e (h, n, (ground arith, j, k))
  | inr e ↦ rw e (i, j, insert-Run (stop t) s ts (ground arith) n others k)
]

-- Sorting segments that do not overlap puts them in order.
pub sort-Run :
    (lo : ℕ) (ss : List Segment)
    → All (λ s. (lo ≤ s.offset) × IsNonempty s) ss
    → AllApart ss
    → Run lo (sort_segments ss)
unfolding sort_segments
sort-Run lo [] h a = tt
sort-Run lo (s ∷ ss) h (a, others) =
    insert-Run lo s (sort_segments ss) h.0.0 h.0.1 (All-sort (Apart s) ss a)
      (sort-Run lo ss h.1 others)

covers-insert :
    (s : Segment) (ts : List Segment) (x : ℕ)
    → covers (insert_segment s ts) x ≡ (within s x || covers ts x)
unfolding insert_segment
covers-insert s [] x = refl
covers-insert s (t ∷ ts) x = ground (arith, covers-insert s ts x)

pub covers-sort : (ss : List Segment) (x : ℕ) → covers (sort_segments ss) x ≡ covers ss x
unfolding sort_segments
covers-sort [] x = refl
covers-sort (s ∷ ss) x =
    covers-insert s (sort_segments ss) x ∙ ap (◌||◌ (within s x)) (covers-sort ss x)

total-insert :
    (s : Segment) (ts : List Segment) → total (insert_segment s ts) ≡ length s.content + total ts
unfolding insert_segment
total-insert s [] = refl
total-insert s (t ∷ ts) = ground (arith, total-insert s ts)

pub total-sort : (ss : List Segment) → total (sort_segments ss) ≡ total ss
unfolding sort_segments
total-sort [] = refl
total-sort (s ∷ ss) = omega (arith, total-insert s (sort_segments ss), total-sort ss)
