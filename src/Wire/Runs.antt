-- ===== src/Wire/Runs.antt =====
-- What a successful run of io.ReadFull and of a chain of steps says of its parts.
use engarde.Shared.{
  [], ◌∷◌, ℕ, ◌≡◌, refl, ap, List, ◌++◌, Bool, true, false, Bool-cases, inl, inr, arith, length,
  take, drop, take-append-drop, length-take, ltb,
}
use engarde.Wire.Writes.{Sends, write_full-Sends}
use mathlib.Core.Path.{subst}
use engarde.Wire.{
  pop_deadline, set_deadline, write_full, Error, Result, ok, err, Conn, Outcome, done, fail, Io,
  ◌>>=◌, ◌>>◌, guard, lift, read_full,
}

pub >>=-eq-done {ℓ κ} :
    {A : Type ℓ} {B : Type κ} (m : Io A) (f : A → Io B) (c : Conn) {b : B} {c'' : Conn}
    → (m >>= f) c ≡ done b c''
    → (a : A) × (c' : Conn) × (m c ≡ done a c') × (f a c' ≡ done b c'')
>>=-eq-done {A} m f c {b} {c''} h = split (m c) refl
  where
    split :
        (o : Outcome A)
        → m c ≡ o
        → (a : A) × (c' : Conn) × (m c ≡ done a c') × (f a c' ≡ done b c'')
    split (done a c') e = (a, c', e, cc)
    split (fail x c') e = absurd (cc)

pub read_full-eq-done :
    (n : ℕ) (c : Conn) {x : List ℕ} {c' : Conn}
    → read_full n c ≡ done x c'
    → (c.input ≡ x ++ c'.input) × (length x ≡ n) × (c'.output ≡ c.output)
unfolding read_full
read_full-eq-done n c {x} {c'} h = elim (Bool-cases (ltb (length c.input) n)) [
  | inl short ↦ absurd (ground arith)
  | inr enough ↦
      let values : x ≡ take n c.input = ground arith in
      let rest : c'.input ≡ drop n c.input = ground arith in
      (
        ground (arith, take-append-drop n c.input),
        ground (arith, length-take n c.input),
        ground arith,
      )
]

-- `if test { return e }` before the rest of a handler.
pub guard-then-eq-done {ℓ} :
    {B : Type ℓ} (t : Bool) (e : Error) (k : Io B) (c : Conn) {b : B} {c' : Conn}
    → (guard t e >> k) c ≡ done b c'
    → (t ≡ false) × (k c ≡ done b c')
guard-then-eq-done true e k c h = absurd (cc)
guard-then-eq-done false e k c h = (refl, h)

pub lift-then-eq-done {ℓ κ} :
    {A : Type ℓ} {B : Type κ} (r : Result A) (k : Io B) (c : Conn) {b : B} {c' : Conn}
    → (lift r >> k) c ≡ done b c'
    → (a : A) × (r ≡ ok a) × (k c ≡ done b c')
lift-then-eq-done (ok a) k c h = (a, refl, h)
lift-then-eq-done (err e) k c h = absurd (cc)

pub >>=-done {ℓ κ} :
    {A : Type ℓ} {B : Type κ} (m : Io A) (f : A → Io B) (c : Conn) {a : A} {c' : Conn}
    → m c ≡ done a c'
    → (m >>= f) c ≡ f a c'
>>=-done m f c e = λ i. elim (e i) [ done a c' ↦ f a c' | fail x c' ↦ fail x c' ]

pop_deadline-input :
    (ds : List Bool) (c : Conn) {u : Unit {0}} {c' : Conn}
    → pop_deadline ds c ≡ done u c'
    → c'.input ≡ c.input
unfolding pop_deadline
pop_deadline-input [] c h = cc
pop_deadline-input (true ∷ ds) c h = ground arith
pop_deadline-input (false ∷ ds) c h = absurd (cc)

pub set_deadline-input :
    (c : Conn) {u : Unit {0}} {c' : Conn} → set_deadline c ≡ done u c' → c'.input ≡ c.input
unfolding set_deadline
set_deadline-input c h = pop_deadline-input c.deadlines c h

pub write_full-input :
    (p : List ℕ) (c : Conn) {u : Unit {0}} {c' : Conn}
    → write_full p c ≡ done u c'
    → c'.input ≡ c.input
write_full-input p c h = (subst (Sends p c) h (write_full-Sends p c)).1

-- The rest of a handler behind a step without a result.
pub >>-eq-done {ℓ κ} :
    {A : Type ℓ} {B : Type κ} (m : Io A) (k : Io B) (c : Conn) {b : B} {c'' : Conn}
    → (m >> k) c ≡ done b c''
    → (a : A) × (c' : Conn) × (m c ≡ done a c') × (k c' ≡ done b c'')
>>-eq-done m k c h = >>=-eq-done m (λ a. k) c h

pub lift-bind-eq-done {ℓ κ} :
    {A : Type ℓ} {B : Type κ} (r : Result A) (k : A → Io B) (c : Conn) {b : B} {c' : Conn}
    → (lift r >>= k) c ≡ done b c'
    → (a : A) × (r ≡ ok a) × (k a c ≡ done b c')
lift-bind-eq-done (ok a) k c h = (a, refl, h)
lift-bind-eq-done (err e) k c h = absurd (cc)

pub guard-eq-done :
    (t : Bool) (e : Error) (c : Conn) {u : Unit {0}} {c' : Conn}
    → guard t e c ≡ done u c'
    → (t ≡ false) × (c' ≡ c)
guard-eq-done true e c h = absurd (cc)
guard-eq-done false e c h = (refl, cc)

pub set_deadline_free : (c : Conn) → c.deadlines ≡ [] → set_deadline c ≡ done tt c
unfolding set_deadline pop_deadline
set_deadline_free c d = ap (λ ds. pop_deadline ds c) d
