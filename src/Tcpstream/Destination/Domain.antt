-- ===== src/Tcpstream/Destination/Domain.antt =====
-- validDomain of internal/tcpstream/destination.go, and what NewDestination uses of package strings.
use engarde.Shared.{
  ℕ, ◌≤◌, ◌<◌, ◌≡◌, refl, ap, List, [], ◌∷◌, ◌++◌, Bool, true, false, not, ◌&&◌, ◌||◌, leb, ◌==◌,
  if◌then◌else◌, length, arith, ◌+◌,
}
use mathlib.Core.List.{reverse, reverse-cons}

-- A byte is a white space of ASCII.
is_space : ℕ → Bool
is_space b = b == 32 || (leb 9 b && leb b 13)

-- The text begins with a white space of Unicode, in UTF-8.
unfoldable pub space_first : List ℕ → Bool
unfolding is_space
space_first [] = false
space_first (b ∷ []) = is_space b
space_first (b ∷ c ∷ []) = is_space b || (b == 0xc2 && (c == 0x85 || c == 0xa0))
space_first (b ∷ c ∷ d ∷ r) =
    is_space b
    || (b == 0xc2 && (c == 0x85 || c == 0xa0))
    || (b == 0xe1 && c == 0x9a && d == 0x80)
    || (b == 0xe2
        && c == 0x80
        && ((leb 0x80 d && leb d 0x8a) || d == 0xa8 || d == 0xa9 || d == 0xaf))
    || (b == 0xe2 && c == 0x81 && d == 0x9f)
    || (b == 0xe3 && c == 0x80 && d == 0x80)

-- The same for the end of a text, given in reverse.
unfoldable pub space_last : List ℕ → Bool
unfolding is_space
space_last [] = false
space_last (b ∷ []) = is_space b
space_last (b ∷ c ∷ []) = is_space b || (c == 0xc2 && (b == 0x85 || b == 0xa0))
space_last (b ∷ c ∷ d ∷ r) =
    is_space b
    || (c == 0xc2 && (b == 0x85 || b == 0xa0))
    || (d == 0xe1 && c == 0x9a && b == 0x80)
    || (d == 0xe2
        && c == 0x80
        && ((leb 0x80 b && leb b 0x8a) || b == 0xa8 || b == 0xa9 || b == 0xaf))
    || (d == 0xe2 && c == 0x81 && b == 0x9f)
    || (d == 0xe3 && c == 0x80 && b == 0x80)

-- `host == strings.TrimSpace(host)`.
unfoldable pub is_trimmed : List ℕ → Bool
unfolding space_first space_last
is_trimmed host = not (space_first host) && not (space_last (reverse host))

-- strings.Contains with one byte.
unfoldable pub contains : ℕ → List ℕ → Bool
contains a [] = false
contains a (b ∷ bs) = b == a || contains a bs

-- strings.TrimSuffix(host, ".").
unfoldable pub trim_dot : List ℕ → List ℕ
trim_dot [] = []
trim_dot (b ∷ []) = if b == b'.' then [] else (b ∷ [])
trim_dot (b ∷ c ∷ r) = b ∷ trim_dot (c ∷ r)

lower : ℕ → ℕ
lower b = if leb b'A' b && leb b b'Z' then b + 32 else b

-- strings.ToLower. Two characters outside ASCII have a lower case in it: U+0130 (c4 b0) and U+212A
-- (e2 84 aa). The others stay here; validDomain refuses them in either case.
unfoldable pub to_lower : List ℕ → List ℕ
unfolding lower
to_lower [] = []
to_lower (b ∷ []) = lower b ∷ []
to_lower (b ∷ c ∷ []) =
    let plain = lower b ∷ to_lower (c ∷ []) in if b == 0xc4 && c == 0xb0 then b'i' ∷ [] else plain
to_lower (b ∷ c ∷ d ∷ r) =
    let dotted = b'i' ∷ to_lower (d ∷ r) in
    let kelvin = b'k' ∷ to_lower r in
    let plain = lower b ∷ to_lower (c ∷ d ∷ r) in
    if b == 0xc4 && c == 0xb0
    then dotted
    else if b == 0xe2 && c == 0x84 && d == 0xaa
    then kelvin
    else plain

cons_head : ℕ → List (List ℕ) → List (List ℕ)
cons_head b [] = (b ∷ []) ∷ []
cons_head b (l ∷ ls) = (b ∷ l) ∷ ls

-- strings.Split(host, ".").
split_dots : List ℕ → List (List ℕ)
unfolding cons_head
split_dots [] = [] ∷ []
split_dots (b ∷ bs) = if b == b'.' then [] ∷ split_dots bs else cons_head b (split_dots bs)

unfoldable pub every {ℓ} : {A : Type ℓ} → (A → Bool) → List A → Bool
every p [] = true
every p (x ∷ xs) = p x && every p xs

abbrev pub is_domain_char : ℕ → Bool
is_domain_char b = (leb b'a' b && leb b b'z') || (leb b'0' b && leb b b'9') || b == b'-'

last_or : ℕ → List ℕ → ℕ
last_or d [] = d
last_or d (b ∷ bs) = last_or b bs

valid_label : List ℕ → Bool
unfolding every last_or
valid_label [] = false
valid_label (b ∷ bs) =
    leb (length (b ∷ bs)) 63
    && not (b == b'-')
    && not (last_or b bs == b'-')
    && every is_domain_char (b ∷ bs)

unfoldable pub valid_domain : List ℕ → Bool
unfolding split_dots every valid_label
valid_domain host =
    not (length host == 0) && leb (length host) 253 && every valid_label (split_dots host)

abbrev pub is_dotted_char : ℕ → Bool
is_dotted_char b = b == b'.' || is_domain_char b

valid_label-every : (l : List ℕ) → valid_label l ≡ true → every is_domain_char l ≡ true
unfolding valid_label
valid_label-every [] h = unfold every in refl
valid_label-every (b ∷ bs) h = ground arith

every-cons_head :
    (b : ℕ) (ls : List (List ℕ))
    → every (every is_domain_char) (cons_head b ls) ≡ true
    → (is_domain_char b ≡ true) × (every (every is_domain_char) ls ≡ true)
unfolding every cons_head
every-cons_head b [] h = ground arith
every-cons_head b (l ∷ ls) h = ground arith

every-split :
    (xs : List ℕ)
    → every (every is_domain_char) (split_dots xs) ≡ true
    → every is_dotted_char xs ≡ true
unfolding split_dots every
every-split [] h = refl
every-split (b ∷ bs) h = ground (arith, every-split bs, every-cons_head b (split_dots bs))

every-labels :
    (ls : List (List ℕ)) → every valid_label ls ≡ true → every (every is_domain_char) ls ≡ true
unfolding every
every-labels [] h = refl
every-labels (l ∷ ls) h = ground (arith, valid_label-every l, every-labels ls)

valid_domain-every : (host : List ℕ) → valid_domain host ≡ true → every is_dotted_char host ≡ true
unfolding valid_domain
valid_domain-every host h = ground (arith, every-split host, every-labels (split_dots host))

-- What a text of domain characters and dots is spared.
pub every-contains : (xs : List ℕ) → every is_dotted_char xs ≡ true → contains b'%' xs ≡ false
unfolding every contains
every-contains [] h = refl
every-contains (b ∷ bs) h = ground (arith, every-contains bs)

dotted_char-lower :
    (b : ℕ)
    → is_dotted_char b ≡ true
    → (lower b ≡ b) × ((b == 0xc4) ≡ false) × ((b == 0xe2) ≡ false)
unfolding lower
dotted_char-lower b h = ground arith

every-cons :
    (p : ℕ → Bool) (b : ℕ) (bs : List ℕ)
    → every p (b ∷ bs) ≡ true
    → (p b ≡ true) × (every p bs ≡ true)
unfolding every
every-cons p b bs h = ground arith

every-to_lower : (xs : List ℕ) → every is_dotted_char xs ≡ true → to_lower xs ≡ xs
unfolding to_lower
every-to_lower [] h = refl
every-to_lower (b ∷ []) h =
    let (here, rest) = every-cons is_dotted_char b [] h in
    ap (λ t. t ∷ []) (dotted_char-lower b here).0
every-to_lower (b ∷ c ∷ []) h =
    let (here, rest) = every-cons is_dotted_char b (c ∷ []) h in
    let (low, plain, plain') = dotted_char-lower b here in
    let ih = every-to_lower (c ∷ []) rest in rw (plain, low) (ap (◌∷◌ b) ih)
every-to_lower (b ∷ c ∷ d ∷ r) h =
    let (here, rest) = every-cons is_dotted_char b (c ∷ d ∷ r) h in
    let (low, plain, plain') = dotted_char-lower b here in
    let ih = every-to_lower (c ∷ d ∷ r) rest in rw (plain, plain', low) (ap (◌∷◌ b) ih)

pub every-space_first : (xs : List ℕ) → every is_dotted_char xs ≡ true → space_first xs ≡ false
unfolding every space_first
every-space_first [] h = refl
every-space_first (b ∷ []) h = ground arith
every-space_first (b ∷ c ∷ []) h = ground arith
every-space_first (b ∷ c ∷ d ∷ r) h = ground arith

pub every-space_last : (xs : List ℕ) → every is_dotted_char xs ≡ true → space_last xs ≡ false
unfolding every space_last
every-space_last [] h = refl
every-space_last (b ∷ []) h = ground arith
every-space_last (b ∷ c ∷ []) h = ground arith
every-space_last (b ∷ c ∷ d ∷ r) h = ground arith

every-append :
    (p : ℕ → Bool) (xs ys : List ℕ)
    → every p xs ≡ true
    → every p ys ≡ true
    → every p (xs ++ ys) ≡ true
unfolding every
every-append p [] ys h k = k
every-append p (x ∷ xs) ys h k = ground (arith, every-append p xs ys)

pub every-reverse : (p : ℕ → Bool) (xs : List ℕ) → every p xs ≡ true → every p (reverse xs) ≡ true
unfolding every
every-reverse p [] h = refl
every-reverse p (x ∷ xs) h =
    rw (reverse-cons x xs)
      (ground (arith, every-append p (reverse xs) (x ∷ []), every-reverse p xs))

-- No label behind a dot is empty, so the text does not end in a dot.
abbrev rest_of : List (List ℕ) → List (List ℕ)
rest_of [] = []
rest_of (l ∷ ls) = ls

rest-cons_head : (b : ℕ) (ls : List (List ℕ)) → rest_of (cons_head b ls) ≡ rest_of ls
unfolding cons_head
rest-cons_head b [] = refl
rest-cons_head b (l ∷ ls) = refl

every-rest :
    (ls : List (List ℕ)) → every valid_label ls ≡ true → every valid_label (rest_of ls) ≡ true
unfolding every
every-rest [] h = refl
every-rest (l ∷ ls) h = ground arith

split-trim_dot :
    (xs : List ℕ) → every valid_label (rest_of (split_dots xs)) ≡ true → trim_dot xs ≡ xs
unfolding every split_dots trim_dot
split-trim_dot [] h = refl
split-trim_dot (b ∷ []) h = unfold valid_label cons_head in ground arith
split-trim_dot (b ∷ c ∷ r) h = ground (
  arith,
  split-trim_dot (c ∷ r),
  rest-cons_head b (split_dots (c ∷ r)),
  every-rest (split_dots (c ∷ r)),
)

-- A valid domain comes back from NewDestination's normalisation as it was, and passes its tests.
pub valid_domain-normal :
    (host : List ℕ)
    → valid_domain host ≡ true
    → (to_lower (trim_dot host) ≡ host)
      × (is_trimmed host ≡ true)
      × (contains b'%' host ≡ false)
      × (0 < length host)
      × (length host ≤ 253)
unfolding is_trimmed
valid_domain-normal host h =
    let chars = valid_domain-every host h in
    (
      rw (split-trim_dot host (every-rest (split_dots host) (unfold valid_domain in ground arith)))
          (every-to_lower host chars),
      ground (
        arith,
        every-space_first host chars,
        every-space_last (reverse host) (every-reverse is_dotted_char host chars),
      ),
      every-contains host chars,
      unfold valid_domain in ground arith,
      unfold valid_domain in ground arith,
    )
