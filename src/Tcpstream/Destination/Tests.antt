-- ===== src/Tcpstream/Destination/Tests.antt =====
-- The theorems about destinations, with a `Netip` that writes an address as `4` or `6` and two letters
-- for each byte.
use engarde.Shared.{
  ℕ, ◌+◌, ◌-◌, ◌*◌, ◌/◌, ◌%◌, ◌<◌, ◌≤◌, ◌≡◌, refl, ap, List, [], ◌∷◌, ◌++◌, Bool, true, false, ◌&&◌,
  not, Option, none, some, ltb, ◌==◌, if◌then◌else◌, length, All, bytes_eq, bytes_eq_refl, arith,
  Bool-cases, inl, inr,
}
use mathlib.Core.Path.{subst}
use mathlib.Core.List.{reverse}
use engarde.Wire.{ok}
use engarde.Tcpstream.Destination.{
  Address, v4, v6, IsAddress, Netip, Destination, ipv4_type, domain_type, new_destination, encode,
  decode_destination, is_host_port,
}
use engarde.Tcpstream.Destination.Domain.{
  every, is_dotted_char, every-space_first, every-space_last, every-reverse, every-contains,
  is_trimmed, contains, trim_dot, to_lower, valid_domain,
}
use engarde.Tcpstream.Destination.Canonical.{NetipLaws, IsCanonical, new_destination-IsCanonical}
use engarde.Tcpstream.Destination.RoundTrip.{decode-encode, decode_trailing_dot}

unfoldable letters : List ℕ → List ℕ
letters [] = []
letters (x ∷ xs) = (x / 16 + 97) ∷ (x % 16 + 97) ∷ letters xs

unfoldable numbers : List ℕ → List ℕ
numbers [] = []
numbers (h ∷ []) = []
numbers (h ∷ l ∷ r) = ((h - 97) * 16 + (l - 97)) ∷ numbers r

unfoldable all_bytes : List ℕ → Bool
all_bytes [] = true
all_bytes (x ∷ xs) = ltb x 256 && all_bytes xs

unfoldable of_bytes : List ℕ → List ℕ → Option Address
of_bytes b text =
    if not (all_bytes b && bytes_eq (letters b) text)
    then none
    else if length b == 4
    then some (v4 b)
    else if length b == 16
    then some (v6 b)
    else none

-- The kind of an address is told by its length.
unfoldable read_text : List ℕ → Option Address
read_text [] = none
read_text (c ∷ text) = if c == b'x' then of_bytes (numbers text) text else none

unfoldable text_of : Address → List ℕ
text_of (v4 b) = b'x' ∷ letters b
text_of (v6 b) = b'x' ∷ letters b

abbrev lettered : Netip
lettered = record { parse_addr = read_text; addr_string = text_of }

numbers-letters : (b : List ℕ) → All (λ x. x < 256) b → numbers (letters b) ≡ b
unfolding numbers letters
numbers-letters [] h = refl
numbers-letters (x ∷ xs) (h, hs) = λ i. (low i) ∷ numbers-letters xs hs i
  where
    low : ((x / 16 + 97) - 97) * 16 + ((x % 16 + 97) - 97) ≡ x
    low = omega arith

All-all_bytes : (b : List ℕ) → All (λ x. x < 256) b → all_bytes b ≡ true
unfolding all_bytes
All-all_bytes [] h = refl
All-all_bytes (x ∷ xs) (h, hs) = ground (arith, All-all_bytes xs hs)

all_bytes-All : (b : List ℕ) → all_bytes b ≡ true → All (λ x. x < 256) b
unfolding all_bytes
all_bytes-All [] h = tt
all_bytes-All (x ∷ xs) h = (ground arith, all_bytes-All xs (ground arith))

every-letters : (b : List ℕ) → All (λ x. x < 256) b → every is_dotted_char (letters b) ≡ true
unfolding every letters
every-letters [] h = refl
every-letters (x ∷ xs) (h, hs) =
    let high : x / 16 ≤ 15 = omega arith in let rest = every-letters xs hs in ground arith

every-text : (b : List ℕ) → All (λ x. x < 256) b → every is_dotted_char (b'x' ∷ letters b) ≡ true
unfolding every
every-text b h = ground (arith, every-letters b h)

text-IsTrimmed : (xs : List ℕ) → every is_dotted_char xs ≡ true → is_trimmed xs ≡ true
unfolding is_trimmed
text-IsTrimmed xs h = ground (
  arith,
  every-space_first xs h,
  every-space_last (reverse xs) (every-reverse is_dotted_char xs h),
)

abbrev address_of : Address → Option Address → Address
address_of a none = a
address_of a (some b) = b

of_bytes-IsAddress : (b text : List ℕ) (a : Address) → of_bytes b text ≡ some a → IsAddress a
unfolding of_bytes
of_bytes-IsAddress b text a h = elim (Bool-cases (all_bytes b && bytes_eq (letters b) text)) [
  | inr e ↦ absurd (ground arith)
  | inl e ↦
      let bytes = all_bytes-All b (ground arith) in
      elim (Bool-cases (length b == 4)) [
        | inl four ↦
            let made : some (v4 b) ≡ some a = ground arith in
            let good : IsAddress (v4 b) = (ground arith, bytes) in
            subst IsAddress (ap (address_of a) made) good
        | inr other ↦ elim (Bool-cases (length b == 16)) [
          | inl long ↦
              let made : some (v6 b) ≡ some a = ground arith in
              let good : IsAddress (v6 b) = (ground arith, bytes) in
              subst IsAddress (ap (address_of a) made) good
          | inr none_of ↦ absurd (ground arith)
        ]
      ]
]

read_text-IsAddress : (h : List ℕ) (a : Address) → read_text h ≡ some a → IsAddress a
unfolding read_text
read_text-IsAddress [] a e = absurd (ground arith)
read_text-IsAddress (c ∷ text) a e = elim (Bool-cases (c == b'x')) [
  | inl here ↦ of_bytes-IsAddress (numbers text) text a (ground arith)
  | inr other ↦ absurd (ground arith)
]

read_text-text_of : (a : Address) → IsAddress a → read_text (text_of a) ≡ some a
unfolding read_text text_of of_bytes
read_text-text_of (v4 b) (len, bytes) =
    rw (numbers-letters b bytes) (ground (arith, All-all_bytes b bytes, bytes_eq_refl (letters b)))
read_text-text_of (v6 b) (len, bytes) =
    rw (numbers-letters b bytes) (ground (arith, All-all_bytes b bytes, bytes_eq_refl (letters b)))

every-text_of : (a : Address) → IsAddress a → every is_dotted_char (text_of a) ≡ true
unfolding text_of
every-text_of (v4 b) h = every-text b h.1
every-text_of (v6 b) h = every-text b h.1

text_of_some : (a : Address) → bytes_eq (text_of a) [] ≡ false
unfolding text_of bytes_eq
text_of_some (v4 b) = refl
text_of_some (v6 b) = refl

lettered-NetipLaws : NetipLaws lettered
lettered-NetipLaws = record {
  parse-string = read_text-text_of;
  string_nonempty = λ a h. text_of_some a;
  string_trimmed = λ a h. text-IsTrimmed (text_of a) (every-text_of a h);
  string_no_zone = λ a h. every-contains (text_of a) (every-text_of a h);
  parse-IsAddress = read_text-IsAddress;
}

-- `Ab.c.`
abbrev host : List ℕ
host = b'A' ∷ b'b' ∷ b'.' ∷ b'c' ∷ b'.' ∷ []

abbrev named : Destination
named = record { type_code = domain_type; host = b'a' ∷ b'b' ∷ b'.' ∷ b'c' ∷ []; port = 443 }

host_made : new_destination lettered host 443 ≡ ok named
unfolding new_destination is_host_port bytes_eq is_trimmed contains to_lower trim_dot valid_domain
    read_text
host_made = refl

new_destination-IsCanonical_example :
    IsCanonical lettered named × (named.port ≡ named.port) × (0 < 443)
new_destination-IsCanonical_example =
    new_destination-IsCanonical lettered lettered-NetipLaws host 443 named host_made

decode-encode_example :
    (bytes : List ℕ) × (encode lettered named ≡ ok bytes)
    × (decode_destination lettered bytes ≡ ok named)
decode-encode_example =
    decode-encode lettered lettered-NetipLaws host 443 named host_made (omega arith)
      (λ h. unfold read_text in refl)

abbrev four : List ℕ
four = 1 ∷ 2 ∷ 3 ∷ 4 ∷ []

-- The text of an address and a dot.
abbrev dotted : List ℕ
dotted = letters four ++ (b'.' ∷ [])

dotted_fine : is_host_port (b'x' ∷ dotted) 443 ≡ true
unfolding is_host_port bytes_eq is_trimmed contains letters
dotted_fine = refl

dotted_valid : valid_domain (to_lower (trim_dot (b'x' ∷ dotted))) ≡ true
unfolding valid_domain to_lower trim_dot letters
dotted_valid = refl

dotted_read : read_text (to_lower (trim_dot (b'x' ∷ dotted))) ≡ some (v4 four)
unfolding read_text of_bytes numbers letters all_bytes bytes_eq to_lower trim_dot
dotted_read = refl

decode_trailing_dot_example :
    (d d' : Destination) × (bytes : List ℕ) × (new_destination lettered (b'x' ∷ dotted) 443 ≡ ok d)
    × (d.type_code ≡ domain_type)
    × (encode lettered d ≡ ok bytes)
    × (decode_destination lettered bytes ≡ ok d')
    × (d'.type_code ≡ ipv4_type)
decode_trailing_dot_example =
    decode_trailing_dot lettered lettered-NetipLaws (b'x' ∷ dotted) four 443 dotted_fine
      (unfold read_text of_bytes numbers letters all_bytes bytes_eq in refl) dotted_valid
      (dotted_read) (omega arith) (omega arith)
