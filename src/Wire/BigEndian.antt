-- ===== src/Wire/BigEndian.antt =====
-- encoding/binary's BigEndian: `put w v` is PutUint16, PutUint32, PutUint64 at w = 2, 4, 8, and
-- `get` reads such a field back.
use engarde.Shared.{ℕ, zero, suc, ◌+◌, ◌*◌, ◌/◌, ◌%◌, ◌^◌, ◌<◌, ◌≡◌, List, [], ◌∷◌, arith}

abbrev pub put : ℕ → ℕ → List ℕ
put zero v = []
put (suc w) v = (v / 256 ^ w % 256) ∷ put w v

abbrev pub get_from : ℕ → List ℕ → ℕ
get_from acc [] = acc
get_from acc (b ∷ bs) = get_from (acc * 256 + b) bs

abbrev pub get : List ℕ → ℕ
get bs = get_from 0 bs

pub get-put_u16 : (v : ℕ) → v < 2 ^ 16 → get (put 2 v) ≡ v
get-put_u16 v h = omega arith

pub get-put_u32 : (v : ℕ) → v < 2 ^ 32 → get (put 4 v) ≡ v
get-put_u32 v h = omega arith

pub get-put_u64 : (v : ℕ) → v < 2 ^ 64 → get (put 8 v) ≡ v
get-put_u64 v h = omega arith
