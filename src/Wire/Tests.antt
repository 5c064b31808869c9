-- ===== src/Wire/Tests.antt =====
-- A run of writeFull on a connection that takes three bytes and then fails.
use engarde.Shared.{ℕ, List, [], ◌∷◌, ◌≡◌, refl}
use engarde.Wire.{Conn, closed, accepts, fails, fail, write_failed, write_full}

abbrev slow_conn : Conn
slow_conn = record {
  input = [];
  at_end = closed;
  output = 9 ∷ [];
  writes = accepts 2 ∷ fails 1 ∷ [];
  deadlines = [];
}

abbrev four_bytes : List ℕ
four_bytes = 1 ∷ 2 ∷ 3 ∷ 4 ∷ []

three_sent :
    write_full four_bytes slow_conn
    ≡ fail write_failed (record slow_conn { output = 9 ∷ 1 ∷ 2 ∷ 3 ∷ []; writes = [] })
unfolding write_full
three_sent = refl
