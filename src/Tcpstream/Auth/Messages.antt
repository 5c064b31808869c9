-- ===== src/Tcpstream/Auth/Messages.antt =====
-- internal/tcpstream/auth.go: what a successful step of the exchange says.
use engarde.Shared.{ℕ, ◌≡◌, List, Option, none, some}
use engarde.Wire.{Conn, done}
use engarde.Tcpstream.Auth.{draw}

pub draw-eq-done :
    (random : Option (List ℕ)) (c : Conn) {bytes : List ℕ} {c' : Conn}
    → draw random c ≡ done bytes c'
    → (random ≡ some bytes) × (c' ≡ c)
unfolding draw
draw-eq-done none c h = absurd (cc)
draw-eq-done (some bytes) c h = (cc, cc)
