-- ===== src/Clientrole/Backoff.antt =====
-- internal/clientrole/tcp_group.go: the delays between attempts, in nanoseconds.
use engarde.Shared.{
  ℕ, zero, suc, ◌+◌, ◌-◌, ◌*◌, ◌≡◌, ◌≤◌, ap, sym, ◌∙◌, if-cases, ◌/◌, ◌^◌, ltb, leb, arith,
  if◌then◌else◌, ◌⊎◌, inl, inr, refl,
}
use mathlib.Core.Path.{subst}
use native.Mathlib.Nat.{mul_assoc, pow-succ'}

abbrev pub tcp_session_retry_initial_delay : ℕ
tcp_session_retry_initial_delay = 100 * 1000000

abbrev pub tcp_session_retry_max_delay : ℕ
tcp_session_retry_max_delay = 5 * 1000 * 1000000

-- The loop of tcpSessionRetryDelay.
pub retry_loop : ℕ → ℕ → ℕ
retry_loop zero delay = delay
retry_loop (suc n) delay =
    let rest = retry_loop n (delay * 2) in
    if leb (tcp_session_retry_max_delay / 2) delay then tcp_session_retry_max_delay else rest

unfoldable pub tcp_session_retry_delay : ℕ → ℕ
unfolding retry_loop
tcp_session_retry_delay retry_count = retry_loop retry_count tcp_session_retry_initial_delay

-- The delay of a retry and the count after it.
unfoldable pub next_retry : ℕ → ℕ × ℕ
unfolding tcp_session_retry_delay
next_retry retry_count =
    let base = tcp_session_retry_delay retry_count in
    (base, if ltb base tcp_session_retry_max_delay then suc retry_count else retry_count)

unfoldable pub apply_jitter : ℕ → ℕ → ℕ
apply_jitter delay offset =
    let jittered = (delay - delay / 5) + offset in
    if ltb tcp_session_retry_max_delay jittered then tcp_session_retry_max_delay else jittered

double_pow : (x n : ℕ) → x * 2 ^ suc n ≡ (x * 2) * 2 ^ n
double_pow x n = ap (λ t. x * t) (pow-succ' 2 n) ∙ sym (mul_assoc x 2 (2 ^ n))

pow-grows : (n x : ℕ) → x ≤ x * 2 ^ n
pow-grows zero x = omega arith
pow-grows (suc n) x = omega (arith, double_pow x n, pow-grows n (x * 2))

-- The smaller of the two.
abbrev pub capped : ℕ → ℕ
capped x = if leb x tcp_session_retry_max_delay then x else tcp_session_retry_max_delay

capped-large : (x : ℕ) → tcp_session_retry_max_delay ≤ x → capped x ≡ tcp_session_retry_max_delay
capped-large x h = ground arith

retry_loop-capped :
    (n delay : ℕ)
    → delay ≤ tcp_session_retry_max_delay
    → retry_loop n delay ≡ capped (delay * 2 ^ n)
unfolding retry_loop
retry_loop-capped zero delay h = ground arith
retry_loop-capped (suc n) delay h =
    if-cases (λ r. r ≡ capped (delay * 2 ^ suc n)) (leb (tcp_session_retry_max_delay / 2) delay)
      (λ half. sym (
        capped-large (delay * 2 ^ suc n)
          (ground (arith, double_pow delay n, pow-grows n (delay * 2)))))
      (λ small.
        retry_loop-capped n (delay * 2) (ground arith) ∙ ap capped (sym (double_pow delay n)))

tcp_session_retry_delay-capped :
    (retry_count : ℕ)
    → tcp_session_retry_delay retry_count
      ≡ capped (tcp_session_retry_initial_delay * 2 ^ retry_count)
unfolding tcp_session_retry_delay
tcp_session_retry_delay-capped retry_count =
    retry_loop-capped retry_count tcp_session_retry_initial_delay (omega arith)

-- The retry count after so many failures in a row.
unfoldable pub failures : ℕ → ℕ
failures zero = 0
failures (suc n) = (next_retry (failures n)).1

-- The delay before jitter that is meant after so many failures.
abbrev pub meant : ℕ → ℕ
meant n = capped (tcp_session_retry_initial_delay * 2 ^ n)

meant-stays :
    (n : ℕ) → meant n ≡ tcp_session_retry_max_delay → meant (suc n) ≡ tcp_session_retry_max_delay
meant-stays n h = ground (
  arith,
  h,
  double_pow tcp_session_retry_initial_delay n,
  double_start,
  pow-grows n tcp_session_retry_initial_delay,
)
  where
    double_start :
        (tcp_session_retry_initial_delay * 2) * 2 ^ n
        ≡ 2 * (tcp_session_retry_initial_delay * 2 ^ n)
    double_start = omega arith

-- The count stops where the delay does.
Counted : ℕ → ℕ → Type 0
Counted n count =
    (count ≡ n)
    ⊎ ((tcp_session_retry_delay count ≡ tcp_session_retry_max_delay)
        × (meant n ≡ tcp_session_retry_max_delay))

next_retry-Counted : (n count : ℕ) → Counted n count → Counted (suc n) (next_retry count).1
unfolding Counted next_retry
next_retry-Counted n count (inl same) =
    if-cases (λ c. Counted (suc n) c)
      (ltb (tcp_session_retry_delay count) tcp_session_retry_max_delay) (λ grows. inl (ap suc same))
      (λ most.
        let delay : tcp_session_retry_delay count ≡ meant n =
          tcp_session_retry_delay-capped count ∙ ap meant same in
        let top : meant n ≡ tcp_session_retry_max_delay = ground (arith, delay) in
        inr (delay ∙ top, meant-stays n top))
next_retry-Counted n count (inr (over, most)) =
    if-cases (λ c. Counted (suc n) c)
      (ltb (tcp_session_retry_delay count) tcp_session_retry_max_delay)
      (λ grows. absurd (ground arith)) (λ stays. inr (over, meant-stays n most))

failures-Counted : (n : ℕ) → Counted n (failures n)
unfolding failures Counted
failures-Counted zero = inl refl
failures-Counted (suc n) = next_retry-Counted n (failures n) (failures-Counted n)

next_retry-failures : (n : ℕ) → (next_retry (failures n)).0 ≡ meant n
unfolding next_retry Counted
next_retry-failures n = elim (failures-Counted n) [
  | inl same ↦ tcp_session_retry_delay-capped (failures n) ∙ ap meant same
  | inr (over, most) ↦ over ∙ sym most
]

jittered-bounds :
    (base offset : ℕ)
    → base ≤ tcp_session_retry_max_delay
    → offset ≤ 2 * (base / 5)
    → (base - base / 5 ≤ apply_jitter base offset)
      × (apply_jitter base offset ≤ base + base / 5)
      × (apply_jitter base offset ≤ tcp_session_retry_max_delay)
unfolding apply_jitter
jittered-bounds base offset bound drawn = (ground arith, ground arith, ground arith)

-- With n failures in a row before the last one, and for any jitter that is drawn, the delay that is
-- waited is a tenth of a second, doubled n times and cut at five seconds, give or take a fifth; and
-- it is never more than five seconds.
pub apply_jitter-next_retry :
    (n offset : ℕ)
    → offset ≤ 2 * ((next_retry (failures n)).0 / 5)
    → (meant n - meant n / 5 ≤ apply_jitter (next_retry (failures n)).0 offset)
      × (apply_jitter (next_retry (failures n)).0 offset ≤ meant n + meant n / 5)
      × (apply_jitter (next_retry (failures n)).0 offset ≤ tcp_session_retry_max_delay)
apply_jitter-next_retry n offset =
    subst
      (λ base.
        offset ≤ 2 * (base / 5)
        → (meant n - meant n / 5 ≤ apply_jitter base offset)
          × (apply_jitter base offset ≤ meant n + meant n / 5)
          × (apply_jitter base offset ≤ tcp_session_retry_max_delay))
      (sym (next_retry-failures n)) (jittered-bounds (meant n) offset (ground arith))
