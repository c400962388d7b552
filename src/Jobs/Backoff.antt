-- ===== src/Jobs/Backoff.antt =====
-- When a delivery that failed is tried again (packages/repository-jobs/src/delivery.ts,
-- `nextDeliveryAttempt`). `attempts - 1` stops at 0, as `Math.max(0, attempts - 1)` does.
use Prim.Native.Nat.{ℕ, ◌+◌, ◌-◌, ◌*◌, ◌^◌, ◌≤◌, min}
use stack_lens.Base.Tests.{◌≡◌, arith}
use native.Mathlib.Nat.{one-le-pow, pow-le-pow_right}

abbrev pub delivery_retry_base_ms : ℕ
delivery_retry_base_ms = 1000

abbrev pub delivery_retry_max_ms : ℕ
delivery_retry_max_ms = 60000

unfoldable pub next_delivery_attempt : ℕ → ℕ → ℕ
next_delivery_attempt attempts now =
    now + min (delivery_retry_base_ms * 2 ^ (attempts - 1)) delivery_retry_max_ms

-- The next attempt comes between one second and one minute after the failure, no earlier for more
-- attempts, and exactly a minute after it from the seventh attempt on.
pub next_delivery_attempt_bounds :
    (attempts more now : ℕ)
    → (now + 1000 ≤ next_delivery_attempt attempts now)
      × (next_delivery_attempt attempts now ≤ now + 60000)
      × (next_delivery_attempt attempts now ≤ next_delivery_attempt (attempts + more) now)
      × (next_delivery_attempt (7 + attempts) now ≡ now + 60000)
unfolding next_delivery_attempt
next_delivery_attempt_bounds attempts more now =
    let least : 1 ≤ 2 ^ (attempts - 1) = one-le-pow (attempts - 1) 2 (omega arith) in
    let grows : 2 ^ (attempts - 1) ≤ 2 ^ (attempts + more - 1) =
      pow-le-pow_right (omega arith) (omega arith) in
    let high : 2 ^ 6 ≤ 2 ^ (7 + attempts - 1) =
      pow-le-pow_right {n = 2} (omega arith) {i = 6} (omega arith) in
    (omega arith, omega arith, omega arith, omega arith)
