-- ===== src/Consumer/Waits.antt =====
-- consumer.ts: how long the loop and a failed task wait.
use native.Mathlib.Nat.{pow-succ', pow-le-pow_right, mul_left_comm, mul-le-mul_left, one-le-pow}
use mathlib.Core.Path.{ap}
use framework_module_resizer.Prelude.{
  ℕ, zero, suc, ◌+◌, ◌-◌, ◌*◌, ◌^◌, ◌≤◌, min, max, ◌≡◌, refl, ◌∙◌, arith,
}
use framework_module_resizer.Consumer.{QueueTiming, backoff_ms, claim_error_wait}

double : (n : ℕ) → 2 ^ (n + 1) ≡ 2 * 2 ^ n
double n = let e : n + 1 ≡ suc n = omega arith in ap (λ k. 2 ^ k) e ∙ pow-succ' 2 n

double_times : (b n : ℕ) → b * 2 ^ (n + 1) ≡ 2 * (b * 2 ^ n)
double_times b n = rw (double n, mul_left_comm b 2 (2 ^ n)) refl

backoff_at :
    (timing : QueueTiming) (n : ℕ)
    → backoff_ms (n + 1) timing ≡ min timing.backoff_max (timing.backoff_base * 2 ^ n)
unfolding backoff_ms
backoff_at timing n =
    let e : max 1 (n + 1) - 1 ≡ n = omega arith in
    ap (λ k. min timing.backoff_max (timing.backoff_base * 2 ^ k)) e

backoff_zero : (timing : QueueTiming) → backoff_ms 0 timing ≡ backoff_ms 1 timing
unfolding backoff_ms
backoff_zero timing = refl

bounded : (timing : QueueTiming) (n : ℕ) → backoff_ms n timing ≤ timing.backoff_max
unfolding backoff_ms
bounded timing n = omega arith

factor : ℕ → ℕ
factor n = min (2 ^ (n - 1)) 10

factor_at : (n : ℕ) → factor (n + 1) ≡ min (2 ^ n) 10
unfolding factor
factor_at n = let e : n + 1 - 1 ≡ n = omega arith in ap (λ k. min (2 ^ k) 10) e

factor-suc : (n : ℕ) → factor (suc n) ≡ min (2 ^ n) 10
factor-suc n = let e : suc n ≡ n + 1 = omega arith in ap factor e ∙ factor_at n

factor-zero : factor 0 ≤ 1
unfolding factor
factor-zero = omega arith

factor_grows : (n : ℕ) → factor n ≤ factor (n + 1)
factor_grows zero = rw (factor_at 0) factor-zero
factor_grows (suc n) =
    let e : suc n ≡ n + 1 = omega arith in
    rw (factor-suc n, ap (λ k. factor (k + 1)) e, factor_at (n + 1))
      (let d = double n in omega arith)

factor_bounds : (n : ℕ) → (1 ≤ factor n) × (factor n ≤ 10)
unfolding factor
factor_bounds n =
    let e : 1 ≤ 2 ^ (n - 1) = one-le-pow (n - 1) 2 (omega arith) in (omega arith, omega arith)

factor_full : (n : ℕ) → factor (n + 5) ≡ 10
factor_full n =
    let e : n + 5 ≡ n + 4 + 1 = omega arith in
    let e' : 2 ^ 4 ≤ 2 ^ (n + 4) =
      pow-le-pow_right (omega arith) {i = 4} {j = n + 4} (omega arith) in
    ap factor e ∙ factor_at (n + 4) ∙ (omega arith)

-- The delay before a retry is at first the base, then doubles with every delivery, and never exceeds
-- the maximum.
pub backoff-doubles :
    (timing : QueueTiming) (attempts : ℕ)
    → (backoff_ms 1 timing ≡ min timing.backoff_max timing.backoff_base)
      × (backoff_ms (attempts + 2) timing
          ≡ min timing.backoff_max (2 * backoff_ms (attempts + 1) timing))
      × (backoff_ms attempts timing ≤ timing.backoff_max)
      × (backoff_ms attempts timing ≤ backoff_ms (attempts + 1) timing)
backoff-doubles timing attempts = (
  rw (backoff_at timing 0) (omega arith),
  let i : attempts + 2 ≡ attempts + 1 + 1 = omega arith in
      rw (i, backoff_at timing (attempts + 1), backoff_at timing attempts)
        (let e = double_times timing.backoff_base attempts in omega arith),
  bounded timing attempts,
  grows attempts,
)
  where
    grows : (n : ℕ) → backoff_ms n timing ≤ backoff_ms (n + 1) timing
    grows zero = rw (backoff_zero timing) (omega arith)
    grows (suc n) =
        let s : suc n ≡ n + 1 = omega arith in
        rw (s, backoff_at timing n, backoff_at timing (n + 1))
          (let e = double_times timing.backoff_base n in omega arith)

-- After `n` claims in a row have failed, the loop waits at least one poll interval and at most ten,
-- never less than after fewer failures, and the full ten from the fifth failure on.
pub claim_error_wait-bounds :
    (timing : QueueTiming) (n : ℕ)
    → (timing.idle_poll_ms ≤ claim_error_wait timing n)
      × (claim_error_wait timing n ≤ 10 * timing.idle_poll_ms)
      × (claim_error_wait timing n ≤ claim_error_wait timing (n + 1))
      × (claim_error_wait timing (n + 5) ≡ 10 * timing.idle_poll_ms)
unfolding claim_error_wait factor
claim_error_wait-bounds timing n = (
  let p = mul-le-mul_left timing.idle_poll_ms (factor_bounds n).0 in omega arith,
  let p = mul-le-mul_left timing.idle_poll_ms (factor_bounds n).1 in omega arith,
  mul-le-mul_left timing.idle_poll_ms (factor_grows n),
  rw (factor_full n) (omega arith),
)
