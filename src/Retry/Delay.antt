-- ===== src/Retry/Delay.antt =====
-- The delays of retry.py lie between three quarters of the backoff and the backoff, capped.
use native.Mathlib.Nat.{mul-le-mul_left}
use costpilot.Prelude.{
  ℕ, ◌+◌, ◌*◌, ◌/◌, ◌≤◌, ◌<◌, ◌≡◌, refl, min, true, false, Bool, arith, if◌then◌else◌,
}
use costpilot.Retry.{RetryContext, backoff, calculate_delay, million}

jittered : (d r : ℕ) → r ≤ million → d * (3 * million + r) / (4 * million) ≤ d
jittered d r h = omega (arith, mul-le-mul_left d h)

jittered_low : (d r : ℕ) → 3 * d < 4 * (d * (3 * million + r) / (4 * million) + 1)
jittered_low d r = omega arith

jitter_bounds :
    (jitter : Bool) (d random : ℕ)
    → random ≤ million
    → let delay = (if jitter then d * (3 * million + random) / (4 * million) else d) in
      (delay ≤ d) × (if jitter then 3 * d < 4 * (delay + 1) else (delay ≡ d))
jitter_bounds true d random h = (jittered d random h, jittered_low d random)
jitter_bounds false d random h = (omega arith, refl)

-- A delay is at most the backoff and at most the configured maximum; with the jitter on it is more
-- than three quarters of the capped backoff, to the millisecond, and with the jitter off equal to it.
pub calculate_delay-bounds :
    (c : RetryContext) (random : ℕ)
    → random ≤ million
    → let capped = min (backoff c) c.config.max_delay in
      (calculate_delay c random ≤ capped)
      × (if c.config.jitter
          then 3 * capped < 4 * (calculate_delay c random + 1)
          else (calculate_delay c random ≡ capped))
unfolding calculate_delay
calculate_delay-bounds c random h =
    jitter_bounds c.config.jitter (min (backoff c) c.config.max_delay) random h

pub calculate_delay-le :
    (c : RetryContext) (random : ℕ)
    → random ≤ million
    → calculate_delay c random ≤ c.config.max_delay
calculate_delay-le c random h = omega (arith, (calculate_delay-bounds c random h).0)
