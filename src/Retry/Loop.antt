-- ===== src/Retry/Loop.antt =====
-- `with_retry` of retry.py always ends, within its attempts, for the right reason.
use costpilot.Prelude.{
  ℕ, zero, suc, ◌+◌, ◌≤◌, ◌<◌, ◌≡◌, refl, ◌⊎◌, inl, inr, true, false, some, [], ◌∷◌, ◌++◌, arith,
  length, All, Bool-cases, ℕ_discrete,
}
use costpilot.Retry.{
  Exception, RetryConfig, RetryContext, Attempt, returned, failed, Ending, result, exhausted,
  Report, should_retry, is_retryable_csp_error, retry_loop, with_retry, calculate_delay, million,
}
use costpilot.Retry.Delay.{calculate_delay-le}

-- The test of the error in `should_retry`: the configuration lists its class, or the CSP heuristics
-- accept it.
abbrev pub IsAccepted : RetryConfig → Exception → Type 0
IsAccepted config e =
    (config.retryable_exceptions e.class ≡ true) ⊎ (is_retryable_csp_error e ≡ true)

abbrev pub IsRefused : RetryConfig → Exception → Type 0
IsRefused config e =
    (config.retryable_exceptions e.class ≡ false) × (is_retryable_csp_error e ≡ false)

should_retry-true :
    (c : RetryContext) (e : Exception)
    → should_retry c e ≡ true
    → (c.attempt < c.config.max_attempts) × IsAccepted c.config e
unfolding should_retry
should_retry-true c e h = ground arith

should_retry-false :
    (c : RetryContext) (e : Exception)
    → should_retry c e ≡ false
    → (c.config.max_attempts ≤ c.attempt) ⊎ IsRefused c.config e
unfolding should_retry
should_retry-false c e h = ground arith

module _ {ℓ} {A : Type ℓ} where
  -- The k-th call failed with an error that is accepted, and an attempt was left.
  abbrev pub IsRetried : RetryConfig → (ℕ → Attempt A) → ℕ → Type ℓ
  IsRetried config f k =
      (e : Exception) × (f k ≡ failed e) × (k < config.max_attempts) × IsAccepted config e

  -- Why the loop ended after the n-th call.
  abbrev pub Ended : RetryConfig → (ℕ → Attempt A) → ℕ → Ending A → Type ℓ
  Ended config f n (result a) = f n ≡ returned a
  Ended config f n (exhausted k e) =
      (f n ≡ failed e) × (k ≡ n) × ((config.max_attempts ≤ n) ⊎ IsRefused config e)

  pub record IsReport (config : RetryConfig) (f : ℕ → Attempt A) (start : ℕ) (r : Report A)
      : Type ℓ where
    pub called : start < r.attempts
    pub limited : (r.attempts ≡ start + 1) ⊎ (r.attempts ≤ config.max_attempts)
    pub earlier : (k : ℕ) → start < k → k < r.attempts → IsRetried config f k
    pub ended : Ended config f r.attempts r.ending
    pub slept : length r.sleeps + start + 1 ≡ r.attempts
    pub short : All (λ d. d ≤ config.max_delay) r.sleeps

  cases_at : (m : Attempt A) → ((a : A) × (m ≡ returned a)) ⊎ ((e : Exception) × (m ≡ failed e))
  cases_at (returned a) = inl (a, refl)
  cases_at (failed e) = inr (e, refl)

  stop :
      (f : ℕ → Attempt A) (c : RetryContext) (ending : Ending A)
      → Ended c.config f (c.attempt + 1) ending
      → IsReport c.config f c.attempt
          (record { ending = ending; attempts = c.attempt + 1; sleeps = [] })
  stop f c ending h = record {
    called = omega arith;
    limited = inl refl;
    earlier = λ k p q. absurd (omega arith);
    ended = h;
    slept = omega arith;
    short = tt;
  }

  go_on :
      (f : ℕ → Attempt A) (c : RetryContext) (e : Exception) (d : ℕ) (r : Report A)
      → IsRetried c.config f (c.attempt + 1)
      → d ≤ c.config.max_delay
      → IsReport c.config f (c.attempt + 1) r
      → IsReport c.config f c.attempt (record r { sleeps = d ∷ r.sleeps })
  go_on f c e d r (x, fx, room, t) short h = record {
    called = omega (arith, h.called);
    limited = inr (omega (arith, h.limited));
    earlier = λ k p q. elim (ℕ_discrete k (c.attempt + 1)) [
      | yes same ↦ rw same (x, fx, room, t)
      | no other ↦ h.earlier k (omega arith) q
    ];
    ended = h.ended;
    slept = omega (arith, h.slept);
    short = (short, h.short);
  }

  retry_loop-IsReport :
      (fuel : ℕ) (f : ℕ → Attempt A) (random : ℕ → ℕ) (c : RetryContext)
      → ((k : ℕ) → random k ≤ million)
      → 0 < fuel
      → c.config.max_attempts ≤ c.attempt + fuel
      → (r : Report A) × (retry_loop fuel f random c ≡ some r) × IsReport c.config f c.attempt r
  unfolding retry_loop
  retry_loop-IsReport zero f random c draws h k = absurd (omega arith)
  retry_loop-IsReport (suc fuel) f random c draws h k = elim (cases_at (f (c.attempt + 1))) [
    | inl (a, e) ↦ (_, rw (e, retry_loop), stop f c (result a) e)
    | inr (x, e) ↦
        let c' : RetryContext = record c { attempt = c.attempt + 1; errors = c.errors ++ x ∷ [] } in
        let d = calculate_delay c' (random (c.attempt + 1)) in
        elim (Bool-cases (should_retry c' x)) [
          | inl again ↦
              let (room, accepted) = should_retry-true c' x again in
              let (r, same, report) =
                retry_loop-IsReport fuel f random c' draws (omega arith) (omega arith) in
              (
                record r { sleeps = d ∷ r.sleeps },
                rw (e, again, same, retry_loop),
                go_on f c x d r (x, e, room, accepted)
                    (calculate_delay-le c' (random (c.attempt + 1)) (draws (c.attempt + 1))) report,
              )
          | inr over ↦ (
            _,
            rw (e, over, retry_loop),
            stop f c (exhausted (c.attempt + 1) x) (e, refl, should_retry-false c' x over),
          )
        ]
  ]

  -- `with_retry` always ends. It made at least one call and at most `max_attempts` (or one, if that
  -- is 0). Every call before the last failed with an error whose class the configuration lists or
  -- that the heuristics for CSP errors accept. The last returned the result, or failed at the last
  -- attempt or with an error for which neither holds. It slept between the calls, never longer than
  -- `max_delay`.
  pub with_retry-IsReport :
      (f : ℕ → Attempt A) (config : RetryConfig) (random : ℕ → ℕ)
      → ((k : ℕ) → random k ≤ million)
      → (r : Report A) × (with_retry f config random ≡ some r) × IsReport config f 0 r
  unfolding with_retry
  with_retry-IsReport f config random draws =
      retry_loop-IsReport (suc config.max_attempts) f random
        (record { config = config; attempt = 0; errors = [] }) draws (omega arith) (omega arith)
