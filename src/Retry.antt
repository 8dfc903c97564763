-- ===== src/Retry.antt =====
-- Retries with exponential backoff: backend/app/shared/retry.py. Delays are whole milliseconds, the
-- exponential base is a whole number and `random.random()` gives parts of a million. An exception is
-- what the module reads of it: its class, its status codes, its AWS error code and its text.
pub mod Loop
pub mod Delay
pub mod Retryable
mod Tests
use costpilot.Prelude.{
  ℕ, zero, suc, ◌+◌, ◌-◌, ◌*◌, ◌/◌, ◌^◌, min, Bool, true, false, ◌||◌, Option, none, some, List, [],
  ◌∷◌, ◌++◌, leb, nat_beq, if◌then◌else◌, any,
}
use costpilot.Text.{Text, codes, contains, lower, elem}

-- The exception classes that the module tells apart; `CloudProviderException` has its flag, and
-- `sdk_exception` is the cloud SDK's own class that the module imports (`BotoClientError`,
-- `AzureHttpResponseError`, `GoogleAPIError`).
pub data ErrorClass : Type 0 where
  connection_error timeout_error rate_limit_exception sdk_exception other_exception : ErrorClass
  cloud_provider_exception : Bool → ErrorClass

-- `e.response` of a boto3 ClientError: its HTTP status and its error code
pub record AwsResponse : Type 0 where
  pub http_status : Option ℕ
  pub error_code : Text

pub record Exception : Type 0 where
  pub class : ErrorClass
  pub status_code : Option ℕ
  pub response : Option AwsResponse
  pub message : Text

unfoldable pub retryable_status : ℕ → Bool
retryable_status n = any (nat_beq n) (429 ∷ 500 ∷ 502 ∷ 503 ∷ 504 ∷ [])

abbrev retryable_aws_codes : List Text
retryable_aws_codes =
    codes "ThrottlingException"
    ∷ codes "Throttling"
    ∷ codes "RequestLimitExceeded"
    ∷ codes "ServiceUnavailable"
    ∷ codes "InternalError"
    ∷ codes "SlowDown"
    ∷ codes "RequestTimeout"
    ∷ codes "PriorRequestNotComplete"
    ∷ []

-- a status that is `None` or 0 is no status
status_retryable : Option ℕ → Bool
unfolding retryable_status
status_retryable none = false
status_retryable (some n) = retryable_status n

response_retryable : Option AwsResponse → Bool
unfolding status_retryable elem
response_retryable none = false
response_retryable (some r) =
    status_retryable r.http_status || elem r.error_code retryable_aws_codes

message_retryable : Text → Bool
unfolding contains lower
message_retryable m =
    any (contains (lower m))
      (codes "429" ∷ codes "rate limit" ∷ codes "too many requests" ∷ codes "throttl" ∷ [])

by_details : Exception → Bool
unfolding status_retryable response_retryable message_retryable
by_details e =
    status_retryable e.status_code || (response_retryable e.response || message_retryable e.message)

by_class : ErrorClass → Exception → Bool
unfolding by_details
by_class connection_error e = true
by_class timeout_error e = true
by_class (cloud_provider_exception retryable) e = retryable
by_class rate_limit_exception e = by_details e
by_class sdk_exception e = by_details e
by_class other_exception e = by_details e

unfoldable pub is_retryable_csp_error : Exception → Bool
unfolding by_class
is_retryable_csp_error e = by_class e.class e

-- `retryable_exceptions` is the test `isinstance(error, ...)`.
pub record RetryConfig : Type 0 where
  pub max_attempts : ℕ
  pub base_delay : ℕ
  pub max_delay : ℕ
  pub exponential_base : ℕ
  pub jitter : Bool
  pub retryable_exceptions : ErrorClass → Bool

pub record RetryContext : Type 0 where
  pub config : RetryConfig
  pub attempt : ℕ
  pub errors : List Exception

unfoldable pub should_retry : RetryContext → Exception → Bool
should_retry c e =
    if leb c.config.max_attempts c.attempt
    then false
    else (if c.config.retryable_exceptions e.class then true else is_retryable_csp_error e)

last_error : List Exception → Option Exception
last_error [] = none
last_error (e ∷ []) = some e
last_error (e ∷ f ∷ es) = last_error (f ∷ es)

is_rate_limit : Option Exception → Bool
unfolding contains lower
is_rate_limit none = false
is_rate_limit (some e) =
    contains e.message (codes "429")
    || (contains e.message (codes "Too many requests")
        || contains (lower e.message) (codes "rate limit"))

-- `5.0 * 2.0 ** (attempt - 1)` seconds after a rate limit, else the configured backoff
unfoldable pub backoff : RetryContext → ℕ
unfolding is_rate_limit last_error
backoff c =
    if is_rate_limit (last_error c.errors)
    then 5000 * 2 ^ (c.attempt - 1)
    else c.config.base_delay * c.config.exponential_base ^ (c.attempt - 1)

abbrev million : ℕ
million = 1_000_000

-- `delay * (0.75 + random.random() * 0.25)`
unfoldable pub calculate_delay : RetryContext → ℕ → ℕ
calculate_delay c random =
    let delay = min (backoff c) c.config.max_delay in
    if c.config.jitter then delay * (3 * million + random) / (4 * million) else delay

-- What one call of the function does.
pub data Attempt {ℓ} (A : Type ℓ) : Type ℓ where
  returned : A → Attempt A
  failed : Exception → Attempt A

-- How `with_retry` ends: the result, or `RetryExhaustedError` with the attempts and the last error.
pub data Ending {ℓ} (A : Type ℓ) : Type ℓ where
  result : A → Ending A
  exhausted : ℕ → Exception → Ending A

pub record Report {ℓ} (A : Type ℓ) : Type ℓ where
  pub ending : Ending A
  pub attempts : ℕ
  pub sleeps : List ℕ

module _ {ℓ} {A : Type ℓ} where
  add_sleep : ℕ → Option (Report A) → Option (Report A)
  add_sleep delay none = none
  add_sleep delay (some r) = some (record r { sleeps = delay ∷ r.sleeps })

  -- The `while True` of `with_retry`, with fuel. `f` gives what the function does at its k-th call,
  -- `random` the draw after that call.
  unfoldable pub retry_loop : ℕ → (ℕ → Attempt A) → (ℕ → ℕ) → RetryContext → Option (Report A)
  unfolding add_sleep
  retry_loop zero f random c = none
  retry_loop (suc fuel) f random c =
      let attempt = c.attempt + 1 in
      elim (f attempt) [
        | returned a ↦ some (record { ending = result a; attempts = attempt; sleeps = [] })
        | failed e ↦
            let c' : RetryContext = record c { attempt = attempt; errors = c.errors ++ e ∷ [] } in
            let again =
              add_sleep (calculate_delay c' (random attempt)) (retry_loop fuel f random c') in
            if should_retry c' e
            then again
            else some (record { ending = exhausted attempt e; attempts = attempt; sleeps = [] })
      ]

  -- Fuel for `max_attempts` calls and one more: with no attempts allowed there is still one call.
  unfoldable pub with_retry : (ℕ → Attempt A) → RetryConfig → (ℕ → ℕ) → Option (Report A)
  unfolding retry_loop
  with_retry f config random =
      retry_loop (suc config.max_attempts) f random
        (record { config = config; attempt = 0; errors = [] })
