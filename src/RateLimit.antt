-- ===== src/RateLimit.antt =====
-- `InMemoryRateLimiter` of backend/app/middleware/rate_limiter.py. `time.time()` is an argument, in
-- microseconds; a request's key is a text. Each call runs without a wait, so it is one step.
pub mod Middleware
pub mod Cleanup
pub mod History
mod Tests
use costpilot.Prelude.{
  ℕ, ◌+◌, ◌-◌, ◌*◌, ◌/◌, Bool, Option, none, some, List, [], ◌∷◌, ◌++◌, ltb, if◌then◌else◌, length,
  select, min,
}
use costpilot.Text.{Text}
use costpilot.Text.Laws.{text_instance}
use costpilot.Dict

pub data RateLimitTier : Type 0 where
  public authenticated expensive export webhook : RateLimitTier

unfoldable pub tier_requests : RateLimitTier → ℕ
tier_requests public = 30
tier_requests authenticated = 100
tier_requests expensive = 10
tier_requests export = 5
tier_requests webhook = 1000

-- microseconds in a second
abbrev pub second : ℕ
second = 1_000_000

-- in seconds
unfoldable pub tier_window : RateLimitTier → ℕ
tier_window export = 300
tier_window public = 60
tier_window authenticated = 60
tier_window expensive = 60
tier_window webhook = 60

pub record Limiter : Type 0 where
  pub requests : List (Text × List ℕ)
  pub last_cleanup : ℕ

pub record Headers : Type 0 where
  pub limit : ℕ
  pub remaining : ℕ
  pub reset : ℕ
  pub retry_after : ℕ

unfoldable pub init : ℕ → Limiter
init now = record { requests = []; last_cleanup = now }

-- `now - t < window`, with the subtraction carried over
abbrev pub within : ℕ → ℕ → ℕ → Bool
within window now t = ltb now (t + window)

abbrev pub keep_entry : Text → List ℕ → List (Text × List ℕ) → List (Text × List ℕ)
keep_entry k [] rest = rest
keep_entry k (t ∷ ts) rest = (k, t ∷ ts) ∷ rest

-- the loop of `_cleanup_old_entries`: one hour is kept, and a key with nothing left goes
unfoldable pub cleanup_entries : ℕ → List (Text × List ℕ) → List (Text × List ℕ)
cleanup_entries now [] = []
cleanup_entries now ((k, ts) ∷ d) =
    keep_entry k (select (within (3600 * second) now) ts) (cleanup_entries now d)

unfoldable pub cleanup_old_entries : Limiter → ℕ → Limiter
unfolding cleanup_entries
cleanup_old_entries l now =
    if ltb now (l.last_cleanup + 300 * second)
    then l
    else record { requests = cleanup_entries now l.requests; last_cleanup = now }

abbrev pub times_or_nil : Option (List ℕ) → List ℕ
times_or_nil none = []
times_or_nil (some ts) = ts

-- The times that are stored for a key; `[]` is what a missing key is set to.
unfoldable pub stored : Text → List (Text × List ℕ) → List ℕ
stored key d = times_or_nil (Dict.get key d)

minimum : ℕ → List ℕ → ℕ
minimum m [] = m
minimum m (t ∷ ts) = minimum (min m t) ts

-- `int(min(ts) + window - now)`, and at least 0
retry_after_of : List ℕ → ℕ → ℕ → ℕ
unfolding minimum
retry_after_of [] window now = 0
retry_after_of (t ∷ ts) window now = (minimum t ts + window - now) / second

unfoldable pub is_allowed : Limiter → Text → RateLimitTier → ℕ → ℕ → Limiter × (Bool × Headers)
unfolding cleanup_old_entries retry_after_of stored
is_allowed l key tier burst now =
    let l' = cleanup_old_entries l now in
    let window = tier_window tier * second in
    let limit = tier_requests tier + burst in
    let recent = select (within window now) (stored key l'.requests) in
    let current_count = length recent in
    let allowed = ltb current_count limit in
    let times = recent ++ now ∷ [] in
    (
      record l' { requests = Dict.set key times l'.requests },
      (
        allowed,
        record {
          limit = limit;
          remaining = limit - current_count - 1;
          reset = (now + window) / second;
          retry_after = if allowed then 0 else retry_after_of times window now;
        },
      ),
    )
