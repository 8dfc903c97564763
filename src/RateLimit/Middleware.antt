-- ===== src/RateLimit/Middleware.antt =====
-- `RateLimitMiddleware` of rate_limiter.py. A Redis limiter is a parameter: for a key, a tier and a
-- time it gives its answer, or nothing where it raises. `sha256(...).hexdigest()[:16]` is a function.
use costpilot.Prelude.{
  ℕ, Bool, true, false, not, ◌&&◌, ◌≡◌, Option, none, some, [], ◌∷◌, ◌++◌, any, if◌then◌else◌,
}
use costpilot.Text.{Text, codes, contains, starts_with, elem, upper, rstrip_char}
use costpilot.RateLimit.{
  RateLimitTier, public, authenticated, expensive, export, webhook, Limiter, Headers, is_allowed,
}

pub record Request : Type 0 where
  pub path : Text
  pub method : Text
  pub user_id : Option Text
  pub session_id : Option Text
  pub host : Option Text

unfoldable pub get_tier_for_path : Text → RateLimitTier
get_tier_for_path path =
    if contains path (codes "/export")
    then export
    else if contains path (codes "/webhook")
    then webhook
    else if any (contains path) (codes "/recommendations" ∷ codes "/csp/" ∷ codes "/discover" ∷ [])
    then expensive
    else if starts_with path (codes "/api/v1/auth")
    then public
    else authenticated

is_export : RateLimitTier → Bool
is_export export = true
is_export _ = false

unfoldable pub get_tier_for_request : Request → RateLimitTier
unfolding get_tier_for_path is_export
get_tier_for_request r =
    let tier = get_tier_for_path r.path in
    if is_export tier && elem r.method (codes "GET" ∷ codes "HEAD" ∷ codes "OPTIONS" ∷ [])
    then authenticated
    else tier

tier_name : RateLimitTier → Text
tier_name public = codes "PUBLIC"
tier_name authenticated = codes "AUTHENTICATED"
tier_name expensive = codes "EXPENSIVE"
tier_name export = codes "EXPORT"
tier_name webhook = codes "WEBHOOK"

-- A missing text and an empty one are false.
abbrev truthy : Option Text → Option Text
truthy none = none
truthy (some []) = none
truthy (some (c ∷ s)) = some (c ∷ s)

identify : (Text → Text) → Option Text → Option Text → Option Text → Text
identify hash (some user) session host = codes "user:" ++ user
identify hash none (some session) host = codes "session:" ++ hash session
identify hash none none (some host) = codes "ip:" ++ host
identify hash none none none = codes "anonymous"

or_slash : Text → Text
or_slash [] = codes "/"
or_slash (c ∷ s) = c ∷ s

unfoldable pub generate_key : (Text → Text) → Request → RateLimitTier → Text
unfolding identify or_slash tier_name upper rstrip_char
generate_key hash r tier =
    codes "ratelimit:"
    ++ (tier_name tier
        ++ (codes ":"
            ++ (identify hash (truthy r.user_id) (truthy r.session_id) (truthy r.host)
                ++ (codes ":"
                    ++ (upper r.method ++ (codes ":" ++ or_slash (rstrip_char b'/' r.path)))))))

-- A Redis limiter as the middleware uses it.
abbrev pub Redis : Type 0
Redis = Text → RateLimitTier → ℕ → Option (Bool × Headers)

-- What the middleware does with a request: it passes it on without or with the rate limit headers,
-- or answers 429.
pub data Response : Type 0 where
  passed : Response
  passed_with : Headers → Response
  too_many_requests : Headers → Response

respond : Bool × Headers → Response
respond (true, headers) = passed_with headers
respond (false, headers) = too_many_requests headers

-- the in-memory limiter, which is also the fallback
by_memory : Limiter → Text → RateLimitTier → ℕ → Limiter × Response
unfolding respond
by_memory memory key tier now =
    let (memory', answer) = is_allowed memory key tier 0 now in (memory', respond answer)

by_redis : Limiter → Option (Bool × Headers) → Text → RateLimitTier → ℕ → Limiter × Response
unfolding by_memory respond
by_redis memory (some answer) key tier now = (memory, respond answer)
by_redis memory none key tier now = by_memory memory key tier now

limited : Option Redis → Limiter → Text → RateLimitTier → ℕ → Limiter × Response
unfolding by_memory by_redis
limited none memory key tier now = by_memory memory key tier now
limited (some redis) memory key tier now = by_redis memory (redis key tier now) key tier now

unfoldable pub exempt : Text → Bool
unfolding elem
exempt path =
    elem path (codes "/health" ∷ codes "/docs" ∷ codes "/redoc" ∷ codes "/openapi.json" ∷ [])

unfoldable pub dispatch :
    Bool → (Text → Text) → Option Redis → Limiter → Request → ℕ → Limiter × Response
unfolding limited
dispatch enabled hash redis memory r now =
    if not enabled
    then (memory, passed)
    else if exempt r.path
    then (memory, passed)
    else (let tier = get_tier_for_request r in
        limited redis memory (generate_key hash r tier) tier now)

-- A Redis limiter that raises makes no difference: the request is then counted and decided by the
-- in-memory limiter, as without Redis.
pub dispatch-fallback :
    (enabled : Bool) (hash : Text → Text) (redis : Redis) (memory : Limiter) (r : Request) (now : ℕ)
    → redis (generate_key hash r (get_tier_for_request r)) (get_tier_for_request r) now ≡ none
    → dispatch enabled hash (some redis) memory r now ≡ dispatch enabled hash none memory r now
unfolding dispatch
dispatch-fallback enabled hash redis memory r now e = rw (e, by_redis)
