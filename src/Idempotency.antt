-- ===== src/Idempotency.antt =====
-- `IdempotencyMiddleware` of backend/app/middleware/idempotency.py over the rows of
-- backend/app/idempotency/models.py, over a table with the columns of that model. The application behind
-- the middleware, SHA-256 and UTF-8 are parameters; a request carries the time and the fresh row
-- identifier of its call. Bodies are bytes.
use costpilot.Prelude.{
  ℕ, ◌+◌, ◌*◌, Bool, not, length, ◌||◌, data_error, type_error, ◌>>=◌, ◌&&◌, Option, none, some,
  List, [], ◌∷◌, ◌++◌, ltb, any, select, if◌then◌else◌, update_where, ◌==◌, Error, conflict,
  integrity_error, Result, ok, raise, scalar_one_or_none,
}
use costpilot.Prelude
use costpilot.Text.{Text, codes, elem, starts_with}
use costpilot.Text.Laws.{text_instance}
use costpilot.Database.{Session, async_session, flush}
mod Transparent
mod Tests

pub record IdempotencyKey : Type 0 where
  pub id : Text
  pub key : Text
  pub user_id : Text
  pub endpoint : Text
  pub method : Text
  pub request_hash : Text
  pub response_status : Option ℕ
  pub response_body : Option Text
  pub expires_at : ℕ

pub record Request : Type 0 where
  pub method : Text
  pub path : Text
  -- the header `idempotency-key`
  pub key : Option Text
  pub user_id : Option Text
  pub body : Text
  pub now : ℕ
  pub fresh_id : Text

-- A response, with its headers in order, names in lower case. A name may stand more than once.
pub record Response : Type 0 where
  pub status_code : ℕ
  pub content : Text
  pub headers : List (Text × Text)

abbrev exempt_methods : List Text
exempt_methods = codes "GET" ∷ codes "HEAD" ∷ codes "OPTIONS" ∷ []

abbrev exempt_paths : List Text
exempt_paths = codes "/health" ∷ codes "/docs" ∷ codes "/redoc" ∷ codes "/openapi.json" ∷ []

-- 24 hours
abbrev ttl : ℕ
ttl = 24 * 3600 * 1_000_000

abbrev or_anonymous : Option Text → Text
or_anonymous none = codes "anonymous"
or_anonymous (some u) = u

abbrev or_empty : Option Text → Text
or_empty none = []
or_empty (some s) = s

-- the key that the middleware works with: none for an exempt request, or one without the header
unfoldable pub key_of : List Text → Request → Option Text
unfolding elem starts_with
key_of exclude_paths r =
    if elem r.method exempt_methods
    then none
    else if any (starts_with r.path) (exempt_paths ++ exclude_paths)
    then none
    else elim r.key [ none ↦ none | some [] ↦ none | some (c ∷ k) ↦ some (c ∷ k) ]

-- the `where` of the query
abbrev pub is_live : Text → ℕ → IdempotencyKey → Bool
is_live key now k = k.key == key && ltb now k.expires_at

-- How the first session ends: with an answer, or with the row of a request to be executed.
pub data Lookup : Type 0 where
  answered : Response → Lookup
  claimed : IdempotencyKey → Lookup

-- A response with the status None cannot be sent. Starlette adds the length of the body.
abbrev cached : (Text → Text) → Option ℕ → Option Text → Result Response
cached encode none body = raise type_error
cached encode (some status) body = ok (record {
  status_code = status;
  content = encode (or_empty body);
  headers =
      (codes "x-idempotent", codes "true") ∷ (codes "content-type", codes "application/json") ∷ [];
})

-- `dict(response.headers)`: for each name its first value
unfoldable pub dict_of : List (Text × Text) → List (Text × Text)
dict_of [] = []
dict_of ((name, v) ∷ headers) =
    let rest = dict_of headers in (name, v) ∷ select (λ h. not (h.0 == name)) rest

abbrev pub different_request : Error
different_request = conflict (Prelude.text "Idempotency key already used with different request")

abbrev Keys : Type 0
Keys = List IdempotencyKey

-- the texts of the row against the lengths of their columns
unfoldable pub too_long : IdempotencyKey → Bool
too_long k =
    ltb 255 (length k.key)
    || ltb 36 (length k.user_id)
    || ltb 500 (length k.endpoint)
    || ltb 10 (length k.method)

-- the new row; the column `key` is unique, also among expired rows
claim : Keys → IdempotencyKey → Session Keys → Session Keys × Result Lookup
unfolding flush too_long
claim rows k db =
    if too_long k
    then (db, raise data_error)
    else if any (λ x. x.key == k.key) rows
    then (db, raise integrity_error)
    else (flush (rows ++ k ∷ []) db, ok (claimed k))

unfoldable pub lookup :
    (Text → Text)
    → Result (Option IdempotencyKey)
    → IdempotencyKey
    → Session Keys
    → Session Keys × Result Lookup
unfolding claim
lookup encode (raise e) k db = (db, raise e)
lookup encode (ok (some x)) k db =
    if x.request_hash == k.request_hash
    then (
      db,
      cached encode x.response_status x.response_body >>= λ response. ok (answered response),
    )
    else (db, raise different_request)
lookup encode (ok none) k db = claim db.flushed k db

module _ (sha256 encode : Text → Text) where
  abbrev pub new_key : Text → Request → IdempotencyKey
  new_key key r = record {
    id = r.fresh_id;
    key = key;
    user_id = or_anonymous r.user_id;
    endpoint = r.path;
    method = r.method;
    request_hash = sha256 r.body;
    response_status = none;
    response_body = none;
    expires_at = r.now + ttl;
  }

  -- the first session
  unfoldable pub first_session : Text → Request → Keys → Keys × Result Lookup
  unfolding lookup async_session
  first_session key r rows =
      async_session
        (λ db.
          lookup encode (scalar_one_or_none (select (is_live key r.now) db.flushed)) (new_key key r)
            db)
        rows

-- the second session: `db.get` by the identifier, and the response
unfoldable pub second_session : (Text → Option Text) → IdempotencyKey → Response → Keys → Keys
unfolding async_session flush
second_session decode k response rows =
    (async_session
      (λ db. (
        flush
            (update_where (λ x. x.id == k.id)
              (λ x. record x {
                response_status = some response.status_code;
                response_body = some (or_empty (decode response.content));
              })
              db.flushed)
            db,
        tt {0},
      ))
      rows).0

-- The application: it changes its own state, and answers or raises.
module _ (App : Type 0) (call_next : Request → App → App × Result Response) where
  -- requests one after the other without the middleware
  unfoldable pub serve_bare : List Request → App → App × List (Result Response)
  serve_bare [] app = (app, [])
  serve_bare (r ∷ rs) app =
      let (app1, response) = call_next r app in
      let (app2, responses) = serve_bare rs app1 in (app2, response ∷ responses)

module _ (App : Type 0) (call_next : Request → App → App × Result Response)
    (sha256 encode : Text → Text) (decode : Text → Option Text) (exclude_paths : List Text) where
  -- what follows the first session
  unfoldable pub execute :
      IdempotencyKey → Keys → App × Result Response → (Keys × App) × Result Response
  unfolding second_session
  execute k rows (app, raise e) = ((rows, app), raise e)
  execute k rows (app, ok response) = (
    (second_session decode k response rows, app),
    ok (record response { headers = dict_of response.headers }),
  )

  unfoldable pub after : Request → App → Keys × Result Lookup → (Keys × App) × Result Response
  unfolding execute
  after r app (rows, raise e) = ((rows, app), raise e)
  after r app (rows, ok (answered response)) = ((rows, app), ok response)
  after r app (rows, ok (claimed k)) = execute k rows (call_next r app)

  unfoldable pub dispatch : Request → Keys × App → (Keys × App) × Result Response
  unfolding after key_of first_session
  dispatch r (rows, app) = elim (key_of exclude_paths r) [
    | none ↦ let (app', response) = call_next r app in ((rows, app'), response)
    | some key ↦ after r app (first_session sha256 encode key r rows)
  ]

  -- the same through the middleware
  unfoldable pub serve : List Request → Keys × App → (Keys × App) × List (Result Response)
  unfolding dispatch
  serve [] s = (s, [])
  serve (r ∷ rs) s =
      let (s1, response) = dispatch r s in
      let (s2, responses) = serve rs s1 in (s2, response ∷ responses)
