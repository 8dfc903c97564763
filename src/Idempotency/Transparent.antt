-- ===== src/Idempotency/Transparent.antt =====
-- The middleware over a table without rows: it commits none, so that it never recognises a request.
use costpilot.Prelude.{◌≡◌, refl, false, Option, none, some, List, [], ◌∷◌, Result, ok, raise, All}
use costpilot.Text.{Text}
use costpilot.Database.{async_session}
use costpilot.Idempotency.{
  Request, Response, IdempotencyKey, key_of, first_session, lookup, claim, too_long, dict_of,
  new_key, claimed, second_session, execute, after, dispatch, serve, serve_bare,
}

module _ (App : Type 0) (call_next : Request → App → App × Result Response)
    (sha256 encode : Text → Text) (decode : Text → Option Text) (exclude_paths : List Text) where
  -- what the client gets of the application's response: to a request with a key, its headers as a dict
  abbrev pub as_sent : Option Text → Result Response → Result Response
  as_sent none response = response
  as_sent (some key) (raise e) = raise e
  as_sent (some key) (ok response) = ok (record response { headers = dict_of response.headers })

  abbrev pub all_sent : List Request → List (Result Response) → List (Result Response)
  all_sent [] responses = []
  all_sent (r ∷ rs) [] = []
  all_sent (r ∷ rs) (response ∷ responses) =
      as_sent (key_of exclude_paths r) response ∷ all_sent rs responses

  -- The texts that the row of a request with a key stores fit their columns.
  abbrev pub FitsWith : Option Text → Request → Type 0
  FitsWith none r = Unit
  FitsWith (some key) r = too_long (new_key sha256 encode key r) ≡ false

  abbrev pub Fits : Request → Type 0
  Fits r = FitsWith (key_of exclude_paths r) r

  -- whatever the application does, the second session keeps nothing
  execute-rows :
      (key : Text) (k : IdempotencyKey) (rows : List IdempotencyKey) (out : App × Result Response)
      → execute App call_next sha256 encode decode exclude_paths k rows out
        ≡ ((rows, out.0), as_sent (some key) out.1)
  unfolding execute second_session async_session
  execute-rows key k rows (app, raise e) = refl
  execute-rows key k rows (app, ok response) = refl

  first_session-nil :
      (key : Text) (r : Request)
      → too_long (new_key sha256 encode key r) ≡ false
      → first_session sha256 encode key r [] ≡ ([], ok (claimed (new_key sha256 encode key r)))
  unfolding first_session lookup claim async_session
  first_session-nil key r fits = rw fits refl

  dispatch_key-nil :
      (key : Option Text) (r : Request) (app : App)
      → key_of exclude_paths r ≡ key
      → FitsWith key r
      → dispatch App call_next sha256 encode decode exclude_paths r ([], app)
        ≡ (([], (call_next r app).0), as_sent key (call_next r app).1)
  unfolding dispatch after
  dispatch_key-nil none r app e fits = rw (e, dispatch) refl
  dispatch_key-nil (some key) r app e fits =
      rw (e, dispatch, first_session-nil key r fits)
        (execute-rows key (new_key sha256 encode key r) [] (call_next r app))

  pub serve-serve_bare :
      (rs : List Request) (app : App)
      → All Fits rs
      → serve App call_next sha256 encode decode exclude_paths rs ([], app) ≡ (
        ([], (serve_bare App call_next rs app).0),
        all_sent rs (serve_bare App call_next rs app).1,
      )
  unfolding serve serve_bare
  serve-serve_bare [] app fits = refl
  serve-serve_bare (r ∷ rs) app (fit, fits) =
      rw
        (
          dispatch_key-nil (key_of exclude_paths r) r app refl fit,
          serve-serve_bare rs (call_next r app).0 fits,
        )
        refl
