-- ===== src/Auth/Access.antt =====
-- Access tokens, their blacklist and the guard of every endpoint: the token functions of
-- backend/app/auth/service.py, dependencies.py, and the `logout` endpoint of router.py. The library for
-- JSON web tokens is a parameter with its documented behaviour, and so are the digest and Redis.
pub mod Guard
pub mod Tests
use costpilot.Prelude.{
  ℕ, ◌+◌, ◌-◌, ◌*◌, ◌/◌, ◌<◌, ◌≡◌, Bool, not, Option, none, some, List, [], ◌∷◌, ◌++◌, ltb, is_some,
  if◌then◌else◌, ◌==◌, Error, unauthorized, Result, ok, raise, raise_if, ◌>>=◌, ◌>>◌,
}
use costpilot.Prelude
use costpilot.Text.{Text, codes, split, strip}
use costpilot.Text.Laws.{text_instance}
use costpilot.Redis.{Redis}
use costpilot.Auth.{User, minute}
use costpilot.Auth.Login.{get_user_by_id}
use costpilot.Auth.Sessions.{
  Binding, Context, is_session_binding_valid, revoke_session_binding, store_binding,
}

abbrev pub second : ℕ
second = 1_000_000

-- The claims of a token; `exp` counts seconds.
pub record Claims : Type 0 where
  pub sub : Option Text
  pub sid : Option Text
  pub exp : ℕ

-- `jwt.encode` and `jwt.decode` under the secret of the settings; `none` is a JWTError.
pub record Jwt : Type 0 where
  pub encode : Claims → Text
  pub decode : Text → ℕ → Option Claims
  -- a token is accepted until its expiry
  pub decode-encode : (c : Claims) (now : ℕ) → now < c.exp * second → decode (encode c) now ≡ some c
  -- what a token says does not depend on the time
  pub decode_stable :
      (token : Text) (now later : ℕ) {c d : Claims}
      → decode token now ≡ some c
      → decode token later ≡ some d
      → c ≡ d

-- The cookies and headers of a request that the guard reads.
pub record Request : Type 0 where
  pub access_token : Option Text
  pub session_cookie : Option Text
  pub forwarded_for : Option Text
  pub client_host : Option Text
  pub user_agent : Option Text
  pub fingerprint : Option Text

-- `if token: return token`
extract : Option Text → Error → Result Text
extract none e = raise e
extract (some []) e = raise e
extract (some (c ∷ s)) e = ok (c ∷ s)

unfoldable pub extract_token : Request → Result Text
unfolding extract
extract_token r = extract r.access_token (unauthorized (Prelude.text "Not authenticated"))

unfoldable pub extract_session_id : Request → Result Text
unfolding extract
extract_session_id r = extract r.session_cookie (unauthorized (Prelude.text "Session is missing"))

first_of : List Text → Text
first_of [] = []
first_of (s ∷ ss) = s

client_of : Option Text → Option Text → Option Text
unfolding first_of
client_of none host = host
client_of (some []) host = host
client_of (some (c ∷ s)) host = some (strip (first_of (split b',' (c ∷ s))))

-- `_get_client_ip`, the same in router.py and dependencies.py
unfoldable pub get_client_ip : Request → Option Text
unfolding client_of
get_client_ip r = client_of r.forwarded_for r.client_host

abbrev pub context : Request → Context
context r = record {
  user_agent = r.user_agent;
  client_ip = get_client_ip r;
  fingerprint = r.fingerprint;
}

abbrev pub blacklist_key : Text → Text
blacklist_key token = codes "token_blacklist:" ++ token

module _ (hmac : Text → Text) where
  compare_session : Text → Text → Option Text → Result Text
  compare_session user_id sid none = ok user_id
  compare_session user_id sid (some session_id) =
      if not (sid == hmac session_id)
      then raise (unauthorized (Prelude.text "Invalid session"))
      else ok user_id

  check_claims : Option Text → Option Text → Option Text → Result Text
  unfolding compare_session
  check_claims none sid expected = raise (unauthorized (Prelude.text "Invalid token"))
  check_claims (some user_id) none expected = raise (unauthorized (Prelude.text "Invalid token"))
  check_claims (some user_id) (some sid) expected = compare_session user_id sid expected

  check_decoded : Option Claims → Option Text → Result Text
  unfolding check_claims
  check_decoded none expected = raise (unauthorized (Prelude.text "Invalid or expired token"))
  check_decoded (some c) expected = check_claims c.sub c.sid expected

  abbrev pub claims : ℕ → Text → Text → ℕ → Claims
  claims minutes user_id session_id now = record {
    sub = some user_id;
    sid = some (hmac session_id);
    exp = (now + minutes * minute) / second;
  }

  module _ (jwt : Jwt) where
    unfoldable pub create_access_token : ℕ → Text → Text → ℕ → Text
    create_access_token minutes user_id session_id now =
        jwt.encode (claims minutes user_id session_id now)

    unfoldable pub decode_access_token : Text → Option Text → ℕ → Result Text
    unfolding check_decoded
    decode_access_token token expected_session_id now =
        check_decoded (jwt.decode token now) expected_session_id

    module _ (blacklist : Redis Text) where
      -- `max(int(exp - now), 0)`, in seconds
      abbrev time_left : ℕ → ℕ → ℕ
      time_left exp now = (exp * second - now) / second

      blacklist_claims : Text → Option Claims → ℕ → blacklist.Store → blacklist.Store
      blacklist_claims token none now s = s
      blacklist_claims token (some c) now s =
          let ttl = time_left c.exp now in
          if ltb 0 ttl
          then blacklist.setex s (blacklist_key token) (ttl * second) (codes "1") now
          else s

      unfoldable pub blacklist_token : Text → ℕ → blacklist.Store → blacklist.Store
      unfolding blacklist_claims
      blacklist_token token now s = blacklist_claims token (jwt.decode token now) now s

      unfoldable pub is_token_blacklisted : Text → ℕ → blacklist.Store → Bool
      is_token_blacklisted token now s = is_some (blacklist.get s (blacklist_key token) now)

      module _ (sessions : Redis Binding) where
        pub record Stores : Type 0 where
          pub bindings : sessions.Store
          pub tokens : blacklist.Store

        -- `get_current_user`; the security log is left out
        unfoldable pub get_current_user : Request → ℕ → List User → Stores → Result User
        get_current_user r now users s = do
          token ← extract_token r
          session_id ← extract_session_id r
          raise_if (is_token_blacklisted token now s.tokens)
              (unauthorized (Prelude.text "Token has been revoked"))
          user_id ← decode_access_token token (some session_id) now
          raise_if
              (not (
                is_session_binding_valid hmac sessions user_id session_id (context r) now
                  s.bindings))
              (unauthorized (Prelude.text "Session is invalid"))
          get_user_by_id user_id users

        revoke_cookie : Option Text → sessions.Store → sessions.Store
        revoke_cookie none s = s
        revoke_cookie (some []) s = s
        revoke_cookie (some (c ∷ id)) s = revoke_session_binding hmac sessions (c ∷ id) s

        -- the `logout` endpoint behind its two guards
        unfoldable pub logout : Request → ℕ → List User → Stores → Result Stores
        unfolding revoke_cookie
        logout r now users s = do
          token ← extract_token r
          user ← get_current_user r now users s
          ok (record {
            bindings = revoke_cookie r.session_cookie s.bindings;
            tokens = blacklist_token token now s.tokens;
          })

        -- what `login` and `register` do for the user they have: a binding, and a token for the cookie
        unfoldable pub open_session : ℕ → Text → Text → Request → ℕ → ℕ → Stores → Stores × Text
        open_session minutes user_id session_id r now now' s = (
          record s {
            bindings =
                store_binding hmac sessions minutes user_id session_id (context r) now s.bindings;
          },
          create_access_token minutes user_id session_id now',
        )
