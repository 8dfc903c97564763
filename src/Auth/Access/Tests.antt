-- ===== src/Auth/Access/Tests.antt =====
-- A library for tokens that writes the claims one after the other, and the guard's theorems with it.
use costpilot.Prelude.{
  ℕ, ◌*◌, ◌<◌, ◌≡◌, ◌≢◌, refl, true, Option, none, some, [], ◌∷◌, ◌++◌, zero, suc, length, take,
  drop, ltb, if◌then◌else◌, arith, Result,
}
use costpilot.Text.{Text, codes, text_eq, strip, split}
use costpilot.Redis.Memory.{memory}
use costpilot.Auth.{User, UserStatus, minute}
use costpilot.Auth.Login.{get_user_by_id}
use costpilot.Auth.Sessions.{
  Binding, is_session_binding_valid, revoke_session_binding, store_binding, binding_hash,
}
use costpilot.Auth.Access.{
  second, Claims, Jwt, Request, extract_token, extract_session_id, decode_access_token,
  get_client_ip, create_access_token, get_current_user, logout, open_session, blacklist_token,
  Stores, is_token_blacklisted,
}
use costpilot.Auth.Access.Guard.{IsRefused, get_current_user-open_session, logout-IsRefused}

write_claim : Option Text → Text
write_claim none = zero ∷ []
write_claim (some t) = 1 ∷ length t ∷ t

read_claim : Text → Option (Option Text × Text)
read_claim [] = none
read_claim (zero ∷ r) = some (none, r)
read_claim (suc _ ∷ []) = none
read_claim (suc _ ∷ n ∷ r) = some (some (take n r), drop n r)

take-append : (t r : Text) → take (length t) (t ++ r) ≡ t
take-append [] r = refl
take-append (c ∷ t) r = ground (arith, take-append t r)

drop-append : (t r : Text) → drop (length t) (t ++ r) ≡ r
drop-append [] r = refl
drop-append (c ∷ t) r = drop-append t r

read-write : (o : Option Text) (r : Text) → read_claim (write_claim o ++ r) ≡ some (o, r)
unfolding read_claim write_claim
read-write none r = refl
read-write (some t) r = rw (take-append t r, drop-append t r) refl

read_sid : ℕ → Option Text → Option (Option Text × Text) → Option Claims
read_sid exp sub none = none
read_sid exp sub (some (sid, r)) = some (record { sub = sub; sid = sid; exp = exp })

read_sub : ℕ → Option (Option Text × Text) → Option Claims
unfolding read_sid read_claim
read_sub exp none = none
read_sub exp (some (sub, r)) = read_sid exp sub (read_claim r)

unfoldable pub read_token : Text → ℕ → Option Claims
unfolding read_sub read_claim
read_token [] now = none
read_token (exp ∷ r) now = if ltb now (exp * second) then read_sub exp (read_claim r) else none

unfoldable pub write_token : Claims → Text
unfolding write_claim
write_token c = c.exp ∷ (write_claim c.sub ++ (write_claim c.sid ++ []))

pub read-write_token :
    (c : Claims) (now : ℕ) → now < c.exp * second → read_token (write_token c) now ≡ some c
unfolding read_token write_token read_sub read_sid
read-write_token c now l =
    rw (read-write c.sub (write_claim c.sid ++ []), read-write c.sid []) (ground arith)

pub read_token_stable :
    (token : Text) (now later : ℕ) {c d : Claims}
    → read_token token now ≡ some c
    → read_token token later ≡ some d
    → c ≡ d
unfolding read_token
read_token_stable [] now later h k = cc
read_token_stable (exp ∷ r) now later h k = ground arith

abbrev pub plain_jwt : Jwt
plain_jwt = record {
  encode = write_token;
  decode = read_token;
  decode-encode = read-write_token;
  decode_stable = read_token_stable;
}

-- a digest that is never empty
abbrev pub digest : Text → Text
digest s = b'#' ∷ s

digest_not_empty : (s : Text) → digest s ≢ []
digest_not_empty s h = cc

abbrev pub browser : Request
browser = record {
  access_token = none;
  session_cookie = none;
  forwarded_for = some (codes "10.0.0.1, 10.0.0.2");
  client_host = none;
  user_agent = some (codes "ua");
  fingerprint = some (codes "fp");
}

abbrev pub ada : User
ada = record {
  id = codes "7";
  email = codes "a@b.co";
  display_name = codes "Ada";
  hashed_password = codes "s";
  is_active = true;
  verified = true;
  status = UserStatus.active;
  failed_login_attempts = 0;
  locked_until = none;
  last_login = none;
  deleted_at = none;
}

abbrev pub nothing : Stores digest plain_jwt (memory Text) (memory Binding)
nothing = record { bindings = λ _. none; tokens = λ _. none }

abbrev pub opened : Stores digest plain_jwt (memory Text) (memory Binding) × Text
opened =
    open_session digest plain_jwt (memory Text) (memory Binding) 15 (codes "7") (codes "sid")
      browser 0 0 nothing

abbrev pub with_cookies : Request
with_cookies = record browser { access_token = some opened.1; session_cookie = some (codes "sid") }

abbrev guarded : Result User
guarded =
    get_current_user digest plain_jwt (memory Text) (memory Binding) with_cookies (minute * 3)
      (ada ∷ []) opened.0

get_current_user-open_session_example : guarded ≡ get_user_by_id (codes "7") (ada ∷ [])
unfolding open_session is_token_blacklisted create_access_token write_token text_eq get_client_ip
get_current_user-open_session_example =
    get_current_user-open_session digest plain_jwt (memory Text) (memory Binding) digest_not_empty
      15 (codes "7") (codes "sid") browser with_cookies 0 0 (minute * 3) (ada ∷ []) nothing refl
      refl (λ h. cc) (λ h. cc)
      (record { same_user = refl; same_agent = refl; same_ip = refl; same_fingerprint = refl }) refl
      (omega arith) (omega arith)

abbrev logged_out : Stores digest plain_jwt (memory Text) (memory Binding)
logged_out = record {
  bindings = revoke_session_binding digest (memory Binding) (codes "sid") opened.0.bindings;
  tokens = blacklist_token digest plain_jwt (memory Text) opened.1 (minute * 3) opened.0.tokens;
}

logout-IsRefused_example : IsRefused (
    get_current_user digest plain_jwt
      (memory Text)
      (memory Binding)
      with_cookies
      (minute * 5)
      (ada ∷ [])
      logged_out)
unfolding logout open_session is_token_blacklisted create_access_token write_token text_eq
    get_client_ip extract_token get_current_user extract_session_id decode_access_token read_token
    is_session_binding_valid store_binding binding_hash strip split get_user_by_id
logout-IsRefused_example =
    logout-IsRefused digest plain_jwt (memory Text) (memory Binding) with_cookies with_cookies
      (minute * 3) (minute * 5) (ada ∷ []) (ada ∷ []) opened.0 logged_out refl (λ a b p q e. cc)
      refl
