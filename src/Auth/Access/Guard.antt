-- ===== src/Auth/Access/Guard.antt =====
-- Who passes the guard of the endpoints: the holder of the two cookies of a session, until it is over
-- or logged out.
use costpilot.Prelude.{
  ℕ, ◌+◌, ◌*◌, ◌/◌, ◌<◌, ◌≡◌, ◌≢◌, ◌⊎◌, refl, sym, subst, ◌∙◌, ap, true, false, Option, none, some,
  List, [], ◌∷◌, ◌==◌, arith, Error, Message, unauthorized, Result, ok, raise, bind-ok, raise_if-ok,
  ok-injective, Bool-cases, inl, inr,
}
use costpilot.Prelude
use costpilot.Text.{Text}
use costpilot.Text.Laws.{text_instance, text_eq_refl, text_eq_iff}
use costpilot.Redis.{Redis}
use costpilot.Auth.{User, minute}
use costpilot.Auth.Login.{get_user_by_id}
use costpilot.Auth.Sessions.{
  Binding, Context, is_session_binding_valid, revoke_session_binding, storage_key, matches,
}
use costpilot.Auth.Sessions.Replay.{IsSameSender, is_session_binding_valid-store_binding}
use costpilot.Auth.Access.{
  second, Claims, claims, Jwt, Request, extract, extract_token, extract_session_id, context,
  compare_session, check_claims, check_decoded, create_access_token, decode_access_token,
  is_token_blacklisted, Stores, get_current_user, logout, open_session, blacklist_token,
  revoke_cookie,
}

extract-some : (s : Text) (e : Error) → s ≢ [] → extract (some s) e ≡ ok s
unfolding extract
extract-some [] e h = absurd (h refl)
extract-some (c ∷ s) e h = refl

extract-ok : (o : Option Text) (e : Error) {s : Text} → extract o e ≡ ok s → o ≡ some s
unfolding extract
extract-ok none e h = cc
extract-ok (some []) e h = cc
extract-ok (some (c ∷ t)) e h = cc

-- a response that denies access
abbrev pub IsRefused {ℓ} : {A : Type ℓ} → Result A → Type ℓ
IsRefused result = (m : Message) × (result ≡ raise (unauthorized m))

-- a result that is a value or denies access
abbrev Refuses {ℓ} : {A : Type ℓ} → Result A → Type ℓ
Refuses {A} result = IsRefused result ⊎ ((a : A) × (result ≡ ok a))

extract-Refuses : (o : Option Text) (m : Message) → Refuses (extract o (unauthorized m))
unfolding extract
extract-Refuses none m = inl (m, refl)
extract-Refuses (some []) m = inl (m, refl)
extract-Refuses (some (c ∷ s)) m = inr (c ∷ s, refl)

module _ (hmac : Text → Text) where
  claims_session :
      (sub sid : Option Text) (session_id : Text) {user_id : Text}
      → check_claims hmac sub sid (some session_id) ≡ ok user_id
      → sid ≡ some (hmac session_id)
  unfolding check_claims compare_session
  claims_session none sid session_id h = cc
  claims_session (some user_id) none session_id h = cc
  claims_session (some user_id) (some sid) session_id h =
      ground (arith, text_eq_iff sid (hmac session_id))

  claims-Refuses :
      (sub sid : Option Text) (session_id : Text)
      → Refuses (check_claims hmac sub sid (some session_id))
  unfolding check_claims compare_session
  claims-Refuses none sid session_id = inl (_, refl)
  claims-Refuses (some user_id) none session_id = inl (_, refl)
  claims-Refuses (some user_id) (some sid) session_id = elim (Bool-cases (sid == hmac session_id)) [
    | inl e ↦ inr (user_id, rw (e, check_claims, compare_session))
    | inr e ↦ inl (Prelude.text "Invalid session", rw (e, check_claims, compare_session))
  ]

  decoded-session :
      (decoded : Option Claims) (session_id : Text) {user_id : Text}
      → check_decoded hmac decoded (some session_id) ≡ ok user_id
      → (c : Claims) × (decoded ≡ some c) × (c.sid ≡ some (hmac session_id))
  unfolding check_decoded
  decoded-session none session_id h = cc
  decoded-session (some c) session_id h = (c, refl, claims_session c.sub c.sid session_id h)

  decoded-Refuses :
      (decoded : Option Claims) (session_id : Text)
      → Refuses (check_decoded hmac decoded (some session_id))
  unfolding check_decoded
  decoded-Refuses none session_id = inl (_, refl)
  decoded-Refuses (some c) session_id = claims-Refuses c.sub c.sid session_id

module _ (hmac : Text → Text) (jwt : Jwt) (blacklist : Redis Text) (sessions : Redis Binding) where
  decode_created :
      (minutes : ℕ) (user_id session_id : Text) (now later : ℕ)
      → later < (now + minutes * minute) / second * second
      → decode_access_token hmac jwt
          (create_access_token hmac jwt minutes user_id session_id now)
          (some session_id)
          later
        ≡ ok user_id
  unfolding create_access_token decode_access_token check_decoded check_claims compare_session
  decode_created minutes user_id session_id now later l =
      rw
        (
          jwt.decode-encode (claims hmac minutes user_id session_id now) later l,
          text_eq_refl (hmac session_id),
        )
        refl

  -- what a request needs to pass the guard
  guard_passes :
      (r : Request) (now : ℕ) (users : List User) (s : Stores hmac jwt blacklist sessions)
      (token session_id user_id : Text)
      → extract_token r ≡ ok token
      → extract_session_id r ≡ ok session_id
      → is_token_blacklisted hmac jwt blacklist token now s.tokens ≡ false
      → decode_access_token hmac jwt token (some session_id) now ≡ ok user_id
      → is_session_binding_valid hmac sessions user_id session_id (context r) now s.bindings ≡ true
      → get_current_user hmac jwt blacklist sessions r now users s ≡ get_user_by_id user_id users
  unfolding get_current_user
  guard_passes r now users s token session_id user_id a b c d e = rw (a, b, c, d, e) refl

  module _ (not_empty : (s : Text) → hmac s ≢ []) where
    -- From a login or a registration on, a request with the two cookies and from the same sender as
    -- the login passes the guard as its user, while neither the session's nor the token's time is
    -- over and the token is not on the blacklist; its answer is then that of the look-up of the user.
    pub get_current_user-open_session :
        (minutes : ℕ) (user_id session_id : Text) (r r' : Request) (now now' later : ℕ)
        (users : List User) (s : Stores hmac jwt blacklist sessions)
        → let (s', token) =
            open_session hmac jwt blacklist sessions minutes user_id session_id r now now' s in
          r'.access_token ≡ some token
          → r'.session_cookie ≡ some session_id
          → token ≢ []
          → session_id ≢ []
          → IsSameSender hmac not_empty sessions user_id user_id (context r) (context r')
          → is_token_blacklisted hmac jwt blacklist token later s.tokens ≡ false
          → later < now + minutes * minute
          → later < (now' + minutes * minute) / second * second
          → get_current_user hmac jwt blacklist sessions r' later users s'
            ≡ get_user_by_id user_id users
    unfolding open_session extract_token extract_session_id
    get_current_user-open_session minutes user_id session_id r r' now now' later users s t c nt nc
          same black l l' =
        let (s', token) =
          open_session hmac jwt blacklist sessions minutes user_id session_id r now now' s in
        guard_passes r' later users s' token session_id user_id (rw t (extract-some token _ nt))
          (rw c (extract-some session_id _ nc)) black
          (decode_created minutes user_id session_id now' later l')
          ((is_session_binding_valid-store_binding hmac not_empty sessions minutes user_id user_id
              session_id (context r) (context r') now later s.bindings).0.1
            (l, same))

  revoked_session :
      (user_id session_id : Text) (c : Context) (now : ℕ) (s : sessions.Store)
      → is_session_binding_valid hmac sessions user_id session_id c now
          (revoke_session_binding hmac sessions session_id s)
        ≡ false
  unfolding is_session_binding_valid revoke_session_binding matches
  revoked_session user_id session_id c now s =
      let key = storage_key session_id in
      rw (sessions.get-delete s key key now, text_eq_refl key) refl

  -- a session that has been revoked, and whose token is known, does not pass the guard
  revoked-IsRefused :
      (r : Request) (now before : ℕ) (users : List User) (s : Stores hmac jwt blacklist sessions)
      (token session_id : Text) (c : Claims)
      → extract_token r ≡ ok token
      → jwt.decode token before ≡ some c
      → c.sid ≡ some (hmac session_id)
      → ((a : Text) → r.session_cookie ≡ some a → hmac session_id ≡ hmac a → session_id ≡ a)
      → IsRefused (
          get_current_user hmac jwt blacklist sessions r now users
            (record s { bindings = revoke_session_binding hmac sessions session_id s.bindings }))
  unfolding get_current_user extract_session_id decode_access_token
  revoked-IsRefused r now before users s token session_id c t d sid distinct =
      elim (extract-Refuses r.session_cookie (Prelude.text "Session is missing")) [
        | inl (m, e) ↦ (m, rw (t, e) refl)
        | inr (a, e) ↦
            elim (Bool-cases (is_token_blacklisted hmac jwt blacklist token now s.tokens)) [
              | inl b ↦ (Prelude.text "Token has been revoked", rw (t, e, b) refl)
              | inr b ↦ elim (decoded-Refuses hmac (jwt.decode token now) a) [
                | inl (m, f) ↦ (m, rw (t, e, b, f) refl)
                | inr (user_id, f) ↦
                    let (c', d', sid') = decoded-session hmac (jwt.decode token now) a f in
                    let same : c ≡ c' = jwt.decode_stable token before now d d' in
                    let digest : some (hmac session_id) ≡ some (hmac a) =
                      sym sid ∙ ap (λ (x : Claims). x.sid) same ∙ sid' in
                    let here : session_id ≡ a = distinct a (extract-ok _ _ e) (cc) in
                    let invalid =
                      subst
                        (λ x.
                          is_session_binding_valid hmac sessions user_id x (context r) now
                            (revoke_session_binding hmac sessions session_id s.bindings)
                          ≡ false)
                        here (revoked_session user_id session_id (context r) now s.bindings) in
                    (Prelude.text "Session is invalid", rw (t, e, b, f, invalid) refl)
              ]
            ]
      ]

  revoke_cookie-extract :
      (o : Option Text) (e : Error) (bindings : sessions.Store) {session_id : Text}
      → extract o e ≡ ok session_id
      → revoke_cookie hmac jwt blacklist sessions o bindings
        ≡ revoke_session_binding hmac sessions session_id bindings
  unfolding extract revoke_cookie
  revoke_cookie-extract none e bindings h = cc
  revoke_cookie-extract (some []) e bindings h = cc
  revoke_cookie-extract (some (c ∷ id)) e bindings h =
      ap (λ x. revoke_session_binding hmac sessions x bindings) (ok-injective h)

  -- the token of a request that has passed is for the session of its cookie
  guard-session :
      (r : Request) (now : ℕ) (users : List User) (s : Stores hmac jwt blacklist sessions)
      (token : Text) {user : User}
      → extract_token r ≡ ok token
      → get_current_user hmac jwt blacklist sessions r now users s ≡ ok user
      → (session_id : Text) × (extract_session_id r ≡ ok session_id)
        × (c : Claims) × (jwt.decode token now ≡ some c)
        × (c.sid ≡ some (hmac session_id))
  unfolding get_current_user decode_access_token
  guard-session r now users s token t g =
      let (token', t', g1) = bind-ok _ (extract_token r) g in
      let (session_id, e, g2) = bind-ok _ (extract_session_id r) g1 in
      let (_, g3) = raise_if-ok _ _ _ g2 in
      let (user_id, d, g4) =
        bind-ok _ (decode_access_token hmac jwt token' (some session_id) now) g3 in
      let here : token' ≡ token = ok-injective (sym t' ∙ t) in
      let (c, decoded, sid) = decoded-session hmac (jwt.decode token' now) session_id d in
      (session_id, e, c, subst (λ x. jwt.decode x now ≡ some c) here decoded, sid)

  -- On the stores that a logout which has returned leaves, a request with the token of the logout does
  -- not pass the guard, whatever session cookie, headers and time it comes with and whoever is
  -- registered by then: it is refused. The condition is that the digest of the session that was
  -- logged out is not that of another session, which the request may name.
  pub logout-IsRefused :
      (r r' : Request) (now later : ℕ) (users users' : List User)
      (s s' : Stores hmac jwt blacklist sessions)
      → r'.access_token ≡ r.access_token
      → ((a b : Text)
          → r.session_cookie ≡ some a
          → r'.session_cookie ≡ some b
          → hmac a ≡ hmac b
          → a ≡ b)
      → logout hmac jwt blacklist sessions r now users s ≡ ok s'
      → IsRefused (get_current_user hmac jwt blacklist sessions r' later users' s')
  unfolding logout extract_token extract_session_id
  logout-IsRefused r r' now later users users' s s' same distinct h =
      let (token, t, h1) = bind-ok _ (extract_token r) h in
      let (user, g, h2) =
        bind-ok _ (get_current_user hmac jwt blacklist sessions r now users s) h1 in
      let (session_id, e, c, d, sid) = guard-session r now users s token t g in
      let after : Stores hmac jwt blacklist sessions = record s {
        tokens = blacklist_token hmac jwt blacklist token now s.tokens;
      } in
      let ends : record after {
        bindings = revoke_session_binding hmac sessions session_id s.bindings;
      }
          ≡ s' =
        rw (revoke_cookie-extract r.session_cookie _ s.bindings e) at (ok-injective h2) in
      subst (λ x. IsRefused (get_current_user hmac jwt blacklist sessions r' later users' x)) ends
        (revoked-IsRefused r' later now users' after token session_id c
          (ap (λ o. extract o (unauthorized (Prelude.text "Not authenticated"))) same ∙ t) d sid
          (λ a k. distinct session_id a (extract-ok _ _ e) k))
