-- ===== src/Auth/Sessions/Replay.antt =====
-- A session is valid for the user and the request context that it was created with.
use costpilot.Prelude.{
  ℕ, ◌+◌, ◌*◌, ◌≡◌, ◌≢◌, refl, ◌↔◌, true, false, Option, none, some, [], ltb, if◌then◌else◌, ◌==◌,
  arith, sym, ◌∙◌, Bool-cases, inl, inr, ltb→lt, ◌&&◌, ◌<◌,
}
use costpilot.Text.{Text}
use costpilot.Text.Laws.{text_instance, text_eq_iff, text_eq_refl}
use costpilot.Redis.{Redis}
use costpilot.Auth.{minute}
use costpilot.Auth.Sessions.{
  Binding, Context, bind, binding_hash, matches, storage_key, store_binding,
  is_session_binding_valid, revoke_session_binding,
}

four_eq :
    (a a' b b' c c' d d' : Text)
    → ((a == a') && ((b == b') && ((c == c') && (d == d')))) ≡ true
    → (a ≡ a') × (b ≡ b') × (c ≡ c') × (d ≡ d')
four_eq a a' b b' c c' d d' h =
    ground (arith, text_eq_iff a a', text_eq_iff b b', text_eq_iff c c', text_eq_iff d d')

module _ (hmac : Text → Text) (not_empty : (s : Text) → hmac s ≢ []) (redis : Redis Binding) where
  -- The same user, and the same digests of the user agent, the address and the fingerprint.
  pub record IsSameSender (user_id user_id' : Text) (c c' : Context) : Type 0 where
    pub same_user : user_id ≡ user_id'
    pub same_agent : binding_hash hmac c.user_agent ≡ binding_hash hmac c'.user_agent
    pub same_ip : binding_hash hmac c.client_ip ≡ binding_hash hmac c'.client_ip
    pub same_fingerprint : binding_hash hmac c.fingerprint ≡ binding_hash hmac c'.fingerprint

  hash_not_empty : (x : Option Text) → binding_hash hmac x ≢ []
  unfolding binding_hash
  hash_not_empty x = not_empty _

  matches_iff :
      (b : Binding) (user_id : Text) (c : Context)
      → b.ua_hash ≢ []
      → b.ip_hash ≢ []
      → b.fp_hash ≢ []
      → matches hmac (some b) user_id c ≡ (
          (b.user_id == user_id)
          && ((b.ua_hash == binding_hash hmac c.user_agent)
              && ((b.ip_hash == binding_hash hmac c.client_ip)
                  && (b.fp_hash == binding_hash hmac c.fingerprint))))
  unfolding matches
  matches_iff b user_id c ua ip fp = ground arith

  matches-bind :
      (user_id user_id' : Text) (c c' : Context)
      → (matches hmac (some (bind hmac user_id c)) user_id' c' ≡ true)
        ↔ IsSameSender user_id user_id' c c'
  matches-bind user_id user_id' c c' =
      let e =
        matches_iff (bind hmac user_id c) user_id' c' (hash_not_empty c.user_agent)
          (hash_not_empty c.client_ip) (hash_not_empty c.fingerprint) in
      (
        λ h.
            let (u, a, i, f) = four_eq _ _ _ _ _ _ _ _ (sym e ∙ h) in
            record { same_user = u; same_agent = a; same_ip = i; same_fingerprint = f },
        λ h.
            e
            ∙ rw
                (
                  h.same_user,
                  h.same_agent,
                  h.same_ip,
                  h.same_fingerprint,
                  text_eq_refl user_id',
                  text_eq_refl (binding_hash hmac c'.user_agent),
                  text_eq_refl (binding_hash hmac c'.client_ip),
                  text_eq_refl (binding_hash hmac c'.fingerprint),
                )
                refl,
      )

  stored_binding :
      (minutes : ℕ) (user_id session_id : Text) (c : Context) (now later : ℕ) (s : redis.Store)
      → redis.get
          (store_binding hmac redis minutes user_id session_id c now s)
          (storage_key session_id)
          later
        ≡ (if ltb later (now + minutes * minute) then some (bind hmac user_id c) else none)
  unfolding store_binding
  stored_binding minutes user_id session_id c now later s =
      let key = storage_key session_id in
      redis.get-setex s key key (minutes * minute) (bind hmac user_id c) now later
      ∙ rw (text_eq_refl key) refl

  -- While it lasts, a new session is valid for a request exactly when the request comes from the same
  -- user with the same digests of user agent, address and fingerprint; once its time is over, or
  -- after it has been revoked, it is valid for none.
  pub is_session_binding_valid-store_binding :
      (minutes : ℕ) (user_id user_id' session_id : Text) (c c' : Context) (now later : ℕ)
      (s : redis.Store)
      → let s' = store_binding hmac redis minutes user_id session_id c now s in
        ((is_session_binding_valid hmac redis user_id' session_id c' later s' ≡ true)
          ↔ ((later < now + minutes * minute) × IsSameSender user_id user_id' c c'))
        × (is_session_binding_valid hmac redis user_id' session_id c' later
              (revoke_session_binding hmac redis session_id s')
            ≡ false)
  unfolding is_session_binding_valid revoke_session_binding
  is_session_binding_valid-store_binding minutes user_id user_id' session_id c c' now later s =
      let key = storage_key session_id in
      let s' = store_binding hmac redis minutes user_id session_id c now s in
      let gone : redis.get (redis.delete s' key) key later ≡ none =
        redis.get-delete s' key key later ∙ rw (text_eq_refl key) refl in
      let e = stored_binding minutes user_id session_id c now later s in
      (
        elim (Bool-cases (ltb later (now + minutes * minute))) [
          | inl live ↦
              let here : redis.get s' key later ≡ some (bind hmac user_id c) = rw live at e in
              rw (here, is_session_binding_valid)
                (
                  λ h. (
                    ltb→lt later (now + minutes * minute) live,
                    (matches-bind user_id user_id' c c').0 h,
                  ),
                  λ h. (matches-bind user_id user_id' c c').1 h.1,
                )
          | inr over ↦
              let nothing : redis.get s' key later ≡ none = rw over at e in
              rw (nothing, is_session_binding_valid) (λ h. cc, λ h. absurd (ground (arith, h.0)))
        ],
        rw (gone, is_session_binding_valid, revoke_session_binding),
      )
