-- ===== src/Auth/Reset.antt =====
-- Password reset tokens of auth/service.py. Tokens are fresh secrets, given as arguments; the Redis
-- server is a parameter.
use costpilot.Prelude.{
  ℕ, ◌+◌, ◌*◌, ◌<◌, ◌≡◌, ◌≢◌, refl, ◌∙◌, Bool, true, ◌&&◌, Option, none, some, List, [], ◌∷◌, ◌++◌,
  if◌then◌else◌, select, update_where, select-update_where, is_none, ◌==◌, Error, bad_request,
  not_found, Result, ok, raise, scalar_one_or_none, All, lt→ltb,
}
use costpilot.Prelude
use costpilot.Text.{Text, codes}
use costpilot.Text.Laws.{text_instance, text_eq_refl}
use costpilot.Redis.{Redis}
use costpilot.Auth.{User}
use costpilot.Auth.Password.{hash_password, verify_password, dollar, verify_password-hash_password}
use costpilot.Auth.Login.{has_email}

abbrev pub reset_key : Text → Text
reset_key token = codes "password_reset:" ++ token

-- 15 minutes
abbrev pub reset_ttl : ℕ
reset_ttl = 900 * 1_000_000

abbrev pub has_id : Text → User → Bool
has_id id u = u.id == id && is_none u.deleted_at

abbrev pub invalid_token : Error
invalid_token = bad_request (Prelude.text "Invalid or expired reset token")

abbrev pub with_password : Text → User → User
with_password hashed u = record u {
  hashed_password = hashed;
  failed_login_attempts = 0;
  locked_until = none;
}

module _ (pbkdf2 : Text → Text → Text) (redis : Redis Text) where
  open redis use {Store, get, setex, delete}

  create_for : Result (Option User) → Text → ℕ → Store → Store × Result (Option Text)
  create_for (raise e) token now s = (s, raise e)
  create_for (ok none) token now s = (s, ok none)
  create_for (ok (some u)) token now s =
      (setex s (reset_key token) reset_ttl u.id now, ok (some token))

  unfoldable pub create_password_reset_token :
      Text → Text → ℕ → List User → Store → Store × Result (Option Text)
  unfolding create_for
  create_password_reset_token email token now users s =
      create_for (scalar_one_or_none (select (has_email email) users)) token now s

  -- an empty value counts as none
  non_empty : Option Text → Option Text
  non_empty none = none
  non_empty (some []) = none
  non_empty (some (c ∷ id)) = some (c ∷ id)

  unfoldable pub verify_password_reset_token : Text → ℕ → Store → Option Text
  unfolding non_empty
  verify_password_reset_token token now s = non_empty (get s (reset_key token) now)

  set_password :
      Text
      → Text
      → Text
      → List User
      → Store
      → Result (Option User)
      → (List User × Store) × Result User
  set_password salt password id users s (raise e) = ((users, s), raise e)
  set_password salt password id users s (ok none) =
      ((users, s), raise (not_found (Prelude.text "User not found")))
  set_password salt password id users s (ok (some u)) =
      let hashed = hash_password pbkdf2 salt password in
      ((update_where (has_id id) (with_password hashed) users, s), ok (with_password hashed u))

  reset_for :
      Option Text → Text → Text → Text → List User → Store → (List User × Store) × Result User
  unfolding set_password
  reset_for none token salt password users s = ((users, s), raise invalid_token)
  reset_for (some id) token salt password users s =
      set_password salt password id users (delete s (reset_key token))
        (scalar_one_or_none (select (has_id id) users))

  -- the users and the store after the call, and its result
  unfoldable pub reset_password :
      Text → Text → Text → ℕ → List User → Store → (List User × Store) × Result User
  unfolding reset_for verify_password_reset_token
  reset_password token salt password now users s =
      reset_for (verify_password_reset_token token now s) token salt password users s

  set_password_store :
      (salt password id : Text) (users : List User) (s : Store) (r : Result (Option User))
      → (set_password salt password id users s r).0.1 ≡ s
  unfolding set_password
  set_password_store salt password id users s (raise e) = refl
  set_password_store salt password id users s (ok none) = refl
  set_password_store salt password id users s (ok (some u)) = refl

  deleted_token :
      (token : Text) (later : ℕ) (s : Store)
      → verify_password_reset_token token later (delete s (reset_key token)) ≡ none
  unfolding verify_password_reset_token
  deleted_token token later s =
      rw (
        redis.get-delete s (reset_key token) (reset_key token) later,
        text_eq_refl (reset_key token),
      )

  -- A reset token is good for one use: once it has been accepted, whether or not its user was still
  -- there, every later use is refused and changes neither the users nor the tokens.
  pub reset_password-once :
      (token id salt salt' password password' : Text) (now later : ℕ) (users users' : List User)
      (s : Store)
      → verify_password_reset_token token now s ≡ some id
      → let s' = (reset_password token salt password now users s).0.1 in
        reset_password token salt' password' later users' s' ≡ ((users', s'), raise invalid_token)
  unfolding reset_password
  reset_password-once token id salt salt' password password' now later users users' s accepted =
      let row = scalar_one_or_none (select (has_id id) users) in
      rw (
        accepted,
        set_password_store salt password id users (delete s (reset_key token)) row,
        deleted_token token later s,
      )

  non_empty-some : (id : Text) → id ≢ [] → non_empty (some id) ≡ some id
  unfolding non_empty
  non_empty-some [] h = absurd (h refl)
  non_empty-some (c ∷ id) h = refl

  created_token :
      (email token : Text) (now later : ℕ) (users : List User) (s : Store) (u : User)
      → select (has_email email) users ≡ u ∷ []
      → u.id ≢ []
      → later < now + reset_ttl
      → verify_password_reset_token token later
          (create_password_reset_token email token now users s).0
        ≡ some u.id
  unfolding create_password_reset_token verify_password_reset_token
  created_token email token now later users s u found id_given live =
      rw
        (
          found,
          redis.get-setex s (reset_key token) (reset_key token) reset_ttl u.id now later,
          text_eq_refl (reset_key token),
          lt→ltb later (now + reset_ttl) live,
        )
        (non_empty-some u.id id_given)

  -- Where a user with the address exists, a token that was made for it and is used within 15 minutes
  -- sets the password: the account is found, its lock and its failures are cleared, and the new
  -- password is accepted against what is stored.
  pub create-reset_password :
      (email token salt password : Text) (now later : ℕ) (users : List User) (s : Store) (u : User)
      → select (has_email email) users ≡ u ∷ []
      → select (has_id u.id) users ≡ u ∷ []
      → u.id ≢ []
      → later < now + reset_ttl
      → All (λ c. c ≢ dollar) salt
      → let s' = (create_password_reset_token email token now users s).0 in
        let u' = with_password (hash_password pbkdf2 salt password) u in
        ((reset_password token salt password later users s').1 ≡ ok u')
        × (select (has_id u.id) (reset_password token salt password later users s').0.0 ≡ u' ∷ [])
        × (verify_password pbkdf2 password u'.hashed_password ≡ true)
  create-reset_password email token salt password now later users s u found row id_given live
        plain =
      let hashed = hash_password pbkdf2 salt password in
      let valid : verify_password_reset_token token later
            (create_password_reset_token email token now users s).0
          ≡ some u.id =
        created_token email token now later users s u found id_given live in
      let updated : select (has_id u.id) (update_where (has_id u.id) (with_password hashed) users)
          ≡ with_password hashed u ∷ [] =
        rw (select-update_where (has_id u.id) (with_password hashed) (λ x. refl) users, row) in
      unfold reset_password in
      (
        rw (valid, row),
        rw (valid, row) updated,
        (verify_password-hash_password pbkdf2 password password salt plain).1 refl,
      )
