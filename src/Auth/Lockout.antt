-- ===== src/Auth/Lockout.antt =====
-- The account lock of `authenticate_user`, as the service keeps it and as the login endpoint does.
use costpilot.Prelude.{
  ℕ, suc, ◌+◌, ◌-◌, ◌*◌, ◌/◌, ◌<◌, ◌≡◌, refl, true, false, none, some, List, [], ◌∷◌, select,
  update_where, select-update_where, numbered, unauthorized, ok, raise, arith, length, All,
}
use costpilot.Text.{Text}
use costpilot.Text.Laws.{text_instance}
use costpilot.Database.{get_db}
use costpilot.Auth.{User, minute}
use costpilot.Auth.Password.{verify_password}
use costpilot.Auth.Login.{
  authenticate_user, login, has_email, wrong_password, failed_user, logged_in,
}

-- a password and the time at which it is tried
abbrev pub Tries : Type 0
Tries = List (Text × ℕ)

module _ (email : Text) where
  -- The one account with the address, open and with so many failures.
  pub record IsOpen (users : List User) (u : User) (failures : ℕ) : Type 0 where
    pub found : select (has_email email) users ≡ u ∷ []
    pub active : u.is_active ≡ true
    pub unlocked : u.locked_until ≡ none
    pub counted : u.failed_login_attempts ≡ failures

  found_after :
      (users : List User) (u : User) (now : ℕ)
      → select (has_email email) users ≡ u ∷ []
      → select (has_email email) (update_where (has_email email) (failed_user now) users)
        ≡ failed_user now u ∷ []
  found_after users u now h =
      rw (select-update_where (has_email email) (failed_user now) (λ x. refl) users, h)

module _ (pbkdf2 : Text → Text → Text) (email : Text) where
  abbrev pub Wrong : User → Text × ℕ → Type 0
  Wrong u t = verify_password pbkdf2 t.0 u.hashed_password ≡ false

  -- what a list of login attempts leaves of the table, if each were committed
  unfoldable pub attempt_all : Tries → List User → List User
  attempt_all [] users = users
  attempt_all ((password, now) ∷ rest) users =
      attempt_all rest (authenticate_user pbkdf2 email password now users).0

  -- the same through the endpoint
  unfoldable pub login_all : Tries → List User → List User
  login_all [] users = users
  login_all ((password, now) ∷ rest) users =
      login_all rest (login pbkdf2 email password now users).0

  authenticate_wrong :
      (users : List User) (u : User) (failures : ℕ) (password : Text) (now : ℕ)
      → IsOpen email users u failures
      → verify_password pbkdf2 password u.hashed_password ≡ false
      → authenticate_user pbkdf2 email password now users
        ≡ (update_where (has_email email) (failed_user now) users, raise wrong_password)
  unfolding authenticate_user
  authenticate_wrong users u failures password now o wrong = rw (o.found) (ground arith)

  authenticate_locked :
      (users : List User) (u : User) (password : Text) (now until : ℕ)
      → select (has_email email) users ≡ u ∷ []
      → u.locked_until ≡ some until
      → now < until
      → authenticate_user pbkdf2 email password now users ≡ (
        users,
        raise (
            unauthorized
              (numbered "Account is locked. Try again in (minutes) " ((until - now) / minute + 1))),
      )
  unfolding authenticate_user
  authenticate_locked users u password now until found locked h = rw found (ground arith)

  -- In the service, five wrong passwords in a row lock an open account with no failures: until 15
  -- minutes after the fifth, every attempt, also one with the right password, is refused with the
  -- minutes that are left and changes nothing.
  pub authenticate_user-lockout :
      (users : List User) (u : User) (failures : ℕ) (tries : Tries) (last password : Text)
      (t now : ℕ)
      → IsOpen email users u failures
      → failures + length tries ≡ 4
      → All (Wrong u) tries
      → Wrong u (last, t)
      → now < t + 15 * minute
      → let locked = (authenticate_user pbkdf2 email last t (attempt_all tries users)).0 in
        authenticate_user pbkdf2 email password now locked ≡ (
          locked,
          raise (
              unauthorized (
                numbered "Account is locked. Try again in (minutes) "
                  ((t + 15 * minute - now) / minute + 1))),
        )
  unfolding attempt_all
  authenticate_user-lockout users u failures [] last password t now o n wrongs wrong h =
      rw (authenticate_wrong users u failures last t o wrong) (
        authenticate_locked (update_where (has_email email) (failed_user t) users) (failed_user t u)
          password now (t + 15 * minute) (found_after email users u t o.found) (ground arith) h)
  authenticate_user-lockout users u failures ((p, t') ∷ tries) last password t now o n wrongs wrong
        h =
      rw (authenticate_wrong users u failures p t' o wrongs.0) (
        authenticate_user-lockout (update_where (has_email email) (failed_user t') users)
          (failed_user t' u) (suc failures) tries last password t now
          (record {
            found = found_after email users u t' o.found;
            active = o.active;
            unlocked = ground arith;
            counted = ground arith;
          })
          (omega arith) wrongs.1 wrong h)

  login_wrong :
      (users : List User) (u : User) (failures : ℕ) (password : Text) (now : ℕ)
      → IsOpen email users u failures
      → verify_password pbkdf2 password u.hashed_password ≡ false
      → (login pbkdf2 email password now users).0 ≡ users
  unfolding login get_db
  login_wrong users u failures password now o wrong =
      rw (authenticate_wrong users u failures password now o wrong)

  login_all-Wrong :
      (users : List User) (u : User) (failures : ℕ) (tries : Tries)
      → IsOpen email users u failures
      → All (Wrong u) tries
      → login_all tries users ≡ users
  unfolding login_all
  login_all-Wrong users u failures [] o wrongs = refl
  login_all-Wrong users u failures ((p, t) ∷ tries) o wrongs =
      rw (login_wrong users u failures p t o wrongs.0)
        (login_all-Wrong users u failures tries o wrongs.1)

  -- Through the endpoint no number of wrong passwords locks an open account: the exception rolls the
  -- count back, so the table is as it was, and the right password is then accepted at once.
  pub login-never_locks :
      (users : List User) (u : User) (failures : ℕ) (tries : Tries) (password : Text) (now : ℕ)
      → IsOpen email users u failures
      → All (Wrong u) tries
      → verify_password pbkdf2 password u.hashed_password ≡ true
      → (login_all tries users ≡ users)
        × ((login pbkdf2 email password now (login_all tries users)).1 ≡ ok (logged_in now u))
  unfolding login get_db authenticate_user
  login-never_locks users u failures tries password now o wrongs right =
      let same = login_all-Wrong users u failures tries o wrongs in
      (same, rw (same, o.found) (ground arith))
