-- ===== src/Auth/Login.antt =====
-- `register_user`, `authenticate_user` and `get_user_by_id` of auth/service.py, and the login
-- endpoint's use of them through `get_db`. Each gives the table of users as it has flushed it.
use costpilot.Prelude.{
  ◌≡◌, scalar_one_or_none-some, ℕ, ◌+◌, ◌-◌, ◌*◌, ◌/◌, Bool, true, false, not, ◌&&◌, Option, none,
  some, List, [], ◌∷◌, ◌++◌, ltb, leb, if◌then◌else◌, select, update_where, is_none, ◌==◌, numbered,
  Error, integrity_error, any, not_found, conflict, forbidden, unauthorized, Result, ok, raise,
  scalar_one_or_none,
}
use costpilot.Prelude
use costpilot.Text.{Text}
use costpilot.Text.Laws.{text_instance}
use costpilot.Database.{get_db}
use costpilot.Auth.{User, UserStatus, minute}
use costpilot.Auth.Password.{hash_password, verify_password}

-- `User.email == email, User.deleted_at.is_(None)`
abbrev pub has_email : Text → User → Bool
has_email email u = u.email == email && is_none u.deleted_at

abbrev pub wrong_password : Error
wrong_password = unauthorized (Prelude.text "Wrong username/password")

abbrev pub lock_left : Option ℕ → ℕ → Option ℕ
lock_left none now = none
lock_left (some until) now = if ltb now until then some (until - now) else none

-- the row of a user after a wrong password
abbrev pub failed_user : ℕ → User → User
failed_user now u =
    let attempts = u.failed_login_attempts + 1 in
    record u {
      failed_login_attempts = attempts;
      locked_until = (if leb 5 attempts then some (now + 15 * minute) else u.locked_until);
    }

abbrev pub logged_in : ℕ → User → User
logged_in now u = record u { failed_login_attempts = 0; locked_until = none; last_login = some now }

module _ (pbkdf2 : Text → Text → Text) where
  -- the part of `authenticate_user` after the lock
  check_password : List User → Text → Text → ℕ → User → List User × Result User
  check_password users email password now u =
      if not u.is_active
      then (
        users,
        raise (
            forbidden (
              Prelude.text
                "Your account has been suspended. Please contact your admin for access.")),
      )
      else (if not (verify_password pbkdf2 password u.hashed_password)
          then (update_where (has_email email) (failed_user now) users, raise wrong_password)
          else (update_where (has_email email) (logged_in now) users, ok (logged_in now u)))

  -- `int(remaining.total_seconds() / 60) + 1`
  check_lock : List User → Text → Text → ℕ → User → Option ℕ → List User × Result User
  unfolding check_password
  check_lock users email password now u none = check_password users email password now u
  check_lock users email password now u (some remaining) = (
    users,
    raise (
        unauthorized
          (numbered "Account is locked. Try again in (minutes) " (remaining / minute + 1))),
  )

  authenticate_row : List User → Text → Text → ℕ → Result (Option User) → List User × Result User
  unfolding check_lock
  authenticate_row users email password now (raise e) = (users, raise e)
  authenticate_row users email password now (ok none) = (users, raise wrong_password)
  authenticate_row users email password now (ok (some u)) =
      check_lock users email password now u (lock_left u.locked_until now)

  unfoldable pub authenticate_user : Text → Text → ℕ → List User → List User × Result User
  unfolding authenticate_row
  authenticate_user email password now users =
      authenticate_row users email password now
        (scalar_one_or_none (select (has_email email) users))

  -- the login endpoint, up to the session that it opens
  unfoldable pub login : Text → Text → ℕ → List User → List User × Result User
  login email password now = get_db (authenticate_user email password now)

  -- the address is unique, also among the rows that are marked as deleted
  register_row : List User → User → Result (Option User) → List User × Result User
  register_row users user (raise e) = (users, raise e)
  register_row users user (ok (some u)) =
      (users, raise (conflict (Prelude.text "User with this email already exists")))
  register_row users user (ok none) =
      if any (λ u. u.email == user.email) users
      then (users, raise integrity_error)
      else (users ++ user ∷ [], ok user)

  -- The new row's identifier and its password's salt are arguments.
  unfoldable pub register_user :
      Text → Text → Text → Text → Text → List User → List User × Result User
  unfolding register_row
  register_user id salt email display_name password users =
      register_row users
        (record {
          id = id;
          email = email;
          display_name = display_name;
          hashed_password = hash_password pbkdf2 salt password;
          is_active = true;
          verified = false;
          status = UserStatus.active;
          failed_login_attempts = 0;
          locked_until = none;
          last_login = none;
          deleted_at = none;
        })
        (scalar_one_or_none (select (has_email email) users))

get_row : Result (Option User) → Result User
get_row (raise e) = raise e
get_row (ok none) = raise (not_found (Prelude.text "User not found"))
get_row (ok (some u)) = ok u

unfoldable pub get_user_by_id : Text → List User → Result User
unfolding get_row
get_user_by_id id users =
    get_row (scalar_one_or_none (select (λ u. u.id == id && is_none u.deleted_at) users))

get_row-ok : (found : Result (Option User)) {u : User} → get_row found ≡ ok u → found ≡ ok (some u)
unfolding get_row
get_row-ok (raise e) h = cc
get_row-ok (ok none) h = cc
get_row-ok (ok (some u)) h = cc

-- the look-up returns the one live row with the identifier
pub get_user_by_id-ok :
    (id : Text) (users : List User) {u : User}
    → get_user_by_id id users ≡ ok u
    → select (λ x. x.id == id && is_none x.deleted_at) users ≡ u ∷ []
unfolding get_user_by_id
get_user_by_id-ok id users h = scalar_one_or_none-some _ (get_row-ok _ h)
