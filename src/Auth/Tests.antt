-- ===== src/Auth/Tests.antt =====
-- Logins and sessions at concrete accounts and times. The digests are the texts themselves.
use costpilot.Prelude.{
  ℕ, ◌+◌, ◌-◌, ◌*◌, ◌/◌, ◌<◌, ◌≡◌, ◌≢◌, ◌↔◌, refl, true, false, none, some, List, [], ◌∷◌, ◌++◌,
  arith, ok, raise, unauthorized, numbered,
}
use costpilot.Text.{Text, codes, text_eq, strip}
use costpilot.Text.Laws.{text_instance}
use costpilot.Redis.Memory.{memory, Contents}
use costpilot.Auth.{User, UserStatus, minute}
use costpilot.Auth.Password.{verify_password, dollar, partition}
use costpilot.Auth.Login.{authenticate_user, login, logged_in}
use costpilot.Auth.Lockout.{
  IsOpen, attempt_all, login_all, authenticate_user-lockout, login-never_locks,
}
use costpilot.Auth.Sessions.{
  SessionBinding, Binding, Context, create_session_binding, matches, binding_hash, store_binding,
  is_session_binding_valid, revoke_session_binding,
}
use costpilot.Auth.Sessions.Eviction.{Opening, open_all, is_session_binding_valid-open_all}
use costpilot.Auth.Sessions.Replay.{IsSameSender, is_session_binding_valid-store_binding}

-- a digest of a password and a salt
abbrev digest : Text → Text → Text
digest password salt = password

abbrev ada : User
ada = record {
  id = codes "7";
  email = codes "a@b.co";
  display_name = codes "Ada";
  hashed_password = codes "s" ++ (dollar ∷ codes "right");
  is_active = true;
  verified = true;
  status = UserStatus.active;
  failed_login_attempts = 0;
  locked_until = none;
  last_login = none;
  deleted_at = none;
}

abbrev users : List User
users = ada ∷ []

abbrev email : Text
email = codes "a@b.co"

abbrev wrong : Text
wrong = codes "wrong"

ada-IsOpen : IsOpen email users ada 0
unfolding text_eq
ada-IsOpen = record { found = refl; active = refl; unlocked = refl; counted = refl }

wrong_is_wrong : verify_password digest wrong ada.hashed_password ≡ false
unfolding verify_password text_eq partition
wrong_is_wrong = refl

abbrev four : List (Text × ℕ)
four = (wrong, 1) ∷ (wrong, 2) ∷ (wrong, 3) ∷ (wrong, 4) ∷ []

authenticate_user-lockout_example :
    let locked = (authenticate_user digest email wrong 5 (attempt_all digest email four users)).0 in
    authenticate_user digest email (codes "right") 600 locked ≡ (
      locked,
      raise (
          unauthorized (
            numbered "Account is locked. Try again in (minutes) "
              ((5 + 15 * minute - 600) / minute + 1))),
    )
authenticate_user-lockout_example =
    authenticate_user-lockout digest email users ada 0 four wrong (codes "right") 5 600 ada-IsOpen
      refl (wrong_is_wrong, (wrong_is_wrong, (wrong_is_wrong, (wrong_is_wrong, tt)))) wrong_is_wrong
      (omega arith)

login-never_locks_example :
    (login_all digest email four users ≡ users)
    × ((login digest email (codes "right") 600 (login_all digest email four users)).1
        ≡ ok (logged_in 600 ada))
unfolding verify_password text_eq partition
login-never_locks_example =
    login-never_locks digest email users ada 0 four (codes "right") 600 ada-IsOpen
      (wrong_is_wrong, (wrong_is_wrong, (wrong_is_wrong, (wrong_is_wrong, tt)))) refl

abbrev session : Text → ℕ → SessionBinding
session id t = record {
  user_id = codes "7";
  session_id = id;
  created_at = t;
  expires_at = 1000;
  revoked_at = none;
  revoke_reason = none;
}

abbrev sessions : List SessionBinding
sessions = session (codes "b") 2 ∷ session (codes "a") 1 ∷ []

-- a digest that is never empty
abbrev keyed : Text → Text
keyed s = b'k' ∷ s

abbrev browser : Context
browser = record {
  user_agent = some (codes "Firefox");
  client_ip = some (codes "10.0.0.7");
  fingerprint = none;
}

keyed_not_empty : (s : Text) → keyed s ≢ []
keyed_not_empty s = λ e. cc

is_session_binding_valid-store_binding_example :
    let s' =
      store_binding keyed (memory Binding) 15 (codes "7") (codes "c") browser 10 (λ k. none) in
    ((is_session_binding_valid keyed (memory Binding) (codes "7") (codes "c") browser 20 s' ≡ true)
      ↔ ((20 < 10 + 15 * minute)
          × IsSameSender keyed keyed_not_empty
              (memory Binding)
              (codes "7")
              (codes "7")
              browser
              browser))
    × (is_session_binding_valid keyed
          (memory Binding)
          (codes "7")
          (codes "c")
          browser
          20
          (revoke_session_binding keyed (memory Binding) (codes "c") s')
        ≡ false)
is_session_binding_valid-store_binding_example =
    is_session_binding_valid-store_binding keyed keyed_not_empty (memory Binding) 15 (codes "7")
      (codes "7") (codes "c") browser browser 10 20 (λ k. none)

abbrev desktop : Context
desktop = record { user_agent = some (codes "ua"); client_ip = none; fingerprint = none }

abbrev openings : List Opening
openings =
    record { session_id = codes "ss"; context = desktop; now = 5 }
    ∷ record { session_id = codes "sss"; context = desktop; now = 6 }
    ∷ []

abbrev first_open : List SessionBinding × Contents Binding
first_open =
    create_session_binding keyed (memory Binding) 30 (codes "7") (codes "s") desktop 4
      ([], λ _. none)

is_session_binding_valid-open_all_example :
    is_session_binding_valid keyed
      (memory Binding)
      (codes "7")
      (codes "s")
      desktop
      9
      (open_all keyed (memory Binding) 30 (codes "7") openings first_open).1
    ≡ true
unfolding is_session_binding_valid create_session_binding store_binding matches binding_hash text_eq
    strip
is_session_binding_valid-open_all_example =
    is_session_binding_valid-open_all keyed (memory Binding) 30 (codes "7") (codes "s") openings
      desktop 9 first_open ((λ h. cc), ((λ h. cc), tt))
