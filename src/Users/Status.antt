-- ===== src/Users/Status.antt =====
-- The status of accounts and memberships: `suspend_user`, `activate_user`, `admin_reset_user_password`
-- and `remove_user_from_organization` of backend/app/user_management/service.py. The answers are the
-- rows that the list items are made of.
mod Suspension
mod Removal
mod Tests
use costpilot.Prelude.{
  ℕ, true, false, ◌&&◌, none, some, List, update_where, ◌==◌, forbidden, Result, ok, raise_if,
  ◌>>=◌, ◌>>◌,
}
use costpilot.Prelude
use costpilot.Text.{Text}
use costpilot.Text.Laws.{text_instance}
use costpilot.Auth.{User, UserStatus}
use costpilot.Auth.Password.{hash_password}
use costpilot.Auth.Reset.{with_password}
use costpilot.Rbac.Assignments.{list_user_roles}
use costpilot.Rbac.Check.{Employee}
use costpilot.Users.{is_live_user, is_employee, get_user_employee, Assignments, revoke_each}

abbrev pub suspended : User → User
suspended u = record u { status = UserStatus.suspended; is_active = false }

abbrev pub activated : User → User
activated u = record u {
  status = UserStatus.active;
  is_active = true;
  failed_login_attempts = 0;
  locked_until = none;
}

unfoldable pub suspend_user :
    Text → Text → Text → List User → List Employee → Result (List User × User)
suspend_user org_id user_id suspended_by users employees = do
  (user, _) ← get_user_employee org_id user_id users employees
  raise_if (user_id == suspended_by) (forbidden (Prelude.text "Cannot suspend your own account"))
  ok (update_where (is_live_user user_id) suspended users, suspended user)

unfoldable pub activate_user : Text → Text → List User → List Employee → Result (List User × User)
activate_user org_id user_id users employees = do
  (user, _) ← get_user_employee org_id user_id users employees
  ok (update_where (is_live_user user_id) activated users, activated user)

-- The salt is fresh.
unfoldable pub admin_reset_user_password :
    (Text → Text → Text)
    → Text
    → Text
    → Text
    → Text
    → Text
    → List User
    → List Employee
    → Result (List User × User)
admin_reset_user_password pbkdf2 salt org_id user_id new_password reset_by users employees = do
  (user, _) ← get_user_employee org_id user_id users employees
  raise_if (user_id == reset_by) (
      forbidden (
        Prelude.text
          "Cannot reset your own password via admin endpoint. Use the Settings page instead."))
  let hashed = hash_password pbkdf2 salt new_password
  ok (update_where (is_live_user user_id) (with_password hashed) users, with_password hashed user)

abbrev pub left : ℕ → Employee → Employee
left now e = record e { deleted_at = some now }

-- The roles are read with the default limit of 50.
unfoldable pub remove_user_from_organization :
    ℕ
    → Text
    → Text
    → Text
    → List User
    → List Employee
    → Assignments
    → Result (List Employee × Assignments)
remove_user_from_organization now org_id user_id removed_by users employees table = do
  _ ← get_user_employee org_id user_id users employees
  raise_if (user_id == removed_by)
      (forbidden (Prelude.text "Cannot remove yourself from organization"))
  after ← revoke_each now org_id (list_user_roles org_id (some user_id) 0 50 now table).0 table
  ok (update_where (is_employee org_id user_id) (left now) employees, after)
