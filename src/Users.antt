-- ===== src/Users.antt =====
-- Roles of the users of an organization and invitations to it: backend/app/user_management/service.py
-- over `UserInvitation` of backend/app/user_management/models.py. Entries of the activity log are
-- left out. An exception is rolled back by `get_db`, so that it comes without rows.
use costpilot.Prelude.{
  ℕ, ◌+◌, ◌*◌, Bool, not, ◌&&◌, none, some, List, [], ◌∷◌, ◌++◌, select, is_none, ◌==◌,
  if◌then◌else◌, not_found, conflict, Result, ok, raise, or_raise, scalar_one_or_none, ◌>>=◌, ◌>>◌,
}
use costpilot.Prelude
use costpilot.Text.{Text, elem}
use costpilot.Text.Laws.{text_instance}
use costpilot.Auth.{User}
use costpilot.Rbac.{Role, UserRoleAssignment}
use costpilot.Rbac.Assignments.{assign_role, list_user_roles, revoke_role}
use costpilot.Rbac.Check.{Employee}
mod Replacement
mod Invitations
mod Status
mod Tests

-- a live membership in the organization
abbrev pub is_employee : Text → Text → Employee → Bool
is_employee org_id user_id e =
    (e.auth_user_id == user_id && e.organization_id == org_id) && is_none e.deleted_at

abbrev pub is_live_user : Text → User → Bool
is_live_user user_id u = u.id == user_id && is_none u.deleted_at

pair_with : User → List Employee → List (User × Employee)
pair_with u [] = []
pair_with u (e ∷ es) = (u, e) ∷ pair_with u es

-- one pair for each live user with the identifier and each live membership of theirs
pairs : List User → List Employee → List (User × Employee)
unfolding pair_with
pairs [] es = []
pairs (u ∷ us) es = pair_with u es ++ pairs us es

unfoldable pub get_user_employee :
    Text → Text → List User → List Employee → Result (User × Employee)
unfolding pairs
get_user_employee org_id user_id users employees = do
  row ←
      scalar_one_or_none (
        pairs (select (is_live_user user_id) users) (select (is_employee org_id user_id) employees))
  or_raise row (not_found (Prelude.text "User not found in organization"))

abbrev pub Assignments : Type 0
Assignments = List UserRoleAssignment

-- `for assignment in current_roles: await rbac_revoke_role(db, org_id, assignment.id)`
unfoldable pub revoke_each : ℕ → Text → Assignments → Assignments → Result Assignments
revoke_each now org_id [] table = ok table
revoke_each now org_id (a ∷ as') table = do
  (after, _) ← revoke_role now org_id a.id table
  revoke_each now org_id as' after

-- `for role_id in data.role_ids: await rbac_assign_role(...)`, with the fresh identifier of each row
unfoldable pub assign_each :
    Text → Text → List Role → List (Text × Text) → Assignments → Result Assignments
assign_each org_id user_id roles [] table = ok table
assign_each org_id user_id roles ((fresh_id, role_id) ∷ rest) table = do
  (after, _) ← assign_role fresh_id org_id user_id role_id none none roles table
  assign_each org_id user_id roles rest after

-- `except ConflictError: pass`
abbrev pub skip_conflict {κ} :
    {A : Type κ} → Assignments → Result (Assignments × A) → Result Assignments
skip_conflict before (ok (after, _)) = ok after
skip_conflict before (raise (conflict m)) = ok before
skip_conflict before (raise e) = raise e

unfoldable pub assign_missing :
    Text → Text → List Role → List (Text × Text) → Assignments → Result Assignments
assign_missing org_id user_id roles [] table = ok table
assign_missing org_id user_id roles ((fresh_id, role_id) ∷ rest) table = do
  after ← skip_conflict table (assign_role fresh_id org_id user_id role_id none none roles table)
  assign_missing org_id user_id roles rest after

pub data RoleAction : Type 0 where
  assign revoke replace : RoleAction

role_ids : List (Text × Text) → List Text
role_ids [] = []
role_ids ((_, role_id) ∷ rest) = role_id ∷ role_ids rest

-- The roles are given with the fresh identifiers of the rows that may be made for them. The current
-- roles are read with the default limit of 50.
unfoldable pub change_roles :
    RoleAction → ℕ → Text → Text → List (Text × Text) → List Role → Assignments → Result Assignments
unfolding role_ids list_user_roles
change_roles replace now org_id user_id wanted roles table = do
  after ← revoke_each now org_id (list_user_roles org_id (some user_id) 0 50 now table).0 table
  assign_each org_id user_id roles wanted after
change_roles assign now org_id user_id wanted roles table =
    assign_missing org_id user_id roles wanted table
change_roles revoke now org_id user_id wanted roles table =
    revoke_each now org_id
      (select (λ a. elem a.role_id (role_ids wanted))
        (list_user_roles org_id (some user_id) 0 50 now table).0)
      table

-- the rows of the table after the call, and the assignments that it answers
unfoldable pub update_user_roles :
    RoleAction
    → ℕ
    → Text
    → Text
    → List (Text × Text)
    → List User
    → List Employee
    → List Role
    → Assignments
    → Result (Assignments × Assignments)
unfolding get_user_employee change_roles
update_user_roles action now org_id user_id wanted users employees roles table = do
  _ ← get_user_employee org_id user_id users employees
  after ← change_roles action now org_id user_id wanted roles table
  ok (after, (list_user_roles org_id (some user_id) 0 50 now after).0)
