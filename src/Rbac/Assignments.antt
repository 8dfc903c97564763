-- ===== src/Rbac/Assignments.antt =====
-- Assignments of roles to users: `assign_role`, `list_user_roles` and `revoke_role` of
-- backend/app/enterprise/modules/rbac/service.py. Rows stand in the order in which they were made,
-- which is the order of `created_at`.
use costpilot.Prelude.{
  ℕ, Bool, true, ◌&&◌, Option, none, some, List, [], ◌∷◌, ◌++◌, ltb, select, any, take, drop,
  length, update_where, is_none, is_some, ◌==◌, not_found, conflict, integrity_error, Result, ok,
  raise_if, or_raise, scalar_one_or_none, ◌>>=◌, ◌>>◌,
}
use costpilot.Prelude
use costpilot.Text.{Text}
use costpilot.Text.Laws.{text_instance}
use costpilot.Rbac.{Role, UserRoleAssignment}
use costpilot.Rbac.Roles.{get_role}

-- the columns of `uq_user_role_org`
abbrev pub is_same : Text → Text → Text → UserRoleAssignment → Bool
is_same org_id user_id role_id a =
    (a.user_id == user_id && a.role_id == role_id) && a.organization_id == org_id

abbrev pub new_assignment : Text → Text → Text → Text → Option Text → Option ℕ → UserRoleAssignment
new_assignment fresh_id org_id user_id role_id assigned_by expires_at = record {
  id = fresh_id;
  user_id = user_id;
  role_id = role_id;
  organization_id = org_id;
  assigned_by = assigned_by;
  expires_at = expires_at;
  deleted_at = none;
}

-- The flush keeps `uq_user_role_org`, which holds for revoked assignments as well.
unfoldable pub assign_role :
    Text
    → Text
    → Text
    → Text
    → Option Text
    → Option ℕ
    → List Role
    → List UserRoleAssignment
    → Result (List UserRoleAssignment × UserRoleAssignment)
assign_role fresh_id org_id user_id role_id assigned_by expires_at roles table = do
  _ ← get_role org_id role_id roles
  existing ←
      scalar_one_or_none
        (select (λ a. is_same org_id user_id role_id a && is_none a.deleted_at) table)
  raise_if (is_some existing)
      (conflict (Prelude.text "User already has this role in this organization"))
  raise_if (any (is_same org_id user_id role_id) table) integrity_error
  let assignment = new_assignment fresh_id org_id user_id role_id assigned_by expires_at
  ok (table ++ assignment ∷ [], assignment)

-- `expires_at IS NULL OR expires_at > now`
abbrev pub unexpired : Option ℕ → ℕ → Bool
unexpired none now = true
unexpired (some t) now = ltb now t

-- `if user_id:` adds the condition on the user
abbrev pub is_user : Option Text → Text → Bool
is_user none u = true
is_user (some []) u = true
is_user (some (c ∷ id)) u = u == c ∷ id

-- the `where` of `list_user_roles`
abbrev pub is_effective : Text → Option Text → ℕ → UserRoleAssignment → Bool
is_effective org_id user_id now a =
    a.organization_id == org_id
    && (is_none a.deleted_at && (unexpired a.expires_at now && is_user user_id a.user_id))

unfoldable pub list_user_roles :
    Text → Option Text → ℕ → ℕ → ℕ → List UserRoleAssignment → List UserRoleAssignment × ℕ
list_user_roles org_id user_id offset limit now table =
    let rows = select (is_effective org_id user_id now) table in
    (take limit (drop offset rows), length rows)

abbrev pub is_assignment : Text → Text → UserRoleAssignment → Bool
is_assignment org_id assignment_id a =
    (a.id == assignment_id && a.organization_id == org_id) && is_none a.deleted_at

abbrev pub revoked : ℕ → UserRoleAssignment → UserRoleAssignment
revoked now a = record a { deleted_at = some now }

unfoldable pub revoke_role :
    ℕ
    → Text
    → Text
    → List UserRoleAssignment
    → Result (List UserRoleAssignment × UserRoleAssignment)
revoke_role now org_id assignment_id table = do
  found ← scalar_one_or_none (select (is_assignment org_id assignment_id) table)
  a ← or_raise found (not_found (Prelude.text "Role assignment not found"))
  ok (update_where (λ x. x.id == a.id) (revoked now) table, revoked now a)
