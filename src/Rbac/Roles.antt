-- ===== src/Rbac/Roles.antt =====
-- Roles: `_sync_role_permissions`, `create_role`, `get_role`, `update_role` and `delete_role` of
-- backend/app/enterprise/modules/rbac/service.py. Each gives the table after it with its result; an
-- exception is rolled back by `get_db`, so that it comes without a table.
use costpilot.Prelude.{
  ℕ, Bool, false, not, ◌&&◌, ◌||◌, Option, none, some, List, [], ◌∷◌, ◌++◌, map, select, any,
  if◌then◌else◌, update_where, is_none, is_some, ◌==◌, Error, not_found, conflict, forbidden,
  bad_request, integrity_error, Result, ok, raise, raise_if, or_raise, scalar_one_or_none, ◌>>=◌,
  ◌>>◌,
}
use costpilot.Prelude
use costpilot.Text.{Text, codes, lower, strip, elem}
use costpilot.Text.Laws.{text_instance}
use costpilot.Rbac.{Role, RolePermission, PermissionKey, permission_key_instance}

-- `key in desired_permissions`
abbrev pub desires : List PermissionKey → PermissionKey → Bool
desires ks k = any (λ x. x == k) ks

-- `{(p.action, p.resource_type) for p in data.permissions}`
unfoldable pub to_set : List PermissionKey → List PermissionKey
to_set [] = []
to_set (k ∷ ks) = let rest = to_set ks in if desires rest k then rest else k ∷ rest

abbrev pub has_key : PermissionKey → RolePermission → Bool
has_key k p = p.key == k

abbrev pub new_permission : PermissionKey → RolePermission
new_permission k = record { key = k; deleted_at = none }

-- the first loop, for one row. A role has one row for a key (`uq_role_action_resource`), so that the
-- dict of the source holds every row.
unfoldable pub sync_existing : List PermissionKey → ℕ → RolePermission → RolePermission
sync_existing desired now p =
    if desires desired p.key
    then (if is_some p.deleted_at then record p { deleted_at = none } else p)
    else (if is_none p.deleted_at then record p { deleted_at = some now } else p)

unfoldable pub sync_role_permissions :
    List PermissionKey → ℕ → List RolePermission → List RolePermission
unfolding sync_existing
sync_role_permissions desired now permissions =
    map (sync_existing desired now) permissions
    ++ map new_permission (select (λ k. not (any (has_key k) permissions)) desired)

-- `{name.lower() for name in SYSTEM_ROLE_NAMES}`
abbrev system_role_names : List Text
system_role_names =
    codes "organization admin"
    ∷ codes "admin view only"
    ∷ codes "engineer"
    ∷ codes "viewer"
    ∷ codes "billing admin"
    ∷ codes "security auditor"
    ∷ []

unfoldable pub is_reserved : Text → Bool
unfolding elem lower strip
is_reserved name = elem (lower (strip name)) system_role_names

abbrev reserved : Error
reserved = bad_request (Prelude.text "Role name is reserved for system roles")

-- the `where` of `get_role`
abbrev pub is_role : Text → Text → Role → Bool
is_role org_id role_id r = (r.id == role_id && r.organization_id == org_id) && is_none r.deleted_at

unfoldable pub get_role : Text → Text → List Role → Result Role
get_role org_id role_id roles = do
  role ← scalar_one_or_none (select (is_role org_id role_id) roles)
  or_raise role (not_found (Prelude.text "Role not found"))

pub record RoleCreate : Type 0 where
  pub name : Text
  pub permissions : List PermissionKey
  pub is_default : Bool

abbrev is_named : Text → Text → Role → Bool
is_named org_id name r = r.organization_id == org_id && r.name == name

unfoldable pub has_duplicates : List PermissionKey → Bool
has_duplicates [] = false
has_duplicates (k ∷ ks) = desires ks k || has_duplicates ks

-- The flushes keep `uq_role_name_org`, which holds for deleted roles as well, and
-- `uq_role_action_resource`. The name in the conflict's message is left out.
unfoldable pub create_role : Text → Text → RoleCreate → List Role → Result (List Role × Role)
unfolding is_reserved has_duplicates
create_role fresh_id org_id data' roles = do
  raise_if data'.is_default (bad_request (Prelude.text "Custom roles cannot be marked as default"))
  raise_if (is_reserved data'.name) reserved
  existing ←
      scalar_one_or_none (select (λ r. is_named org_id data'.name r && is_none r.deleted_at) roles)
  raise_if (is_some existing) (conflict (Prelude.text "Role already exists"))
  raise_if (any (is_named org_id data'.name) roles) integrity_error
  raise_if (has_duplicates data'.permissions) integrity_error
  let role : Role = record {
    id = fresh_id;
    name = data'.name;
    organization_id = org_id;
    is_default = false;
    permissions = map new_permission data'.permissions;
    deleted_at = none;
  }
  ok (roles ++ role ∷ [], role)

pub record RoleUpdate : Type 0 where
  pub name : Option Text
  pub permissions : Option (List PermissionKey)
  pub is_default : Option Bool

unfoldable pub rename : Option Text → Role → Result Role
unfolding is_reserved
rename none role = ok role
rename (some name) role = do raise_if (is_reserved name) reserved; ok (record role { name = name })

unfoldable pub with_permissions : Option (List PermissionKey) → ℕ → Role → Role
unfolding sync_role_permissions to_set
with_permissions none now role = role
with_permissions (some ks) now role = record role {
  permissions = sync_role_permissions (to_set ks) now role.permissions;
}

-- the row with the role's identifier becomes the role
abbrev pub put_role : Role → List Role → List Role
put_role role roles = update_where (λ r. r.id == role.id) (λ _. role) roles

-- the flush of a changed role, which keeps `uq_role_name_org`
unfoldable pub flush_role : Role → List Role → Result (List Role × Role)
flush_role role roles =
    if any (λ r. is_named role.organization_id role.name r && not (r.id == role.id)) roles
    then raise integrity_error
    else ok (put_role role roles, role)

unfoldable pub update_role : ℕ → Text → Text → RoleUpdate → List Role → Result (List Role × Role)
unfolding get_role rename with_permissions flush_role
update_role now org_id role_id data' roles = do
  role ← get_role org_id role_id roles
  raise_if role.is_default (forbidden (Prelude.text "System roles cannot be modified"))
  renamed ← rename data'.name role
  raise_if (is_some data'.is_default)
      (bad_request (Prelude.text "Default status is reserved for system-managed roles"))
  flush_role (with_permissions data'.permissions now renamed) roles

abbrev pub delete_permission : ℕ → RolePermission → RolePermission
delete_permission now p = record p { deleted_at = some now }

-- the permissions of a deleted role all get the time of the deletion
abbrev pub delete_with_permissions : ℕ → Role → Role
delete_with_permissions now role = record role {
  permissions = map (delete_permission now) role.permissions;
  deleted_at = some now;
}

unfoldable pub delete_role : ℕ → Text → Text → List Role → Result (List Role × Role)
unfolding get_role
delete_role now org_id role_id roles = do
  role ← get_role org_id role_id roles
  raise_if role.is_default (forbidden (Prelude.text "System roles cannot be deleted"))
  let deleted = delete_with_permissions now role
  ok (put_role deleted roles, deleted)
