-- ===== src/Rbac/Check.antt =====
-- The decision: `check_permission` of backend/app/enterprise/modules/rbac/service.py and
-- `ensure_org_permission` of backend/app/enterprise/modules/rbac/dependencies.py.
use costpilot.Prelude.{
  ℕ, Bool, true, false, not, ◌&&◌, ◌||◌, Option, none, some, List, [], ◌∷◌, ◌++◌, map, select, any,
  if◌then◌else◌, is_none, ◌==◌, Error, forbidden, Result, ok, raise_if, scalar_one_or_none, ◌>>=◌,
  ◌>>◌,
}
use costpilot.Prelude
use costpilot.Text.{Text, codes, elem}
use costpilot.Text.Laws.{text_instance}
use costpilot.Rbac.{
  manage, Role, RolePermission, UserRoleAssignment, AbacPolicy, PermissionAction, RbacResourceType,
  action_instance, resource_type_instance,
}
use costpilot.Rbac.Assignments.{list_user_roles}
use costpilot.Rbac.Policies.{list_abac_policies, evaluate_abac}

pub record PermissionCheckRequest : Type 0 where
  pub user_id : Text
  pub action : PermissionAction
  pub resource_type : RbacResourceType
  pub resource_attributes : List (Text × Text)

pub record PermissionCheckResponse : Type 0 where
  pub allowed : Bool
  pub matched_roles : List Text
  pub matched_policies : List Text

-- the columns of `employees` that the fallback reads
pub record Employee : Type 0 where
  pub organization_id : Text
  pub auth_user_id : Text
  pub deleted_at : Option ℕ

pub record Tables : Type 0 where
  pub roles : List Role
  pub assignments : List UserRoleAssignment
  pub policies : List AbacPolicy
  pub employees : List Employee

abbrev pub permits : PermissionCheckRequest → RolePermission → Bool
permits req p =
    is_none p.deleted_at
    && (p.key.1 == req.resource_type && (p.key.0 == req.action || p.key.0 == manage))

-- the loop over the permissions of a role, which ends at the first that fits
abbrev pub grants : PermissionCheckRequest → Role → Bool
grants req role = any (permits req) role.permissions

-- `assignment.role`, by its foreign key
abbrev pub role_of : List Role → UserRoleAssignment → List Role
role_of roles a = select (λ r. r.id == a.role_id) roles

abbrev pub name_of_first : PermissionCheckRequest → List Role → List Text → List Text
name_of_first req [] rest = rest
name_of_first req (role ∷ _) rest = if grants req role then role.name ∷ rest else rest

unfoldable pub match_roles :
    PermissionCheckRequest → List Role → List UserRoleAssignment → List Text
match_roles req roles [] = []
match_roles req roles (a ∷ as') =
    let rest = match_roles req roles as' in name_of_first req (role_of roles a) rest

-- active, and for this resource and action; a policy for `manage` stands for no other action
abbrev pub applies : PermissionCheckRequest → AbacPolicy → Bool
applies req p = p.active && (p.resource_type == req.resource_type && p.action == req.action)

unfoldable pub match_policies : PermissionCheckRequest → List AbacPolicy → List Text
unfolding evaluate_abac
match_policies req policies =
    map (λ p. p.name)
      (select (λ p. applies req p && evaluate_abac p req.resource_attributes) policies)

-- the `any` of the decision: it looks for the policy's name among those that matched
unfoldable pub allowed_by_policies : PermissionCheckRequest → List AbacPolicy → Bool
unfolding match_policies elem
allowed_by_policies req policies =
    any (λ p. p.effect_allow && (applies req p && elem p.name (match_policies req policies)))
      policies

abbrev pub is_empty {ℓ} : {A : Type ℓ} → List A → Bool
is_empty [] = true
is_empty (x ∷ xs) = false

abbrev is_member : Text → Text → Employee → Bool
is_member org_id user_id e =
    (e.organization_id == org_id && e.auth_user_id == user_id) && is_none e.deleted_at

with_fallback : PermissionCheckResponse → Option Employee → PermissionCheckResponse
with_fallback response none = response
with_fallback response (some e) = record response {
  allowed = true;
  matched_roles = response.matched_roles ++ codes "fallback_member" ∷ [];
}

-- the last part, under its condition
unfoldable pub fall_back :
    Bool
    → Text
    → PermissionCheckRequest
    → List Employee
    → PermissionCheckResponse
    → Result PermissionCheckResponse
unfolding with_fallback
fall_back false org_id req employees response = ok response
fall_back true org_id req employees response = do
  employee ← scalar_one_or_none (select (is_member org_id req.user_id) employees)
  ok (with_fallback response employee)

-- the decision by roles and policies
unfoldable pub respond :
    PermissionCheckRequest
    → List Role
    → List UserRoleAssignment
    → List AbacPolicy
    → PermissionCheckResponse
unfolding match_roles match_policies allowed_by_policies
respond req roles assignments policies =
    let matched_roles = match_roles req roles assignments in
    record {
      allowed = not (is_empty matched_roles) || allowed_by_policies req policies;
      matched_roles = matched_roles;
      matched_policies = match_policies req policies;
    }

-- `legacy` is the setting `RBAC_LEGACY_MEMBER_FALLBACK_ENABLED`; its log entry is left out.
unfoldable pub decide :
    Bool
    → Text
    → PermissionCheckRequest
    → List Employee
    → List UserRoleAssignment
    → PermissionCheckResponse
    → Result PermissionCheckResponse
unfolding fall_back
decide legacy org_id req employees assignments response =
    fall_back (legacy && (not response.allowed && is_empty assignments)) org_id req employees
      response

-- The two lists are read with their default limit of 50 rows.
unfoldable pub check_permission :
    Bool → Text → ℕ → PermissionCheckRequest → Tables → Result PermissionCheckResponse
unfolding list_user_roles list_abac_policies respond decide
check_permission legacy org_id now req st =
    let assignments = (list_user_roles org_id (some req.user_id) 0 50 now st.assignments).0 in
    let policies = (list_abac_policies org_id 0 50 st.policies).0 in
    decide legacy org_id req st.employees assignments (respond req st.roles assignments policies)

abbrev pub missing_permission : Error
missing_permission = forbidden (Prelude.text "Missing permission")

-- The action and the resource in the message are left out.
unfoldable pub ensure_org_permission :
    Bool → Text → ℕ → Text → PermissionAction → RbacResourceType → Tables → Result (Unit {0})
unfolding check_permission
ensure_org_permission legacy org_id now user_id action resource_type st = do
  result ←
      check_permission legacy org_id now
        (record {
          user_id = user_id;
          action = action;
          resource_type = resource_type;
          resource_attributes = [];
        })
        st
  raise_if (not result.allowed) missing_permission
