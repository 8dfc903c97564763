-- ===== src/Rbac/Tests.antt =====
-- Roles, assignments, policies and reviews of one organization.
use costpilot.Prelude.{
  select, not, ◌==◌, ℕ, ◌≡◌, refl, Bool, true, false, ◌&&◌, Option, none, some, List, [], ◌∷◌, any,
  ok,
}
use costpilot.Text.{Text, codes, text_eq, elem}
use costpilot.Text.Laws.{text_instance}
use costpilot.Rbac.{
  read, update, manage, expense, pool, pending, revoked, equals, Role, UserRoleAssignment,
  AbacPolicy, AccessReview, AccessReviewStatus, PermissionKey,
}
use costpilot.Rbac.Roles.{
  desires, get_role, RoleUpdate, update_role, delete_role, rename, with_permissions, flush_role,
}
use costpilot.Rbac.Assignments.{assign_role}
use costpilot.Rbac.Check.{
  PermissionCheckRequest, Tables, match_roles, allowed_by_policies, ensure_org_permission,
}
use costpilot.Rbac.Reviews.{AccessReviewStatus-discrete, decide_access_review}
use costpilot.Rbac.Sync.{has_live, update_role-permissions}
use costpilot.Rbac.Deletion.{delete_role-match_roles}
use costpilot.Rbac.Decision.{
  IsDistinct, matches, allowed_by_policies-distinct, ensure_org_permission-policies,
}
use costpilot.Rbac.Reassignment.{revoke_all, assign_role-revoke_all}
use costpilot.Rbac.Decided.{decide_access_review-once}

abbrev analyst : Role
analyst = record {
  id = codes "r1";
  name = codes "Analyst";
  organization_id = codes "o1";
  is_default = false;
  permissions =
      record { key = (read, expense); deleted_at = none }
      ∷ record { key = (manage, pool); deleted_at = none }
      ∷ [];
  deleted_at = none;
}

abbrev new_rights : List PermissionKey
new_rights = (read, expense) ∷ (update, expense) ∷ (read, expense) ∷ []

abbrev change : RoleUpdate
change = record { name = none; permissions = some new_rights; is_default = none }

update_role-permissions_example :
    any (has_live (manage, pool)) (with_permissions (some new_rights) 100 analyst).permissions
    ≡ desires new_rights (manage, pool)
unfolding update_role get_role rename flush_role text_eq
update_role-permissions_example =
    update_role-permissions 100 (codes "o1") (codes "r1") change (analyst ∷ []) new_rights refl refl
      (manage, pool)

abbrev read_expenses : PermissionCheckRequest
read_expenses = record {
  user_id = codes "u1";
  action = read;
  resource_type = expense;
  resource_attributes = (codes "team", codes "ops") ∷ [];
}

delete_role-match_roles_example :
    (after : List Role × Role) × (delete_role 100 (codes "o1") (codes "r1") (analyst ∷ [])
      ≡ ok after)
    × ((req : PermissionCheckRequest) (as' : List UserRoleAssignment)
        → match_roles req after.0 as'
          ≡ match_roles req (analyst ∷ []) (select (λ a. not (a.role_id == codes "r1")) as'))
unfolding text_eq
delete_role-match_roles_example =
    delete_role-match_roles 100 (codes "o1") (codes "r1") (analyst ∷ []) analyst refl refl

abbrev policy : Text → Text → Text → Bool → AbacPolicy
policy id name team allow = record {
  id = id;
  name = name;
  organization_id = codes "o1";
  resource_type = expense;
  action = read;
  attribute_key = codes "team";
  operator = equals;
  attribute_value = team;
  effect_allow = allow;
  active = true;
  deleted_at = none;
}

-- one allows the team "dev", the other denies the team "ops"
abbrev by_team : List AbacPolicy
by_team =
    policy (codes "p1") (codes "dev") (codes "dev") true
    ∷ policy (codes "p2") (codes "ops") (codes "ops") false
    ∷ []

by_team-IsDistinct : IsDistinct by_team
unfolding IsDistinct elem text_eq
by_team-IsDistinct = (refl, (refl, tt))

allowed_by_policies-distinct_example :
    allowed_by_policies read_expenses by_team
    ≡ any (λ p. p.effect_allow && matches read_expenses p) by_team
allowed_by_policies-distinct_example =
    allowed_by_policies-distinct read_expenses by_team by_team-IsDistinct

-- the same two under one name
abbrev namesakes : List AbacPolicy
namesakes =
    policy (codes "p1") (codes "teams") (codes "dev") true
    ∷ policy (codes "p2") (codes "teams") (codes "ops") false
    ∷ []

abbrev tables : Tables
tables = record { roles = []; assignments = []; policies = namesakes; employees = [] }

ensure_org_permission-policies_example :
    ensure_org_permission false (codes "o1") 50 (codes "u1") read expense tables
    ≡ ensure_org_permission false
        (codes "o1")
        50
        (codes "u1")
        read
        expense
        (record tables { policies = [] })
ensure_org_permission-policies_example =
    ensure_org_permission-policies false (codes "o1") 50 (codes "u1") read expense tables

assign_role-revoke_all_example :
    (after : List UserRoleAssignment × UserRoleAssignment) × (assign_role
        (codes "a1")
        (codes "o1")
        (codes "u1")
        (codes "r1")
        none
        (some 90)
        (analyst ∷ [])
        []
      ≡ ok after)
    × ((revocations : List (ℕ × Text)) (fresh_id' : Text) (by' : Option Text)
          (expires_at' : Option ℕ) (roles' : List Role)
          (again : List UserRoleAssignment × UserRoleAssignment)
        → ¬ (
            assign_role fresh_id'
              (codes "o1")
              (codes "u1")
              (codes "r1")
              by'
              expires_at'
              roles'
              (revoke_all (codes "o1") (codes "u1") (codes "r1") revocations after.0)
            ≡ ok again))
unfolding get_role text_eq
assign_role-revoke_all_example =
    assign_role-revoke_all (codes "o1") (codes "u1") (codes "r1") (codes "a1") none (some 90)
      (analyst ∷ []) [] refl refl

abbrev review : AccessReview
review = record {
  id = codes "v1";
  organization_id = codes "o1";
  user_id = codes "u1";
  reviewer_id = codes "u2";
  role_id = codes "r1";
  status = pending;
  notes = [];
  deleted_at = none;
}

decide_access_review-once_example :
    (after : List AccessReview × AccessReview) × (decide_access_review
        (codes "o1")
        (codes "v1")
        revoked
        none
        (review ∷ [])
      ≡ ok after)
    × ((status' : AccessReviewStatus) (notes' : Option Text)
          (again : List AccessReview × AccessReview)
        → ¬ (decide_access_review (codes "o1") (codes "v1") status' notes' after.0 ≡ ok again))
unfolding text_eq AccessReviewStatus-discrete
decide_access_review-once_example =
    decide_access_review-once (codes "o1") (codes "v1") revoked none (review ∷ []) review refl refl
      refl
