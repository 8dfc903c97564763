-- ===== src/Rbac.antt =====
-- The rows of backend/app/enterprise/modules/rbac/models.py and the enumerations that they use, of
-- backend/app/shared/enums.py. A role holds its permissions, as the relationship `permissions` does;
-- descriptions and the time stamps that nothing reads are left out.
use costpilot.Prelude.{ℕ, Bool, Option, List, Eq, eq_of_discrete}
use costpilot.Text.{Text}
pub mod Roles
pub mod Assignments
pub mod Policies
pub mod Check
pub mod Reviews
pub mod Sync
pub mod Deletion
pub mod Decision
pub mod Reassignment
pub mod Decided
mod Tests

pub data PermissionAction : Type 0 where
  read create update delete manage : PermissionAction

pub data RbacResourceType : Type 0 where
  organization cloud_account pool expense resource recommendation rule user notification
        enterprise :
      RbacResourceType

pub data AbacOperator : Type 0 where
  equals not_equals is_in not_in contains starts_with : AbacOperator

pub data AccessReviewStatus : Type 0 where
  pending approved revoked : AccessReviewStatus

unfoldable pub PermissionAction-discrete : Discrete PermissionAction
PermissionAction-discrete = hlevel

unfoldable pub RbacResourceType-discrete : Discrete RbacResourceType
RbacResourceType-discrete = hlevel

abbrev pub PermissionKey : Type 0
PermissionKey = PermissionAction × RbacResourceType

unfoldable pub PermissionKey-discrete : Discrete PermissionKey
PermissionKey-discrete = hlevel

instance abbrev pub action_instance : Eq PermissionAction
action_instance = eq_of_discrete PermissionAction-discrete

instance abbrev pub resource_type_instance : Eq RbacResourceType
resource_type_instance = eq_of_discrete RbacResourceType-discrete

instance abbrev pub permission_key_instance : Eq PermissionKey
permission_key_instance = eq_of_discrete PermissionKey-discrete

pub record RolePermission : Type 0 where
  pub key : PermissionKey
  pub deleted_at : Option ℕ

pub record Role : Type 0 where
  pub id : Text
  pub name : Text
  pub organization_id : Text
  pub is_default : Bool
  pub permissions : List RolePermission
  pub deleted_at : Option ℕ

pub record UserRoleAssignment : Type 0 where
  pub id : Text
  pub user_id : Text
  pub role_id : Text
  pub organization_id : Text
  pub assigned_by : Option Text
  pub expires_at : Option ℕ
  pub deleted_at : Option ℕ

pub record AbacPolicy : Type 0 where
  pub id : Text
  pub name : Text
  pub organization_id : Text
  pub resource_type : RbacResourceType
  pub action : PermissionAction
  pub attribute_key : Text
  pub operator : AbacOperator
  pub attribute_value : Text
  pub effect_allow : Bool
  pub active : Bool
  pub deleted_at : Option ℕ

pub record AccessReview : Type 0 where
  pub id : Text
  pub organization_id : Text
  pub user_id : Text
  pub reviewer_id : Text
  pub role_id : Text
  pub status : AccessReviewStatus
  pub notes : Text
  pub deleted_at : Option ℕ
