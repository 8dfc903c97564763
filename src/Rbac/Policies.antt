-- ===== src/Rbac/Policies.antt =====
-- Policies on attributes: `create_abac_policy`, `list_abac_policies`, `get_abac_policy`,
-- `update_abac_policy`, `delete_abac_policy` and `_evaluate_abac` of
-- backend/app/enterprise/modules/rbac/service.py.
use costpilot.Prelude.{
  ℕ, Bool, false, not, ◌&&◌, Option, none, some, List, [], ◌∷◌, ◌++◌, map, select, take, drop,
  length, if◌then◌else◌, update_where, is_none, ◌==◌, not_found, Result, ok, or_raise,
  scalar_one_or_none, ◌>>=◌,
}
use costpilot.Prelude
use costpilot.Text
use costpilot.Text.{Text, elem, split, strip}
use costpilot.Text.Laws.{text_instance}
use costpilot.Rbac
use costpilot.Rbac.{AbacPolicy, AbacOperator, PermissionAction, RbacResourceType}

pub record AbacPolicyCreate : Type 0 where
  pub name : Text
  pub resource_type : RbacResourceType
  pub action : PermissionAction
  pub attribute_key : Text
  pub operator : AbacOperator
  pub attribute_value : Text
  pub effect_allow : Bool
  pub active : Bool

unfoldable pub create_abac_policy :
    Text → Text → AbacPolicyCreate → List AbacPolicy → List AbacPolicy × AbacPolicy
create_abac_policy fresh_id org_id data' table =
    let policy : AbacPolicy = record {
      id = fresh_id;
      name = data'.name;
      organization_id = org_id;
      resource_type = data'.resource_type;
      action = data'.action;
      attribute_key = data'.attribute_key;
      operator = data'.operator;
      attribute_value = data'.attribute_value;
      effect_allow = data'.effect_allow;
      active = data'.active;
      deleted_at = none;
    } in
    (table ++ policy ∷ [], policy)

-- the `where` of the list
abbrev pub is_listed : Text → AbacPolicy → Bool
is_listed org_id p = p.organization_id == org_id && is_none p.deleted_at

unfoldable pub list_abac_policies : Text → ℕ → ℕ → List AbacPolicy → List AbacPolicy × ℕ
list_abac_policies org_id offset limit table =
    let rows = select (is_listed org_id) table in (take limit (drop offset rows), length rows)

abbrev pub is_policy : Text → Text → AbacPolicy → Bool
is_policy org_id policy_id p = p.id == policy_id && is_listed org_id p

unfoldable pub get_abac_policy : Text → Text → List AbacPolicy → Result AbacPolicy
get_abac_policy org_id policy_id table = do
  policy ← scalar_one_or_none (select (is_policy org_id policy_id) table)
  or_raise policy (not_found (Prelude.text "ABAC policy not found"))

pub record AbacPolicyUpdate : Type 0 where
  pub name : Option Text
  pub resource_type : Option RbacResourceType
  pub action : Option PermissionAction
  pub attribute_key : Option Text
  pub operator : Option AbacOperator
  pub attribute_value : Option Text
  pub effect_allow : Option Bool
  pub active : Option Bool

-- `if value is not None: setattr(policy, field, value)`
abbrev or_keep {ℓ} : {A : Type ℓ} → Option A → A → A
or_keep none old = old
or_keep (some value) old = value

abbrev pub updated : AbacPolicyUpdate → AbacPolicy → AbacPolicy
updated d p = record p {
  name = or_keep d.name p.name;
  resource_type = or_keep d.resource_type p.resource_type;
  action = or_keep d.action p.action;
  attribute_key = or_keep d.attribute_key p.attribute_key;
  operator = or_keep d.operator p.operator;
  attribute_value = or_keep d.attribute_value p.attribute_value;
  effect_allow = or_keep d.effect_allow p.effect_allow;
  active = or_keep d.active p.active;
}

abbrev pub put_policy : AbacPolicy → List AbacPolicy → List AbacPolicy
put_policy p table = update_where (λ x. x.id == p.id) (λ _. p) table

unfoldable pub update_abac_policy :
    Text → Text → AbacPolicyUpdate → List AbacPolicy → Result (List AbacPolicy × AbacPolicy)
unfolding get_abac_policy
update_abac_policy org_id policy_id data' table = do
  policy ← get_abac_policy org_id policy_id table
  let policy' = updated data' policy
  ok (put_policy policy' table, policy')

unfoldable pub delete_abac_policy :
    ℕ → Text → Text → List AbacPolicy → Result (List AbacPolicy × AbacPolicy)
unfolding get_abac_policy
delete_abac_policy now org_id policy_id table = do
  policy ← get_abac_policy org_id policy_id table
  let policy' : AbacPolicy = record policy { deleted_at = some now }
  ok (put_policy policy' table, policy')

-- the operators, on the value of the attribute and that of the policy
unfoldable pub compare_values : AbacOperator → Text → Text → Bool
unfolding elem split strip Text.contains Text.starts_with
compare_values Rbac.equals v p = v == p
compare_values Rbac.not_equals v p = not (v == p)
compare_values Rbac.is_in v p = elem v (map strip (split b',' p))
compare_values Rbac.not_in v p = not (elem v (map strip (split b',' p)))
compare_values Rbac.contains v p = Text.contains v p
compare_values Rbac.starts_with v p = Text.starts_with v p

-- The attributes of a request; `get` is that of a dict without repeated keys.
unfoldable pub attribute : Text → List (Text × Text) → Option Text
attribute k [] = none
attribute k ((k', v) ∷ attributes) =
    let rest = attribute k attributes in if k == k' then some v else rest

unfoldable pub evaluate_value : AbacPolicy → Option Text → Bool
unfolding compare_values
evaluate_value p none = false
evaluate_value p (some v) = compare_values p.operator v p.attribute_value

unfoldable pub evaluate_abac : AbacPolicy → List (Text × Text) → Bool
unfolding evaluate_value attribute
evaluate_abac p attributes = evaluate_value p (attribute p.attribute_key attributes)
