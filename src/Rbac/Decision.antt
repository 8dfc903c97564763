-- ===== src/Rbac/Decision.antt =====
-- What the policies do in the decision of `check_permission`, which looks for the names of those that
-- matched, and in `ensure_org_permission`, which passes no attributes.
use costpilot.Prelude.{
  ℕ, ◌≡◌, refl, sym, subst, ap, some, Bool, true, false, not, ◌&&◌, List, [], ◌∷◌, map, any, ◌==◌,
  arith, inl, inr, Bool-cases, ok, raise_if, ◌>>=◌,
}
use costpilot.Text.{Text, elem}
use costpilot.Text.Laws.{text_instance, text_eq_iff}
use costpilot.Rbac.{Role, UserRoleAssignment, AbacPolicy, PermissionAction, RbacResourceType}
use costpilot.Rbac.Assignments.{list_user_roles}
use costpilot.Rbac.Policies.{evaluate_abac, evaluate_value, attribute, list_abac_policies}
use costpilot.Rbac.Check.{
  Employee, fall_back, decide, respond, missing_permission, PermissionCheckRequest,
  PermissionCheckResponse, Tables, applies, match_policies, allowed_by_policies, check_permission,
  ensure_org_permission,
}

-- No two policies have one name.
unfoldable pub IsDistinct : List AbacPolicy → Type 0
IsDistinct [] = Unit
IsDistinct (p ∷ ps) = (elem p.name (map (λ q. q.name) ps) ≡ false) × IsDistinct ps

module _ (req : PermissionCheckRequest) where
  -- it matches the request, and its condition holds
  abbrev pub matches : AbacPolicy → Bool
  matches p = applies req p && evaluate_abac p req.resource_attributes

  -- the `any` of the decision, for a list of names
  abbrev allowed_among : List Text → List AbacPolicy → Bool
  allowed_among names ps = any (λ p. p.effect_allow && (applies req p && elem p.name names)) ps

  -- a name that no policy has changes nothing
  allowed_among-cons :
      (n : Text) (names : List Text) (ps : List AbacPolicy)
      → elem n (map (λ q. q.name) ps) ≡ false
      → allowed_among (n ∷ names) ps ≡ allowed_among names ps
  unfolding elem
  allowed_among-cons n names [] h = refl
  allowed_among-cons n names (p ∷ ps) h =
      ground (arith, allowed_among-cons n names ps, text_eq_iff n p.name, text_eq_iff p.name n)

  elem-match_policies :
      (n : Text) (ps : List AbacPolicy)
      → elem n (map (λ q. q.name) ps) ≡ false
      → elem n (match_policies req ps) ≡ false
  unfolding elem match_policies
  elem-match_policies n [] h = refl
  elem-match_policies n (p ∷ ps) h = ground (arith, elem-match_policies n ps)

  -- Where no two policies have one name, the policies allow the request exactly when one of them
  -- that allows matches it and has a condition that holds; a policy that denies takes no part.
  pub allowed_by_policies-distinct :
      (ps : List AbacPolicy)
      → IsDistinct ps
      → allowed_by_policies req ps ≡ any (λ p. p.effect_allow && matches p) ps
  unfolding allowed_by_policies match_policies elem IsDistinct
  allowed_by_policies-distinct [] d = refl
  allowed_by_policies-distinct (p ∷ ps) (fresh, d) = ground (
    arith,
    allowed_among-cons p.name (match_policies req ps) ps fresh,
    elem-match_policies p.name ps fresh,
    text_eq_iff p.name p.name,
    allowed_by_policies-distinct ps d,
  )

  elem-matched :
      (n : Text) (ps : List AbacPolicy)
      → any (λ q. matches q && q.name == n) ps ≡ true
      → elem n (match_policies req ps) ≡ true
  unfolding elem match_policies
  elem-matched n [] h = cc
  elem-matched n (p ∷ ps) h =
      ground (arith, elem-matched n ps, text_eq_iff p.name n, text_eq_iff n p.name)

  allowed_among-elem :
      (n : Text) (names : List Text) (ps : List AbacPolicy)
      → any (λ p. p.effect_allow && (applies req p && p.name == n)) ps ≡ true
      → elem n names ≡ true
      → allowed_among names ps ≡ true
  allowed_among-elem n names [] h e = cc
  allowed_among-elem n names (p ∷ ps) h e = elim (Bool-cases (p.name == n)) [
    | inl same ↦ ground (
      arith,
      same,
      subst (λ m. elem m names ≡ true) (sym ((text_eq_iff p.name n).0 same)) e,
      allowed_among-elem n names ps,
    )
    | inr other ↦ ground (arith, other, allowed_among-elem n names ps)
  ]

  -- a request that roles or policies allow needs no fallback
  decide-allowed :
      (legacy : Bool) (org_id : Text) (employees : List Employee)
      (assignments : List UserRoleAssignment) (response : PermissionCheckResponse)
      → response.allowed ≡ true
      → decide legacy org_id req employees assignments response ≡ ok response
  unfolding decide fall_back
  decide-allowed false org_id employees assignments response h = refl
  decide-allowed true org_id employees assignments response h = rw h refl

  respond-allowed :
      (roles : List Role) (as' : List UserRoleAssignment) (ps : List AbacPolicy) (n : Text)
      → any (λ p. p.effect_allow && (applies req p && p.name == n)) ps ≡ true
      → any (λ q. matches q && q.name == n) ps ≡ true
      → (respond req roles as' ps).allowed ≡ true
  unfolding respond allowed_by_policies
  respond-allowed roles as' ps n allows holds =
      let named =
        allowed_among-elem n (match_policies req ps) ps allows (elem-matched n ps holds) in
      ground (arith, named)

  -- Among the first 50 policies of the organization, let one that allows be for this resource and
  -- action, and let one with the same name match with a condition that holds, even one that denies.
  -- Then the request is allowed, whether the condition of the first holds or not.
  pub check_permission-namesake :
      (legacy : Bool) (org_id : Text) (now : ℕ) (st : Tables) (n : Text)
      → any
          (λ p. p.effect_allow && (applies req p && p.name == n))
          (list_abac_policies org_id 0 50 st.policies).0
        ≡ true
      → any (λ q. matches q && q.name == n) (list_abac_policies org_id 0 50 st.policies).0 ≡ true
      → (r : PermissionCheckResponse) × (check_permission legacy org_id now req st ≡ ok r)
        × (r.allowed ≡ true)
  unfolding check_permission
  check_permission-namesake legacy org_id now st n allows holds =
      let as' = (list_user_roles org_id (some req.user_id) 0 50 now st.assignments).0 in
      let ps = (list_abac_policies org_id 0 50 st.policies).0 in
      let allowed = respond-allowed st.roles as' ps n allows holds in
      (
        respond req st.roles as' ps,
        decide-allowed legacy org_id st.employees as' (respond req st.roles as' ps) allowed,
        allowed,
      )

module _ (req : PermissionCheckRequest) (no_attributes : req.resource_attributes ≡ []) where
  -- without attributes no condition holds
  evaluate_abac-nil : (p : AbacPolicy) → evaluate_abac p req.resource_attributes ≡ false
  unfolding evaluate_abac attribute evaluate_value
  evaluate_abac-nil p = rw no_attributes refl

  match_policies-nil : (ps : List AbacPolicy) → match_policies req ps ≡ []
  unfolding match_policies
  match_policies-nil [] = refl
  match_policies-nil (p ∷ ps) = ground (arith, evaluate_abac-nil p, match_policies-nil ps)

  allowed_among-nil : (ps : List AbacPolicy) → allowed_among req [] ps ≡ false
  unfolding elem
  allowed_among-nil [] = refl
  allowed_among-nil (p ∷ ps) = ground (arith, allowed_among-nil ps)

  respond-nil :
      (roles : List Role) (as' : List UserRoleAssignment) (ps : List AbacPolicy)
      → respond req roles as' ps ≡ respond req roles as' []
  unfolding respond allowed_by_policies
  respond-nil roles as' ps = rw (match_policies-nil ps, allowed_among-nil ps) refl

-- `ensure_org_permission`, the guard of endpoints, decides as if the organization had no policies:
-- it asks without resource attributes.
pub ensure_org_permission-policies :
    (legacy : Bool) (org_id : Text) (now : ℕ) (user_id : Text) (action : PermissionAction)
    (resource_type : RbacResourceType) (st : Tables)
    → ensure_org_permission legacy org_id now user_id action resource_type st
      ≡ ensure_org_permission legacy org_id now user_id action resource_type
          (record st { policies = [] })
unfolding ensure_org_permission check_permission
ensure_org_permission-policies legacy org_id now user_id action resource_type st =
    let req : PermissionCheckRequest = record {
      user_id = user_id;
      action = action;
      resource_type = resource_type;
      resource_attributes = [];
    } in
    let as' = (list_user_roles org_id (some user_id) 0 50 now st.assignments).0 in
    let ps = (list_abac_policies org_id 0 50 st.policies).0 in
    ap
      (λ response. decide legacy org_id req st.employees as' response >>= λ result.
        raise_if (not result.allowed) missing_permission)
      (respond-nil req refl st.roles as' ps)
