-- ===== src/Users/Replacement.antt =====
-- `update_user_roles` with the action "replace": it revokes the roles of the user and assigns the wanted
-- ones, which `assign_role` does only for roles that the user never had.
use costpilot.Prelude.{
  ℕ, ◌≡◌, refl, sym, ◌∙◌, inl, inr, true, none, some, List, [], ◌∷◌, any, any-append, ◌==◌, arith,
  Bool-cases, ok, bind-ok, ok-injective, subst,
}
use costpilot.Text.{Text}
use costpilot.Text.Laws.{text_instance}
use costpilot.Auth.{User}
use costpilot.Rbac.{Role}
use costpilot.Rbac.Assignments.{is_same, assign_role, list_user_roles, revoke_role}
use costpilot.Rbac.Check.{Employee}
use costpilot.Rbac.Reassignment.{any-revoke_role, assign_role-again, assign_role-append}
use costpilot.Users.{
  Assignments, replace, revoke_each, assign_each, change_roles, get_user_employee,
  update_user_roles,
}

module _ (org_id user_id role_id : Text) where
  pub revoke_each-any :
      (now : ℕ) (as' table : Assignments) {after : Assignments}
      → revoke_each now org_id as' table ≡ ok after
      → any (is_same org_id user_id role_id) after ≡ any (is_same org_id user_id role_id) table
  unfolding revoke_each
  revoke_each-any now [] table h = rw (sym (ok-injective h)) refl
  revoke_each-any now (a ∷ as') table h =
      let ((t, x), e, h1) = bind-ok _ (revoke_role now org_id a.id table) h in
      revoke_each-any now as' t h1 ∙ rw e at (any-revoke_role org_id user_id role_id now a.id table)

  -- a list of roles with one that the user has a row for
  assign_each-again :
      (roles : List Role) (wanted : List (Text × Text)) (table : Assignments) {after : Assignments}
      → any (is_same org_id user_id role_id) table ≡ true
      → any (λ w. w.1 == role_id) wanted ≡ true
      → ¬ (assign_each org_id user_id roles wanted table ≡ ok after)
  unfolding assign_each
  assign_each-again roles [] table taken w h = cc
  assign_each-again roles ((fresh_id, r) ∷ wanted) table {after = after} taken w h =
      let ((t, a), e, h1) =
        bind-ok _ (assign_role fresh_id org_id user_id r none none roles table) h in
      elim (Bool-cases (r == role_id)) [
        | inl same ↦
            assign_role-again fresh_id org_id user_id r none none roles table
              (subst (λ x. any (is_same org_id user_id x) table ≡ true)
                (sym ((text_instance.same_iff r role_id).0 same)) taken)
              e
        | inr other ↦
            let still : any (is_same org_id user_id role_id) t ≡ true =
              rw
                (
                  sym (assign_role-append fresh_id org_id user_id r none none roles table e),
                  any-append (is_same org_id user_id role_id) table (a ∷ []),
                  taken,
                )
                refl in
            assign_each-again roles wanted t still (ground (arith, w, other)) h1
      ]

-- Let a user be given new roles with the action "replace", and let the table have an assignment of
-- one of them to the user in the organization, revoked or not. Then the update does not return.
pub update_user_roles-replace :
    (now : ℕ) (org_id user_id role_id : Text) (wanted : List (Text × Text)) (users : List User)
    (employees : List Employee) (roles : List Role) (table : Assignments)
    → any (is_same org_id user_id role_id) table ≡ true
    → any (λ w. w.1 == role_id) wanted ≡ true
    → (result : Assignments × Assignments)
    → ¬ (
        update_user_roles replace now org_id user_id wanted users employees roles table ≡ ok result)
unfolding update_user_roles change_roles
update_user_roles-replace now org_id user_id role_id wanted users employees roles table taken w
      result h =
    let (_, _, h1) = bind-ok _ (get_user_employee org_id user_id users employees) h in
    let (after, e, _) = bind-ok _ (change_roles replace now org_id user_id wanted roles table) h1 in
    let current = (list_user_roles org_id (some user_id) 0 50 now table).0 in
    let (revoked, r, a) = bind-ok _ (revoke_each now org_id current table) e in
    assign_each-again org_id user_id role_id roles wanted revoked
      (revoke_each-any org_id user_id role_id now current table r ∙ taken) w a
