-- ===== src/Users/Status/Removal.antt =====
-- A member who is removed from an organization, and the invitation back.
use costpilot.Prelude.{
  ℕ, ◌≢◌, ◌≡◌, refl, sym, ◌∙◌, ap, true, none, some, List, [], ◌∷◌, any, select, update_where, ◌==◌,
  arith, not_found, ok, raise, bind-ok, raise_if-ok, or_raise-ok, or_raise, not, ok-injective,
  scalar_one_or_none,
}
use costpilot.Prelude
use costpilot.Text.{Text}
use costpilot.Text.Laws.{text_instance}
use costpilot.Auth.{User}
use costpilot.Auth.Login.{has_email}
use costpilot.Rbac.Assignments.{is_same, assign_role, list_user_roles}
use costpilot.Rbac.Check.{Employee}
use costpilot.Rbac.Reassignment.{assign_role-again}
use costpilot.Users.{
  is_live_user, is_employee, get_user_employee, pairs, pair_with, Assignments, revoke_each,
}
use costpilot.Users.Replacement.{revoke_each-any}
use costpilot.Users.Invitations.{
  UserInvitation, State, Acceptance, has_token, accept_invitation, join_role, joining_user,
  is_valid, take_name,
}
use costpilot.Users.Status.{left, remove_user_from_organization}

select-left :
    (now : ℕ) (org_id user_id : Text) (employees : List Employee)
    → select
        (is_employee org_id user_id)
        (update_where (is_employee org_id user_id) (left now) employees)
      ≡ []
select-left now org_id user_id [] = refl
select-left now org_id user_id (e ∷ employees) =
    ground (arith, select-left now org_id user_id employees)

pairs-nil : (users : List User) → pairs users [] ≡ []
unfolding pairs pair_with
pairs-nil [] = refl
pairs-nil (u ∷ users) = pairs-nil users

join_role-again :
    (pbkdf2 : Text → Text → Text) (a : Acceptance) (org_id user_id role_id : Text) (st : State)
    {after : Assignments}
    → any (is_same org_id user_id role_id) st.assignments ≡ true
    → role_id ≢ []
    → ¬ (join_role pbkdf2 a org_id user_id (some role_id) st ≡ ok after)
unfolding join_role
join_role-again pbkdf2 a org_id user_id [] st taken r h = r refl
join_role-again pbkdf2 a org_id user_id (c ∷ role_id) st taken r h =
    let ((t, x), e, _) =
      bind-ok _
        (assign_role a.assignment_id org_id user_id (c ∷ role_id) none none st.roles st.assignments)
        h in
    assign_role-again a.assignment_id org_id user_id (c ∷ role_id) none none st.roles st.assignments
      taken e

take_name-id : (name : Text) (u : User) → (take_name name u).id ≡ u.id
take_name-id [] u = refl
take_name-id (c ∷ name) u = refl

-- the account that joins keeps its identifier
joining_user-id :
    (pbkdf2 : Text → Text → Text) (a : Acceptance) (email : Text) (u : User) (users : List User)
    {joined : List User × User}
    → joining_user pbkdf2 a email (some u) users ≡ ok joined
    → joined.1.id ≡ u.id
unfolding joining_user
joining_user-id pbkdf2 a email u users h =
    ap (λ (x : User). x.id) (sym (ap (λ (j : List User × User). j.1) (ok-injective h)))
    ∙ take_name-id a.display_name u

module _ (pbkdf2 : Text → Text → Text) where
  -- an acceptance by a known account that returns has given the role to that account
  accept_invitation-join_role :
      (token : Text) (later : ℕ) (a : Acceptance) (st : State) (i : UserInvitation) (u : User)
      {result : State × User}
      → select (has_token token) st.invitations ≡ i ∷ []
      → select (has_email i.email) st.users ≡ u ∷ []
      → accept_invitation pbkdf2 token later a st ≡ ok result
      → (as' : Assignments) × (join_role pbkdf2 a i.organization_id u.id i.role_id st ≡ ok as')
  unfolding accept_invitation
  accept_invitation-join_role token later a st i u found account h =
      let (f, f1, a1) =
        bind-ok _ (scalar_one_or_none (select (has_token token) st.invitations)) h in
      let (i', f2, a2) =
        bind-ok _ (or_raise f (not_found (Prelude.text "Invitation not found"))) a1 in
      let (_, a3) = raise_if-ok (not (is_valid i' later)) _ _ a2 in
      let (x, x1, a4) = bind-ok _ (scalar_one_or_none (select (has_email i'.email) st.users)) a3 in
      let ((us, u'), j, a5) = bind-ok _ (joining_user pbkdf2 a i'.email x st.users) a4 in
      let (as', k, _) = bind-ok _ (join_role pbkdf2 a i'.organization_id u'.id i'.role_id st) a5 in
      let found' : ok (some i) ≡ ok f = sym (ap scalar_one_or_none found) ∙ f1 in
      let one : some i ≡ some i' = ok-injective found' ∙ or_raise-ok f _ f2 in
      let here : i' ≡ i = cc in
      let x' : ok (some u) ≡ ok x =
        sym (
          ap (λ (y : UserInvitation). scalar_one_or_none (select (has_email y.email) st.users)) here
          ∙ ap scalar_one_or_none account)
        ∙ x1 in
      let id' : u'.id ≡ u.id =
        joining_user-id pbkdf2 a i'.email u st.users
          (ap (λ o. joining_user pbkdf2 a i'.email o st.users) (ok-injective x') ∙ j) in
      (
        as',
        sym (
              ap (λ (y : UserInvitation). join_role pbkdf2 a y.organization_id u'.id y.role_id st)
                here
              ∙ ap (λ v. join_role pbkdf2 a i.organization_id v i.role_id st) id')
            ∙ k,
      )

  -- After a removal that has returned, the user is not found in the organization any more. And where
  -- the user had been assigned a role there, an invitation of the account with this role, even a valid
  -- one, cannot be accepted.
  pub remove-accept_invitation :
      (now later : ℕ) (org_id user_id removed_by role_id token : Text) (users : List User)
      (employees : List Employee) (table : Assignments) (a : Acceptance) (st : State)
      (i : UserInvitation) (u : User) {after : List Employee × Assignments} {result : State × User}
      → remove_user_from_organization now org_id user_id removed_by users employees table ≡ ok after
      → any (is_same org_id user_id role_id) table ≡ true
      → role_id ≢ []
      → st.assignments ≡ after.1
      → select (has_token token) st.invitations ≡ i ∷ []
      → i.organization_id ≡ org_id
      → i.role_id ≡ some role_id
      → select (has_email i.email) st.users ≡ u ∷ []
      → u.id ≡ user_id
      → (get_user_employee org_id user_id users after.0
          ≡ raise (not_found (Prelude.text "User not found in organization")))
        × ¬ (accept_invitation pbkdf2 token later a st ≡ ok result)
  unfolding remove_user_from_organization get_user_employee
  remove-accept_invitation now later org_id user_id removed_by role_id token users employees table a
        st i u {after = after} h taken r kept found org role account same =
      let (_, _, h1) = bind-ok _ (get_user_employee org_id user_id users employees) h in
      let (_, h2) = raise_if-ok (user_id == removed_by) _ _ h1 in
      let (revoked, e, h3) =
        bind-ok _
          (revoke_each now org_id (list_user_roles org_id (some user_id) 0 50 now table).0 table)
          h2 in
      let after_is : after
          ≡ (update_where (is_employee org_id user_id) (left now) employees, revoked) =
        sym (ok-injective h3) in
      let pairs_left = select-left now org_id user_id employees in
      (
        rw (after_is, pairs_left, pairs-nil (select (is_live_user user_id) users)) refl,
        λ accepted.
            let (as', k) =
              accept_invitation-join_role token later a st i u found account accepted in
            let taken' : any (is_same org_id user_id role_id) st.assignments ≡ true =
              rw (kept, after_is)
                (revoke_each-any org_id user_id role_id now
                    (list_user_roles org_id (some user_id) 0 50 now table).0 table e
                  ∙ taken) in
            let k' : join_role pbkdf2 a org_id user_id (some role_id) st ≡ ok as' =
              sym (
                ap (λ o. join_role pbkdf2 a o u.id i.role_id st) org
                ∙ ap (λ v. join_role pbkdf2 a org_id v i.role_id st) same
                ∙ ap (λ x. join_role pbkdf2 a org_id user_id x st) role)
              ∙ k in
            join_role-again pbkdf2 a org_id user_id role_id st taken' r k',
      )
