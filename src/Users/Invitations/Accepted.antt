-- ===== src/Users/Invitations/Accepted.antt =====
-- An invitation is accepted once.
use costpilot.Prelude.{
  List, Option, ◌++◌, none, ℕ, ◌≡◌, refl, sym, ◌∙◌, true, not, ◌&&◌, [], ◌∷◌, select,
  select-update_where_one, update_where, ◌==◌, arith, ok, bind-ok, raise_if-ok, or_raise,
  or_raise-ok, ok-injective, scalar_one_or_none, scalar_one_or_none-some, not_found,
}
use costpilot.Prelude
use costpilot.Text.{Text}
use costpilot.Text.Laws.{text_instance}
use costpilot.Auth.{User}
use costpilot.Rbac.{UserRoleAssignment}
use costpilot.Auth.Login.{has_email}
use costpilot.Users.Invitations.{
  UserInvitation, State, Acceptance, has_token, is_valid, accept_row, joining_user, join_role,
  accept_invitation, invitation_status_instance, InvitationStatus-discrete,
}

-- the row of an acceptance that returns
pub record IsAcceptance (token : Text) (now : ℕ) (st : State) (after : State) : Type 0 where
  pub invitation : UserInvitation
  pub found : select (has_token token) st.invitations ≡ invitation ∷ []
  pub valid : is_valid invitation now ≡ true
  pub rows :
      after.invitations ≡ update_where (λ i. i.id == invitation.id) (accept_row now) st.invitations

module _ (pbkdf2 : Text → Text → Text) where
  accept_invitation-IsAcceptance :
      (token : Text) (now : ℕ) (a : Acceptance) (st : State) {after : State × User}
      → accept_invitation pbkdf2 token now a st ≡ ok after
      → IsAcceptance token now st after.0
  unfolding accept_invitation
  accept_invitation-IsAcceptance token now a st h =
      let (f, e, h1) = bind-ok _ (scalar_one_or_none (select (has_token token) st.invitations)) h in
      let (i, e1, h2) =
        bind-ok _ (or_raise f (not_found (Prelude.text "Invitation not found"))) h1 in
      let (v, h3) = raise_if-ok (not (is_valid i now)) _ _ h2 in
      let (existing, _, h4) =
        bind-ok _ (scalar_one_or_none (select (has_email i.email) st.users)) h3 in
      let ((users, user), _, h5) = bind-ok _ (joining_user pbkdf2 a i.email existing st.users) h4 in
      let (assignments, _, h6) =
        bind-ok _ (join_role pbkdf2 a i.organization_id user.id i.role_id st) h5 in
      record {
        invitation = i;
        found =
            scalar_one_or_none-some (select (has_token token) st.invitations)
              (rw (or_raise-ok f _ e1) at e);
        valid = ground (arith, v);
        rows = rw (sym (ok-injective h6)) refl;
      }

-- the row afterwards
accepted_row :
    (token : Text) (now : ℕ) (st after : State) (d : IsAcceptance token now st after)
    → select (has_token token) after.invitations ≡ accept_row now d.invitation ∷ []
accepted_row token now st after d = rw (d.rows) (
    select-update_where_one (has_token token) (λ i. i.id == d.invitation.id) (accept_row now)
      (λ x. refl) st.invitations d.invitation d.found
      ((text_instance.same_iff d.invitation.id d.invitation.id).1 refl))

accepted_once :
    (pbkdf2 : Text → Text → Text) (token : Text) (now : ℕ) (a : Acceptance) (st : State)
    {after : State × User}
    → accept_invitation pbkdf2 token now a st ≡ ok after
    → (later : ℕ) (b : Acceptance) (again : State × User)
    → ¬ (accept_invitation pbkdf2 token later b after.0 ≡ ok again)
unfolding InvitationStatus-discrete
accepted_once pbkdf2 token now a st {after = after} h later b again h' =
    let d = accept_invitation-IsAcceptance pbkdf2 token now a st h in
    let d' = accept_invitation-IsAcceptance pbkdf2 token later b after.0 h' in
    let e = sym (accepted_row token now st after.0 d) ∙ d'.found in
    let v : is_valid d'.invitation later ≡ true = d'.valid in ground arith

-- Where a token has one invitation, pending and not expired, its address has at most one account,
-- that account or a new one can join, and the role of the invitation can be assigned to it:
-- `accept_invitation` returns, and every later call with the token raises, whoever accepts.
pub accept_invitation-once :
    (pbkdf2 : Text → Text → Text) (token : Text) (now : ℕ) (a : Acceptance) (st : State)
    (i : UserInvitation) (existing : Option User) (joined : List User × User)
    (assigned : List UserRoleAssignment)
    → select (has_token token) st.invitations ≡ i ∷ []
    → is_valid i now ≡ true
    → scalar_one_or_none (select (has_email i.email) st.users) ≡ ok existing
    → joining_user pbkdf2 a i.email existing st.users ≡ ok joined
    → join_role pbkdf2 a i.organization_id joined.1.id i.role_id st ≡ ok assigned
    → (after : State × User) × (accept_invitation pbkdf2 token now a st ≡ ok after)
      × ((later : ℕ) (b : Acceptance) (again : State × User)
          → ¬ (accept_invitation pbkdf2 token later b after.0 ≡ ok again))
unfolding accept_invitation
accept_invitation-once pbkdf2 token now a st i existing joined assigned f v u j r =
    let after : State × User = (
      record st {
        invitations = update_where (λ x. x.id == i.id) (accept_row now) st.invitations;
        users = joined.0;
        employees =
            st.employees
            ++ record {
              organization_id = i.organization_id;
              auth_user_id = joined.1.id;
              deleted_at = none;
            }
              ∷ [];
        assignments = assigned;
      },
      joined.1,
    ) in
    let h : accept_invitation pbkdf2 token now a st ≡ ok after = rw (f, v, u, j, r) refl in
    (after, h, accepted_once pbkdf2 token now a st h)
