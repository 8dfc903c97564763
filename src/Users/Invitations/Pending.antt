-- ===== src/Users/Invitations/Pending.antt =====
-- One pending invitation for an address and an organization.
use costpilot.Prelude.{
  ◌+◌, ◌++◌, false, none, some, ℕ, ◌≡◌, refl, sym, Option, List, [], ◌∷◌, select, select-append,
  update_where, any, ◌==◌, arith, ok, bind-ok, raise_if-ok, ok-injective, scalar_one_or_none,
  scalar_one_or_none-some, scalar_one_or_none-none,
}
use costpilot.Text.{Text}
use costpilot.Text.Laws.{text_instance}
use costpilot.Auth.{User}
use costpilot.Rbac.{Role}
use costpilot.Auth.Login.{has_email}
use costpilot.Rbac.Roles.{get_role}
use costpilot.Users.Invitations.{
  pending, expiry, UserInvitation, State, is_pending, withdrawn, withdraw, check_member,
  create_invitation, invitation_status_instance, InvitationStatus-discrete,
}

-- no row is pending once those with the identifier of the one that was are withdrawn
select-withdraw :
    (email org_id : Text) (now : ℕ) (x : UserInvitation) (table : List UserInvitation)
    → select (is_pending email org_id) table ≡ []
    → select (is_pending email org_id) (update_where (λ i. i.id == x.id) (withdrawn now) table) ≡ []
unfolding InvitationStatus-discrete
select-withdraw email org_id now x [] h = refl
select-withdraw email org_id now x (i ∷ table) h =
    ground (arith, select-withdraw email org_id now x table)

select-withdraw_one :
    (email org_id : Text) (now : ℕ) (x : UserInvitation) (table : List UserInvitation)
    → select (is_pending email org_id) table ≡ x ∷ []
    → select (is_pending email org_id) (update_where (λ i. i.id == x.id) (withdrawn now) table) ≡ []
unfolding InvitationStatus-discrete
select-withdraw_one email org_id now x [] h = cc
select-withdraw_one email org_id now x (i ∷ table) h = ground (
  arith,
  select-withdraw_one email org_id now x table,
  select-withdraw email org_id now x table,
  text_instance.same_iff i.id x.id,
)

select-withdrawn :
    (email org_id : Text) (now : ℕ) (table : List UserInvitation) (existing : Option UserInvitation)
    → scalar_one_or_none (select (is_pending email org_id) table) ≡ ok existing
    → select (is_pending email org_id) (withdraw now existing table) ≡ []
select-withdrawn email org_id now table none e =
    scalar_one_or_none-none (select (is_pending email org_id) table) e
select-withdrawn email org_id now table (some x) e =
    select-withdraw_one email org_id now x table
      (scalar_one_or_none-some (select (is_pending email org_id) table) e)

created-select :
    (fresh_id token : Text) (now : ℕ) (org_id invited_by email role_id : Text) (st : State)
    {after : State × UserInvitation}
    → create_invitation fresh_id token now org_id invited_by email role_id st ≡ ok after
    → select (is_pending email org_id) after.0.invitations ≡ after.1 ∷ []
unfolding create_invitation InvitationStatus-discrete
created-select fresh_id token now org_id invited_by email role_id st h =
    let (_, _, h1) = bind-ok _ (get_role org_id role_id st.roles) h in
    let (user, _, h2) = bind-ok _ (scalar_one_or_none (select (has_email email) st.users)) h1 in
    let (_, _, h3) = bind-ok _ (check_member org_id user st.employees) h2 in
    let (existing, e, h4) =
      bind-ok _ (scalar_one_or_none (select (is_pending email org_id) st.invitations)) h3 in
    let (_, h5) = raise_if-ok (any (λ i. i.token == token) st.invitations) _ _ h4 in
    rw
      (
        sym (ok-injective h5),
        select-append (is_pending email org_id) (withdraw now existing st.invitations),
        select-withdrawn email org_id now st.invitations existing e,
      )
      (ground (arith, text_instance.same_iff email email, text_instance.same_iff org_id org_id))

-- Where the role exists, the address is not that of a member, at most one invitation is pending for
-- the address and the organization, and the token is new: `create_invitation` returns, and then the
-- new invitation is the only pending one for its address and organization.
pub create_invitation-select :
    (fresh_id token : Text) (now : ℕ) (org_id invited_by email role_id : Text) (st : State)
    {role : Role} (user : Option User) (existing : Option UserInvitation)
    → get_role org_id role_id st.roles ≡ ok role
    → scalar_one_or_none (select (has_email email) st.users) ≡ ok user
    → check_member org_id user st.employees ≡ ok tt
    → scalar_one_or_none (select (is_pending email org_id) st.invitations) ≡ ok existing
    → any (λ i. i.token == token) st.invitations ≡ false
    → (after : State × UserInvitation) × (create_invitation fresh_id token now org_id invited_by
          email role_id st
        ≡ ok after)
      × (select (is_pending email org_id) after.0.invitations ≡ after.1 ∷ [])
unfolding create_invitation
create_invitation-select fresh_id token now org_id invited_by email role_id st user existing r u m e
      t =
    let i : UserInvitation = record {
      id = fresh_id;
      email = email;
      organization_id = org_id;
      invited_by = invited_by;
      role_id = some role_id;
      token = token;
      status = pending;
      expires_at = now + expiry;
      accepted_at = none;
      deleted_at = none;
    } in
    let after : State × UserInvitation =
      (record st { invitations = withdraw now existing st.invitations ++ i ∷ [] }, i) in
    let h : create_invitation fresh_id token now org_id invited_by email role_id st ≡ ok after =
      rw (r, u, m, e, t) refl in
    (after, h, created-select fresh_id token now org_id invited_by email role_id st h)
