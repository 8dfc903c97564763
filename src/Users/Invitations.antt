-- ===== src/Users/Invitations.antt =====
-- Invitations: `create_invitation` and `accept_invitation` of
-- backend/app/user_management/service.py. Tokens, identifiers and salts are arguments.
use costpilot.Prelude.{
  ℕ, ◌+◌, ◌*◌, Bool, true, false, not, ◌&&◌, Option, none, some, List, [], ◌∷◌, ◌++◌, ltb, select,
  any, update_where, is_none, is_some, ◌==◌, Eq, eq_of_discrete, if◌then◌else◌, Error, not_found,
  conflict, bad_request, integrity_error, Result, ok, raise, raise_if, or_raise, scalar_one_or_none,
  ◌>>=◌, ◌>>◌,
}
use costpilot.Prelude
use costpilot.Text.{Text}
use costpilot.Text.Laws.{text_instance}
use costpilot.Auth.{User, UserStatus, minute}
use costpilot.Auth.Login.{has_email}
use costpilot.Auth.Password.{hash_password}
use costpilot.Rbac.{Role, UserRoleAssignment}
use costpilot.Rbac.Roles.{get_role}
use costpilot.Rbac.Assignments.{assign_role}
use costpilot.Rbac.Check.{Employee}
use costpilot.Users.{is_employee}
pub mod Pending
pub mod Accepted

pub data InvitationStatus : Type 0 where
  pending accepted expired cancelled revoked : InvitationStatus

unfoldable pub InvitationStatus-discrete : Discrete InvitationStatus
InvitationStatus-discrete = hlevel

instance abbrev pub invitation_status_instance : Eq InvitationStatus
invitation_status_instance = eq_of_discrete InvitationStatus-discrete

pub record UserInvitation : Type 0 where
  pub id : Text
  pub email : Text
  pub organization_id : Text
  pub invited_by : Text
  pub role_id : Option Text
  pub token : Text
  pub status : InvitationStatus
  pub expires_at : ℕ
  pub accepted_at : Option ℕ
  pub deleted_at : Option ℕ

pub record State : Type 0 where
  pub invitations : List UserInvitation
  pub users : List User
  pub employees : List Employee
  pub roles : List Role
  pub assignments : List UserRoleAssignment

-- 7 days
abbrev pub expiry : ℕ
expiry = 7 * 24 * 60 * minute

-- the `where` of the pending invitation
abbrev pub is_pending : Text → Text → UserInvitation → Bool
is_pending email org_id i =
    (i.email == email && i.organization_id == org_id)
    && (i.status == pending && is_none i.deleted_at)

abbrev pub withdrawn : ℕ → UserInvitation → UserInvitation
withdrawn now i = record i { status = revoked; deleted_at = some now }

-- the existing invitation, if there is one, is withdrawn
abbrev pub withdraw : ℕ → Option UserInvitation → List UserInvitation → List UserInvitation
withdraw now none table = table
withdraw now (some i) table = update_where (λ x. x.id == i.id) (withdrawn now) table

-- a user who is a member already
unfoldable pub check_member : Text → Option User → List Employee → Result (Unit {0})
check_member org_id none employees = ok tt
check_member org_id (some u) employees = do
  employee ← scalar_one_or_none (select (is_employee org_id u.id) employees)
  raise_if (is_some employee)
      (conflict (Prelude.text "User is already a member of this organization"))

-- The flush keeps the tokens unique.
unfoldable pub create_invitation :
    Text → Text → ℕ → Text → Text → Text → Text → State → Result (State × UserInvitation)
unfolding check_member
create_invitation fresh_id token now org_id invited_by email role_id st = do
  _ ← get_role org_id role_id st.roles
  user ← scalar_one_or_none (select (has_email email) st.users)
  check_member org_id user st.employees
  existing ← scalar_one_or_none (select (is_pending email org_id) st.invitations)
  raise_if (any (λ i. i.token == token) st.invitations) integrity_error
  let invitation : UserInvitation = record {
    id = fresh_id;
    email = email;
    organization_id = org_id;
    invited_by = invited_by;
    role_id = some role_id;
    token = token;
    status = pending;
    expires_at = now + expiry;
    accepted_at = none;
    deleted_at = none;
  }
  ok (
    record st { invitations = withdraw now existing st.invitations ++ invitation ∷ [] },
    invitation,
  )

-- the `where` of the lookup by token
abbrev pub has_token : Text → UserInvitation → Bool
has_token token i = i.token == token && is_none i.deleted_at

-- `utc_now() > expires_at`
abbrev pub is_expired : UserInvitation → ℕ → Bool
is_expired i now = ltb i.expires_at now

abbrev pub is_valid : UserInvitation → ℕ → Bool
is_valid i now = i.status == pending && not (is_expired i now)

-- The status "expired" that is set before the exception is rolled back with it.
abbrev pub invalid : UserInvitation → ℕ → Error
invalid i now =
    if is_expired i now
    then bad_request (Prelude.text "Invitation has expired")
    else bad_request (Prelude.text "Invitation is no longer valid")

abbrev pub accept_row : ℕ → UserInvitation → UserInvitation
accept_row now i = record i { status = accepted; accepted_at = some now }

-- What an acceptance brings along: the name and password, and what is fresh.
pub record Acceptance : Type 0 where
  pub display_name : Text
  pub password : Text
  pub salt : Text
  pub user_id : Text
  pub assignment_id : Text

-- `if data.display_name and ...`
abbrev pub take_name : Text → User → User
take_name [] u = u
take_name (c ∷ name) u = record u { display_name = c ∷ name }

module _ (pbkdf2 : Text → Text → Text) where
  abbrev new_user : Acceptance → Text → User
  new_user a email = record {
    id = a.user_id;
    email = email;
    display_name = a.display_name;
    hashed_password = hash_password pbkdf2 a.salt a.password;
    is_active = true;
    verified = false;
    status = UserStatus.active;
    failed_login_attempts = 0;
    locked_until = none;
    last_login = none;
    deleted_at = none;
  }

  -- the account that joins: an existing one takes the name, and keeps its password
  unfoldable pub joining_user :
      Acceptance → Text → Option User → List User → Result (List User × User)
  joining_user a email (some u) users = ok (
    update_where (λ x. x.id == u.id) (take_name a.display_name) users,
    take_name a.display_name u,
  )
  joining_user a email none users =
      if any (λ u. u.email == email) users
      then raise integrity_error
      else ok (users ++ new_user a email ∷ [], new_user a email)

  -- `if invitation.role_id:`
  unfoldable pub join_role :
      Acceptance → Text → Text → Option Text → State → Result (List UserRoleAssignment)
  join_role a org_id user_id none st = ok st.assignments
  join_role a org_id user_id (some []) st = ok st.assignments
  join_role a org_id user_id (some (c ∷ role_id)) st = do
    (after, _) ←
        assign_role a.assignment_id org_id user_id (c ∷ role_id) none none st.roles st.assignments
    ok after

  unfoldable pub accept_invitation : Text → ℕ → Acceptance → State → Result (State × User)
  unfolding joining_user join_role
  accept_invitation token now a st = do
    found ← scalar_one_or_none (select (has_token token) st.invitations)
    invitation ← or_raise found (not_found (Prelude.text "Invitation not found"))
    raise_if (not (is_valid invitation now)) (invalid invitation now)
    existing ← scalar_one_or_none (select (has_email invitation.email) st.users)
    (users, user) ← joining_user a invitation.email existing st.users
    assignments ← join_role a invitation.organization_id user.id invitation.role_id st
    let employee : Employee = record {
      organization_id = invitation.organization_id;
      auth_user_id = user.id;
      deleted_at = none;
    }
    ok (
      record st {
        invitations = update_where (λ i. i.id == invitation.id) (accept_row now) st.invitations;
        users = users;
        employees = st.employees ++ employee ∷ [];
        assignments = assignments;
      },
      user,
    )
