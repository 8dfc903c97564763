-- ===== src/Users/Tests.antt =====
-- A user of an organization, and an invitation to it.
use costpilot.Prelude.{ℕ, ◌+◌, ◌≡◌, refl, true, false, none, some, [], ◌∷◌, ◌++◌, select, ok}
use costpilot.Text.{Text, codes, text_eq}
use costpilot.Auth.{User, UserStatus}
use costpilot.Auth.Password.{hash_password}
use costpilot.Rbac.{Role, UserRoleAssignment}
use costpilot.Rbac.Roles.{get_role}
use costpilot.Rbac.Assignments.{assign_role}
use costpilot.Rbac.Check.{Employee}
use costpilot.Users.Invitations.{
  UserInvitation, State, Acceptance, InvitationStatus-discrete, pending, expiry, is_pending,
  check_member, create_invitation, joining_user, join_role, accept_invitation,
}
use costpilot.Users.Invitations.Pending.{create_invitation-select}
use costpilot.Users.Invitations.Accepted.{accept_invitation-once}

abbrev viewer : Role
viewer = record {
  id = codes "r1";
  name = codes "Viewers";
  organization_id = codes "o1";
  is_default = false;
  permissions = [];
  deleted_at = none;
}

abbrev membership : Employee
membership = record { organization_id = codes "o1"; auth_user_id = codes "u1"; deleted_at = none }

abbrev ada : User
ada = record {
  id = codes "u1";
  email = codes "ada@x.org";
  display_name = codes "Ada";
  hashed_password = [];
  is_active = true;
  verified = true;
  status = UserStatus.active;
  failed_login_attempts = 0;
  locked_until = none;
  last_login = none;
  deleted_at = none;
}

abbrev viewing : UserRoleAssignment
viewing = record {
  id = codes "a1";
  user_id = codes "u1";
  role_id = codes "r1";
  organization_id = codes "o1";
  assigned_by = none;
  expires_at = none;
  deleted_at = none;
}

abbrev invitation : Text → Text → UserInvitation
invitation id token = record {
  id = id;
  email = codes "bob@x.org";
  organization_id = codes "o1";
  invited_by = codes "u1";
  role_id = some (codes "r1");
  token = token;
  status = pending;
  expires_at = 50 + expiry;
  accepted_at = none;
  deleted_at = none;
}

abbrev before : State
before = record {
  invitations = invitation (codes "i1") (codes "t1") ∷ [];
  users = ada ∷ [];
  employees = membership ∷ [];
  roles = viewer ∷ [];
  assignments = viewing ∷ [];
}

-- a second invitation of the same address
create_invitation-select_example :
    (after : State × UserInvitation) × (create_invitation
        (codes "i2")
        (codes "t2")
        50
        (codes "o1")
        (codes "u1")
        (codes "bob@x.org")
        (codes "r1")
        before
      ≡ ok after)
    × (select (is_pending (codes "bob@x.org") (codes "o1")) after.0.invitations ≡ after.1 ∷ [])
unfolding get_role check_member text_eq InvitationStatus-discrete
create_invitation-select_example =
    create_invitation-select (codes "i2") (codes "t2") 50 (codes "o1") (codes "u1")
      (codes "bob@x.org") (codes "r1") before none (some (invitation (codes "i1") (codes "t1")))
      refl refl refl refl refl

abbrev stretch : Text → Text → Text
stretch password salt = password ++ salt

abbrev bob : Acceptance
bob = record {
  display_name = codes "Bob";
  password = codes "secret";
  salt = codes "s";
  user_id = codes "u2";
  assignment_id = codes "a2";
}

abbrev joined : User
joined = record {
  id = codes "u2";
  email = codes "bob@x.org";
  display_name = codes "Bob";
  hashed_password = hash_password stretch (codes "s") (codes "secret");
  is_active = true;
  verified = false;
  status = UserStatus.active;
  failed_login_attempts = 0;
  locked_until = none;
  last_login = none;
  deleted_at = none;
}

accept_invitation-once_example :
    (after : State × User) × (accept_invitation stretch (codes "t1") 60 bob before ≡ ok after)
    × ((later : ℕ) (b : Acceptance) (again : State × User)
        → ¬ (accept_invitation stretch (codes "t1") later b after.0 ≡ ok again))
unfolding joining_user join_role assign_role get_role text_eq InvitationStatus-discrete
accept_invitation-once_example =
    accept_invitation-once stretch (codes "t1") 60 bob before (invitation (codes "i1") (codes "t1"))
      none (ada ∷ joined ∷ [], joined)
      (viewing ∷ record viewing { id = codes "a2"; user_id = codes "u2" } ∷ []) refl refl refl refl
      refl
