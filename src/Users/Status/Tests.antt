-- ===== src/Users/Status/Tests.antt =====
-- Suspensions and removals of one member.
use costpilot.Prelude.{
  ℕ, ◌*◌, ◌≡◌, refl, none, some, List, [], ◌∷◌, ◌++◌, Error, not_found, ok, raise, ◌==◌,
}
use costpilot.Prelude
use costpilot.Text.{Text, codes, text_eq, strip, split}
use costpilot.Text.Laws.{text_instance}
use costpilot.Redis.Memory.{memory}
use costpilot.Auth.{minute}
use costpilot.Auth.Login.{get_user_by_id}
use costpilot.Auth.Sessions.{Binding, is_session_binding_valid, store_binding, binding_hash}
use costpilot.Auth.Access.{
  extract_token, extract_session_id, decode_access_token, get_client_ip, create_access_token,
  get_current_user, open_session, is_token_blacklisted,
}
use costpilot.Auth.Access.Tests.{
  plain_jwt, digest, with_cookies, ada, opened, read_token, write_token,
}
use costpilot.Rbac.{UserRoleAssignment}
use costpilot.Rbac.Assignments.{revoke_role, list_user_roles}
use costpilot.Rbac.Check.{Employee}
use costpilot.Users.{get_user_employee, revoke_each}
use costpilot.Users.Invitations.{
  pending, expiry, UserInvitation, State, Acceptance, accept_invitation,
}
use costpilot.Users.Status.{suspended, suspend_user, remove_user_from_organization, left}
use costpilot.Users.Status.Suspension.{get_current_user-suspend_user}
use costpilot.Users.Status.Removal.{remove-accept_invitation}

abbrev membership : Employee
membership = record { organization_id = codes "o1"; auth_user_id = codes "7"; deleted_at = none }

get_current_user-suspend_user_example :
    get_current_user digest plain_jwt
      (memory Text)
      (memory Binding)
      with_cookies
      (minute * 3)
      (suspended ada ∷ [])
      opened.0
    ≡ ok (suspended ada)
unfolding get_current_user extract_token open_session create_access_token write_token
    extract_session_id is_token_blacklisted decode_access_token read_token text_eq
    is_session_binding_valid store_binding binding_hash strip get_client_ip split get_user_by_id
    suspend_user get_user_employee
get_current_user-suspend_user_example =
    get_current_user-suspend_user digest plain_jwt (memory Text) (memory Binding) with_cookies
      (minute * 3) (codes "o1") (codes "8") (ada ∷ []) (membership ∷ []) opened.0 {u = ada}
      {after = (suspended ada ∷ [], suspended ada)} refl refl

-- a digest of a password and a salt
abbrev stretch : Text → Text → Text
stretch password salt = password

abbrev viewing : UserRoleAssignment
viewing = record {
  id = codes "a1";
  user_id = codes "7";
  role_id = codes "r1";
  organization_id = codes "o1";
  assigned_by = none;
  expires_at = none;
  deleted_at = none;
}

abbrev withdrawn_viewing : UserRoleAssignment
withdrawn_viewing = record viewing { deleted_at = some 50 }

abbrev invitation : UserInvitation
invitation = record {
  id = codes "i1";
  email = codes "a@b.co";
  organization_id = codes "o1";
  invited_by = codes "8";
  role_id = some (codes "r1");
  token = codes "t1";
  status = pending;
  expires_at = expiry;
  accepted_at = none;
  deleted_at = none;
}

abbrev invited : State
invited = record {
  invitations = invitation ∷ [];
  users = ada ∷ [];
  employees = left 50 membership ∷ [];
  roles = [];
  assignments = withdrawn_viewing ∷ [];
}

abbrev back : Acceptance
back = record {
  display_name = [];
  password = codes "secret";
  salt = codes "s";
  user_id = codes "u2";
  assignment_id = codes "a2";
}

remove-accept_invitation_example :
    (get_user_employee (codes "o1") (codes "7") (ada ∷ []) (left 50 membership ∷ [])
      ≡ raise (not_found (Prelude.text "User not found in organization")))
    × ¬ (accept_invitation stretch (codes "t1") 60 back invited ≡ ok (invited, ada))
unfolding text_eq remove_user_from_organization get_user_employee revoke_each list_user_roles
    revoke_role
remove-accept_invitation_example =
    remove-accept_invitation stretch 50 60 (codes "o1") (codes "7") (codes "8") (codes "r1")
      (codes "t1") (ada ∷ []) (membership ∷ []) (viewing ∷ []) back invited invitation ada
      {after = (left 50 membership ∷ [], withdrawn_viewing ∷ [])} {result = (invited, ada)} refl
      refl (λ h. cc) refl refl refl refl refl refl
