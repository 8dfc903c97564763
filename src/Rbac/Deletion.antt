-- ===== src/Rbac/Deletion.antt =====
-- What a deleted role still grants: nothing, though `check_permission` reads assignments to it.
use costpilot.Prelude.{
  ℕ, ◌≡◌, refl, sym, subst, ok-injective, ap, false, not, ◌&&◌, List, [], ◌∷◌, map, select,
  select-head, any, ◌==◌, arith, inl, inr, Bool-cases, bind-ok, raise_if-ok, or_raise-ok,
  scalar_one_or_none, scalar_one_or_none-some, ok, if◌then◌else◌, not_found,
}
use costpilot.Prelude
use costpilot.Text.{Text}
use costpilot.Text.Laws.{text_instance}
use costpilot.Rbac.{Role, RolePermission, UserRoleAssignment}
use costpilot.Rbac.Roles.{
  is_role, get_role, put_role, delete_permission, delete_with_permissions, delete_role,
}
use costpilot.Rbac.Check.{
  PermissionCheckRequest, permits, grants, role_of, name_of_first, match_roles,
}

-- a role that is found is the one that was asked for
get_role-id :
    (org_id role_id : Text) (roles : List Role) {role : Role}
    → get_role org_id role_id roles ≡ ok role
    → role.id ≡ role_id
unfolding get_role
get_role-id org_id role_id roles {role} h =
    let (found, e, h') =
      bind-ok (λ x. Prelude.or_raise x (not_found (Prelude.text "Role not found")))
        (scalar_one_or_none (select (is_role org_id role_id) roles)) h in
    let one =
      scalar_one_or_none-some (select (is_role org_id role_id) roles)
        (rw (or_raise-ok found _ h') at e) in
    let p = select-head (is_role org_id role_id) roles one in
    ground (arith, p, text_instance.same_iff role.id role_id)

grants-delete_permission :
    (req : PermissionCheckRequest) (now : ℕ) (ps : List RolePermission)
    → any (permits req) (map (delete_permission now) ps) ≡ false
grants-delete_permission req now [] = refl
grants-delete_permission req now (p ∷ ps) = grants-delete_permission req now ps

-- an assignment to a role that grants nothing adds no name
name_of_first-deleted :
    (req : PermissionCheckRequest) (d : Role) (roles : List Role) (rest : List Text)
    → grants req d ≡ false
    → name_of_first req (select (λ r. r.id == d.id) (put_role d roles)) rest ≡ rest
name_of_first-deleted req d [] rest none' = refl
name_of_first-deleted req d (r ∷ roles) rest none' = elim (Bool-cases (r.id == d.id)) [
  | inl e ↦ rw (e, (text_instance.same_iff d.id d.id).1 refl, none') refl
  | inr e ↦ rw (e, e) (name_of_first-deleted req d roles rest none')
]

-- the other assignments keep their roles
role_of-put_role :
    (a : UserRoleAssignment) (d : Role) (roles : List Role)
    → (a.role_id == d.id) ≡ false
    → role_of (put_role d roles) a ≡ role_of roles a
role_of-put_role a d [] other = refl
role_of-put_role a d (r ∷ roles) other = ground (
  arith,
  text_instance.same_iff r.id d.id,
  text_instance.same_iff a.role_id d.id,
  text_instance.same_iff d.id a.role_id,
  text_instance.same_iff r.id a.role_id,
  role_of-put_role a d roles other,
)

match_roles-deleted :
    (req : PermissionCheckRequest) (d : Role) (roles : List Role) (as' : List UserRoleAssignment)
    → grants req d ≡ false
    → match_roles req (put_role d roles) as'
      ≡ match_roles req roles (select (λ a. not (a.role_id == d.id)) as')
unfolding match_roles
match_roles-deleted req d roles [] h = refl
match_roles-deleted req d roles (a ∷ as') h = elim (Bool-cases (a.role_id == d.id)) [
  | inl e ↦
      rw
        (
          (text_instance.same_iff a.role_id d.id).0 e,
          (text_instance.same_iff d.id d.id).1 refl,
          name_of_first-deleted req d roles (match_roles req (put_role d roles) as') h,
        )
        (match_roles-deleted req d roles as' h)
  | inr e ↦
      rw (e, role_of-put_role a d roles e)
        (ap (name_of_first req (role_of roles a)) (match_roles-deleted req d roles as' h))
]

deleted_role-match_roles :
    (now : ℕ) (org_id role_id : Text) (roles : List Role) {after : List Role × Role}
    → delete_role now org_id role_id roles ≡ ok after
    → (req : PermissionCheckRequest) (as' : List UserRoleAssignment)
    → match_roles req after.0 as'
      ≡ match_roles req roles (select (λ a. not (a.role_id == role_id)) as')
unfolding delete_role
deleted_role-match_roles now org_id role_id roles h req as' =
    let (role, found, h1) = bind-ok _ (get_role org_id role_id roles) h in
    let (_, h2) = raise_if-ok role.is_default _ _ h1 in
    rw (sym (ok-injective h2)) (
      subst
        (λ i.
          match_roles req (put_role (delete_with_permissions now role) roles) as'
          ≡ match_roles req roles (select (λ a. not (a.role_id == i)) as'))
        (get_role-id org_id role_id roles found)
        (match_roles-deleted req (delete_with_permissions now role) roles as'
          (grants-delete_permission req now role.permissions)))

-- Where an organization has one role with the identifier and it is no system role, `delete_role`
-- returns; and from then on every list of assignments matches a request by the same roles as before
-- the deletion and without its assignments to the deleted role.
pub delete_role-match_roles :
    (now : ℕ) (org_id role_id : Text) (roles : List Role) (role : Role)
    → select (is_role org_id role_id) roles ≡ role ∷ []
    → role.is_default ≡ false
    → (after : List Role × Role) × (delete_role now org_id role_id roles ≡ ok after)
      × ((req : PermissionCheckRequest) (as' : List UserRoleAssignment)
          → match_roles req after.0 as'
            ≡ match_roles req roles (select (λ a. not (a.role_id == role_id)) as'))
unfolding delete_role get_role
delete_role-match_roles now org_id role_id roles role found custom =
    let deleted = delete_with_permissions now role in
    let h : delete_role now org_id role_id roles ≡ ok (put_role deleted roles, deleted) =
      rw (found, custom) refl in
    (
      (put_role deleted roles, deleted),
      h,
      λ req as'. deleted_role-match_roles now org_id role_id roles h req as',
    )
