-- ===== src/Rbac/Sync.antt =====
-- What `_sync_role_permissions` makes of a role's permissions, and `update_role` through it.
use costpilot.Prelude.{
  ℕ, ◌≡◌, ◌∙◌, refl, Bool, not, ◌&&◌, List, [], ◌∷◌, map, select, any, any-append, is_none, is_some,
  arith, some, bind-ok, raise_if-ok, ok,
}
use costpilot.Text.{Text}
use costpilot.Rbac.{Role, RolePermission, PermissionKey, permission_key_instance}
use costpilot.Rbac.Roles.{
  desires, has_key, new_permission, sync_existing, sync_role_permissions, to_set, RoleUpdate,
  rename, with_permissions, get_role, flush_role, put_role, update_role,
}

-- a row for the key that is not deleted
abbrev pub has_live : PermissionKey → RolePermission → Bool
has_live k p = has_key k p && is_none p.deleted_at

sync_existing-live :
    (desired : List PermissionKey) (now : ℕ) (k : PermissionKey) (p : RolePermission)
    → has_live k (sync_existing desired now p) ≡ (has_key k p && desires desired k)
unfolding sync_existing
sync_existing-live desired now k p = ground (arith, permission_key_instance.same_iff p.key k)

any-sync_existing :
    (desired : List PermissionKey) (now : ℕ) (k : PermissionKey) (ps : List RolePermission)
    → any (has_live k) (map (sync_existing desired now) ps)
      ≡ (any (has_key k) ps && desires desired k)
any-sync_existing desired now k [] = refl
any-sync_existing desired now k (p ∷ ps) =
    ground (arith, sync_existing-live desired now k p, any-sync_existing desired now k ps)

any-new_permission :
    (ps : List RolePermission) (k : PermissionKey) (desired : List PermissionKey)
    → any (has_live k) (map new_permission (select (λ x. not (any (has_key x) ps)) desired))
      ≡ (desires desired k && not (any (has_key k) ps))
any-new_permission ps k [] = refl
any-new_permission ps k (d ∷ desired) =
    ground (arith, permission_key_instance.same_iff d k, any-new_permission ps k desired)

-- the live rows are those of the keys asked for
sync-live :
    (desired : List PermissionKey) (now : ℕ) (ps : List RolePermission) (k : PermissionKey)
    → any (has_live k) (sync_role_permissions desired now ps) ≡ desires desired k
unfolding sync_role_permissions
sync-live desired now ps k = ground (
  arith,
  any-append (has_live k) (map (sync_existing desired now) ps)
      (map new_permission (select (λ x. not (any (has_key x) ps)) desired)),
  any-sync_existing desired now k ps,
  any-new_permission ps k desired,
)

desires-to_set :
    (ks : List PermissionKey) (k : PermissionKey) → desires (to_set ks) k ≡ desires ks k
unfolding to_set
desires-to_set [] k = refl
desires-to_set (x ∷ ks) k =
    ground (arith, permission_key_instance.same_iff x k, desires-to_set ks k)

flush_role-ok :
    (role : Role) (roles : List Role) {after : List Role × Role}
    → flush_role role roles ≡ ok after
    → after ≡ (put_role role roles, role)
unfolding flush_role
flush_role-ok role roles h = ground arith

-- If `update_role` returns and was given permissions, then the role that it returns has an
-- undeleted row for a pair of an action and a resource type exactly when the pair was given.
pub update_role-permissions :
    (now : ℕ) (org_id role_id : Text) (data' : RoleUpdate) (roles : List Role)
    {after : List Role × Role} (ks : List PermissionKey)
    → data'.permissions ≡ some ks
    → update_role now org_id role_id data' roles ≡ ok after
    → (k : PermissionKey) → any (has_live k) after.1.permissions ≡ desires ks k
unfolding update_role with_permissions
update_role-permissions now org_id role_id data' roles ks given h k =
    let (role, _, h1) = bind-ok _ (get_role org_id role_id roles) h in
    let (_, h2) = raise_if-ok role.is_default _ _ h1 in
    let (renamed, e, h3) = bind-ok _ (rename data'.name role) h2 in
    let (_, h4) = raise_if-ok (is_some data'.is_default) _ _ h3 in
    let e' = flush_role-ok (with_permissions data'.permissions now renamed) roles h4 in
    rw (e', given) (sync-live (to_set ks) now renamed.permissions k ∙ desires-to_set ks k)
