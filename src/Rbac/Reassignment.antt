-- ===== src/Rbac/Reassignment.antt =====
-- A role that was revoked, or that has expired, and its assignment to the same user again.
use costpilot.Prelude.{
  ℕ, ◌≡◌, refl, sym, ok-injective, ◌⊎◌, Bool, true, false, ◌&&◌, Option, none, some, List, [], ◌∷◌,
  ◌++◌, select, any, any-append, any-update_where, or_raise, not_found, ◌>>=◌, ◌∙◌, is_none,
  is_some, ◌==◌, arith, Result, ok, raise, bind-ok, raise_if-ok, scalar_one_or_none, update_where,
}
use costpilot.Prelude
use costpilot.Text.{Text}
use costpilot.Text.Laws.{text_instance}
use costpilot.Rbac.{Role, UserRoleAssignment}
use costpilot.Rbac.Roles.{get_role}
use costpilot.Rbac.Assignments.{
  is_same, assign_role, revoke_role, revoked, is_assignment, new_assignment,
}

-- If the query `p && q` has a row, so has `p`.
any-select :
    (p q : UserRoleAssignment → Bool) (rows : List UserRoleAssignment)
    → any p rows ≡ false
    → select (λ a. p a && q a) rows ≡ []
any-select p q [] h = refl
any-select p q (a ∷ rows) h = ground (arith, any-select p q rows)

-- `assign_role` for a role that exists, decided by the rows of the table alone
assign_role-any :
    (fresh_id org_id user_id role_id : Text) (assigned_by : Option Text) (expires_at : Option ℕ)
    (roles : List Role) (table : List UserRoleAssignment) {role : Role}
    → get_role org_id role_id roles ≡ ok role
    → any (is_same org_id user_id role_id) table ≡ false
    → assign_role fresh_id org_id user_id role_id assigned_by expires_at roles table
      ≡ ok (
        table ++ new_assignment fresh_id org_id user_id role_id assigned_by expires_at ∷ [],
        new_assignment fresh_id org_id user_id role_id assigned_by expires_at,
      )
unfolding assign_role
assign_role-any fresh_id org_id user_id role_id assigned_by expires_at roles table found free =
    rw
      (
        found,
        any-select (is_same org_id user_id role_id) (λ a. is_none a.deleted_at) table free,
        free,
      )
      refl

-- `assign_role` does not return where the table has a row for the three, revoked or not
pub assign_role-again :
    (fresh_id org_id user_id role_id : Text) (assigned_by : Option Text) (expires_at : Option ℕ)
    (roles : List Role) (table : List UserRoleAssignment)
    {after : List UserRoleAssignment × UserRoleAssignment}
    → any (is_same org_id user_id role_id) table ≡ true
    → ¬ (assign_role fresh_id org_id user_id role_id assigned_by expires_at roles table ≡ ok after)
unfolding assign_role
assign_role-again fresh_id org_id user_id role_id assigned_by expires_at roles table taken h =
    let (role, _, h1) = bind-ok _ (get_role org_id role_id roles) h in
    let (existing, _, h2) =
      bind-ok _
        (scalar_one_or_none
          (select (λ a. is_same org_id user_id role_id a && is_none a.deleted_at) table))
        h1 in
    let (_, h3) = raise_if-ok (is_some existing) _ _ h2 in
    let (free, _) = raise_if-ok (any (is_same org_id user_id role_id) table) _ _ h3 in cc

-- an assignment that returns adds its row
pub assign_role-append :
    (fresh_id org_id user_id role_id : Text) (assigned_by : Option Text) (expires_at : Option ℕ)
    (roles : List Role) (table : List UserRoleAssignment)
    {after : List UserRoleAssignment × UserRoleAssignment}
    → assign_role fresh_id org_id user_id role_id assigned_by expires_at roles table ≡ ok after
    → (table ++ after.1 ∷ []) ≡ after.0
unfolding assign_role
assign_role-append fresh_id org_id user_id role_id assigned_by expires_at roles table h =
    let (role, _, h1) = bind-ok _ (get_role org_id role_id roles) h in
    let (existing, _, h2) =
      bind-ok _
        (scalar_one_or_none
          (select (λ a. is_same org_id user_id role_id a && is_none a.deleted_at) table))
        h1 in
    let (_, h3) = raise_if-ok (is_some existing) _ _ h2 in
    let (_, h4) = raise_if-ok (any (is_same org_id user_id role_id) table) _ _ h3 in
    rw (sym (ok-injective h4)) refl

module _ (org_id user_id role_id : Text) where
  -- revocations, each at its time; one that raises changes nothing
  abbrev pub kept {ℓ κ} : {S : Type ℓ} {A : Type κ} → S → Result (S × A) → S
  kept before (ok (after, _)) = after
  kept before (raise e) = before

  unfoldable pub revoke_all : List (ℕ × Text) → List UserRoleAssignment → List UserRoleAssignment
  revoke_all [] table = table
  revoke_all ((now, assignment_id) ∷ rest) table =
      revoke_all rest (kept table (revoke_role now org_id assignment_id table))

  any-kept :
      (now : ℕ) (table : List UserRoleAssignment) (found : Result (Option UserRoleAssignment))
      → any (is_same org_id user_id role_id) (
          kept table (
            found >>= λ f.
            or_raise f (not_found (Prelude.text "Role assignment not found")) >>= λ a.
            ok (update_where (λ x. x.id == a.id) (revoked now) table, revoked now a)))
        ≡ any (is_same org_id user_id role_id) table
  any-kept now table (raise e) = refl
  any-kept now table (ok none) = refl
  any-kept now table (ok (some a)) =
      any-update_where (is_same org_id user_id role_id) (λ x. x.id == a.id) (revoked now)
        (λ x. refl) table

  pub any-revoke_role :
      (now : ℕ) (assignment_id : Text) (table : List UserRoleAssignment)
      → any
          (is_same org_id user_id role_id)
          (kept table (revoke_role now org_id assignment_id table))
        ≡ any (is_same org_id user_id role_id) table
  unfolding revoke_role
  any-revoke_role now assignment_id table =
      any-kept now table (scalar_one_or_none (select (is_assignment org_id assignment_id) table))

  any-revoke_all :
      (revocations : List (ℕ × Text)) (table : List UserRoleAssignment)
      → any (is_same org_id user_id role_id) (revoke_all revocations table)
        ≡ any (is_same org_id user_id role_id) table
  unfolding revoke_all
  any-revoke_all [] table = refl
  any-revoke_all ((now, assignment_id) ∷ rest) table =
      any-revoke_all rest (kept table (revoke_role now org_id assignment_id table))
      ∙ any-revoke_role now assignment_id table

  any-assigned :
      (a : UserRoleAssignment) (table : List UserRoleAssignment)
      → is_same org_id user_id role_id a ≡ true
      → any (is_same org_id user_id role_id) (table ++ a ∷ []) ≡ true
  any-assigned a table h =
      rw (any-append (is_same org_id user_id role_id) table (a ∷ []), h) (ground arith)

  -- Where a role exists and the organization has no assignment of it to the user, revoked or not,
  -- `assign_role` returns; and after that it never returns again for the same user, role and
  -- organization, whatever assignments are revoked in between.
  pub assign_role-revoke_all :
      (fresh_id : Text) (by : Option Text) (expires_at : Option ℕ) (roles : List Role)
      (table : List UserRoleAssignment) {role : Role}
      → get_role org_id role_id roles ≡ ok role
      → any (is_same org_id user_id role_id) table ≡ false
      → (after : List UserRoleAssignment × UserRoleAssignment) × (assign_role fresh_id org_id
            user_id role_id by expires_at roles table
          ≡ ok after)
        × ((revocations : List (ℕ × Text)) (fresh_id' : Text) (by' : Option Text)
              (expires_at' : Option ℕ) (roles' : List Role)
              (again : List UserRoleAssignment × UserRoleAssignment)
            → ¬ (
                assign_role fresh_id' org_id user_id role_id by' expires_at' roles'
                  (revoke_all revocations after.0)
                ≡ ok again))
  assign_role-revoke_all fresh_id by expires_at roles table found free =
      let a = new_assignment fresh_id org_id user_id role_id by expires_at in
      (
        (table ++ a ∷ [], a),
        assign_role-any fresh_id org_id user_id role_id by expires_at roles table found free,
        λ revocations fresh_id' by' expires_at' roles' again.
            assign_role-again fresh_id' org_id user_id role_id by' expires_at' roles'
              (revoke_all revocations (table ++ a ∷ []))
              (any-revoke_all revocations (table ++ a ∷ [])
                ∙ any-assigned a table (
                    ground (
                      arith,
                      text_instance.same_iff user_id user_id,
                      text_instance.same_iff role_id role_id,
                      text_instance.same_iff org_id org_id,
                    ))),
      )
