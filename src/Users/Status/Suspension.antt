-- ===== src/Users/Status/Suspension.antt =====
-- Suspended accounts: they cannot log in, and their open sessions go on.
use costpilot.Prelude.{
  ℕ, ◌≡◌, refl, sym, ◌∙◌, not, ap, true, Bool, ◌&&◌, some, List, [], ◌∷◌, ◌++◌, select,
  update_where, map, is_none, select-update_where, select-update_where_one, select-head, ◌==◌,
  Error, Option-cases, inl, inr, ◌/◌, ◌+◌, unauthorized, numbered, not_found, forbidden, ok, raise,
  bind-ok, raise_if-ok, or_raise-ok, ok-injective, arith, scalar_one_or_none,
  scalar_one_or_none-some,
}
use costpilot.Prelude
use costpilot.Text.{Text}
use costpilot.Text.Laws.{text_instance, text_eq_iff}
use costpilot.Redis.{Redis}
use costpilot.Auth.{User, minute}
use costpilot.Auth.Password.{verify_password}
use costpilot.Auth.Login.{
  authenticate_user, has_email, lock_left, logged_in, get_user_by_id, get_user_by_id-ok,
}
use costpilot.Auth.Sessions.{Binding, is_session_binding_valid}
use costpilot.Auth.Access.{
  Jwt, Request, Stores, context, is_token_blacklisted, get_current_user, extract_token,
  extract_session_id, decode_access_token,
}
use costpilot.Rbac.Check.{Employee}
use costpilot.Users.{is_live_user, is_employee, get_user_employee, pairs, pair_with}
use costpilot.Users.Status.{suspended, activated, suspend_user, activate_user}

abbrev not_member : Error
not_member = not_found (Prelude.text "User not found in organization")

abbrev suspended_error : Error
suspended_error =
    forbidden
      (Prelude.text "Your account has been suspended. Please contact your admin for access.")

abbrev locked_error : ℕ → Error
locked_error remaining =
    unauthorized (numbered "Account is locked. Try again in (minutes) " (remaining / minute + 1))

pair_with-map :
    (f : User → User) (u : User) (es : List Employee)
    → pair_with (f u) es ≡ map (λ p. (f p.0, p.1)) (pair_with u es)
unfolding pair_with
pair_with-map f u [] = refl
pair_with-map f u (e ∷ es) = ap (λ t. (f u, e) ∷ t) (pair_with-map f u es)

map-append_lem :
    (g : User × Employee → User × Employee) (xs ys : List (User × Employee))
    → map g (xs ++ ys) ≡ map g xs ++ map g ys
map-append_lem g [] ys = refl
map-append_lem g (x ∷ xs) ys = ap (λ t. g x ∷ t) (map-append_lem g xs ys)

pairs-map :
    (f : User → User) (us : List User) (es : List Employee)
    → pairs (map f us) es ≡ map (λ p. (f p.0, p.1)) (pairs us es)
unfolding pairs
pairs-map f [] es = refl
pairs-map f (u ∷ us) es =
    rw
      (
        pair_with-map f u es,
        pairs-map f us es,
        map-append_lem (λ p. (f p.0, p.1)) (pair_with u es) (pairs us es),
      )
      refl

-- a change of an account that keeps its identifier leaves the member findable
get_user_employee-update :
    (f : User → User) (org_id user_id : Text) (users : List User) (employees : List Employee)
    {user : User} {employee : Employee}
    → ((u : User) → is_live_user user_id (f u) ≡ is_live_user user_id u)
    → get_user_employee org_id user_id users employees ≡ ok (user, employee)
    → get_user_employee org_id user_id (update_where (is_live_user user_id) f users) employees
      ≡ ok (f user, employee)
unfolding get_user_employee
get_user_employee-update f org_id user_id users employees keeps h =
    let rows =
      pairs (select (is_live_user user_id) users) (select (is_employee org_id user_id) employees) in
    let (row, e, h1) = bind-ok _ (scalar_one_or_none rows) h in
    let one = scalar_one_or_none-some rows (e ∙ ap ok (or_raise-ok row not_member h1)) in
    rw
      (
        select-update_where (is_live_user user_id) f keeps users,
        pairs-map f (select (is_live_user user_id) users)
            (select (is_employee org_id user_id) employees),
        one,
      )
      refl

module _ (hmac : Text → Text) (jwt : Jwt) (blacklist : Redis Text) (sessions : Redis Binding) where
  get_user_by_id-suspended :
      (id : Text) (users : List User) {u : User}
      → get_user_by_id id users ≡ ok u
      → get_user_by_id id (update_where (is_live_user u.id) suspended users) ≡ ok (suspended u)
  unfolding get_user_by_id
  get_user_by_id-suspended id users {u = u} h =
      let p : User → Bool = λ x. x.id == id && is_none x.deleted_at in
      let rows = get_user_by_id-ok id users h in
      let own : is_live_user u.id u ≡ true =
        ground (arith, select-head p users rows, text_eq_iff u.id u.id) in
      rw (select-update_where_one p (is_live_user u.id) suspended (λ x. refl) users u rows own) refl

  -- An account that is suspended keeps its sessions: a request that passes the guard as the account
  -- also passes after a suspension that has returned, as the account with its new status.
  pub get_current_user-suspend_user :
      (r : Request) (now : ℕ) (org_id suspended_by : Text) (users : List User)
      (employees : List Employee) (s : Stores hmac jwt blacklist sessions) {u : User}
      {after : List User × User}
      → get_current_user hmac jwt blacklist sessions r now users s ≡ ok u
      → suspend_user org_id u.id suspended_by users employees ≡ ok after
      → get_current_user hmac jwt blacklist sessions r now after.0 s ≡ ok (suspended u)
  unfolding get_current_user suspend_user
  get_current_user-suspend_user r now org_id suspended_by users employees s {u = u} {after = after}
        g h =
      let (token, a, g1) = bind-ok _ (extract_token r) g in
      let (session_id, b, g2) = bind-ok _ (extract_session_id r) g1 in
      let (c, g3) =
        raise_if-ok (is_token_blacklisted hmac jwt blacklist token now s.tokens) _ _ g2 in
      let (user_id, d, g4) =
        bind-ok _ (decode_access_token hmac jwt token (some session_id) now) g3 in
      let (e, g5) =
        raise_if-ok
          (not
            (is_session_binding_valid hmac sessions user_id session_id (context r) now s.bindings))
          _ _ g4 in
      let (_, _, h1) = bind-ok _ (get_user_employee org_id u.id users employees) h in
      let (_, h2) = raise_if-ok _ _ _ h1 in
      let after_is : after.0 ≡ update_where (is_live_user u.id) suspended users =
        sym (ap (λ (x : List User × User). x.0) (ok-injective h2)) in
      let looked_up : get_user_by_id user_id (update_where (is_live_user u.id) suspended users)
          ≡ ok (suspended u) =
        get_user_by_id-suspended user_id users g5 in
      rw (after_is, a, b, c, d, e, looked_up) refl

module _ (pbkdf2 : Text → Text → Text) where
  -- With one live account for an address, and after a suspension of it that has returned: a log-in
  -- with that address raises at any time and with any password. An activation then returns, and from
  -- then on the account's password is accepted, also where the account had been locked.
  pub authenticate_user-activate_user :
      (email password org_id suspended_by : Text) (users : List User) (employees : List Employee)
      (u : User) {after : List User × User}
      → select (has_email email) users ≡ u ∷ []
      → verify_password pbkdf2 password u.hashed_password ≡ true
      → suspend_user org_id u.id suspended_by users employees ≡ ok after
      → ((tried : Text) (now : ℕ)
          → (e : Error) × ((authenticate_user pbkdf2 email tried now after.0).1 ≡ raise e))
        × ((again : List User × User) × (activate_user org_id u.id after.0 employees ≡ ok again)
            × ((now : ℕ)
                → (authenticate_user pbkdf2 email password now again.0).1
                  ≡ ok (logged_in now (activated (suspended u)))))
  unfolding suspend_user activate_user authenticate_user
  authenticate_user-activate_user email password org_id suspended_by users employees u
        {after = after} found right h =
      let ((u0, employee), m, h1) = bind-ok _ (get_user_employee org_id u.id users employees) h in
      let (_, h2) = raise_if-ok _ _ _ h1 in
      let after_is : after.0 ≡ update_where (is_live_user u.id) suspended users =
        sym (ap (λ (x : List User × User). x.0) (ok-injective h2)) in
      let own : is_live_user u.id u ≡ true =
        ground (arith, select-head (has_email email) users found, text_eq_iff u.id u.id) in
      let users1 = update_where (is_live_user u.id) suspended users in
      let found1 : select (has_email email) users1 ≡ suspended u ∷ [] =
        select-update_where_one (has_email email) (is_live_user u.id) suspended (λ x. refl) users u
          found own in
      let found2 =
        select-update_where_one (has_email email) (is_live_user u.id) activated (λ x. refl) users1
          (suspended u) found1 own in
      let member1 = get_user_employee-update suspended org_id u.id users employees (λ x. refl) m in
      let users2 = update_where (is_live_user u.id) activated users1 in
      rw after_is (
        λ tried now. elim (Option-cases (lock_left u.locked_until now)) [
          | inl free ↦ (suspended_error, rw (found1, free) refl)
          | inr (remaining, held) ↦ (locked_error remaining, rw (found1, held) refl)
        ],
        ((users2, activated (suspended u0)), rw member1 refl, λ now. rw (found2, right) refl),
      )
