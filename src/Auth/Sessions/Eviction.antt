-- ===== src/Auth/Sessions/Eviction.antt =====
-- A session that the limit of concurrent sessions evicts.
use costpilot.Prelude.{ℕ, ◌≡◌, ◌≢◌, refl, ◌∙◌, ap, false, List, [], ◌∷◌, ◌==◌, All, arith}
use costpilot.Text.{Text}
use costpilot.Text.Laws.{text_instance, text_eq_iff}
use costpilot.Redis.{Redis}
use costpilot.Auth.Sessions.{
  SessionBinding, Binding, Context, storage_key, store_binding, is_session_binding_valid,
  create_session_binding, matches,
}

-- A session that is opened: its identifier, sender and time.
pub record Opening : Type 0 where
  pub session_id : Text
  pub context : Context
  pub now : ℕ

other_key : (a b : Text) → a ≢ b → (storage_key a == storage_key b) ≡ false
other_key a b h = ground (arith, text_eq_iff (storage_key a) (storage_key b), same a b)
  where
    same : (a b : Text) → storage_key a ≡ storage_key b → a ≡ b
    same a b e = cc

module _ (hmac : Text → Text) (redis : Redis Binding) where
  open redis use {Store, get}

  unfoldable pub open_all :
      ℕ → Text → List Opening → List SessionBinding × Store → List SessionBinding × Store
  open_all minutes user_id [] s = s
  open_all minutes user_id (o ∷ os) s =
      open_all minutes user_id os
        (create_session_binding hmac redis minutes user_id o.session_id o.context o.now s)

  get-open_all :
      (minutes : ℕ) (user_id session_id : Text) (os : List Opening) (later : ℕ)
      (s : List SessionBinding × Store)
      → All (λ o. o.session_id ≢ session_id) os
      → get (open_all minutes user_id os s).1 (storage_key session_id) later
        ≡ get s.1 (storage_key session_id) later
  unfolding open_all create_session_binding store_binding
  get-open_all minutes user_id session_id [] later s h = refl
  get-open_all minutes user_id session_id (o ∷ os) later s h =
      get-open_all minutes user_id session_id os later _ h.1
      ∙ redis.get-setex s.1 (storage_key o.session_id) (storage_key session_id) _ _ o.now later
      ∙ rw (other_key o.session_id session_id h.0) refl

  -- However many further sessions a user opens, under other identifiers, a session that is open stays
  -- valid for the requests for which it was valid, and invalid for the others; the limit of
  -- concurrent sessions, which marks rows of the table, has no effect on it.
  pub is_session_binding_valid-open_all :
      (minutes : ℕ) (user_id session_id : Text) (os : List Opening) (c : Context) (later : ℕ)
      (s : List SessionBinding × Store)
      → All (λ o. o.session_id ≢ session_id) os
      → is_session_binding_valid hmac redis user_id session_id c later
          (open_all minutes user_id os s).1
        ≡ is_session_binding_valid hmac redis user_id session_id c later s.1
  unfolding is_session_binding_valid
  is_session_binding_valid-open_all minutes user_id session_id os c later s h =
      ap (λ b. matches hmac b user_id c) (get-open_all minutes user_id session_id os later s h)
