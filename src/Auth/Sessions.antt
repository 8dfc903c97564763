-- ===== src/Auth/Sessions.antt =====
-- Server-side sessions of auth/service.py: at most five at a time for a user, each bound to its user
-- and to keyed digests of the user agent, the address and the browser fingerprint. The digest under
-- the server's key is a parameter, and so is the Redis server.
pub mod Replay
pub mod Limit
pub mod Eviction
use costpilot.Prelude.{
  ℕ, ◌+◌, ◌*◌, Bool, true, false, not, ◌&&◌, Option, none, some, List, [], ◌∷◌, ◌++◌, ltb, leb,
  if◌then◌else◌, select, update_where, is_none, length, ◌==◌,
}
use costpilot.Text.{Text, codes, strip}
use costpilot.Text.Laws.{text_instance}
use costpilot.Redis.{Redis}
use costpilot.Auth.{minute}

pub data SessionRevokeReason : Type 0 where
  manual_logout max_concurrent_sessions admin_force_logout suspicious_activity : SessionRevokeReason

pub record SessionBinding : Type 0 where
  pub user_id : Text
  pub session_id : Text
  pub created_at : ℕ
  pub expires_at : ℕ
  pub revoked_at : Option ℕ
  pub revoke_reason : Option SessionRevokeReason

abbrev pub max_concurrent : ℕ
max_concurrent = 5

-- the `where` of the query
abbrev pub is_active : Text → ℕ → SessionBinding → Bool
is_active user_id now s = s.user_id == user_id && (ltb now s.expires_at && is_none s.revoked_at)

-- `sorted(active, key=created_at)[0]`: the sort is stable, so the first of the oldest
unfoldable pub oldest : SessionBinding → List SessionBinding → SessionBinding
oldest m [] = m
oldest m (s ∷ ss) = oldest (if ltb s.created_at m.created_at then s else m) ss

abbrev pub revoked : ℕ → SessionBinding → SessionBinding
revoked now s = record s { revoked_at = some now; revoke_reason = some max_concurrent_sessions }

evict : ℕ → List SessionBinding → List SessionBinding → List SessionBinding
unfolding oldest
evict now [] table = table
evict now (m ∷ ss) table =
    update_where (λ s. s.session_id == (oldest m ss).session_id) (revoked now) table

-- a session lives as long as a token
abbrev pub new_row : ℕ → Text → Text → ℕ → SessionBinding
new_row expire_minutes user_id session_id now = record {
  user_id = user_id;
  session_id = session_id;
  created_at = now;
  expires_at = now + expire_minutes * minute;
  revoked_at = none;
  revoke_reason = none;
}

-- the rows of the table after `create_session_binding`
unfoldable pub create_row : ℕ → Text → Text → ℕ → List SessionBinding → List SessionBinding
unfolding evict
create_row expire_minutes user_id session_id now table =
    let active_sessions = select (is_active user_id now) table in
    let kept =
      if leb max_concurrent (length active_sessions)
      then evict now active_sessions table
      else table in
    kept ++ new_row expire_minutes user_id session_id now ∷ []

-- The hash that Redis keeps for a session.
pub record Binding : Type 0 where
  pub user_id : Text
  pub ua_hash : Text
  pub ip_hash : Text
  pub fp_hash : Text

abbrev or_empty : Option Text → Text
or_empty none = []
or_empty (some s) = s

-- What a request shows of its sender.
pub record Context : Type 0 where
  pub user_agent : Option Text
  pub client_ip : Option Text
  pub fingerprint : Option Text

abbrev pub storage_key : Text → Text
storage_key session_id = codes "session_binding:" ++ session_id

is_empty : Text → Bool
is_empty [] = true
is_empty (c ∷ s) = false

module _ (hmac : Text → Text) where
  -- `_user_agent_binding_hash`, `_ip_binding_hash` and `_fingerprint_binding_hash` are one function
  unfoldable pub binding_hash : Option Text → Text
  binding_hash s = hmac (strip (or_empty s))

  abbrev pub bind : Text → Context → Binding
  bind user_id c = record {
    user_id = user_id;
    ua_hash = binding_hash c.user_agent;
    ip_hash = binding_hash c.client_ip;
    fp_hash = binding_hash c.fingerprint;
  }

  unfoldable pub matches : Option Binding → Text → Context → Bool
  unfolding is_empty
  matches none user_id c = false
  matches (some b) user_id c =
      if not (b.user_id == user_id)
      then false
      else if is_empty b.ua_hash
      then false
      else if not (b.ua_hash == binding_hash c.user_agent)
      then false
      else if is_empty b.ip_hash
      then false
      else if not (b.ip_hash == binding_hash c.client_ip)
      then false
      else if is_empty b.fp_hash
      then true
      else b.fp_hash == binding_hash c.fingerprint

  module _ (redis : Redis Binding) where
    open redis use {Store, get, setex, delete}

    -- what `create_session_binding` writes to Redis
    unfoldable pub store_binding : ℕ → Text → Text → Context → ℕ → Store → Store
    store_binding expire_minutes user_id session_id c now s =
        setex s (storage_key session_id) (expire_minutes * minute) (bind user_id c) now

    -- `create_session_binding`: the rows of the table and the bindings in Redis
    unfoldable pub create_session_binding :
        ℕ → Text → Text → Context → ℕ → List SessionBinding × Store → List SessionBinding × Store
    create_session_binding expire_minutes user_id session_id c now (table, s) = (
      create_row expire_minutes user_id session_id now table,
      store_binding expire_minutes user_id session_id c now s,
    )

    unfoldable pub is_session_binding_valid : Text → Text → Context → ℕ → Store → Bool
    unfolding matches
    is_session_binding_valid user_id session_id c now s =
        matches (get s (storage_key session_id) now) user_id c

    unfoldable pub revoke_session_binding : Text → Store → Store
    revoke_session_binding session_id s = delete s (storage_key session_id)
