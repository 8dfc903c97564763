-- ===== src/Auth/Rotation.antt =====
-- Refresh tokens of `SecureTokenManager`, backend/app/auth/token_manager.py: each is good for one
-- rotation, and its reuse revokes all tokens of the user. Redis is a parameter, with a scan of its
-- keys; so is the digest. Fresh tokens are arguments, times are in microseconds.
pub mod Reuse
mod Tests
use costpilot.Prelude.{
  ℕ, ◌+◌, ◌*◌, ◌≤◌, ◌≡◌, Bool, true, false, Option, none, some, List, [], ◌∷◌, ◌++◌, if◌then◌else◌,
  ◌==◌,
}
use costpilot.Text.{Text, codes, elem}
use costpilot.Text.Laws.{text_instance}
use costpilot.Redis.{Redis}

-- the value of a key, `str` of a dict
pub record Stored : Type 0 where
  pub user_id : Text
  pub session_id : Text
  pub created_at : ℕ
  pub used : Bool

-- What Redis promises of a whole `SCAN`, and that a value does not come back by itself.
pub record Scan : Type 1 where
  pub redis : Redis Stored
  -- the keys with a prefix that the calls from cursor 0 to cursor 0 give
  pub scan : redis.Store → Text → ℕ → List Text
  pub covers :
      (s : redis.Store) (prefix k : Text) (now : ℕ) {v : Stored}
      → redis.get s (prefix ++ k) now ≡ some v
      → elem (prefix ++ k) (scan s prefix now) ≡ true
  pub expires :
      (s : redis.Store) (k : Text) (now later : ℕ) {v : Stored}
      → now ≤ later
      → redis.get s k later ≡ some v
      → redis.get s k now ≡ some v

abbrev pub refresh_prefix : Text
refresh_prefix = codes "refresh_token:"

abbrev pub second : ℕ
second = 1_000_000

-- 7 days
abbrev pub refresh_token_ttl : ℕ
refresh_token_ttl = 7 * 24 * 60 * 60 * second

abbrev pub reuse_window : ℕ
reuse_window = 60 * second

pub record TokenPair : Type 0 where
  pub access_token : Text
  pub refresh_token : Text
  pub expires_in : ℕ

-- the two TokenRotationErrors of a manager that has a Redis client
pub data RotationError : Type 0 where
  invalid_token token_reuse : RotationError

pub data Rotation : Type 0 where
  rotated : TokenPair → Rotation
  failed : RotationError → Rotation

-- What the rotation makes anew: the two tokens, and whether the new one's record reached Redis.
pub record Fresh : Type 0 where
  pub access_token : Text
  pub refresh_token : Text
  pub persisted : Bool

module _ (sha256 : Text → Text) (server : Scan) where
  open server use {redis, scan}
  open redis use {Store, get, setex, delete}

  abbrev pub refresh_key : Text → Text
  refresh_key token = refresh_prefix ++ sha256 token

  -- `_store_refresh_token`: a failure of Redis is only logged
  unfoldable pub store_refresh_token : Text → Text → Text → Bool → ℕ → Store → Store
  store_refresh_token token user_id session_id persisted now s =
      if persisted
      then setex s (refresh_key token) refresh_token_ttl
          (record { user_id = user_id; session_id = session_id; created_at = now; used = false })
          now
      else s

  unfoldable pub create_token_pair : ℕ → Text → Text → Fresh → ℕ → Store → Store × TokenPair
  unfolding store_refresh_token
  create_token_pair access_token_ttl user_id session_id f now s = (
    store_refresh_token f.refresh_token user_id session_id f.persisted now s,
    record {
      access_token = f.access_token;
      refresh_token = f.refresh_token;
      expires_in = access_token_ttl;
    },
  )

  -- one key of the loop of `revoke_all_user_sessions`
  revoke_found : Text → Text → Option Stored → Store × ℕ → Store × ℕ
  revoke_found user_id key none (s, revoked) = (s, revoked)
  revoke_found user_id key (some d) (s, revoked) =
      if d.user_id == user_id then (delete s key, revoked + 1) else (s, revoked)

  revoke_keys : Text → List Text → ℕ → Store × ℕ → Store × ℕ
  unfolding revoke_found
  revoke_keys user_id [] now r = r
  revoke_keys user_id (key ∷ keys) now r =
      revoke_keys user_id keys now (revoke_found user_id key (get r.0 key now) r)

  unfoldable pub revoke_all_user_sessions : Text → ℕ → Store → Store × ℕ
  unfolding revoke_keys
  revoke_all_user_sessions user_id now s =
      revoke_keys user_id (scan s refresh_prefix now) now (s, 0)

  -- the loop of `revoke_session`, which ends at the first token of the session
  revoke_first : Text → List Text → ℕ → Store → Store × Bool
  revoke_first session_id [] now s = (s, false)
  revoke_first session_id (key ∷ keys) now s =
      revoke_one session_id key (get s key now) s (revoke_first session_id keys now s)
    where
      revoke_one : Text → Text → Option Stored → Store → Store × Bool → Store × Bool
      revoke_one session_id key none s rest = rest
      revoke_one session_id key (some d) s rest =
          if d.session_id == session_id then (delete s key, true) else rest

  unfoldable pub revoke_session : Text → ℕ → Store → Store × Bool
  unfolding revoke_first
  revoke_session session_id now s = revoke_first session_id (scan s refresh_prefix now) now s

  -- what follows the look-up of the token
  rotate_found : ℕ → Text → Option Stored → Fresh → ℕ → Store → Store × Rotation
  unfolding create_token_pair revoke_all_user_sessions
  rotate_found ttl token none f now s = (s, failed invalid_token)
  rotate_found ttl token (some d) f now s =
      if d.used
      then ((revoke_all_user_sessions d.user_id now s).0, failed token_reuse)
      else (let marked = setex s (refresh_key token) reuse_window (record d { used = true }) now in
          let (s', pair) = create_token_pair ttl d.user_id d.session_id f now marked in
          (s', rotated pair))

  unfoldable pub rotate_refresh_token : ℕ → Text → Fresh → ℕ → Store → Store × Rotation
  unfolding rotate_found
  rotate_refresh_token ttl token f now s =
      rotate_found ttl token (get s (refresh_key token) now) f now s
