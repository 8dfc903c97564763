-- ===== src/Auth/Rotation/Reuse.antt =====
-- A refresh token that is used twice.
use costpilot.Prelude.{
  ℕ, ◌+◌, ◌<◌, ◌≤◌, ◌≡◌, ◌≢◌, refl, ◌∙◌, sym, Bool, true, false, Option, none, some, List, [], ◌∷◌,
  ◌++◌, ◌==◌, arith, Bool-cases, ◌||◌, inl, inr, lt→ltb, ap,
}
use costpilot.Text.{Text, elem, text_eq}
use costpilot.Text.Laws.{text_instance, text_eq_iff, text_eq_refl}
use costpilot.Auth.Rotation.{
  Stored, Scan, refresh_prefix, refresh_key, reuse_window, token_reuse, rotated, failed, Fresh,
  create_token_pair, store_refresh_token, revoke_found, revoke_keys, revoke_all_user_sessions,
  rotate_found, rotate_refresh_token,
}

none-some : {d : Stored} → none ≡ some d → ⊥
none-some h = cc

of_some : {d e : Stored} → some d ≡ some e → d ≡ e
of_some h = cc

false-true : false ≡ true → ⊥
false-true h = cc

or_right : (a b : Bool) → a ≡ false → (a || b) ≡ true → b ≡ true
or_right true b e h = cc
or_right false b e h = h

unequal : (a b : Text) → a ≢ b → (a == b) ≡ false
unequal a b h = ground (arith, text_eq_iff a b)

module _ (sha256 : Text → Text) (server : Scan) where
  open server use {redis, scan, covers, expires}
  open redis use {Store, get, setex, delete, get-setex, get-delete}

  -- No key has a live token of the user, or it is among those that are still to be looked at.
  abbrev IsCleared : Text → List Text → ℕ → Store → Type 0
  IsCleared user_id keys now s =
      (k : Text) (d : Stored)
      → get s (refresh_prefix ++ k) now ≡ some d
      → d.user_id ≡ user_id
      → elem (refresh_prefix ++ k) keys ≡ true

  get-delete_some :
      (s : Store) (key k : Text) (now : ℕ) (d : Stored)
      → get (delete s key) k now ≡ some d
      → (get s k now ≡ some d) × ((k == key) ≡ false)
  get-delete_some s key k now d h = elim (Bool-cases (key == k)) [
    | inl e ↦ let gone : get (delete s key) k now ≡ none = get-delete s key k now ∙ rw e refl in cc
    | inr e ↦
        let kept : get (delete s key) k now ≡ get s k now = get-delete s key k now ∙ rw e refl in
        (sym kept ∙ h, ground (arith, e, text_eq_iff k key, text_eq_iff key k))
  ]

  -- what the step over a key leaves of the user's was there before, under another key
  revoke_found-kept :
      (user_id key k : Text) (now : ℕ) (found : Option Stored) (r : Store × ℕ) (d : Stored)
      → get r.0 key now ≡ found
      → get (revoke_found sha256 server user_id key found r).0 k now ≡ some d
      → d.user_id ≡ user_id
      → (get r.0 k now ≡ some d) × ((k == key) ≡ false)
  unfolding revoke_found
  revoke_found-kept user_id key k now none (s, n) d e h mine = (
    h,
    elim (Bool-cases (k == key)) [
      | inl same ↦
          let k' : k ≡ key = (text_eq_iff k key).0 same in
          absurd (none-some (sym e ∙ sym (ap (λ x. get s x now) k') ∙ h))
      | inr other ↦ other
    ],
  )
  revoke_found-kept user_id key k now (some d') (s, n) d e h mine =
      elim (Bool-cases (d'.user_id == user_id)) [
        | inl same ↦ get-delete_some s key k now d (rw (same, revoke_found) at h)
        | inr other ↦
            let left : get s k now ≡ some d = rw (other, revoke_found) at h in
            (
              left,
              elim (Bool-cases (k == key)) [
                | inl same ↦
                    let k' : k ≡ key = (text_eq_iff k key).0 same in
                    let one : some d' ≡ some d = sym e ∙ sym (ap (λ x. get s x now) k') ∙ left in
                    let owner : d'.user_id ≡ user_id =
                      ap (λ (x : Stored). x.user_id) (of_some one) ∙ mine in
                    absurd (false-true (sym other ∙ (text_eq_iff d'.user_id user_id).1 owner))
                | inr different ↦ different
              ],
            )
      ]

  revoke_found-IsCleared :
      (user_id key : Text) (keys : List Text) (now : ℕ) (found : Option Stored) (r : Store × ℕ)
      → get r.0 key now ≡ found
      → IsCleared user_id (key ∷ keys) now r.0
      → IsCleared user_id keys now (revoke_found sha256 server user_id key found r).0
  unfolding elem
  revoke_found-IsCleared user_id key keys now found r e h k d here mine =
      let (before, other) =
        revoke_found-kept user_id key (refresh_prefix ++ k) now found r d e here mine in
      or_right (text_eq (refresh_prefix ++ k) key) _ other (h k d before mine)

  revoke_keys-IsCleared :
      (user_id : Text) (keys : List Text) (now : ℕ) (r : Store × ℕ)
      → IsCleared user_id keys now r.0
      → IsCleared user_id [] now (revoke_keys sha256 server user_id keys now r).0
  unfolding revoke_keys
  revoke_keys-IsCleared user_id [] now r h = h
  revoke_keys-IsCleared user_id (key ∷ keys) now r h =
      revoke_keys-IsCleared user_id keys now _
        (revoke_found-IsCleared user_id key keys now (get r.0 key now) r refl h)

  -- After all sessions of a user are revoked, no refresh token in Redis is one of that user's.
  pub revoke_all-IsCleared :
      (user_id : Text) (now later : ℕ) (s : Store) (k : Text) (d : Stored)
      → now ≤ later
      → get (revoke_all_user_sessions sha256 server user_id now s).0 (refresh_prefix ++ k) later
        ≡ some d
      → d.user_id ≢ user_id
  unfolding revoke_all_user_sessions elem
  revoke_all-IsCleared user_id now later s k d l h mine = cc (
      revoke_keys-IsCleared user_id (scan s refresh_prefix now) now (s, 0)
        (λ j e here _. covers s refresh_prefix j now here) k d
        (expires _ (refresh_prefix ++ k) now later l h) mine)

  other_key :
      (s : Store) (key k : Text) (persisted : Bool) (user_id session_id token : Text)
      (now later : ℕ)
      → refresh_key sha256 server token ≢ k
      → get (store_refresh_token sha256 server token user_id session_id persisted now s) k later
        ≡ get s k later
  unfolding store_refresh_token
  other_key s key k false user_id session_id token now later h = refl
  other_key s key k true user_id session_id token now later h =
      get-setex s (refresh_key sha256 server token) k _ _ now later
      ∙ rw (unequal (refresh_key sha256 server token) k h) refl

  -- Redis keeps a token that has been rotated, marked as used, for a minute.
  marked :
      (s : Store) (key : Text) (d : Stored) (now later : ℕ)
      → later < now + reuse_window
      → get (setex s key reuse_window d now) key later ≡ some d
  marked s key d now later l =
      get-setex s key key reuse_window d now later
      ∙ rw (text_eq_refl key, lt→ltb later (now + reuse_window) l) refl

  -- A refresh token that is in Redis and has not been used can be rotated. If it comes again within a
  -- minute, the second rotation fails, and from then on no token of its user is left in Redis, the
  -- new one included. The condition on the new token is that its digest is another one.
  pub rotate_refresh_token-reuse :
      (ttl : ℕ) (token : Text) (f f' : Fresh) (now later : ℕ) (s : Store) (d : Stored)
      → get s (refresh_key sha256 server token) now ≡ some d
      → d.used ≡ false
      → refresh_key sha256 server f.refresh_token ≢ refresh_key sha256 server token
      → later < now + reuse_window
      → let (s1, first) = rotate_refresh_token sha256 server ttl token f now s in
        let (s2, second) = rotate_refresh_token sha256 server ttl token f' later s1 in
        (first
          ≡ rotated (record {
            access_token = f.access_token;
            refresh_token = f.refresh_token;
            expires_in = ttl;
          }))
        × (second ≡ failed token_reuse)
        × ((t : Text) (e : Stored) (after : ℕ)
            → later ≤ after
            → get s2 (refresh_key sha256 server t) after ≡ some e
            → e.user_id ≢ d.user_id)
  unfolding rotate_refresh_token rotate_found create_token_pair
  rotate_refresh_token-reuse ttl token f f' now later s d found unused other l =
      let key = refresh_key sha256 server token in
      let used : Stored = record d { used = true } in
      let s1 =
        store_refresh_token sha256 server f.refresh_token d.user_id d.session_id f.persisted now
          (setex s key reuse_window used now) in
      let again : get s1 key later ≡ some used =
        other_key (setex s key reuse_window used now) key key f.persisted d.user_id d.session_id
          f.refresh_token now later other
        ∙ marked s key used now later l in
      rw (found, unused, again)
        (
          refl,
          refl,
          λ t e after le here. revoke_all-IsCleared d.user_id later after s1 (sha256 t) e le here,
        )
