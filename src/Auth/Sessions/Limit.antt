-- ===== src/Auth/Sessions/Limit.antt =====
-- The limit on a user's concurrent sessions in `create_session_binding`.
use costpilot.Prelude.{
  ℕ, ◌+◌, ◌*◌, ◌≤◌, ◌<◌, ◌≡◌, refl, ◌∙◌, Bool, true, false, ◌&&◌, List, [], ◌∷◌, ◌++◌, ltb, leb,
  if◌then◌else◌, select, update_where, length, length-append, select-append, ◌==◌, arith, All, any,
  ap, Bool-cases, inl, inr, lt→ltb, leb→le, le→leb, subst,
}
use costpilot.Text.{Text}
use costpilot.Text.Laws.{text_instance, text_eq_iff, text_eq_refl}
use costpilot.Auth.{minute}
use costpilot.Auth.Sessions.{
  SessionBinding, max_concurrent, is_active, oldest, revoked, create_row, new_row, evict,
}

-- A row with the identifier is in the table.
abbrev pub known : Text → List SessionBinding → Bool
known id = any (λ s. s.session_id == id)

-- The column `session_id` is unique.
abbrev pub UniqueIds : List SessionBinding → Type 0
UniqueIds [] = Unit
UniqueIds (s ∷ ss) = (known s.session_id ss ≡ false) × UniqueIds ss

-- A session that is the user's, has not expired and is not revoked.
abbrev has_active : Text → ℕ → Text → List SessionBinding → Bool
has_active user now id = any (λ s. (s.session_id == id) && is_active user now s)

oldest_All {κ} :
    (P : SessionBinding → Type κ) (m : SessionBinding) (ss : List SessionBinding)
    → P m
    → All P ss
    → P (oldest m ss)
unfolding oldest
oldest_All P m [] p h = p
oldest_All P m (s ∷ ss) p h = elim (Bool-cases (ltb s.created_at m.created_at)) [
  | inl older ↦ rw older (oldest_All P s ss h.0 h.1)
  | inr newer ↦ rw newer (oldest_All P m ss p h.1)
]

-- no session of the list was created before this one
abbrev pub NoneOlder : SessionBinding → List SessionBinding → Type 0
NoneOlder o = All (λ s. o.created_at ≤ s.created_at)

older_first : (b : Bool) (s m : SessionBinding) → b ≡ true → s ≡ (if b then s else m)
older_first b s m e = rw e

newer_first : (b : Bool) (s m : SessionBinding) → b ≡ false → m ≡ (if b then s else m)
newer_first b s m e = rw e

oldest-NoneOlder :
    (m : SessionBinding) (ss : List SessionBinding) → NoneOlder (oldest m ss) (m ∷ ss)
unfolding oldest
oldest-NoneOlder m [] = (omega arith, tt)
oldest-NoneOlder m (s ∷ ss) = elim (Bool-cases (ltb s.created_at m.created_at)) [
  | inl older ↦
      subst (λ x. NoneOlder (oldest x ss) (m ∷ s ∷ ss))
        (older_first (ltb s.created_at m.created_at) s m older)
        (let (a, b) = oldest-NoneOlder s ss in (ground arith, (a, b)))
  | inr newer ↦
      subst (λ x. NoneOlder (oldest x ss) (m ∷ s ∷ ss))
        (newer_first (ltb s.created_at m.created_at) s m newer)
        (let (a, b) = oldest-NoneOlder m ss in (a, (ground arith, b)))
]

All-weaken :
    (user : Text) (now : ℕ) (x : SessionBinding) (xs ys : List SessionBinding)
    → All (λ s. has_active user now s.session_id xs ≡ true) ys
    → All (λ s. has_active user now s.session_id (x ∷ xs) ≡ true) ys
All-weaken user now x xs [] h = tt
All-weaken user now x xs (y ∷ ys) h = (ground (arith, h.0), All-weaken user now x xs ys h.1)

All-if {κ} :
    (b : Bool) (P : SessionBinding → Type κ) (x : SessionBinding) (rest : List SessionBinding)
    → (b ≡ true → P x)
    → All P rest
    → All P (if b then x ∷ rest else rest)
All-if true P x rest p h = (p refl, h)
All-if false P x rest p h = h

select-has_active :
    (user : Text) (now : ℕ) (xs : List SessionBinding)
    → All (λ s. has_active user now s.session_id xs ≡ true) (select (is_active user now) xs)
select-has_active user now [] = tt
select-has_active user now (x ∷ xs) =
    All-if (is_active user now x) (λ s. has_active user now s.session_id (x ∷ xs) ≡ true) x
      (select (is_active user now) xs) (λ active. ground (arith, text_eq_refl x.session_id))
      (All-weaken user now x xs (select (is_active user now) xs) (select-has_active user now xs))

unknown_inactive :
    (user : Text) (now : ℕ) (id : Text) (xs : List SessionBinding)
    → known id xs ≡ false
    → has_active user now id xs ≡ false
unknown_inactive user now id [] h = refl
unknown_inactive user now id (x ∷ xs) h = ground (arith, unknown_inactive user now id xs)

revoke_unknown :
    (t : ℕ) (id : Text) (xs : List SessionBinding)
    → known id xs ≡ false
    → update_where (λ s. s.session_id == id) (revoked t) xs ≡ xs
revoke_unknown t id [] h = refl
revoke_unknown t id (x ∷ xs) h = ground (arith, revoke_unknown t id xs)

-- to revoke one active session takes one from the active ones
length-revoke :
    (user : Text) (now t : ℕ) (id : Text) (xs : List SessionBinding)
    → UniqueIds xs
    → has_active user now id xs ≡ true
    → length (select (is_active user now) (update_where (λ s. s.session_id == id) (revoked t) xs))
        + 1
      ≡ length (select (is_active user now) xs)
length-revoke user now t id [] u h = cc
length-revoke user now t id (x ∷ xs) u h = elim (Bool-cases (x.session_id == id)) [
  | inl same ↦
      let e : known id xs ≡ false = rw ((text_eq_iff x.session_id id).0 same) at u.0 in
      let inactive = unknown_inactive user now id xs e in ground (arith, revoke_unknown t id xs e)
  | inr other ↦ ground (arith, length-revoke user now t id xs u.1)
]

evict-active :
    (user : Text) (now : ℕ) (active table : List SessionBinding)
    → UniqueIds table
    → select (is_active user now) table ≡ active
    → max_concurrent ≤ length active
    → length (select (is_active user now) (evict now active table)) + 1 ≡ length active
unfolding evict
evict-active user now [] table u h five = absurd (omega arith)
evict-active user now (m ∷ ss) table u h five =
    let all : All (λ s. has_active user now s.session_id table ≡ true) (m ∷ ss) =
      rw h at (select-has_active user now table) in
    length-revoke user now now (oldest m ss).session_id table u
      (oldest_All (λ s. has_active user now s.session_id table ≡ true) m ss all.0 all.1)
    ∙ ap length h

new_row_active :
    (minutes : ℕ) (user session_id : Text) (now : ℕ) (kept : List SessionBinding)
    → 0 < minutes
    → length (select (is_active user now) (kept ++ new_row minutes user session_id now ∷ []))
      ≡ length (select (is_active user now) kept) + 1
new_row_active minutes user session_id now kept h =
    rw
      (
        select-append (is_active user now) kept (new_row minutes user session_id now ∷ []),
        text_eq_refl user,
        lt→ltb now (now + minutes * minute) (grind arith),
      )
      (length-append (select (is_active user now) kept) (new_row minutes user session_id now ∷ []))

-- Where no two rows have one session identifier and a session lasts longer than no time: a new
-- session leaves its user with one active session more, while there are fewer than five, and from
-- five on with as many as before.
pub create_row-active :
    (minutes : ℕ) (user session_id : Text) (now : ℕ) (table : List SessionBinding)
    → UniqueIds table
    → 0 < minutes
    → let active = λ (t : List SessionBinding). length (select (is_active user now) t) in
      active (create_row minutes user session_id now table)
      ≡ (if leb max_concurrent (active table) then active table else active table + 1)
unfolding create_row
create_row-active minutes user session_id now table u h =
    let active = select (is_active user now) table in
    elim (Bool-cases (leb max_concurrent (length active))) [
      | inl full ↦
          rw (full, create_row)
            (new_row_active minutes user session_id now (evict now active table) h
              ∙ evict-active user now active table u refl
                  (leb→le max_concurrent (length active) full))
      | inr room ↦ rw (room, create_row) (new_row_active minutes user session_id now table h)
    ]

-- A user with five or more active sessions loses the one that `oldest` picks, than which none is
-- older: its row is marked as revoked, every other row stays, and the new one is added.
pub create_row-oldest :
    (minutes : ℕ) (user session_id : Text) (now : ℕ) (m : SessionBinding)
    (ss table : List SessionBinding)
    → select (is_active user now) table ≡ m ∷ ss
    → max_concurrent ≤ length (m ∷ ss)
    → (create_row minutes user session_id now table
        ≡ update_where (λ s. s.session_id == (oldest m ss).session_id) (revoked now) table
          ++ new_row minutes user session_id now ∷ [])
      × NoneOlder (oldest m ss) (select (is_active user now) table)
unfolding create_row evict
create_row-oldest minutes user session_id now m ss table h full =
    (rw (h, le→leb max_concurrent (length (m ∷ ss)) full), rw h (oldest-NoneOlder m ss))
