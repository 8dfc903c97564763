-- ===== src/RateLimit/Cleanup.antt =====
-- What the cleanup of the in-memory limiter leaves: a dict, in which every window of at most an hour
-- is as it was.
use costpilot.Prelude.{
  ℕ, ◌*◌, ◌≤◌, ◌≡◌, refl, sym, true, false, List, [], ◌∷◌, if◌then◌else◌, select, arith, Bool-cases,
  inl, inr, ◌==◌,
}
use costpilot.Text.{Text}
use costpilot.Text.Laws.{text_instance, text_eq_iff}
use costpilot.Dict
use costpilot.Dict.{IsDict}
use costpilot.RateLimit.{
  RateLimitTier, public, authenticated, expensive, export, webhook, tier_window, within, second,
  stored, cleanup_entries, keep_entry,
}

pub tier_window_hour : (tier : RateLimitTier) → tier_window tier ≤ 3600
unfolding tier_window
tier_window_hour public = omega arith
tier_window_hour authenticated = omega arith
tier_window_hour expensive = omega arith
tier_window_hour export = omega arith
tier_window_hour webhook = omega arith

-- what an earlier, wider filter drops, a later, narrower one drops too
pub select-within :
    (w v now later : ℕ) (ts : List ℕ)
    → w ≤ v
    → now ≤ later
    → select (within w later) (select (within v now) ts) ≡ select (within w later) ts
select-within w v now later [] h k = refl
select-within w v now later (t ∷ ts) h k = ground (arith, select-within w v now later ts h k)

stored_absent : (k : Text) (d : List (Text × List ℕ)) → Dict.contains k d ≡ false → stored k d ≡ []
unfolding stored Dict.contains Dict.get
stored_absent k [] h = refl
stored_absent k ((j, ts) ∷ d) h = ground (arith, stored_absent k d)

stored_cons :
    (key j : Text) (ts : List ℕ) (d : List (Text × List ℕ))
    → stored key ((j, ts) ∷ d) ≡ (if j == key then ts else stored key d)
unfolding stored Dict.get
stored_cons key j ts d = ground arith

stored_kept :
    (key j : Text) (xs : List ℕ) (rest : List (Text × List ℕ))
    → ((j == key) ≡ true → stored key rest ≡ [])
    → stored key (keep_entry j xs rest) ≡ (if j == key then xs else stored key rest)
stored_kept key j [] rest h = elim (Bool-cases (j == key)) [
  | inl same ↦ rw same (h same)
  | inr other ↦ rw other
]
stored_kept key j (x ∷ xs) rest h = stored_cons key j (x ∷ xs) rest

contains_kept :
    (k j : Text) (xs : List ℕ) (rest : List (Text × List ℕ))
    → (j == k) ≡ false
    → Dict.contains k rest ≡ false
    → Dict.contains k (keep_entry j xs rest) ≡ false
unfolding Dict.contains
contains_kept k j [] rest n h = h
contains_kept k j (x ∷ xs) rest n h = rw n h

kept-IsDict :
    (j : Text) (xs : List ℕ) (rest : List (Text × List ℕ))
    → Dict.contains j rest ≡ false
    → IsDict rest
    → IsDict (keep_entry j xs rest)
kept-IsDict j [] rest h u = u
kept-IsDict j (x ∷ xs) rest h u = (h, u)

contains-cleanup :
    (k : Text) (now : ℕ) (d : List (Text × List ℕ))
    → Dict.contains k d ≡ false
    → Dict.contains k (cleanup_entries now d) ≡ false
unfolding cleanup_entries Dict.contains
contains-cleanup k now [] h = refl
contains-cleanup k now ((j, ts) ∷ d) h =
    contains_kept k j (select (within (3600 * second) now) ts) (cleanup_entries now d)
      (ground arith) (contains-cleanup k now d (ground arith))

pub cleanup-IsDict :
    (now : ℕ) (d : List (Text × List ℕ)) → IsDict d → IsDict (cleanup_entries now d)
unfolding cleanup_entries
cleanup-IsDict now [] h = h
cleanup-IsDict now ((j, ts) ∷ d) h =
    kept-IsDict j (select (within (3600 * second) now) ts) (cleanup_entries now d)
      (contains-cleanup j now d h.0) (cleanup-IsDict now d h.1)

pub stored-cleanup :
    (key : Text) (now w later : ℕ) (d : List (Text × List ℕ))
    → w ≤ 3600 * second
    → now ≤ later
    → IsDict d
    → select (within w later) (stored key (cleanup_entries now d))
      ≡ select (within w later) (stored key d)
unfolding cleanup_entries
stored-cleanup key now w later [] h k u = refl
stored-cleanup key now w later ((j, ts) ∷ d) h k u =
    let recent = select (within (3600 * second) now) ts in
    elim (Bool-cases (j == key)) [
      | inl same ↦
          let key_is_j : key ≡ j = sym ((text_eq_iff j key).0 same) in
          let gone : stored key (cleanup_entries now d) ≡ [] =
            rw key_is_j (stored_absent j (cleanup_entries now d) (contains-cleanup j now d u.0)) in
          rw
            (
              stored_kept key j recent (cleanup_entries now d) (λ _. gone),
              stored_cons key j ts d,
              same,
            )
            (select-within w (3600 * second) now later ts h k)
      | inr other ↦
          rw
            (
              stored_kept key j recent (cleanup_entries now d) (λ e. absurd (ground arith)),
              stored_cons key j ts d,
              other,
            )
            (stored-cleanup key now w later d h k u.1)
    ]
