-- ===== src/Auth/Rotation/Tests.antt =====
-- A server that keeps its entries in a list, and a refresh token that is used twice.
use costpilot.Prelude.{
  ℕ, ◌+◌, ◌*◌, ◌≤◌, ◌≡◌, ◌≢◌, refl, true, false, Option, none, some, List, [], ◌∷◌, ◌++◌, ltb,
  if◌then◌else◌, ◌==◌, arith,
}
use mathlib.Core.Bool.{false≢true}
use costpilot.Text.{Text, codes, text_eq, elem}
use costpilot.Text.Laws.{text_instance, text_eq_iff}
use costpilot.Auth.Rotation.{
  Stored, Scan, refresh_key, rotate_refresh_token, rotated, failed, token_reuse, Fresh, second,
}
use costpilot.Auth.Rotation.Reuse.{rotate_refresh_token-reuse}

abbrev Entries : Type 0
Entries = List (Text × Stored × ℕ)

live : Stored → ℕ → ℕ → Option Stored
live d expires now = if ltb now expires then some d else none

get : Entries → Text → ℕ → Option Stored
unfolding live
get [] k now = none
get ((j, d, expires) ∷ s) k now = if j == k then live d expires now else get s k now

setex : Entries → Text → ℕ → Stored → ℕ → Entries
setex s k ttl d now = (k, d, now + ttl) ∷ s

delete : Entries → Text → Entries
delete [] k = []
delete ((j, d, expires) ∷ s) k =
    let rest = delete s k in if j == k then rest else (j, d, expires) ∷ rest

get-setex :
    (s : Entries) (k j : Text) (ttl : ℕ) (d : Stored) (now later : ℕ)
    → get (setex s k ttl d now) j later
      ≡ (if k == j then (if ltb later (now + ttl) then some d else none) else get s j later)
unfolding get setex
get-setex s k j ttl d now later = refl

get-delete :
    (s : Entries) (k j : Text) (later : ℕ)
    → get (delete s k) j later ≡ (if k == j then none else get s j later)
unfolding get delete
get-delete [] k j later = ground arith
get-delete ((i, d, expires) ∷ s) k j later =
    ground (arith, text_eq_iff i k, text_eq_iff i j, text_eq_iff k j, get-delete s k j later)

names : Entries → Text → ℕ → List Text
names [] prefix now = []
names ((j, d, expires) ∷ s) prefix now = j ∷ names s prefix now

names-get :
    (s : Entries) (prefix k : Text) (now : ℕ) {d : Stored}
    → get s (prefix ++ k) now ≡ some d
    → elem (prefix ++ k) (names s prefix now) ≡ true
unfolding get names elem live
names-get [] prefix k now h = cc
names-get ((j, d, expires) ∷ s) prefix k now {d = e} h = ground (
  arith,
  text_eq_iff j (prefix ++ k),
  text_eq_iff (prefix ++ k) j,
  names-get s prefix k now {d = e},
)

get_later :
    (s : Entries) (k : Text) (now later : ℕ) {d : Stored}
    → now ≤ later
    → get s k later ≡ some d
    → get s k now ≡ some d
unfolding get live
get_later [] k now later l h = cc
get_later ((j, d, expires) ∷ s) k now later {d = e} l h =
    ground (arith, get_later s k now later {d = e})

abbrev entries : Scan
entries = record {
  redis = record {
    Store = Entries;
    get = get;
    setex = setex;
    delete = delete;
    get-setex = get-setex;
    get-delete = get-delete;
  };
  scan = names;
  covers = names-get;
  expires = get_later;
}

abbrev plain : Text → Text
plain s = s

abbrev stolen : Stored
stolen = record { user_id = codes "7"; session_id = codes "s"; created_at = 0; used = false }

abbrev issued : Entries
issued = setex [] (refresh_key plain entries (codes "t0")) (1_000 * second) stolen 0

abbrev fresh : Fresh
fresh = record { access_token = codes "a"; refresh_token = codes "t1"; persisted = true }

rotate_refresh_token-reuse_example :
    let (s1, first) =
      rotate_refresh_token plain entries 900 (codes "t0") fresh (5 * second) issued in
    let (s2, twice) = rotate_refresh_token plain entries 900 (codes "t0") fresh (9 * second) s1 in
    (first
      ≡ rotated (record { access_token = codes "a"; refresh_token = codes "t1"; expires_in = 900 }))
    × (twice ≡ failed token_reuse)
    × ((t : Text) (e : Stored) (after : ℕ)
        → 9 * second ≤ after
        → get s2 (refresh_key plain entries t) after ≡ some e
        → e.user_id ≢ codes "7")
unfolding get setex text_eq
rotate_refresh_token-reuse_example =
    rotate_refresh_token-reuse plain entries 900 (codes "t0") fresh fresh (5 * second) (9 * second)
      issued stolen refl refl
      (λ h. false≢true (
        (text_eq_iff (refresh_key plain entries (codes "t1"))
            (refresh_key plain entries (codes "t0"))).1
          h))
      (omega arith)
