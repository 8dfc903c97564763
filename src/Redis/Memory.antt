-- ===== src/Redis/Memory.antt =====
-- A server that keeps everything in a function from keys.
use costpilot.Prelude.{ℕ, ◌+◌, ◌≡◌, Option, none, some, ltb, if◌then◌else◌, ◌==◌, arith}
use costpilot.Redis.{Redis}
use costpilot.Text.{Text}
use costpilot.Text.Laws.{text_instance}

abbrev pub Contents : Type 0 → Type 0
Contents V = Text → Option (V × ℕ)

module _ {V : Type 0} where
  abbrev pub live : Option (V × ℕ) → ℕ → Option V
  live none now = none
  live (some (v, expires)) now = if ltb now expires then some v else none

  abbrev pub get : Contents V → Text → ℕ → Option V
  get s k now = live (s k) now

  abbrev pub setex : Contents V → Text → ℕ → V → ℕ → Contents V
  setex s k ttl v now j = if k == j then some (v, now + ttl) else s j

  abbrev pub delete : Contents V → Text → Contents V
  delete s k j = if k == j then none else s j

  pub get-setex :
      (s : Contents V) (k j : Text) (ttl : ℕ) (v : V) (now later : ℕ)
      → get (setex s k ttl v now) j later
        ≡ (if k == j then (if ltb later (now + ttl) then some v else none) else get s j later)
  get-setex s k j ttl v now later = ground arith

  pub get-delete :
      (s : Contents V) (k j : Text) (later : ℕ)
      → get (delete s k) j later ≡ (if k == j then none else get s j later)
  get-delete s k j later = ground arith

abbrev pub memory : (V : Type 0) → Redis V
memory V = record {
  Store = Contents V;
  get = get;
  setex = setex;
  delete = delete;
  get-setex = get-setex;
  get-delete = get-delete;
}
