-- ===== src/Redis.antt =====
-- What the program relies on of a Redis server: keys with values that expire, behind their laws. The
-- server is not part of the repository, so its clients take it as a parameter; `Memory` meets the laws.
pub mod Memory
use costpilot.Prelude.{ℕ, ◌+◌, ◌≡◌, Option, none, some, ltb, if◌then◌else◌, ◌==◌}
use costpilot.Text.{Text}
use costpilot.Text.Laws.{text_instance}

-- `get` and `setex` take the time of the call; a time to live is in the unit of the clock.
pub record Redis (V : Type 0) : Type 1 where
  pub Store : Type 0
  pub get : Store → Text → ℕ → Option V
  pub setex : Store → Text → ℕ → V → ℕ → Store
  pub delete : Store → Text → Store
  pub get-setex :
      (s : Store) (k j : Text) (ttl : ℕ) (v : V) (now later : ℕ)
      → get (setex s k ttl v now) j later
        ≡ (if k == j then (if ltb later (now + ttl) then some v else none) else get s j later)
  pub get-delete :
      (s : Store) (k j : Text) (later : ℕ)
      → get (delete s k) j later ≡ (if k == j then none else get s j later)
