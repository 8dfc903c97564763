-- ===== src/Database.antt =====
-- `get_db` of backend/app/database.py: the session that FastAPI hands to a request's handler. What
-- the handler has flushed is kept only if it returns; if it raises, it is rolled back.
-- `async_session()`: a session of one's own, whose work is kept only if it is committed.
use costpilot.Prelude.{Result, ok, raise}

abbrev settle {ℓ κ} : {S : Type ℓ} {A : Type κ} → S → S × Result A → S × Result A
settle before (after, ok a) = (after, ok a)
settle before (after, raise e) = (before, raise e)

-- A handler gives the tables as it has flushed them, and its result.
unfoldable pub get_db {ℓ κ} : {S : Type ℓ} {A : Type κ} → (S → S × Result A) → S → S × Result A
get_db handler before = settle before (handler before)

-- The rows that are committed, and those that the session sees.
pub record Session {ℓ} (S : Type ℓ) : Type ℓ where
  pub committed : S
  pub flushed : S

unfoldable pub begin {ℓ} : {S : Type ℓ} → S → Session S
begin rows = record { committed = rows; flushed = rows }

-- `db.add(...)` or a change to a row, and `await db.flush()`
unfoldable pub flush {ℓ} : {S : Type ℓ} → S → Session S → Session S
flush rows db = record db { flushed = rows }

-- the end of the `async with` block: what no `commit` has kept is rolled back
unfoldable pub close {ℓ} : {S : Type ℓ} → Session S → S
close db = db.committed

-- `async with async_session() as db:` around a body with a result
unfoldable pub async_session {ℓ κ} :
    {S : Type ℓ} {A : Type κ} → (Session S → Session S × A) → S → S × A
unfolding begin close
async_session body rows = let (db, a) = body (begin rows) in (close db, a)
