-- ===== src/Futures.antt =====
-- What the program relies on of asyncio's futures: a future is done once, with a result, an exception
-- or a cancellation, and whoever awaits it sees that. Futures are the addresses of a heap.
use costpilot.Prelude.{
  ℕ, ◌+◌, ◌<◌, ◌≡◌, Bool, true, false, if◌then◌else◌, ◌==◌, arith, number_of_python, refl,
}
use costpilot.Text.{Text}

pub data Future (V : Type 0) : Type 0 where
  waiting : Future V
  result : V → Future V
  exception : Text → Future V
  cancelled : Future V

-- the futures that exist are those below `fresh`
pub record Heap (V : Type 0) : Type 0 where
  pub fresh : ℕ
  pub at : ℕ → Future V

module _ {V : Type 0} where
  -- `future.done()`
  abbrev pub is_done : Future V → Bool
  is_done waiting = false
  is_done (result v) = true
  is_done (exception e) = true
  is_done cancelled = true

  abbrev write : ℕ → Future V → (ℕ → Future V) → ℕ → Future V
  write f x at g = if f == g then x else at g

  -- `loop.create_future()` gives the future `h.fresh`
  unfoldable pub create_future : Heap V → Heap V
  create_future h = record { fresh = h.fresh + 1; at = write h.fresh waiting h.at }

  -- `if not future.done(): future.set_...(x)`, and `future.cancel()`, which leaves a done future alone
  unfoldable pub settle : ℕ → Future V → Heap V → Heap V
  settle f x h = if is_done (h.at f) then h else record h { at = write f x h.at }

  pub settle-at :
      (f g : ℕ) (x : Future V) (h : Heap V)
      → (settle f x h).at g ≡ (if f == g then (if is_done (h.at f) then h.at f else x) else h.at g)
  unfolding settle
  settle-at f g x h = ground (arith, number_of_python.same_iff f g)

  -- What is done stays as it is.
  pub settle_done :
      (f g : ℕ) (x : Future V) (h : Heap V) → is_done (h.at g) ≡ true → (settle f x h).at g ≡ h.at g
  settle_done f g x h d = ground (arith, settle-at f g x h, number_of_python.same_iff f g)

  pub create_future_old : (g : ℕ) (h : Heap V) → g < h.fresh → (create_future h).at g ≡ h.at g
  unfolding create_future
  create_future_old g h l = ground arith

  pub settle-fresh : (f : ℕ) (x : Future V) (h : Heap V) → (settle f x h).fresh ≡ h.fresh
  unfolding settle
  settle-fresh f x h = ground arith

  pub create_future-fresh : (h : Heap V) → (create_future h).fresh ≡ h.fresh + 1
  unfolding create_future
  create_future-fresh h = refl
