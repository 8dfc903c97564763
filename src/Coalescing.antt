-- ===== src/Coalescing.antt =====
-- Request coalescing of backend/app/shared/request_coalescing.py: `RequestCoalescer`, whose callers
-- share one future for each request in flight, and the tasks that it starts. Between two awaits a
-- coroutine runs alone, so that each event below is what one coroutine does from one await to the next.
pub mod Flights
pub mod Outcomes
pub mod Batch
mod Tests
use costpilot.Prelude.{
  ℕ, ◌+◌, ◌-◌, suc, zero, Option, none, some, List, [], ◌∷◌, ◌++◌, length, map, ◌*◌,
}
use costpilot.Text.{Text, codes}
use costpilot.Text.Laws.{text_instance}
use costpilot.Dict
use costpilot.Futures.{Future, waiting, result, exception, cancelled, Heap, create_future, settle}

-- `future` is the future's place on the heap.
pub record PendingRequest : Type 0 where
  pub future : ℕ
  pub waiters : ℕ
  pub started_at : ℕ

-- Where the task that runs `_execute` for a key stands: it has not begun, it awaits the function and
-- holds the future of its request, or it waits for the lock of its last step.
pub data Stage : Type 0 where
  created : Stage
  calling : ℕ → Stage
  cleaning : Stage

pub record Coalescer (V : Type 0) : Type 0 where
  pub max_wait : ℕ
  pub pending : List (Text × PendingRequest)
  pub tasks : List (Text × Stage)
  pub futures : Heap V

-- What the awaited function does: it returns, it raises an Exception, or it raises what is none, such
-- as the CancelledError of a future that it awaits.
pub data Called (V : Type 0) : Type 0 where
  returned : V → Called V
  raised : Text → Called V
  interrupted : Called V

pub data Event (V : Type 0) : Type 0 where
  -- a caller comes with a key at a time
  call : Text → ℕ → Event V
  -- the task at a place begins, its function ends, it cleans up
  begin : ℕ → Event V
  end : ℕ → Called V → Event V
  clean : ℕ → Event V
  -- the timeout of a caller that waits for a future, or its own cancellation
  give_up : ℕ → Event V

-- `_make_key`: the texts are those of `json.dumps`
unfoldable pub make_key : (Text → Text) → Text → Text → Text → Text
make_key sha256 prefix args kwargs = sha256 (prefix ++ codes ":" ++ args ++ codes ":" ++ kwargs)

module _ {ℓ} {A : Type ℓ} where
  unfoldable pub get_elem? : List A → ℕ → Option A
  get_elem? [] i = none
  get_elem? (x ∷ xs) zero = some x
  get_elem? (x ∷ xs) (suc i) = get_elem? xs i

  unfoldable pub set : List A → ℕ → A → List A
  set [] i v = []
  set (x ∷ xs) zero v = v ∷ xs
  set (x ∷ xs) (suc i) v = x ∷ set xs i v

  unfoldable pub remove : List A → ℕ → List A
  remove [] i = []
  remove (x ∷ xs) zero = xs
  remove (x ∷ xs) (suc i) = x ∷ remove xs i

pub record RequestStats : Type 0 where
  pub waiters : ℕ
  pub started_at : ℕ
  pub age : ℕ

abbrev request_stats : ℕ → Text × PendingRequest → RequestStats
request_stats now (key, p) = record {
  waiters = p.waiters;
  started_at = p.started_at;
  age = now - p.started_at;
}

module _ {V : Type 0} where
  unfoldable pub init : ℕ → Coalescer V
  init max_wait = record {
    max_wait = max_wait;
    pending = [];
    tasks = [];
    futures = record { fresh = 0; at = λ _. waiting };
  }

  -- the locked part of `coalesce`, and the future that the caller then awaits
  join : Text → ℕ → Option PendingRequest → Coalescer V → Coalescer V × ℕ
  join key now (some p) s = (
    record s { pending = Dict.set key (record p { waiters = p.waiters + 1 }) s.pending },
    p.future,
  )
  join key now none s =
      let p : PendingRequest = record { future = s.futures.fresh; waiters = 1; started_at = now } in
      (
        record s {
          pending = Dict.set key p s.pending;
          tasks = s.tasks ++ (key, created) ∷ [];
          futures = create_future s.futures;
        },
        p.future,
      )

  unfoldable pub coalesce : Text → ℕ → Coalescer V → Coalescer V × ℕ
  unfolding join
  coalesce key now s = join key now (Dict.get key s.pending) s

  -- What a caller gets once its future is done: `asyncio.wait_for` passes it on.
  abbrev pub answer : ℕ → Coalescer V → Future V
  answer f s = s.futures.at f

  -- `_execute` up to its call of the function: it ends at once where its request is gone
  begin_task : ℕ → Text → Option PendingRequest → Coalescer V → Coalescer V
  begin_task i key none s = record s { tasks = remove s.tasks i }
  begin_task i key (some p) s = record s { tasks = set s.tasks i (key, calling p.future) }

  begin_at : ℕ → Option (Text × Stage) → Coalescer V → Coalescer V
  unfolding begin_task
  begin_at i (some (key, created)) s = begin_task i key (Dict.get key s.pending) s
  begin_at i _ s = s

  -- the future's part in what the function did; only an Exception is caught
  abbrev pub settle_called : ℕ → Called V → Heap V → Heap V
  settle_called f (returned v) h = settle f (result v) h
  settle_called f (raised e) h = settle f (exception e) h
  settle_called f interrupted h = h

  end_at : ℕ → Option (Text × Stage) → Called V → Coalescer V → Coalescer V
  end_at i (some (key, calling f)) c s = record s {
    tasks = set s.tasks i (key, cleaning);
    futures = settle_called f c s.futures;
  }
  end_at i _ c s = s

  -- `self._pending.pop(request_key, None)`
  clean_at : ℕ → Option (Text × Stage) → Coalescer V → Coalescer V
  clean_at i (some (key, cleaning)) s = record s {
    pending = Dict.delete key s.pending;
    tasks = remove s.tasks i;
  }
  clean_at i _ s = s

  -- An event of a task that is not there, or not at that stage, changes nothing. A caller that gives
  -- up cancels the future that it awaits: this is what `asyncio.wait_for` does at its timeout.
  unfoldable pub step : Coalescer V → Event V → Coalescer V
  unfolding begin_at end_at clean_at
  step s (call key now) = (coalesce key now s).0
  step s (begin i) = begin_at i (get_elem? s.tasks i) s
  step s (end i c) = end_at i (get_elem? s.tasks i) c s
  step s (clean i) = clean_at i (get_elem? s.tasks i) s
  step s (give_up f) = record s { futures = settle f cancelled s.futures }

  unfoldable pub run : Coalescer V → List (Event V) → Coalescer V
  unfolding step
  run s [] = s
  run s (e ∷ es) = run (step s e) es

  unfoldable pub get_stats : ℕ → Coalescer V → ℕ × List RequestStats
  get_stats now s = (length s.pending, map (request_stats now) s.pending)

  -- `get_coalescer` with the registry of coalescers by prefix
  coalescer_for :
      Option (Coalescer V)
      → Text
      → ℕ
      → List (Text × Coalescer V)
      → List (Text × Coalescer V) × Coalescer V
  coalescer_for (some s) prefix max_wait registry = (registry, s)
  coalescer_for none prefix max_wait registry =
      (Dict.set prefix (init max_wait) registry, init max_wait)

  unfoldable pub get_coalescer :
      Text → ℕ → List (Text × Coalescer V) → List (Text × Coalescer V) × Coalescer V
  unfolding coalescer_for init
  get_coalescer prefix max_wait registry =
      coalescer_for (Dict.get prefix registry) prefix max_wait registry

-- The coalescers that the program shares, with their timeouts in seconds and the prefixes that the
-- functions `coalesce_...` pass on.
pub data Shared : Type 0 where
  cloud_costs azure_costs resource_discovery recommendations : Shared
  bigquery_costs redshift_costs athena_costs synapse_costs : Shared

unfoldable pub shared_wait : Shared → ℕ
shared_wait cloud_costs = 45
shared_wait azure_costs = 60
shared_wait resource_discovery = 60
shared_wait recommendations = 45
shared_wait bigquery_costs = 60
shared_wait redshift_costs = 60
shared_wait athena_costs = 60
shared_wait synapse_costs = 60

unfoldable pub shared_prefix : Shared → Text
shared_prefix cloud_costs = codes "cloud_costs"
shared_prefix azure_costs = codes "azure_costs"
shared_prefix resource_discovery = codes "resource_discovery"
shared_prefix recommendations = codes "recommendations"
shared_prefix bigquery_costs = codes "bigquery_costs"
shared_prefix redshift_costs = codes "redshift_costs"
shared_prefix athena_costs = codes "athena_costs"
shared_prefix synapse_costs = codes "synapse_costs"

unfoldable pub coalesce_shared :
    {V : Type 0} → (Text → Text) → Shared → Text → Text → ℕ → Coalescer V → Coalescer V × ℕ
unfolding shared_prefix
coalesce_shared sha256 which args kwargs now s =
    coalesce (make_key sha256 (shared_prefix which) args kwargs) now s
