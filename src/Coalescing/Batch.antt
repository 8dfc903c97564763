-- ===== src/Coalescing/Batch.antt =====
-- `CoalescedBatchExecutor` of request_coalescing.py: items that are processed together, when a batch is
-- full or when the timer has run out. The lock is held while a batch is processed, so that a `submit`
-- and a call of the timer are each one step of the executor.
pub mod Order
pub mod Delivery
pub mod Interruption
use costpilot.Prelude.{
  ℕ, ◌+◌, ◌<◌, ◌≤◌, ◌≡◌, ◌⊎◌, ◌∙◌, Bool, true, false, List, [], ◌∷◌, ◌++◌, length, map, take, drop,
  leb, if◌then◌else◌, ◌==◌,
}
use costpilot.Text.{Text}
use costpilot.Futures.{Heap, waiting, result, exception, create_future, settle}

-- What the batch processor does with the items: it returns results, raises an `Exception` with its
-- text, or ends with what is no `Exception`, as a `CancelledError`.
pub data Processed (V : Type 0) : Type 0 where
  results : List V → Processed V
  failed : Text → Processed V
  interrupted : Processed V

-- `_timer`: None, a task that sleeps or waits for the lock, or a task that has ended and was left there.
pub data Timer : Type 0 where
  no_timer sleeping ended : Timer

pub record Executor (V : Type 0) : Type 0 where
  pub batch_size : ℕ
  pub pending : List (Text × ℕ)
  pub timer : Timer
  pub futures : Heap V

-- A submission, or the end of the timer's sleep, each with the processor as it then is.
pub data Event (V : Type 0) : Type 0 where
  submitted : Text → (List Text → Processed V) → Event V
  fired : (List Text → Processed V) → Event V

abbrev pub items : List (Text × ℕ) → List Text
items = map (λ p. p.0)

-- `elif self._timer is None`: a timer is started
abbrev pub started : Timer → Timer
started no_timer = sleeping
started t = t

abbrev pub holders : List (Text × ℕ) → List ℕ
holders = map (λ p. p.1)

module _ {V : Type 0} where
  unfoldable pub init : ℕ → Executor V
  init batch_size = record {
    batch_size = batch_size;
    pending = [];
    timer = no_timer;
    futures = record { fresh = 0; at = λ _. waiting };
  }

  -- `for future, result in zip(futures, results)`
  unfoldable pub distribute : List ℕ → List V → Heap V → Heap V
  distribute [] vs h = h
  distribute (f ∷ fs) [] h = h
  distribute (f ∷ fs) (v ∷ vs) h = distribute fs vs (settle f (result v) h)

  unfoldable pub fail_all : List ℕ → Text → Heap V → Heap V
  fail_all [] e h = h
  fail_all (f ∷ fs) e h = fail_all fs e (settle f (exception e) h)

  unfoldable pub resolve : List ℕ → Processed V → Heap V → Heap V
  unfolding distribute fail_all
  resolve fs (results vs) h = distribute fs vs h
  resolve fs (failed e) h = fail_all fs e h
  resolve fs interrupted h = h

  process : List (Text × ℕ) → (List Text → Processed V) → Executor V → Executor V × List (List Text)
  unfolding resolve
  process [] processor s = (s, [])
  process (p ∷ ps) processor s =
      let batch = take s.batch_size (p ∷ ps) in
      (
        record s {
          pending = drop s.batch_size (p ∷ ps);
          futures = resolve (holders batch) (processor (items batch)) s.futures;
        },
        items batch ∷ [],
      )

  -- the new executor, and the batches that the processor was called with
  unfoldable pub process_batch :
      (List Text → Processed V) → Executor V → Executor V × List (List Text)
  unfolding process
  process_batch processor s = process s.pending processor s

  -- the future is `s.futures.fresh`
  unfoldable pub submit :
      Text → (List Text → Processed V) → Executor V → Executor V × List (List Text)
  unfolding process_batch
  submit item processor s =
      let s' = record s {
        pending = s.pending ++ (item, s.futures.fresh) ∷ [];
        futures = create_future s.futures;
      } in
      if leb s'.batch_size (length s'.pending)
      then process_batch processor s'
      else (record s' { timer = started s'.timer }, [])

  is_interrupted : Processed V → Bool
  is_interrupted interrupted = true
  is_interrupted _ = false

  -- `_process_batch` ends with what the processor ends with, where that is no `Exception`.
  unfoldable pub cut_short : List (Text × ℕ) → ℕ → (List Text → Processed V) → Bool
  unfolding is_interrupted
  cut_short [] size processor = false
  cut_short (p ∷ ps) size processor = is_interrupted (processor (items (take size (p ∷ ps))))

  -- `_timer = None` is not reached where the batch was cut short.
  timer_ends : Bool → Executor V × List (List Text) → Executor V × List (List Text)
  timer_ends true (s, batches) = (record s { timer = ended }, batches)
  timer_ends false (s, batches) = (record s { timer = no_timer }, batches)

  -- `_timer_callback` once it has the lock
  unfoldable pub timer_callback :
      (List Text → Processed V) → Executor V → Executor V × List (List Text)
  unfolding process_batch timer_ends cut_short
  timer_callback processor s =
      timer_ends (cut_short s.pending s.batch_size processor) (process_batch processor s)

  -- There is at most one timer that sleeps; where there is none, none fires.
  unfoldable pub fire :
      Timer → (List Text → Processed V) → Executor V → Executor V × List (List Text)
  unfolding timer_callback
  fire sleeping processor s = timer_callback processor s
  fire _ processor s = (s, [])

  unfoldable pub step : Executor V → Event V → Executor V × List (List Text)
  unfolding submit fire
  step s (submitted item processor) = submit item processor s
  step s (fired processor) = fire s.timer processor s

  unfoldable pub run : Executor V → List (Event V) → Executor V × List (List Text)
  unfolding step
  run s [] = (s, [])
  run s (e ∷ es) =
      let (s', batches) = step s e in let (end, more) = run s' es in (end, batches ++ more)
