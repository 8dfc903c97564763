-- ===== src/Coalescing/Tests.antt =====
-- Runs of the coalescer and of the batch executor on small inputs, and the theorems at concrete ones.
use costpilot.Prelude.{ℕ, ◌≡◌, refl, true, List, [], ◌∷◌, length, All, arith}
use costpilot.Text.{Text, codes, text_eq}
use costpilot.Text.Laws.{text_instance}
use costpilot.Dict
use costpilot.Futures.{cancelled, create_future}
use costpilot.Coalescing.{
  PendingRequest, returned, Event, call, begin, end, clean, give_up, init, coalesce, step, run,
  answer, get_elem?, set,
}
use costpilot.Coalescing.Flights.{flights, run-flights}
use costpilot.Coalescing.Outcomes.{coalesce-give_up}
use costpilot.Coalescing.Batch
use costpilot.Coalescing.Batch.{Processed, results, submitted, fired, ended, holders}
use costpilot.Coalescing.Batch.Interruption.{IsFull, run-interrupted}
use costpilot.Coalescing.Batch.Delivery.{Done, timer_callback-Done}

abbrev costs : Text
costs = codes "costs"

-- two callers of one request, whose task is calling the function
abbrev overlapping : List (Event ℕ)
overlapping = call costs 5 ∷ begin 0 ∷ call costs 7 ∷ []

abbrev shared : PendingRequest
shared = record { future = 0; waiters = 2; started_at = 5 }

run-flights_example : flights costs (run (init {V = ℕ} 30) overlapping).tasks ≡ 1
unfolding run init coalesce Dict.get Dict.set Dict.contains get_elem? set text_eq create_future
run-flights_example = run-flights 30 overlapping costs

coalesce-give_up_example :
    ((coalesce costs 9 (step (run (init {V = ℕ} 30) overlapping) (give_up 0))).1 ≡ 0)
    × (answer 0 (
          run
            (step (run (init {V = ℕ} 30) overlapping) (give_up 0))
            (end 0 (returned 42) ∷ clean 0 ∷ []))
        ≡ cancelled)
unfolding run init coalesce Dict.get Dict.set Dict.contains get_elem? set text_eq create_future
coalesce-give_up_example =
    coalesce-give_up 30 9 overlapping (end 0 (returned 42) ∷ clean 0 ∷ []) costs shared refl refl

-- a processor that gives the length of each item
abbrev lengths : List Text → Processed ℕ
lengths batch = results (sizes batch)
  where
    sizes : List Text → List ℕ
    sizes [] = []
    sizes (t ∷ ts) = length t ∷ sizes ts

abbrev three : List (Batch.Event ℕ)
three =
    submitted (codes "a") lengths
    ∷ submitted (codes "bc") lengths
    ∷ submitted (codes "d") lengths
    ∷ []

timer_callback-Done_example :
    let s = (Batch.run (Batch.init 2) three).0 in
    ((Batch.timer_callback lengths s).0.pending ≡ [])
    × All (Done (Batch.timer_callback lengths s).0.futures) (holders s.pending)
unfolding Batch.run Batch.init
timer_callback-Done_example = timer_callback-Done 2 three lengths (omega arith) refl

-- a processor that is cancelled
abbrev cancelled_processor : List Text → Processed ℕ
cancelled_processor batch = Batch.interrupted

timer_on : (Batch.run (Batch.init 2) three).0.timer ≡ Batch.sleeping
unfolding Batch.run Batch.init Batch.submit Batch.process_batch Batch.distribute
timer_on = refl

item_waits :
    Batch.cut_short
      (Batch.run (Batch.init 2) three).0.pending
      (Batch.run (Batch.init 2) three).0.batch_size
      cancelled_processor
    ≡ true
unfolding Batch.run Batch.init Batch.submit Batch.process_batch Batch.distribute Batch.cut_short
item_waits = refl

run-interrupted_example :
    let after = (Batch.step (Batch.run (Batch.init 2) three).0 (fired cancelled_processor)).0 in
    ((Batch.run after three).0.timer ≡ ended) × All (IsFull 2) (Batch.run after three).1
run-interrupted_example =
    run-interrupted 2 three three cancelled_processor (omega arith) timer_on item_waits
