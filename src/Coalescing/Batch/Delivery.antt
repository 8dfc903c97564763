-- ===== src/Coalescing/Batch/Delivery.antt =====
-- Who submits an item to the batch executor is answered.
use costpilot.Prelude.{
  ℕ, ◌<◌, ◌≤◌, ◌≡◌, refl, sym, subst, ◌∙◌, Bool, true, false, List, [], ◌∷◌, length, take_all, All,
  arith, number_of_python, length-map,
}
use costpilot.Text.{Text}
use costpilot.Futures.{Future, Heap, result, exception, is_done, settle, settle-at, settle_done}
use costpilot.Coalescing.Batch.{
  Processed, results, failed, interrupted, Executor, Event, init, distribute, fail_all, resolve,
  items, holders, process, process_batch, timer_callback, timer_ends, cut_short, run,
}
use costpilot.Coalescing.Batch.Order.{run-Inv, emptied}

module _ {V : Type 0} where
  -- As many results as items, or an `Exception`.
  abbrev pub Answers : List Text → Processed V → Type 0
  Answers batch (results vs) = length vs ≡ length batch
  Answers batch (failed e) = Unit
  Answers batch interrupted = ⊥

  abbrev pub Done : Heap V → ℕ → Type 0
  Done h f = is_done (h.at f) ≡ true

  settle-Done : (f : ℕ) (x : Future V) (h : Heap V) → is_done x ≡ true → Done (settle f x h) f
  settle-Done f x h d = ground (arith, settle-at f f x h, number_of_python.same_iff f f)

  settle_kept : (f g : ℕ) (x : Future V) (h : Heap V) → Done h g → Done (settle f x h) g
  settle_kept f g x h d = rw (settle_done f g x h d) d

  distribute_kept :
      (fs : List ℕ) (vs : List V) (h : Heap V) (g : ℕ) → Done h g → Done (distribute fs vs h) g
  unfolding distribute
  distribute_kept [] vs h g d = d
  distribute_kept (f ∷ fs) [] h g d = d
  distribute_kept (f ∷ fs) (v ∷ vs) h g d =
      distribute_kept fs vs (settle f (result v) h) g (settle_kept f g (result v) h d)

  fail_all_kept :
      (fs : List ℕ) (e : Text) (h : Heap V) (g : ℕ) → Done h g → Done (fail_all fs e h) g
  unfolding fail_all
  fail_all_kept [] e h g d = d
  fail_all_kept (f ∷ fs) e h g d =
      fail_all_kept fs e (settle f (exception e) h) g (settle_kept f g (exception e) h d)

  distribute-Done :
      (fs : List ℕ) (vs : List V) (h : Heap V)
      → length vs ≡ length fs
      → All (Done (distribute fs vs h)) fs
  unfolding distribute
  distribute-Done [] vs h e = tt
  distribute-Done (f ∷ fs) [] h e = absurd (omega arith)
  distribute-Done (f ∷ fs) (v ∷ vs) h e =
      let h' = settle f (result v) h in
      (
        distribute_kept fs vs h' f (settle-Done f (result v) h refl),
        distribute-Done fs vs h' (omega arith),
      )

  fail_all-Done : (fs : List ℕ) (e : Text) (h : Heap V) → All (Done (fail_all fs e h)) fs
  unfolding fail_all
  fail_all-Done [] e h = tt
  fail_all-Done (f ∷ fs) e h =
      let h' = settle f (exception e) h in
      (fail_all_kept fs e h' f (settle-Done f (exception e) h refl), fail_all-Done fs e h')

  resolve-Done :
      (batch : List (Text × ℕ)) (answer : Processed V) (h : Heap V)
      → Answers (items batch) answer
      → All (Done (resolve (holders batch) answer h)) (holders batch)
  unfolding resolve
  resolve-Done batch (results vs) h e = distribute-Done (holders batch) vs h (
      e ∙ length-map (λ (p : Text × ℕ). p.0) batch ∙ sym (length-map (λ (p : Text × ℕ). p.1) batch))
  resolve-Done batch (failed e) h _ = fail_all-Done (holders batch) e h
  resolve-Done batch interrupted h a = elim a [ ]

  process-Done :
      (ps : List (Text × ℕ)) (processor : List Text → Processed V) (s : Executor V)
      → length ps ≤ s.batch_size
      → Answers (items ps) (processor (items ps))
      → All (Done (process ps processor s).0.futures) (holders ps)
  unfolding process
  process-Done [] processor s l a = tt
  process-Done (p ∷ ps) processor s l a =
      subst
        (λ batch.
          All (Done (resolve (holders batch) (processor (items batch)) s.futures))
            (holders (p ∷ ps)))
        (sym (take_all s.batch_size (p ∷ ps) l))
        (resolve-Done (p ∷ ps) (processor (items (p ∷ ps))) s.futures a)

  timer_ends-Done :
      (short : Bool) (r : Executor V × List (List Text)) (fs : List ℕ)
      → r.0.pending ≡ []
      → All (Done r.0.futures) fs
      → ((timer_ends short r).0.pending ≡ []) × All (Done (timer_ends short r).0.futures) fs
  unfolding timer_ends
  timer_ends-Done true (s, batches) fs e d = (e, d)
  timer_ends-Done false (s, batches) fs e d = (e, d)

  -- After any run from the start, with a positive batch size, where the timer runs out and the
  -- processor gives as many results as it gets items, or raises an `Exception`: then nothing waits
  -- any more, and the future of every item that waited is done.
  pub timer_callback-Done :
      (size : ℕ) (es : List (Event V)) (processor : List Text → Processed V)
      → 0 < size
      → Answers
          (items (run (init size) es).0.pending)
          (processor (items (run (init size) es).0.pending))
      → let s = (run (init size) es).0 in
        ((timer_callback processor s).0.pending ≡ [])
        × All (Done (timer_callback processor s).0.futures) (holders s.pending)
  unfolding timer_callback process_batch
  timer_callback-Done size es processor p a =
      let s = (run (init size) es).0 in
      let inv = run-Inv size es p in
      timer_ends-Done (cut_short s.pending s.batch_size processor) (process_batch processor s)
        (holders s.pending)
        (emptied processor s (omega (arith, inv.sized)) (omega (arith, inv.partial, inv.sized)))
        (process-Done s.pending processor s (omega (arith, inv.partial, inv.sized)) a)
