-- ===== src/Coalescing/Batch/Interruption.antt =====
-- The batch executor after its timer was cut short while it processed a batch.
use costpilot.Prelude.{
  ℕ, ◌+◌, ◌<◌, ◌≡◌, refl, inl, inr, true, List, [], ◌∷◌, ◌++◌, length, length-append, length-map,
  take_all, leb, ◌∙◌, All, arith, Bool-cases, subst,
}
use costpilot.Text.{Text}
use costpilot.Futures.{create_future}
use costpilot.Coalescing.Batch.{
  Processed, Executor, Event, submitted, fired, sleeping, ended, init, process, process_batch,
  submit, cut_short, timer_callback, timer_ends, fire, step, run,
}
use costpilot.Coalescing.Batch.Order.{Inv, run-Inv, step-IsStep}

abbrev pub IsFull : ℕ → List Text → Type 0
IsFull size batch = length batch ≡ size

All-append :
    (size : ℕ) (bs cs : List (List Text))
    → All (IsFull size) bs
    → All (IsFull size) cs
    → All (IsFull size) (bs ++ cs)
All-append size [] cs h k = k
All-append size (b ∷ bs) cs h k = (h.0, All-append size bs cs h.1 k)

module _ {V : Type 0} where
  process-IsFull :
      (ps : List (Text × ℕ)) (processor : List Text → Processed V) (s : Executor V)
      → length ps ≡ s.batch_size
      → ((process ps processor s).0.timer ≡ s.timer)
        × All (IsFull s.batch_size) (process ps processor s).1
  unfolding process
  process-IsFull [] processor s e = (refl, tt)
  process-IsFull (p ∷ ps) processor s e = (
    refl,
    (
      rw (take_all s.batch_size (p ∷ ps) (omega arith))
          (omega (arith, length-map (λ (x : Text × ℕ). x.0) (p ∷ ps))),
      tt,
    ),
  )

  submit_ended :
      (size : ℕ) (item : Text) (processor : List Text → Processed V) (s : Executor V)
      → Inv size s
      → s.timer ≡ ended
      → ((submit item processor s).0.timer ≡ ended) × All (IsFull size) (submit item processor s).1
  unfolding submit process_batch
  submit_ended size item processor s inv e =
      let s' : Executor V = record s {
        pending = s.pending ++ (item, s.futures.fresh) ∷ [];
        futures = create_future s.futures;
      } in
      let l : length s'.pending ≡ length s.pending + 1 = length-append s.pending _ in
      elim (Bool-cases (leb s.batch_size (length s'.pending))) [
        | inl full ↦
            let (kept, fulls) =
              process-IsFull s'.pending processor s'
                (ground (arith, full, l, inv.partial, inv.sized)) in
            rw full (
              kept ∙ e,
              subst (λ n. All (IsFull n) (process s'.pending processor s').1) inv.sized fulls,
            )
        | inr open_batch ↦ rw (open_batch, e) (refl, tt)
      ]

  step_ended :
      (size : ℕ) (e : Event V) (s : Executor V)
      → Inv size s
      → s.timer ≡ ended
      → ((step s e).0.timer ≡ ended) × All (IsFull size) (step s e).1
  unfolding step fire
  step_ended size (submitted item processor) s inv h = submit_ended size item processor s inv h
  step_ended size (fired processor) s inv h = rw (h, fire) (refl, tt)

  run_ended :
      (size : ℕ) (es : List (Event V)) (s : Executor V)
      → 0 < size
      → Inv size s
      → s.timer ≡ ended
      → ((run s es).0.timer ≡ ended) × All (IsFull size) (run s es).1
  unfolding run
  run_ended size [] s p inv h = (h, tt)
  run_ended size (e ∷ es) s p inv h =
      let (still, fulls) = step_ended size e s inv h in
      let (last, more) = run_ended size es (step s e).0 p (step-IsStep size e s p inv).inv still in
      (last, All-append size _ _ fulls more)

  timer_ends_short : (r : Executor V × List (List Text)) → (timer_ends true r).0.timer ≡ ended
  unfolding timer_ends
  timer_ends_short (s, batches) = refl

  -- After any run from the start, with a positive batch size, where the timer runs out and the
  -- processor ends with what is no `Exception`: whatever comes then, no timer is ever started again,
  -- and the processor is called with full batches only, so that an item for which no full batch comes
  -- is never processed.
  pub run-interrupted :
      (size : ℕ) (es later : List (Event V)) (processor : List Text → Processed V)
      → 0 < size
      → (run (init size) es).0.timer ≡ sleeping
      → cut_short (run (init size) es).0.pending (run (init size) es).0.batch_size processor ≡ true
      → let after = (step (run (init size) es).0 (fired processor)).0 in
        ((run after later).0.timer ≡ ended) × All (IsFull size) (run after later).1
  unfolding step fire timer_callback
  run-interrupted size es later processor p on short =
      let s = (run (init size) es).0 in
      let inv = run-Inv size es p in
      let next = step-IsStep size (fired processor) s p inv in
      run_ended size later (step s (fired processor)).0 p next.inv
        (rw (on, short, fire) (timer_ends_short (process_batch processor s)))
