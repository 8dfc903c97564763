-- ===== src/Coalescing/Outcomes.antt =====
-- What the callers of a coalesced request get.
use costpilot.Prelude.{
  ℕ, ◌<◌, ◌≤◌, ◌≡◌, refl, ◌∙◌, true, Option, none, some, List, [], ◌∷◌, arith, number_of_python,
}
use costpilot.Text.{Text}
use costpilot.Text.Laws.{text_instance}
use costpilot.Dict
use costpilot.Futures.{
  Future, Heap, waiting, result, exception, cancelled, is_done, settle, settle-at, settle_done,
  settle-fresh, create_future_old, create_future-fresh,
}
use costpilot.Coalescing.{
  PendingRequest, Stage, created, calling, cleaning, Coalescer, Called, returned, raised,
  interrupted, Event, call, begin, end, clean, give_up, get_elem?, init, coalesce, join, begin_at,
  begin_task, end_at, clean_at, step, run, answer, settle_called,
}
use costpilot.Coalescing.Flights.{run-Inv, init-Inv}

module _ {V : Type 0} where
  -- A future that is done keeps its outcome.
  record IsKept (f : ℕ) (h h' : Heap V) : Type 0 where
    grows : h.fresh ≤ h'.fresh
    same : h'.at f ≡ h.at f

  settle_called-IsKept :
      (f g : ℕ) (c : Called V) (h : Heap V)
      → is_done (h.at g) ≡ true
      → IsKept g h (settle_called f c h)
  settle_called-IsKept f g (returned v) h d = record {
    grows = omega (arith, settle-fresh f (result v) h);
    same = settle_done f g (result v) h d;
  }
  settle_called-IsKept f g (raised e) h d = record {
    grows = omega (arith, settle-fresh f (exception e) h);
    same = settle_done f g (exception e) h d;
  }
  settle_called-IsKept f g interrupted h d = record { grows = omega arith; same = refl }

  join-IsKept :
      (key : Text) (now : ℕ) (p : Option PendingRequest) (s : Coalescer V) (f : ℕ)
      → f < s.futures.fresh
      → IsKept f s.futures (join key now p s).0.futures
  unfolding join
  join-IsKept key now (some p) s f l = record { grows = omega arith; same = refl }
  join-IsKept key now none s f l = record {
    grows = omega (arith, create_future-fresh s.futures);
    same = create_future_old f s.futures l;
  }

  begin_at-futures :
      (i : ℕ) (t : Option (Text × Stage)) (s : Coalescer V) → (begin_at i t s).futures ≡ s.futures
  unfolding begin_at begin_task
  begin_at-futures i none s = refl
  begin_at-futures i (some (key, calling f)) s = refl
  begin_at-futures i (some (key, cleaning)) s = refl
  begin_at-futures i (some (key, created)) s = ground arith

  clean_at-futures :
      (i : ℕ) (t : Option (Text × Stage)) (s : Coalescer V) → (clean_at i t s).futures ≡ s.futures
  unfolding clean_at
  clean_at-futures i none s = refl
  clean_at-futures i (some (key, calling f)) s = refl
  clean_at-futures i (some (key, cleaning)) s = refl
  clean_at-futures i (some (key, created)) s = refl

  end_at-IsKept :
      (i : ℕ) (t : Option (Text × Stage)) (c : Called V) (s : Coalescer V) (f : ℕ)
      → is_done (s.futures.at f) ≡ true
      → IsKept f s.futures (end_at i t c s).futures
  unfolding end_at
  end_at-IsKept i none c s f d = record { grows = omega arith; same = refl }
  end_at-IsKept i (some (key, created)) c s f d = record { grows = omega arith; same = refl }
  end_at-IsKept i (some (key, cleaning)) c s f d = record { grows = omega arith; same = refl }
  end_at-IsKept i (some (key, calling g)) c s f d = settle_called-IsKept g f c s.futures d

  step-IsKept :
      (s : Coalescer V) (e : Event V) (f : ℕ)
      → f < s.futures.fresh
      → is_done (s.futures.at f) ≡ true
      → IsKept f s.futures (step s e).futures
  unfolding step coalesce
  step-IsKept s (call key now) f l d = join-IsKept key now (Dict.get key s.pending) s f l
  step-IsKept s (begin i) f l d =
      rw (begin_at-futures i (get_elem? s.tasks i) s) (record { grows = omega arith; same = refl })
  step-IsKept s (end i c) f l d = end_at-IsKept i (get_elem? s.tasks i) c s f d
  step-IsKept s (clean i) f l d =
      rw (clean_at-futures i (get_elem? s.tasks i) s) (record { grows = omega arith; same = refl })
  step-IsKept s (give_up g) f l d = record {
    grows = omega (arith, settle-fresh g cancelled s.futures);
    same = settle_done g f cancelled s.futures d;
  }

  run_done :
      (s : Coalescer V) (es : List (Event V)) (f : ℕ)
      → f < s.futures.fresh
      → is_done (s.futures.at f) ≡ true
      → (run s es).futures.at f ≡ s.futures.at f
  unfolding run
  run_done s [] f l d = refl
  run_done s (e ∷ es) f l d =
      let k = step-IsKept s e f l d in
      run_done (step s e) es f (omega (arith, l, k.grows)) (rw k.same d) ∙ k.same

  settle_waiting : (f : ℕ) (x : Future V) (h : Heap V) → h.at f ≡ waiting → (settle f x h).at f ≡ x
  settle_waiting f x h w = ground (arith, settle-at f f x h, number_of_python.same_iff f f)

  -- Where a request is pending and the task of its key awaits the function, a further caller of the
  -- key is given the future of the request; and once the function has returned a value, that is what
  -- every holder of the future gets, whatever happens afterwards.
  pub coalesce-end :
      (max_wait now : ℕ) (before after : List (Event V)) (key : Text) (p : PendingRequest) (i : ℕ)
      (v : V)
      → let s = run (init max_wait) before in
        Dict.get key s.pending ≡ some p
        → get_elem? s.tasks i ≡ some (key, calling p.future)
        → s.futures.at p.future ≡ waiting
        → ((coalesce key now s).1 ≡ p.future)
          × (answer p.future (run (step s (end i (returned v))) after) ≡ result v)
  unfolding step end_at coalesce join
  coalesce-end max_wait now before after key p i v found task w =
      let s = run (init max_wait) before in
      let l = (run-Inv (init max_wait) before (init-Inv max_wait)).known key p found in
      let e = settle_waiting p.future (result v) s.futures w in
      (
        rw found refl,
        run_done (step s (end i (returned v))) after p.future
              (rw (task, settle-fresh p.future (result v) s.futures) l) (rw (task, e) refl)
            ∙ rw (task, e) refl,
      )

  -- Where a request is pending, a caller that stops waiting, at its timeout or because it is
  -- cancelled, cancels the request for all: every holder of the future gets the cancellation,
  -- whatever the function does later, and a further caller of the key is still given that future.
  pub coalesce-give_up :
      (max_wait now : ℕ) (before after : List (Event V)) (key : Text) (p : PendingRequest)
      → let s = run (init max_wait) before in
        Dict.get key s.pending ≡ some p
        → s.futures.at p.future ≡ waiting
        → ((coalesce key now (step s (give_up p.future))).1 ≡ p.future)
          × (answer p.future (run (step s (give_up p.future)) after) ≡ cancelled)
  unfolding step coalesce join
  coalesce-give_up max_wait now before after key p found w =
      let s = run (init max_wait) before in
      let l = (run-Inv (init max_wait) before (init-Inv max_wait)).known key p found in
      let e = settle_waiting p.future cancelled s.futures w in
      (
        rw found refl,
        run_done (step s (give_up p.future)) after p.future
              (rw (settle-fresh p.future cancelled s.futures) l) (rw e refl)
            ∙ e,
      )
