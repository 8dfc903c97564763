-- ===== src/Coalescing/Batch/Order.antt =====
-- What becomes of the items that are submitted for processing in batches.
use costpilot.Prelude.{
  ℕ, ◌+◌, ◌<◌, ◌≤◌, ◌≡◌, inl, inr, refl, sym, ap, ◌∙◌, Bool, true, false, List, [], ◌∷◌, ◌++◌,
  length, length-append, length-map, take_all, drop_all, leb, All, arith, subst, Bool-cases,
}
use mathlib.Core.List.{append_assoc, append-nil, map-append}
use costpilot.Text.{Text}
use costpilot.Futures.{create_future}
use costpilot.Coalescing.Batch.{
  Processed, Executor, Event, submitted, fired, init, items, process, process_batch, submit,
  timer_callback, timer_ends, Timer, no_timer, sleeping, ended, started, cut_short, fire, step, run,
}

abbrev pub flatten : List (List Text) → List Text
flatten [] = []
flatten (b ∷ bs) = b ++ flatten bs

flatten-append : (bs cs : List (List Text)) → flatten (bs ++ cs) ≡ flatten bs ++ flatten cs
flatten-append [] cs = refl
flatten-append (b ∷ bs) cs =
    ap (λ t. b ++ t) (flatten-append bs cs) ∙ sym (append_assoc b (flatten bs) (flatten cs))

abbrev pub Within : ℕ → List Text → Type 0
Within n batch = length batch ≤ n

Within-append :
    (n : ℕ) (bs cs : List (List Text))
    → All (Within n) bs
    → All (Within n) cs
    → All (Within n) (bs ++ cs)
Within-append n [] cs h k = k
Within-append n (b ∷ bs) cs h k = (h.0, Within-append n bs cs h.1 k)

-- two steps after one another
flatten_run :
    (bs cs : List (List Text)) (before left brought more last : List Text)
    → flatten bs ++ left ≡ before ++ brought
    → flatten cs ++ last ≡ left ++ more
    → flatten (bs ++ cs) ++ last ≡ before ++ (brought ++ more)
flatten_run bs cs before left brought more last h k =
    rw (flatten-append bs cs, append_assoc (flatten bs) (flatten cs) last, k)
      (sym (append_assoc (flatten bs) left more) ∙ rw h (append_assoc before brought more))

started-no_timer : (t : Timer) → started t ≡ no_timer → ⊥
started-no_timer no_timer h = cc h
started-no_timer sleeping h = cc h
started-no_timer ended h = cc h

module _ {V : Type 0} where
  abbrev pub submissions : List (Event V) → List Text
  submissions [] = []
  submissions (submitted item processor ∷ es) = item ∷ submissions es
  submissions (fired processor ∷ es) = submissions es

  -- A batch that is not full waits, and `_timer` is then a task.
  pub record Inv (size : ℕ) (s : Executor V) : Type 0 where
    pub sized : s.batch_size ≡ size
    pub partial : length s.pending < size
    pub timed : s.timer ≡ no_timer → s.pending ≡ []

  -- What a step leaves and hands over is what was there and what it brought, in order.
  pub record IsStep (size : ℕ) (before brought : List Text) (r : Executor V × List (List Text))
      : Type 0 where
    pub inv : Inv size r.0
    ordered : flatten r.1 ++ items r.0.pending ≡ before ++ brought
    within : All (Within size) r.1

  process_small :
      (ps : List (Text × ℕ)) (processor : List Text → Processed V) (s : Executor V)
      → length ps ≤ s.batch_size
      → s.pending ≡ ps
      → 0 < s.batch_size
      → ((process ps processor s).0.pending ≡ [])
        × ((process ps processor s).0.batch_size ≡ s.batch_size)
        × (flatten (process ps processor s).1 ≡ items ps)
        × All (Within s.batch_size) (process ps processor s).1
  unfolding process
  process_small [] processor s l e p = (e, refl, refl, tt)
  process_small (q ∷ ps) processor s l e p = (
    drop_all s.batch_size (q ∷ ps) l,
    refl,
    append-nil _ ∙ ap items (take_all s.batch_size (q ∷ ps) l),
    (
      rw (take_all s.batch_size (q ∷ ps) l)
          (omega (arith, length-map (λ (x : Text × ℕ). x.0) (q ∷ ps))),
      tt,
    ),
  )

  pub emptied :
      (processor : List Text → Processed V) (s : Executor V)
      → 0 < s.batch_size
      → length s.pending ≤ s.batch_size
      → (process_batch processor s).0.pending ≡ []
  unfolding process_batch
  emptied processor s p l = (process_small s.pending processor s l refl p).0

  process-IsStep :
      (size : ℕ) (before brought : List Text) (processor : List Text → Processed V) (s : Executor V)
      → 0 < size
      → s.batch_size ≡ size
      → length s.pending ≤ size
      → items s.pending ≡ before ++ brought
      → IsStep size before brought (process_batch processor s)
  unfolding process_batch
  process-IsStep size before brought processor s p e l h =
      let (none_left, kept, handed, small) =
        process_small s.pending processor s (rw e l) refl (rw e p) in
      record {
        inv = record { sized = kept ∙ e; partial = rw none_left p; timed = λ _. none_left };
        ordered = rw none_left (append-nil _ ∙ handed ∙ h);
        within = subst (λ n. All (Within n) (process_batch processor s).1) e small;
      }

  submit-IsStep :
      (size : ℕ) (item : Text) (processor : List Text → Processed V) (s : Executor V)
      → 0 < size
      → Inv size s
      → IsStep size (items s.pending) (item ∷ []) (submit item processor s)
  unfolding submit
  submit-IsStep size item processor s p inv =
      let s' : Executor V = record s {
        pending = s.pending ++ (item, s.futures.fresh) ∷ [];
        futures = create_future s.futures;
      } in
      let l : length s'.pending ≡ length s.pending + 1 = length-append s.pending _ in
      let h : items s'.pending ≡ items s.pending ++ item ∷ [] = map-append _ s.pending _ in
      elim (Bool-cases (leb s.batch_size (length s'.pending))) [
        | inl full ↦
            rw (full, submit)
              (process-IsStep size (items s.pending) (item ∷ []) processor s' p inv.sized
                (omega (arith, l, inv.partial)) h)
        | inr open_batch ↦
            rw (open_batch, submit)
              (record {
                inv = record {
                  sized = inv.sized;
                  partial = ground (arith, open_batch, inv.sized);
                  timed = λ e. absurd (started-no_timer s.timer e);
                };
                ordered = h;
                within = tt;
              })
      ]

  timer_ends-IsStep :
      (short : Bool) (size : ℕ) (before : List Text) (r : Executor V × List (List Text))
      → r.0.pending ≡ []
      → IsStep size before [] r
      → IsStep size before [] (timer_ends short r)
  unfolding timer_ends
  timer_ends-IsStep true size before (s, batches) none_left k = record {
    inv = record { sized = k.inv.sized; partial = k.inv.partial; timed = λ _. none_left };
    ordered = k.ordered;
    within = k.within;
  }
  timer_ends-IsStep false size before (s, batches) none_left k = record {
    inv = record { sized = k.inv.sized; partial = k.inv.partial; timed = λ _. none_left };
    ordered = k.ordered;
    within = k.within;
  }

  timer_callback-IsStep :
      (size : ℕ) (processor : List Text → Processed V) (s : Executor V)
      → 0 < size
      → Inv size s
      → IsStep size (items s.pending) [] (timer_callback processor s)
  unfolding timer_callback
  timer_callback-IsStep size processor s p inv =
      timer_ends-IsStep (cut_short s.pending s.batch_size processor) size (items s.pending)
        (process_batch processor s)
        (emptied processor s (omega (arith, inv.sized)) (omega (arith, inv.partial, inv.sized)))
        (process-IsStep size (items s.pending) [] processor s p inv.sized
          (omega (arith, inv.partial)) (sym (append-nil _)))

  fire-IsStep :
      (t : Timer) (size : ℕ) (processor : List Text → Processed V) (s : Executor V)
      → 0 < size
      → Inv size s
      → IsStep size (items s.pending) [] (fire t processor s)
  unfolding fire
  fire-IsStep sleeping size processor s p inv = timer_callback-IsStep size processor s p inv
  fire-IsStep no_timer size processor s p inv = record {
    inv = inv;
    ordered = sym (append-nil _);
    within = tt;
  }
  fire-IsStep ended size processor s p inv = record {
    inv = inv;
    ordered = sym (append-nil _);
    within = tt;
  }

  pub step-IsStep :
      (size : ℕ) (e : Event V) (s : Executor V)
      → 0 < size
      → Inv size s
      → IsStep size (items s.pending) (submissions (e ∷ [])) (step s e)
  unfolding step
  step-IsStep size (submitted item processor) s p inv = submit-IsStep size item processor s p inv
  step-IsStep size (fired processor) s p inv = fire-IsStep s.timer size processor s p inv

  submissions-cons :
      (e : Event V) (es : List (Event V))
      → submissions (e ∷ es) ≡ submissions (e ∷ []) ++ submissions es
  submissions-cons (submitted item processor) es = refl
  submissions-cons (fired processor) es = refl

  run-IsStep :
      (size : ℕ) (es : List (Event V)) (s : Executor V)
      → 0 < size
      → Inv size s
      → IsStep size (items s.pending) (submissions es) (run s es)
  unfolding run
  run-IsStep size [] s p inv = record { inv = inv; ordered = sym (append-nil _); within = tt }
  run-IsStep size (e ∷ es) s p inv =
      let k = step-IsStep size e s p inv in
      let rest = run-IsStep size es (step s e).0 p k.inv in
      record {
        inv = rest.inv;
        ordered =
            flatten_run (step s e).1 (run (step s e).0 es).1 (items s.pending)
              (items (step s e).0.pending) (submissions (e ∷ [])) (submissions es)
              (items (run (step s e).0 es).0.pending) k.ordered rest.ordered
            ∙ ap (λ t. items s.pending ++ t) (sym (submissions-cons e es));
        within = Within-append size _ _ k.within rest.within;
      }

  pub init-Inv : (size : ℕ) → 0 < size → Inv size (init size)
  unfolding init
  init-Inv size p = record { sized = refl; partial = p; timed = λ _. refl }

  pub run-Inv : (size : ℕ) (es : List (Event V)) → 0 < size → Inv size (run (init size) es).0
  run-Inv size es p = (run-IsStep size es (init size) p (init-Inv size p)).inv
