-- ===== src/Coalescing/Flights.antt =====
-- One call for each key in flight.
use costpilot.Prelude.{
  ℕ, ◌+◌, ◌<◌, zero, suc, ◌≡◌, refl, ◌∙◌, Option, none, some, List, [], ◌∷◌, ◌++◌, length, select,
  if◌then◌else◌, ◌==◌, arith, Option-cases, inl, inr,
}
use costpilot.Text.{Text}
use costpilot.Text.Laws.{text_instance}
use costpilot.Dict
use costpilot.Dict.{IsDict}
use costpilot.Dict.Laws.{contains-get, contains-set, get-set, set-IsDict, delete-IsDict, get-delete}
use costpilot.Futures.{Heap, result, exception, cancelled, settle-fresh, create_future-fresh}
use costpilot.Coalescing.{
  settle_called, PendingRequest, Stage, created, calling, cleaning, Coalescer, Called, returned,
  raised, interrupted, Event, call, begin, end, clean, give_up, get_elem?, set, remove, init,
  coalesce, join, begin_at, begin_task, end_at, clean_at, step, run,
}

-- the tasks for a key
abbrev pub flights : Text → List (Text × Stage) → ℕ
flights key tasks = length (select (λ t. t.0 == key) tasks)

flights-remove :
    (key k : Text) (stage : Stage) (tasks : List (Text × Stage)) (i : ℕ)
    → get_elem? tasks i ≡ some (k, stage)
    → flights key (remove tasks i) + (if k == key then 1 else 0) ≡ flights key tasks
unfolding get_elem? remove
flights-remove key k stage [] i h = cc
flights-remove key k stage (t ∷ tasks) zero h = ground arith
flights-remove key k stage (t ∷ tasks) (suc i) h =
    ground (arith, flights-remove key k stage tasks i)

flights-set :
    (key k : Text) (stage stage' : Stage) (tasks : List (Text × Stage)) (i : ℕ)
    → get_elem? tasks i ≡ some (k, stage)
    → flights key (set tasks i (k, stage')) ≡ flights key tasks
unfolding get_elem? set
flights-set key k stage stage' [] i h = cc
flights-set key k stage stage' (t ∷ tasks) zero h = ground arith
flights-set key k stage stage' (t ∷ tasks) (suc i) h =
    ground (arith, flights-set key k stage stage' tasks i)

flights-append :
    (key k : Text) (stage : Stage) (tasks : List (Text × Stage))
    → flights key (tasks ++ (k, stage) ∷ []) ≡ flights key tasks + (if k == key then 1 else 0)
flights-append key k stage [] = ground arith
flights-append key k stage (t ∷ tasks) = ground (arith, flights-append key k stage tasks)

module _ {V : Type 0} where
  -- For each key there is one task if a request is pending, and otherwise none; the future of a
  -- pending request exists.
  pub record Inv (s : Coalescer V) : Type 0 where
    pub distinct : IsDict s.pending
    pub single : (key : Text) → flights key s.tasks ≡ (if Dict.contains key s.pending then 1 else 0)
    pub known :
        (key : Text) (p : PendingRequest)
        → Dict.get key s.pending ≡ some p
        → p.future < s.futures.fresh

  pub settle_called-fresh :
      (f : ℕ) (c : Called V) (h : Heap V) → (settle_called f c h).fresh ≡ h.fresh
  settle_called-fresh f (returned v) h = settle-fresh f (result v) h
  settle_called-fresh f (raised e) h = settle-fresh f (exception e) h
  settle_called-fresh f interrupted h = refl

  join-Inv :
      (key : Text) (now : ℕ) (found : Option PendingRequest) (s : Coalescer V)
      → Dict.get key s.pending ≡ found
      → Inv s
      → Inv (join key now found s).0
  unfolding join
  join-Inv key now none s e inv = record {
    distinct = set-IsDict key _ s.pending inv.distinct;
    known = λ k q h. ground (
      arith,
      inv.known k q,
      create_future-fresh s.futures,
      get-set key k (record { future = s.futures.fresh; waiters = 1; started_at = now }) s.pending,
    );
    single = λ k. ground (
      arith,
      inv.single k,
      flights-append k key created s.tasks,
      contains-set key k (record { future = s.futures.fresh; waiters = 1; started_at = now })
          s.pending,
      contains-get k s.pending,
      text_instance.same_iff key k,
    );
  }
  join-Inv key now (some p) s e inv = record {
    distinct = set-IsDict key _ s.pending inv.distinct;
    known = λ k q h. ground (
      arith,
      inv.known k q,
      inv.known k p,
      inv.known key p e,
      get-set key k (record p { waiters = p.waiters + 1 }) s.pending,
    );
    single = λ k. ground (
      arith,
      inv.single k,
      contains-set key k (record p { waiters = p.waiters + 1 }) s.pending,
      contains-get k s.pending,
      text_instance.same_iff key k,
    );
  }

  -- the task that begins is the one of its key, so its request is pending
  begin_at-Inv :
      (i : ℕ) (t : Option (Text × Stage)) (s : Coalescer V)
      → get_elem? s.tasks i ≡ t
      → Inv s
      → Inv (begin_at i t s)
  unfolding begin_at begin_task
  begin_at-Inv i none s e inv = inv
  begin_at-Inv i (some (key, cleaning)) s e inv = inv
  begin_at-Inv i (some (key, calling f)) s e inv = inv
  begin_at-Inv i (some (key, created)) s e inv = elim (Option-cases (Dict.get key s.pending)) [
    | inl absent ↦ absurd (
        ground (
          arith,
          inv.single key,
          contains-get key s.pending,
          flights-remove key key created s.tasks i e,
          text_instance.same_iff key key,
        ))
    | inr (p, found) ↦
        rw (found, begin_at, begin_task)
          (record {
            distinct = inv.distinct;
            known = inv.known;
            single = λ k. flights-set k key created (calling p.future) s.tasks i e ∙ inv.single k;
          })
  ]

  end_at-Inv :
      (i : ℕ) (t : Option (Text × Stage)) (c : Called V) (s : Coalescer V)
      → get_elem? s.tasks i ≡ t
      → Inv s
      → Inv (end_at i t c s)
  unfolding end_at
  end_at-Inv i none c s e inv = inv
  end_at-Inv i (some (key, cleaning)) c s e inv = inv
  end_at-Inv i (some (key, created)) c s e inv = inv
  end_at-Inv i (some (key, calling f)) c s e inv = record {
    distinct = inv.distinct;
    known = λ k q h. rw (settle_called-fresh f c s.futures) (inv.known k q h);
    single = λ k. flights-set k key (calling f) cleaning s.tasks i e ∙ inv.single k;
  }

  clean_at-Inv :
      (i : ℕ) (t : Option (Text × Stage)) (s : Coalescer V)
      → get_elem? s.tasks i ≡ t
      → Inv s
      → Inv (clean_at i t s)
  unfolding clean_at
  clean_at-Inv i none s e inv = inv
  clean_at-Inv i (some (key, created)) s e inv = inv
  clean_at-Inv i (some (key, calling f)) s e inv = inv
  clean_at-Inv i (some (key, cleaning)) s e inv = record {
    distinct = delete-IsDict key s.pending inv.distinct;
    known = λ k q h. ground (arith, inv.known k q, get-delete key k s.pending inv.distinct);
    single = λ k. ground (
      arith,
      inv.single k,
      flights-remove k key cleaning s.tasks i e,
      get-delete key k s.pending inv.distinct,
      contains-get k s.pending,
      contains-get k (Dict.delete key s.pending),
      text_instance.same_iff key k,
    );
  }

  step-Inv : (s : Coalescer V) (e : Event V) → Inv s → Inv (step s e)
  unfolding step coalesce
  step-Inv s (call key now) inv = join-Inv key now (Dict.get key s.pending) s refl inv
  step-Inv s (begin i) inv = begin_at-Inv i (get_elem? s.tasks i) s refl inv
  step-Inv s (end i c) inv = end_at-Inv i (get_elem? s.tasks i) c s refl inv
  step-Inv s (clean i) inv = clean_at-Inv i (get_elem? s.tasks i) s refl inv
  step-Inv s (give_up f) inv = record {
    distinct = inv.distinct;
    single = inv.single;
    known = λ k q h. rw (settle-fresh f cancelled s.futures) (inv.known k q h);
  }

  pub init-Inv : (max_wait : ℕ) → Inv (init max_wait)
  unfolding init Dict.contains Dict.get
  init-Inv max_wait = record { distinct = tt; single = λ k. refl; known = λ k p h. cc }

  pub run-Inv : (s : Coalescer V) (es : List (Event V)) → Inv s → Inv (run s es)
  unfolding run
  run-Inv s [] inv = inv
  run-Inv s (e ∷ es) inv = run-Inv (step s e) es (step-Inv s e inv)

  -- However callers, tasks and timeouts interleave from the start, a key with a pending request has
  -- one task that runs the function for it, and any other key has none: identical requests that
  -- overlap cause one call.
  pub run-flights :
      (max_wait : ℕ) (es : List (Event V)) (key : Text)
      → flights key (run (init max_wait) es).tasks
        ≡ (if Dict.contains key (run (init max_wait) es).pending then 1 else 0)
  run-flights max_wait es key = (run-Inv (init max_wait) es (init-Inv max_wait)).single key
