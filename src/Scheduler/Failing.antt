-- ===== src/Scheduler/Failing.antt =====
-- Runs in which everything that is collected fails.
use costpilot.Prelude.{◌≤◌, true, false, ◌||◌, [], ◌∷◌, ◌≡◌, refl, if◌then◌else◌, arith}
use costpilot.Text.Laws.{text_instance}
use costpilot.Scheduler.{Config, Run}
use costpilot.Scheduler.Execution.{
  Fault, no_fault, before_commit, after_commit, Inputs, Outcome, returned, raised, unrecorded,
  PhaseResult, truthy, untried, collect, success_count, failure_count, expenses_phase,
  resources_phase, recommendations_phase,
}

-- The collection raised an exception whose text is not empty.
abbrev pub HasRaised : Outcome → Type 0
HasRaised (returned _ n) = ⊥
HasRaised (unrecorded _ m) = ⊥
HasRaised (raised []) = ⊥
HasRaised (raised (c ∷ m)) = Unit

-- Everything the scheduler collects raises, and it collects something; or an exception comes from
-- outside the collections, before the final commit.
abbrev pub IsFailing : Config → Inputs → Fault → Type 0
IsFailing c i (before_commit m) = Unit
IsFailing c i (after_commit m) = ⊥
IsFailing c i no_fault =
    ((c.collect_expenses || c.collect_resources || c.collect_recommendations) ≡ true)
    × (c.collect_expenses ≡ true → HasRaised i.expenses)
    × (c.collect_resources ≡ true → HasRaised i.resources)
    × (c.collect_recommendations ≡ true → HasRaised i.recommendations)

IsFailed : PhaseResult → Type 0
IsFailed p = (p.success ≡ false) × (truthy p.error ≡ true)

expenses_phase-IsFailed : (o : Outcome) (r : Run) → HasRaised o → IsFailed (expenses_phase o r).1
unfolding expenses_phase IsFailed
expenses_phase-IsFailed (raised (c ∷ m)) r h = (refl, refl)
expenses_phase-IsFailed (returned _ _) r h = elim h [ ]
expenses_phase-IsFailed (unrecorded _ _) r h = elim h [ ]
expenses_phase-IsFailed (raised []) r h = elim h [ ]

resources_phase-IsFailed : (o : Outcome) (r : Run) → HasRaised o → IsFailed (resources_phase o r).1
unfolding resources_phase IsFailed
resources_phase-IsFailed (raised (c ∷ m)) r h = (refl, refl)
resources_phase-IsFailed (returned _ _) r h = elim h [ ]
resources_phase-IsFailed (unrecorded _ _) r h = elim h [ ]
resources_phase-IsFailed (raised []) r h = elim h [ ]

recommendations_phase-IsFailed :
    (o : Outcome) (r : Run) → HasRaised o → IsFailed (recommendations_phase o r).1
unfolding recommendations_phase IsFailed
recommendations_phase-IsFailed (raised (c ∷ m)) r h = (refl, refl)
recommendations_phase-IsFailed (returned _ _) r h = elim h [ ]
recommendations_phase-IsFailed (unrecorded _ _) r h = elim h [ ]
recommendations_phase-IsFailed (raised []) r h = elim h [ ]

pub collect-failing :
    (c : Config) (i : Inputs) (r : Run)
    → IsFailing c i no_fault
    → (success_count (collect c i r).1 ≡ 0) × (1 ≤ failure_count (collect c i r).1)
unfolding collect success_count failure_count IsFailed
collect-failing c i r h =
    let (r1, e) : Run × PhaseResult =
      if c.collect_expenses then expenses_phase i.expenses r else (r, untried) in
    let (r2, s) : Run × PhaseResult =
      if c.collect_resources then resources_phase i.resources r1 else (r1, untried) in
    ground (
      arith,
      expenses_phase-IsFailed i.expenses r,
      resources_phase-IsFailed i.resources r1,
      recommendations_phase-IsFailed i.recommendations r2,
      h.0,
      h.1,
      h.2,
      h.3,
    )
