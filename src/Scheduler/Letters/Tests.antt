-- ===== src/Scheduler/Letters/Tests.antt =====
-- A dead letter of a scheduler of expenses every hour that has been given up.
use costpilot.Prelude.{true, none, some, [], ◌∷◌, ◌≡◌, refl, ok, arith}
use costpilot.Text.{codes, text_eq}
use costpilot.Text.Laws.{text_instance}
use costpilot.Dict
use costpilot.Scheduler.{completed, scheduled, Run, State, job_id}
use costpilot.Scheduler.Execution.{
  no_fault, Inputs, returned, execute_scheduler_job, collect, new_run, failure_count,
  expenses_phase,
}
use costpilot.Scheduler.Tests.{any_line, given_up, state_of, given_up_found}
use costpilot.Scheduler.Letters.{Letter, Letters, pending, retry_dead_letter_job}
use costpilot.Scheduler.Letters.Retrying.{reset, retry-unscheduled}

abbrev letter : Letter
letter = record { scheduler_config_id = given_up.id; status = pending; last_retried_at = none }

abbrev letters : Letters
letters = (codes "l", letter) ∷ []

letter_found : Dict.get (codes "l") letters ≡ some letter
unfolding Dict.get text_eq
letter_found = refl

abbrev collected : Inputs
collected = record {
  expenses = returned true 3;
  resources = returned true 0;
  recommendations = returned true 0;
  fault = no_fault;
}

no_job : Dict.get (job_id given_up.id) (state_of given_up).jobs ≡ none
unfolding Dict.get text_eq
no_job = refl

no_failure :
    failure_count (collect (reset given_up) collected (new_run scheduled given_up.id)).1 ≡ 0
unfolding collect failure_count expenses_phase
no_failure = refl

retry-unscheduled_example :
    (letters' : Letters) × (st' : State) × (retry_dead_letter_job given_up.organization_id
        (codes "l")
        (codes "r")
        5
        letters
        (state_of given_up)
      ≡ ok (letters', st'))
    × (let after =
          execute_scheduler_job any_line given_up.id
            (some (codes "r"))
            (codes "f")
            collected
            6
            7
            st' in
        (r : Run) × (Dict.get (codes "r") after.runs ≡ some r)
        × (r.status ≡ completed)
        × (Dict.get given_up.id after.configs
            ≡ some (record given_up { consecutive_failures = 0; last_run_at = some 6 }))
        × (after.jobs ≡ (state_of given_up).jobs)
        × (Dict.get (job_id given_up.id) after.jobs ≡ none))
retry-unscheduled_example =
    retry-unscheduled any_line given_up (codes "l") (codes "r") (codes "f") collected 5 6 7 letter
      letters (state_of given_up) letter_found refl given_up_found refl refl (omega arith) no_job
      refl no_failure
