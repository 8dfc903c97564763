-- ===== src/Scheduler/Tests.antt =====
-- A scheduler of expenses every hour: its job, its failing runs and its runs by hand.
use costpilot.Prelude.{◌+◌, Bool, true, false, none, some, [], ◌∷◌, ◌≡◌, refl, arith, length, ok}
use costpilot.Text.{Text, codes, text_eq}
use costpilot.Text.Laws.{text_instance}
use costpilot.Dict
use costpilot.Dict.{IsDict}
use costpilot.Scheduler.{
  interval, completed, failed, manual, Config, Run, Jobs, State, cron_trigger, job_id,
}
use costpilot.Scheduler.Execution.{
  no_fault, Inputs, returned, raised, new_run, execute_scheduler_job,
}
use costpilot.Scheduler.Service.{trigger_scheduler_manual}
use costpilot.Scheduler.DeadLetters.{Execution, execute_all, executions-dead_letter}
use costpilot.Scheduler.Runs.{execute-refused_refresh}
use costpilot.Scheduler.Manual.{trigger-stuck}

abbrev pub any_line : Text → Bool
any_line line = true

abbrev pub hourly : Config
hourly = record {
  id = codes "a";
  organization_id = codes "o";
  collect_expenses = true;
  collect_resources = false;
  collect_recommendations = false;
  schedule_type = interval;
  interval_minutes = some 60;
  cron_expression = none;
  start_date = none;
  end_date = none;
  is_enabled = true;
  last_run_at = none;
  consecutive_failures = 0;
  max_consecutive_failures = 2;
}

abbrev pub given_up : Config
given_up = record hourly { consecutive_failures = 2 }

-- another scheduler's job
abbrev pub jobs : Jobs
jobs = (job_id (codes "b"), cron_trigger (codes "* * * * *")) ∷ []

abbrev pub state_of : Config → State
state_of c = record { configs = (c.id, c) ∷ []; runs = []; dead_letters = []; jobs = jobs }

abbrev timeout : Execution
timeout = record {
  fresh_id = codes "r";
  inputs = record {
    expenses = raised (codes "timed out");
    resources = returned true 0;
    recommendations = returned true 0;
    fault = no_fault;
  };
  start = 5;
  end = 6;
}

abbrev refused : Inputs
refused = record {
  expenses = returned false 1;
  resources = returned true 0;
  recommendations = returned true 0;
  fault = no_fault;
}

pub jobs-IsDict : IsDict jobs
unfolding Dict.contains
jobs-IsDict = (refl, tt)

pub found : Dict.get hourly.id (state_of hourly).configs ≡ some hourly
unfolding Dict.get text_eq
found = refl

pub given_up_found : Dict.get hourly.id (state_of given_up).configs ≡ some given_up
unfolding Dict.get text_eq
given_up_found = refl

executions-dead_letter_example :
    (length (execute_all any_line hourly.id (timeout ∷ timeout ∷ []) (state_of hourly)).dead_letters
      ≡ 0 + 1)
    × (Dict.get
          (job_id hourly.id)
          (execute_all any_line hourly.id (timeout ∷ timeout ∷ []) (state_of hourly)).jobs
        ≡ none)
    × (execute_all any_line hourly.id
          (timeout ∷ [])
          (execute_all any_line hourly.id (timeout ∷ timeout ∷ []) (state_of hourly))
        ≡ execute_all any_line hourly.id (timeout ∷ timeout ∷ []) (state_of hourly))
executions-dead_letter_example =
    executions-dead_letter any_line hourly (timeout ∷ timeout ∷ []) (timeout ∷ []) (state_of hourly)
      found refl (omega arith) refl
      (
        (refl, (λ _. tt), (λ h. cc h), (λ h. cc h)),
        ((refl, (λ _. tt), (λ h. cc h), (λ h. cc h)), tt),
      )
      jobs-IsDict

execute-refused_refresh_example :
    let st' =
      execute_scheduler_job any_line hourly.id none (codes "r") refused 5 6 (state_of hourly) in
    (r : Run) × (Dict.get (codes "r") st'.runs ≡ some r)
    × (r.status ≡ completed)
    × (r.expenses_status ≡ some failed)
    × (Dict.get hourly.id st'.configs
        ≡ some (record hourly { consecutive_failures = 0; last_run_at = some 5 }))
execute-refused_refresh_example =
    execute-refused_refresh any_line hourly (codes "r") refused 1 5 6 (state_of hourly) found refl
      (omega arith) refl refl refl refl refl

trigger-stuck_example :
    let started =
      trigger_scheduler_manual hourly.organization_id hourly.id none none none
        (codes "r")
        (state_of given_up) in
    let after =
      execute_scheduler_job any_line hourly.id
        (some (codes "r"))
        (codes "r")
        refused
        5
        6
        started.0 in
    (started.1 ≡ ok true)
    × (Dict.get (codes "r") (execute_all any_line hourly.id (timeout ∷ []) after).runs
        ≡ some (new_run manual hourly.id))
trigger-stuck_example =
    trigger-stuck any_line given_up none none none (codes "r") refused 5 6 (timeout ∷ [])
      (state_of given_up) given_up_found refl (omega arith)
