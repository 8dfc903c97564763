-- ===== src/Scheduler/Execution.antt =====
-- `execute_scheduler_job` of scheduler/executor.py. What the three collections do, and an exception of
-- anything else, are inputs; the tables change only through this run while it runs.
use costpilot.Prelude.{
  ℕ, ◌+◌, Bool, true, false, not, ◌||◌, Option, none, some, [], ◌∷◌, ◌++◌, leb, nat_beq,
  if◌then◌else◌,
}
use costpilot.Text.{Text, codes}
use costpilot.Text.Laws.{text_instance}
use costpilot.Dict
use costpilot.Scheduler.{
  once, completed, failed, partial, running, scheduled, Config, Run, DeadLetterJob, State,
  ScheduleType, SchedulerStatus, TriggerType, schedule_scheduler_job, unschedule_scheduler_job,
}

-- A collection returns, or raises an exception with the text `str(e)`. The refresh of the cost cache
-- returns a result that may say that it failed. After a collection has returned, recording it in the
-- run's row may raise: its result then stands in `results` beside the error.
pub data Outcome : Type 0 where
  returned : Bool → ℕ → Outcome
  raised : Text → Outcome
  unrecorded : Bool → Text → Outcome

-- An exception outside the three collections, with its text: none, one before the final commit, or one
-- after it, of APScheduler as it is to take the job or of the session as it closes. The handler then
-- takes its own course to the end.
pub data Fault : Type 0 where
  no_fault : Fault
  before_commit after_commit : Text → Fault

pub record Inputs : Type 0 where
  pub expenses : Outcome
  pub resources : Outcome
  pub recommendations : Outcome
  pub fault : Fault

-- an entry of `results`
pub record PhaseResult : Type 0 where
  pub success : Bool
  pub error : Option Text

abbrev pub untried : PhaseResult
untried = record { success = false; error = none }

unfoldable pub expenses_phase : Outcome → Run → Run × PhaseResult
expenses_phase (returned true n) r = (
  record r { collected_expenses = true; expenses_status = some completed; expenses_records = n },
  record { success = true; error = none },
)
expenses_phase (returned false n) r = (
  record r { collected_expenses = true; expenses_status = some failed },
  record { success = false; error = none },
)
expenses_phase (raised m) r =
    (record r { expenses_status = some failed }, record { success = false; error = some m })
expenses_phase (unrecorded success m) r =
    (record r { expenses_status = some failed }, record { success = success; error = some m })

-- what these two return is a list: its length is counted
unfoldable pub resources_phase : Outcome → Run → Run × PhaseResult
resources_phase (returned _ n) r = (
  record r { collected_resources = true; resources_status = some completed; resources_records = n },
  record { success = true; error = none },
)
resources_phase (raised m) r =
    (record r { resources_status = some failed }, record { success = false; error = some m })
resources_phase (unrecorded _ m) r =
    (record r { resources_status = some failed }, record { success = true; error = some m })

unfoldable pub recommendations_phase : Outcome → Run → Run × PhaseResult
recommendations_phase (returned _ n) r = (
  record r {
    collected_recommendations = true;
    recommendations_status = some completed;
    recommendations_records = n;
  },
  record { success = true; error = none },
)
recommendations_phase (raised m) r =
    (record r { recommendations_status = some failed }, record { success = false; error = some m })
recommendations_phase (unrecorded _ m) r =
    (record r { recommendations_status = some failed }, record { success = true; error = some m })

abbrev pub truthy : Option Text → Bool
truthy none = false
truthy (some []) = false
truthy (some (c ∷ m)) = true

abbrev pub one_if : Bool → ℕ
one_if true = 1
one_if false = 0

pub record Results : Type 0 where
  pub expenses : PhaseResult
  pub resources : PhaseResult
  pub recommendations : PhaseResult

unfoldable pub collect : Config → Inputs → Run → Run × Results
unfolding expenses_phase resources_phase recommendations_phase
collect c i r =
    let (r1, e) = if c.collect_expenses then expenses_phase i.expenses r else (r, untried) in
    let (r2, s) = if c.collect_resources then resources_phase i.resources r1 else (r1, untried) in
    let (r3, m) =
      if c.collect_recommendations
      then recommendations_phase i.recommendations r2
      else (r2, untried) in
    (r3, record { expenses = e; resources = s; recommendations = m })

unfoldable pub success_count : Results → ℕ
success_count r =
    one_if r.expenses.success + one_if r.resources.success + one_if r.recommendations.success

unfoldable pub failure_count : Results → ℕ
failure_count r =
    one_if (truthy r.expenses.error)
    + one_if (truthy r.resources.error)
    + one_if (truthy r.recommendations.error)

-- the final status, and the consecutive failures after it
unfoldable pub final_status : Results → ℕ → SchedulerStatus × ℕ
unfolding success_count failure_count
final_status r failures =
    if nat_beq (failure_count r) 0
    then (completed, 0)
    else if nat_beq (success_count r) 0
    then (failed, failures + 1)
    else (partial, 0)

abbrev pub or_default : Option Text → Text
or_default none = codes "Job failed after multiple attempts"
or_default (some []) = codes "Job failed after multiple attempts"
or_default (some (c ∷ m)) = c ∷ m

abbrev pub dead_letter : Text → Config → Text → DeadLetterJob
dead_letter run_id c message = record {
  scheduler_config_id = c.id;
  original_run_id = run_id;
  error_message = message;
  failure_count = c.consecutive_failures;
  max_retries = c.max_consecutive_failures;
}

-- The tables are written, a dead letter is added once the failures have reached their maximum, and
-- then the job is taken from APScheduler.
unfoldable pub settle : Text → Config → Run → Text → State → State
settle run_id c r message st =
    let st' = record st {
      configs = Dict.set c.id c st.configs;
      runs = Dict.set run_id r st.runs;
    } in
    if leb c.max_consecutive_failures c.consecutive_failures
    then record st' {
      dead_letters = st.dead_letters ++ dead_letter run_id c message ∷ [];
      jobs = unschedule_scheduler_job c.id st.jobs;
    }
    else st'

unfoldable pub is_once : ScheduleType → Bool
is_once once = true
is_once _ = false

abbrev pub new_run : TriggerType → Text → Run
new_run trigger config_id = record {
  scheduler_config_id = config_id;
  status = running;
  trigger_type = trigger;
  collected_expenses = false;
  collected_resources = false;
  collected_recommendations = false;
  expenses_status = none;
  resources_status = none;
  recommendations_status = none;
  expenses_records = 0;
  resources_records = 0;
  recommendations_records = 0;
  completed_at = none;
  error_message = none;
}

-- a run that was made before, or a new one
unfoldable pub run_to_use : Option Text → Text → Text → State → Option (Text × Run)
run_to_use none fresh_id config_id st = some (fresh_id, new_run scheduled config_id)
run_to_use (some id) fresh_id config_id st = elim (Dict.get id st.runs) [
  | none ↦ none
  | some r ↦ some (id, r)
]

module _ (valid_crontab : Text → Bool) where
  unfoldable pub finalize : Text → Config → ℕ → ℕ → Run × Results → State → State
  unfolding settle final_status
  finalize run_id c start end (r, results) st =
      let (status, failures) = final_status results c.consecutive_failures in
      settle run_id (record c { consecutive_failures = failures; last_run_at = some start })
        (record r { status = status; completed_at = some end }) (or_default r.error_message) st

  -- the handler of a critical failure; a job that is not given up is scheduled again
  unfoldable pub critical : Text → Config → ℕ → ℕ → Text → Run → State → State
  unfolding settle is_once
  critical run_id c start end message r st =
      let c' : Config = record c {
        consecutive_failures = c.consecutive_failures + 1;
        last_run_at = some start;
      } in
      let st' =
        settle run_id c'
          (record r { status = failed; completed_at = some end; error_message = some message })
          message st in
      if leb c'.max_consecutive_failures c'.consecutive_failures
        || not c'.is_enabled
        || is_once c'.schedule_type
      then st'
      else record st' { jobs = (schedule_scheduler_job valid_crontab c' end st'.jobs).0 }

  -- The handler reads the rows again, as the final commit has left them.
  critical_again : Text → Option Config → Option Run → ℕ → ℕ → Text → State → State
  unfolding critical
  critical_again run_id (some c) (some r) start end message st =
      critical run_id c start end message r st
  critical_again run_id _ _ start end message st = st

  -- After the final commit the job is still there, where APScheduler raises.
  unfoldable pub finish : Text → Config → ℕ → ℕ → Fault → Run × Results → State → State
  unfolding finalize critical critical_again
  finish run_id c start end no_fault done st = finalize run_id c start end done st
  finish run_id c start end (before_commit message) (r, results) st =
      critical run_id c start end message r st
  finish run_id c start end (after_commit message) done st =
      let st' = record (finalize run_id c start end done st) { jobs = st.jobs } in
      critical_again run_id (Dict.get c.id st'.configs) (Dict.get run_id st'.runs) start end message
        st'

  unfoldable pub execute_run : Config → Option (Text × Run) → Inputs → ℕ → ℕ → State → State
  unfolding finish
  execute_run c none i start end st = st
  execute_run c (some (run_id, r)) i start end st =
      finish run_id c start end i.fault (collect c i r) st

  unfoldable pub execute_config :
      Option Config → Option Text → Text → Inputs → ℕ → ℕ → State → State
  unfolding execute_run run_to_use
  execute_config none existing fresh_id i start end st = st
  execute_config (some c) existing fresh_id i start end st =
      if not c.is_enabled
      then st
      else if leb c.max_consecutive_failures c.consecutive_failures
      then st
      else execute_run c (run_to_use existing fresh_id c.id st) i start end st

  unfoldable pub execute_scheduler_job : Text → Option Text → Text → Inputs → ℕ → ℕ → State → State
  unfolding execute_config
  execute_scheduler_job scheduler_id existing fresh_id i start end st =
      execute_config (Dict.get scheduler_id st.configs) existing fresh_id i start end st
