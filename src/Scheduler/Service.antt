-- ===== src/Scheduler/Service.antt =====
-- Creating, deleting, switching and running schedulers by hand: scheduler/service.py, with
-- `execute_manual_run` of scheduler/executor.py. Each function gives the tables and jobs after it
-- with its result. A name or a description does not take part and is left out.
use costpilot.Prelude.{
  ℕ, zero, suc, Bool, true, false, not, ◌&&◌, ◌||◌, Option, none, some, [], ◌∷◌, if◌then◌else◌,
  ◌==◌, select, Error, Result, ok, raise, bad_request, not_found,
}
use costpilot.Prelude
use costpilot.Text.{Text}
use costpilot.Text.Laws.{text_instance}
use costpilot.Dict
use costpilot.Scheduler.{
  interval, cron, manual, Config, State, Jobs, ScheduleType, schedule_scheduler_job,
  unschedule_scheduler_job,
}
use costpilot.Scheduler.Execution.{new_run}

-- the identifier in the message is left out
abbrev pub missing : Error
missing = not_found (Prelude.text "Scheduler config not found")

unfoldable pub in_organization : Text → Option Config → Option Config
in_organization org none = none
in_organization org (some c) = if c.organization_id == org then some c else none

unfoldable pub get_scheduler_config : Text → Text → State → Option Config
unfolding in_organization
get_scheduler_config org id st = in_organization org (Dict.get id st.configs)

-- a number or a text that Python counts as false
abbrev pub no_minutes : Option ℕ → Bool
no_minutes none = true
no_minutes (some zero) = true
no_minutes (some (suc n)) = false

abbrev pub no_line : Option Text → Bool
no_line none = true
no_line (some []) = true
no_line (some (c ∷ line)) = false

abbrev pub is_interval : ScheduleType → Bool
is_interval interval = true
is_interval _ = false

abbrev pub is_cron : ScheduleType → Bool
is_cron cron = true
is_cron _ = false

-- the checks of `create_scheduler_config`
unfoldable pub validate : Config → Option Error
validate c =
    if not (c.collect_expenses || c.collect_resources || c.collect_recommendations)
    then some (bad_request (Prelude.text "At least one data type must be selected for collection"))
    else if is_interval c.schedule_type && no_minutes c.interval_minutes
    then some (bad_request (Prelude.text "Interval minutes is required for interval schedule type"))
    else if is_cron c.schedule_type && no_line c.cron_expression
    then some (bad_request (Prelude.text "Cron expression is required for cron schedule type"))
    else none

-- `{field: value}` of the manual run's overrides
abbrev pub override : Option Bool → Bool → Bool
override none b = b
override (some b') b = b'

-- The run is committed; the background task is a later `execute_scheduler_job`.
unfoldable pub execute_manual_run : Config → Text → State → State
execute_manual_run c run_id st = record st { runs = Dict.set run_id (new_run manual c.id) st.runs }

unfoldable pub trigger_config :
    Option Config → Option Bool → Option Bool → Option Bool → Text → State → State × Result Bool
unfolding execute_manual_run
trigger_config none e r m run_id st = (st, raise missing)
trigger_config (some c) e r m run_id st = if not c.is_enabled then (st, ok false) else (
  execute_manual_run
      (record c {
        collect_expenses = override e c.collect_expenses;
        collect_resources = override r c.collect_resources;
        collect_recommendations = override m c.collect_recommendations;
      })
      run_id st,
  ok true,
)

-- The overrides are set on the request's own copy of the row, and taken back before it is written.
unfoldable pub trigger_scheduler_manual :
    Text → Text → Option Bool → Option Bool → Option Bool → Text → State → State × Result Bool
unfolding trigger_config
trigger_scheduler_manual org id e r m run_id st =
    trigger_config (get_scheduler_config org id st) e r m run_id st

delete_config : Option Config → State → State × Result (Unit {0})
delete_config none st = (st, raise missing)
delete_config (some c) st = (
  record st {
    configs = Dict.delete c.id st.configs;
    runs = select (λ e. not (e.1.scheduler_config_id == c.id)) st.runs;
    jobs = unschedule_scheduler_job c.id st.jobs;
  },
  ok tt,
)

-- The rows of its runs go with a scheduler.
unfoldable pub delete_scheduler_config : Text → Text → State → State × Result (Unit {0})
unfolding delete_config
delete_scheduler_config org id st = delete_config (get_scheduler_config org id st) st

-- What a request whose schedule call may raise leaves: the session of a request that raises is
-- rolled back, the jobs are as the call left them.
unfoldable pub scheduling : Config → State → Jobs × Bool → State × Bool
scheduling c st (jobs', true) = (record st { jobs = jobs' }, false)
scheduling c st (jobs', false) =
    (record st { jobs = jobs'; configs = Dict.set c.id c st.configs }, true)

module _ (valid_crontab : Text → Bool) where
  create_checked : Option Error → Config → ℕ → State → State × Result Bool
  unfolding scheduling
  create_checked (some e) c now st = (st, raise e)
  create_checked none c now st =
      if c.is_enabled
      then (let (st', done) =
            scheduling c st (schedule_scheduler_job valid_crontab c now st.jobs) in
          (st', ok done))
      else (record st { configs = Dict.set c.id c st.configs }, ok true)

  -- `ok false`: the schedule call raised
  unfoldable pub create_scheduler_config : Config → ℕ → State → State × Result Bool
  unfolding create_checked
  create_scheduler_config c now st =
      create_checked (validate c) (record c { consecutive_failures = 0 }) now st

  unfoldable pub toggle_config : Option Config → Bool → ℕ → State → State × Result Bool
  unfolding scheduling
  toggle_config none is_enabled now st = (st, raise missing)
  toggle_config (some c) true now st =
      let c' : Config = record c { is_enabled = true; consecutive_failures = 0 } in
      let (st', done) = scheduling c' st (schedule_scheduler_job valid_crontab c' now st.jobs) in
      (st', ok done)
  toggle_config (some c) false now st = (
    record st {
      configs = Dict.set c.id (record c { is_enabled = false }) st.configs;
      jobs = unschedule_scheduler_job c.id st.jobs;
    },
    ok true,
  )

  unfoldable pub toggle_scheduler : Text → Text → Bool → ℕ → State → State × Result Bool
  unfolding toggle_config
  toggle_scheduler org id is_enabled now st =
      toggle_config (get_scheduler_config org id st) is_enabled now st
