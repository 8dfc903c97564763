-- ===== src/Scheduler.antt =====
-- The scheduler's state, and which jobs are handed to APScheduler: `schedule_scheduler_job` and
-- `unschedule_scheduler_job` of backend/app/scheduler/executor.py. APScheduler's jobs are a dict from
-- job identifiers to triggers; its reading of a crontab line is a parameter, which may fail. Times
-- are in microseconds, and each function reads the clock once.
pub mod Execution
pub mod Service
pub mod Schedule
pub mod Runs
pub mod Failing
pub mod DeadLetters
pub mod Manual
pub mod Switch
pub mod Update
pub mod Letters
mod Tests
use costpilot.Prelude.{
  ℕ, Bool, true, false, not, Option, none, some, List, [], ◌∷◌, ◌++◌, ltb, leb, if◌then◌else◌,
}
use costpilot.Text.{Text, codes}
use costpilot.Text.Laws.{text_instance}
use costpilot.Dict

pub data ScheduleType : Type 0 where
  interval cron once : ScheduleType

pub data SchedulerStatus : Type 0 where
  pending running completed failed cancelled partial : SchedulerStatus

pub data TriggerType : Type 0 where
  scheduled manual api : TriggerType

pub record Config : Type 0 where
  pub id : Text
  pub organization_id : Text
  pub collect_expenses : Bool
  pub collect_resources : Bool
  pub collect_recommendations : Bool
  pub schedule_type : ScheduleType
  pub interval_minutes : Option ℕ
  pub cron_expression : Option Text
  pub start_date : Option ℕ
  pub end_date : Option ℕ
  pub is_enabled : Bool
  pub last_run_at : Option ℕ
  pub consecutive_failures : ℕ
  pub max_consecutive_failures : ℕ

pub record Run : Type 0 where
  pub scheduler_config_id : Text
  pub status : SchedulerStatus
  pub trigger_type : TriggerType
  pub collected_expenses : Bool
  pub collected_resources : Bool
  pub collected_recommendations : Bool
  pub expenses_status : Option SchedulerStatus
  pub resources_status : Option SchedulerStatus
  pub recommendations_status : Option SchedulerStatus
  pub expenses_records : ℕ
  pub resources_records : ℕ
  pub recommendations_records : ℕ
  pub completed_at : Option ℕ
  pub error_message : Option Text

pub record DeadLetterJob : Type 0 where
  pub scheduler_config_id : Text
  pub original_run_id : Text
  pub error_message : Text
  pub failure_count : ℕ
  pub max_retries : ℕ

pub data Trigger : Type 0 where
  interval_trigger : ℕ → Trigger
  cron_trigger : Text → Trigger
  date_trigger : ℕ → Trigger

abbrev pub Jobs : Type 0
Jobs = List (Text × Trigger)

-- The tables of the scheduler, by identifier, and APScheduler's jobs.
pub record State : Type 0 where
  pub configs : List (Text × Config)
  pub runs : List (Text × Run)
  pub dead_letters : List DeadLetterJob
  pub jobs : Jobs

abbrev pub job_id : Text → Text
job_id id = codes "scheduler_" ++ id

unfoldable pub unschedule_scheduler_job : Text → Jobs → Jobs
unschedule_scheduler_job id jobs =
    if Dict.contains (job_id id) jobs then Dict.delete (job_id id) jobs else jobs

abbrev pub has_ended : Option ℕ → ℕ → Bool
has_ended none now = false
has_ended (some t) now = ltb t now

-- `CronTrigger.from_crontab` accepts the line, or raises.
module _ (valid_crontab : Text → Bool) where
  interval_of : Option ℕ → Option Trigger
  interval_of none = none
  interval_of (some minutes) = if leb 1 minutes then some (interval_trigger minutes) else none

  -- `none`: the call raises; `some none`: no trigger
  cron_of : Option Text → Option (Option Trigger)
  cron_of none = some none
  cron_of (some []) = some none
  cron_of (some (c ∷ line)) =
      if valid_crontab (c ∷ line) then some (some (cron_trigger (c ∷ line))) else none

  date_of : Option ℕ → ℕ → Option Trigger
  date_of none now = none
  date_of (some t) now = if ltb now t then some (date_trigger t) else none

  trigger_of : ScheduleType → Config → ℕ → Option (Option Trigger)
  unfolding interval_of cron_of date_of
  trigger_of interval c now = some (interval_of c.interval_minutes)
  trigger_of cron c now = cron_of c.cron_expression
  trigger_of once c now = some (date_of c.start_date now)

  unfoldable pub build_trigger : Config → ℕ → Option (Option Trigger)
  unfolding trigger_of
  build_trigger c now = trigger_of c.schedule_type c now

  add_job : Text → Option (Option Trigger) → Jobs → Jobs × Bool
  add_job id none jobs = (jobs, true)
  add_job id (some none) jobs = (jobs, false)
  add_job id (some (some trigger)) jobs = (Dict.set (job_id id) trigger jobs, false)

  -- The jobs after the call, and whether it raised.
  unfoldable pub schedule_scheduler_job : Config → ℕ → Jobs → Jobs × Bool
  unfolding add_job unschedule_scheduler_job
  schedule_scheduler_job c now jobs =
      let jobs' = unschedule_scheduler_job c.id jobs in
      if not c.is_enabled
      then (jobs', false)
      else if leb c.max_consecutive_failures c.consecutive_failures
      then (jobs', false)
      else if has_ended c.end_date now
      then (jobs', false)
      else add_job c.id (build_trigger c now) jobs'
