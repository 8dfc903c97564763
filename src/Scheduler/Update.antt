-- ===== src/Scheduler/Update.antt =====
-- `update_scheduler_config` of backend/app/scheduler/service.py, with the fields that take part of
-- `SchedulerConfigUpdate` in schemas.py. A request gives a field or leaves it out, and may give null.
mod Rescheduling
mod Tests
use costpilot.Prelude.{
  ℕ, Bool, true, false, not, ◌&&◌, ◌||◌, Option, none, some, is_some, if◌then◌else◌, bad_request,
  integrity_error, Result, ok, raise, raise_if, or_raise, ◌>>=◌, ◌>>◌,
}
use costpilot.Prelude
use costpilot.Text.{Text}
use costpilot.Text.Laws.{text_instance}
use costpilot.Dict
use costpilot.Scheduler.{
  ScheduleType, Config, State, schedule_scheduler_job, unschedule_scheduler_job,
}
use costpilot.Scheduler.Service.{
  missing, get_scheduler_config, no_minutes, no_line, is_interval, is_cron, scheduling,
}

pub data Field {ℓ} (A : Type ℓ) : Type ℓ where
  unset : Field A
  given : Option A → Field A

pub record Update : Type 0 where
  pub collect_expenses : Field Bool
  pub collect_resources : Field Bool
  pub collect_recommendations : Field Bool
  pub schedule_type : Field ScheduleType
  pub interval_minutes : Field ℕ
  pub cron_expression : Field Text
  pub start_date : Field ℕ
  pub end_date : Field ℕ
  pub is_enabled : Field Bool
  pub max_consecutive_failures : Field ℕ

-- `data.x`: null where the request leaves it out
abbrev pub value {ℓ} : {A : Type ℓ} → Field A → Option A
value unset = none
value (given v) = v

-- `data.x if data.x is not None else config.x`
abbrev pub or_current {ℓ} : {A : Type ℓ} → Option A → A → A
or_current none current = current
or_current (some v) current = v

-- the same, for a column that may be null
abbrev pub or_current_null {ℓ} : {A : Type ℓ} → Option A → Option A → Option A
or_current_null none current = current
or_current_null (some v) current = some v

validate_types : Update → Config → Result (Unit {0})
validate_types u c =
    raise_if
      ((is_some (value u.collect_expenses)
          || is_some (value u.collect_resources)
          || is_some (value u.collect_recommendations))
        && not (
            or_current (value u.collect_expenses) c.collect_expenses
            || or_current (value u.collect_resources) c.collect_resources
            || or_current (value u.collect_recommendations) c.collect_recommendations))
      (bad_request (Prelude.text "At least one data type must be selected for collection"))

validate_schedule : Option ScheduleType → Update → Config → Result (Unit {0})
validate_schedule none u c = ok tt
validate_schedule (some t) u c =
    raise_if
      (is_interval t && no_minutes (or_current_null (value u.interval_minutes) c.interval_minutes))
      (bad_request (Prelude.text "Interval minutes is required for interval schedule type"))
    >> raise_if (is_cron t && no_line (or_current_null (value u.cron_expression) c.cron_expression))
        (bad_request (Prelude.text "Cron expression is required for cron schedule type"))

-- `setattr`, and what the flush then does with null in a column that cannot be null
abbrev pub assign {ℓ} : {A : Type ℓ} → Field A → A → Result A
assign unset current = ok current
assign (given v) current = or_raise v integrity_error

abbrev pub assign_null {ℓ} : {A : Type ℓ} → Field A → Option A → Option A
assign_null unset current = current
assign_null (given v) current = v

unfoldable pub apply : Update → Config → Result Config
apply u c = do
  collect_expenses ← assign u.collect_expenses c.collect_expenses
  collect_resources ← assign u.collect_resources c.collect_resources
  collect_recommendations ← assign u.collect_recommendations c.collect_recommendations
  schedule_type ← assign u.schedule_type c.schedule_type
  is_enabled ← assign u.is_enabled c.is_enabled
  limit ← assign u.max_consecutive_failures c.max_consecutive_failures
  ok (record c {
    collect_expenses = collect_expenses;
    collect_resources = collect_resources;
    collect_recommendations = collect_recommendations;
    schedule_type = schedule_type;
    interval_minutes = assign_null u.interval_minutes c.interval_minutes;
    cron_expression = assign_null u.cron_expression c.cron_expression;
    start_date = assign_null u.start_date c.start_date;
    end_date = assign_null u.end_date c.end_date;
    is_enabled = is_enabled;
    max_consecutive_failures = limit;
  })

abbrev pub is_given {ℓ} : {A : Type ℓ} → Field A → Bool
is_given unset = false
is_given (given v) = true

-- `any(field in update_data for field in schedule_fields)`
unfoldable pub reschedules : Update → Bool
reschedules u =
    is_given u.schedule_type
    || is_given u.interval_minutes
    || is_given u.cron_expression
    || is_given u.start_date
    || is_given u.end_date
    || is_given u.is_enabled

-- the row that the flush writes, or what the request raises
unfoldable pub update_row : Update → Config → Result Config
unfolding validate_types validate_schedule
update_row u c = validate_types u c >> validate_schedule (value u.schedule_type) u c >> apply u c

module _ (valid_crontab : Text → Bool) where
  update_jobs : Bool → Config → ℕ → State → State × Bool
  unfolding scheduling
  update_jobs false c now st = (record st { configs = Dict.set c.id c st.configs }, true)
  update_jobs true c now st =
      if c.is_enabled
      then scheduling c st (schedule_scheduler_job valid_crontab c now st.jobs)
      else (
        record st {
          configs = Dict.set c.id c st.configs;
          jobs = unschedule_scheduler_job c.id st.jobs;
        },
        true,
      )

  update_stored : Update → Result Config → ℕ → State → State × Result Bool
  unfolding update_jobs
  update_stored u (raise e) now st = (st, raise e)
  update_stored u (ok c) now st =
      let (st', done) = update_jobs (reschedules u) c now st in (st', ok done)

  unfoldable pub update_config : Update → Option Config → ℕ → State → State × Result Bool
  unfolding update_stored
  update_config u none now st = (st, raise missing)
  update_config u (some c) now st = update_stored u (update_row u c) now st

  -- `ok false`: the schedule call raised
  unfoldable pub update_scheduler_config : Text → Text → Update → ℕ → State → State × Result Bool
  unfolding update_config
  update_scheduler_config org id u now st = update_config u (get_scheduler_config org id st) now st
