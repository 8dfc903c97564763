-- ===== src/Scheduler/Update/Tests.antt =====
-- Updates of a scheduler of expenses every hour: a new crontab line, and no interval.
use costpilot.Prelude.{true, none, some, ◌≡◌, refl, if◌then◌else◌, ◌⊎◌, ◌==◌, ok}
use costpilot.Text.{codes, text_eq}
use costpilot.Text.Laws.{text_instance}
use costpilot.Dict
use costpilot.Scheduler.{
  Config, cron, job_id, schedule_scheduler_job, unschedule_scheduler_job, add_job, build_trigger,
  trigger_of, cron_of,
}
use costpilot.Scheduler.Service.{get_scheduler_config, in_organization, scheduling}
use costpilot.Scheduler.Tests.{any_line, hourly, jobs, state_of, found, jobs-IsDict}
use costpilot.Scheduler.Update.{
  given, Update, reschedules, update_row, update_scheduler_config, update_config, update_stored,
  update_jobs, validate_types, validate_schedule, apply,
}
use costpilot.Scheduler.Update.Rescheduling.{
  wanted_job, cleared, written, LeavesSchedule, update_scheduler_config-job,
  update_scheduler_config-cleared,
}

abbrev daily : Update
daily = record cleared {
  schedule_type = given (some cron);
  cron_expression = given (some (codes "0 0 * * *"));
}

daily_done :
    (update_scheduler_config any_line hourly.organization_id hourly.id daily 5 (state_of hourly)).1
    ≡ ok true
unfolding update_scheduler_config update_config update_stored update_jobs update_row validate_types
    validate_schedule apply reschedules get_scheduler_config in_organization scheduling
    schedule_scheduler_job unschedule_scheduler_job add_job build_trigger trigger_of cron_of
    Dict.get Dict.set Dict.contains Dict.delete text_eq
daily_done = refl

update_scheduler_config-job_example :
    let st' =
      (update_scheduler_config any_line hourly.organization_id hourly.id daily 5
        (state_of hourly)).0 in
    (Dict.get hourly.id st'.configs ≡ some (written daily hourly))
    × ((LeavesSchedule daily
          × (Dict.get (job_id hourly.id) st'.jobs ≡ Dict.get (job_id hourly.id) jobs))
        ⊎ ((LeavesSchedule daily → ⊥)
            × (Dict.get (job_id hourly.id) st'.jobs ≡ (
                if job_id hourly.id == job_id hourly.id
                then wanted_job any_line (written daily hourly) 5
                else Dict.get (job_id hourly.id) jobs))))
update_scheduler_config-job_example =
    update_scheduler_config-job any_line daily hourly 5 (state_of hourly) (job_id hourly.id) found
      jobs-IsDict daily_done

update_scheduler_config-cleared_example :
    let (st', result) =
      update_scheduler_config any_line hourly.organization_id hourly.id cleared 5
        (state_of hourly) in
    let c' : Config = record hourly { interval_minutes = none } in
    (result ≡ ok true)
    × (Dict.get hourly.id st'.configs ≡ some c')
    × (Dict.get (job_id hourly.id) st'.jobs ≡ none)
    × (Dict.get (job_id hourly.id) (schedule_scheduler_job any_line c' 6 jobs).0 ≡ none)
update_scheduler_config-cleared_example =
    update_scheduler_config-cleared any_line hourly 5 6 (state_of hourly) jobs found jobs-IsDict
      jobs-IsDict refl
