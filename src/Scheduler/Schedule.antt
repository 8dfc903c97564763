-- ===== src/Scheduler/Schedule.antt =====
-- Which jobs APScheduler has after a schedule call.
use costpilot.Prelude.{
  ℕ, Bool, true, false, Option, none, some, ◌≡◌, leb, if◌then◌else◌, ◌==◌, arith,
}
use costpilot.Text.{Text}
use costpilot.Text.Laws.{text_instance}
use costpilot.Dict
use costpilot.Dict.{IsDict}
use costpilot.Dict.Laws.{get-set, get-delete, contains-get, delete-IsDict, set-IsDict}
use costpilot.Scheduler.{
  Config, Jobs, Trigger, add_job, job_id, has_ended, build_trigger, schedule_scheduler_job,
  unschedule_scheduler_job,
}

-- what the conditions of a schedule call ask for
abbrev pub wanted : Bool → Bool → Bool → Option (Option Trigger) → Option Trigger
wanted true false false (some (some t)) = some t
wanted _ _ _ _ = none

pub get-unschedule :
    (id j : Text) (jobs : Jobs)
    → IsDict jobs
    → Dict.get j (unschedule_scheduler_job id jobs)
      ≡ (if job_id id == j then none else Dict.get j jobs)
unfolding unschedule_scheduler_job
get-unschedule id j jobs d = ground (
  arith,
  get-delete (job_id id) j jobs d,
  contains-get (job_id id) jobs,
  text_instance.same_iff (job_id id) j,
)

pub unschedule-IsDict :
    (id : Text) (jobs : Jobs) → IsDict jobs → IsDict (unschedule_scheduler_job id jobs)
unfolding unschedule_scheduler_job
unschedule-IsDict id jobs d = ground (arith, delete-IsDict (job_id id) jobs d)

module _ (valid_crontab : Text → Bool) where
  add_job-IsDict :
      (id : Text) (t : Option (Option Trigger)) (jobs : Jobs)
      → IsDict jobs
      → IsDict (add_job valid_crontab id t (unschedule_scheduler_job id jobs)).0
  unfolding add_job
  add_job-IsDict id none jobs d = unschedule-IsDict id jobs d
  add_job-IsDict id (some none) jobs d = unschedule-IsDict id jobs d
  add_job-IsDict id (some (some t)) jobs d =
      set-IsDict (job_id id) t (unschedule_scheduler_job id jobs) (unschedule-IsDict id jobs d)

  get-add_job :
      (id j : Text) (t : Option (Option Trigger)) (jobs : Jobs)
      → IsDict jobs
      → Dict.get j (add_job valid_crontab id t (unschedule_scheduler_job id jobs)).0
        ≡ (if job_id id == j then wanted true false false t else Dict.get j jobs)
  unfolding add_job
  get-add_job id j none jobs d = get-unschedule id j jobs d
  get-add_job id j (some none) jobs d = get-unschedule id j jobs d
  get-add_job id j (some (some t)) jobs d = ground (
    arith,
    get-unschedule id j jobs d,
    get-set (job_id id) j t (unschedule_scheduler_job id jobs),
  )

  -- Where no identifier has two jobs: after a schedule call the scheduler has a job exactly when it is
  -- enabled, below its limit and not past its end date and its schedule gives a trigger, the job has
  -- that trigger, and every other job is as it was.
  pub get-schedule :
      (c : Config) (now : ℕ) (jobs : Jobs) (j : Text)
      → IsDict jobs
      → Dict.get j (schedule_scheduler_job valid_crontab c now jobs).0 ≡ (
          if job_id c.id == j
          then wanted c.is_enabled
              (leb c.max_consecutive_failures c.consecutive_failures)
              (has_ended c.end_date now)
              (build_trigger valid_crontab c now)
          else Dict.get j jobs)
  unfolding schedule_scheduler_job
  get-schedule c now jobs j d = ground (
    arith,
    get-unschedule c.id j jobs d,
    get-add_job c.id j (build_trigger valid_crontab c now) jobs d,
  )

  pub schedule-IsDict :
      (c : Config) (now : ℕ) (jobs : Jobs)
      → IsDict jobs
      → IsDict (schedule_scheduler_job valid_crontab c now jobs).0
  unfolding schedule_scheduler_job
  schedule-IsDict c now jobs d = ground (
    arith,
    unschedule-IsDict c.id jobs d,
    add_job-IsDict c.id (build_trigger valid_crontab c now) jobs d,
  )
