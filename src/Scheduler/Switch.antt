-- ===== src/Scheduler/Switch.antt =====
-- Schedulers that are switched on and off by `toggle_scheduler`.
use costpilot.Prelude.{ℕ, Bool, true, false, Option, none, some, ◌≡◌, refl, arith, ok}
use costpilot.Text.{Text}
use costpilot.Text.Laws.{text_instance}
use costpilot.Dict
use costpilot.Dict.{IsDict}
use costpilot.Scheduler.{job_id, unschedule_scheduler_job, Config, State}
use costpilot.Scheduler.Schedule.{get-unschedule}
use costpilot.Scheduler.Execution.{Inputs, execute_scheduler_job, execute_config}
use costpilot.Scheduler.Runs.{get-set_self}
use costpilot.Scheduler.Service.{
  get_scheduler_config, in_organization, toggle_scheduler, toggle_config,
}

module _ (valid_crontab : Text → Bool) where
  execute-disabled :
      (id : Text) (c : Config) (existing : Option Text) (fresh_id : Text) (i : Inputs)
      (start end : ℕ) (st : State)
      → Dict.get id st.configs ≡ some c
      → c.is_enabled ≡ false
      → execute_scheduler_job valid_crontab id existing fresh_id i start end st ≡ st
  unfolding execute_scheduler_job execute_config
  execute-disabled id c existing fresh_id i start end st found off = rw found (ground (arith, off))

  -- Switching off the scheduler of an organization succeeds: APScheduler then has no job for it, and
  -- a call of its job, scheduled or by hand, that was already on its way changes nothing.
  pub toggle_scheduler-off :
      (c : Config) (existing : Option Text) (fresh_id : Text) (i : Inputs) (now start end : ℕ)
      (st : State)
      → Dict.get c.id st.configs ≡ some c
      → IsDict st.jobs
      → let (st', result) = toggle_scheduler valid_crontab c.organization_id c.id false now st in
        (result ≡ ok true)
        × (Dict.get (job_id c.id) st'.jobs ≡ none)
        × (execute_scheduler_job valid_crontab c.id existing fresh_id i start end st' ≡ st')
  unfolding toggle_scheduler toggle_config get_scheduler_config in_organization
  toggle_scheduler-off c existing fresh_id i now start end st found d =
      let c' : Config = record c { is_enabled = false } in
      let st' : State = record st {
        configs = Dict.set c.id c' st.configs;
        jobs = unschedule_scheduler_job c.id st.jobs;
      } in
      rw (found, (text_instance.same_iff c.organization_id c.organization_id).1 refl)
        (
          refl,
          ground (
            arith,
            get-unschedule c.id (job_id c.id) st.jobs d,
            text_instance.same_iff (job_id c.id) (job_id c.id),
          ),
          execute-disabled c.id c' existing fresh_id i start end st'
              (get-set_self c.id c' st.configs) refl,
        )
