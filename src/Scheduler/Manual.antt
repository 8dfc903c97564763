-- ===== src/Scheduler/Manual.antt =====
-- Runs that are started by hand.
use costpilot.Prelude.{ℕ, ◌≤◌, Bool, true, Option, some, List, ◌≡◌, refl, arith, ok}
use costpilot.Text.{Text}
use costpilot.Text.Laws.{text_instance}
use costpilot.Dict
use costpilot.Scheduler.{manual, Config, State}
use costpilot.Scheduler.Execution.{Inputs, new_run, execute_scheduler_job}
use costpilot.Scheduler.Runs.{execute-stopped, get-set_self}
use costpilot.Scheduler.Service.{
  get_scheduler_config, in_organization, trigger_scheduler_manual, trigger_config,
  execute_manual_run,
}
use costpilot.Scheduler.DeadLetters.{Execution, execute_all, execute_all-stopped}

-- A request for a scheduler that is enabled answers that it has started a run, and records the run.
pub trigger-started :
    (c : Config) (e r m : Option Bool) (run_id : Text) (st : State)
    → Dict.get c.id st.configs ≡ some c
    → c.is_enabled ≡ true
    → trigger_scheduler_manual c.organization_id c.id e r m run_id st
      ≡ (record st { runs = Dict.set run_id (new_run manual c.id) st.runs }, ok true)
unfolding trigger_scheduler_manual get_scheduler_config in_organization trigger_config
    execute_manual_run
trigger-started c e r m run_id st found enabled =
    rw found (ground (arith, enabled, text_instance.same_iff c.organization_id c.organization_id))

-- A run that is started by hand for an enabled scheduler at its limit is answered as started, and is
-- recorded as running still after its background task and after any later calls of the scheduler's
-- job, however many.
pub trigger-stuck :
    (valid_crontab : Text → Bool) (c : Config) (e r m : Option Bool) (run_id : Text) (i : Inputs)
    (start end : ℕ) (later : List Execution) (st : State)
    → Dict.get c.id st.configs ≡ some c
    → c.is_enabled ≡ true
    → c.max_consecutive_failures ≤ c.consecutive_failures
    → let started = trigger_scheduler_manual c.organization_id c.id e r m run_id st in
      let after =
        execute_scheduler_job valid_crontab c.id (some run_id) run_id i start end started.0 in
      (started.1 ≡ ok true)
      × (Dict.get run_id (execute_all valid_crontab c.id later after).runs
          ≡ some (new_run manual c.id))
trigger-stuck valid_crontab c e r m run_id i start end later st found enabled limit =
    let st' : State = record st { runs = Dict.set run_id (new_run manual c.id) st.runs } in
    rw
      (
        trigger-started c e r m run_id st found enabled,
        execute-stopped valid_crontab c.id c (some run_id) run_id i start end st' found limit,
        execute_all-stopped valid_crontab c.id c later st' found limit,
      )
      (refl, get-set_self run_id (new_run manual c.id) st.runs)
