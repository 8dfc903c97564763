-- ===== src/Scheduler/Runs.antt =====
-- What a run records: the status of a run and the count of failures.
use costpilot.Prelude.{ℕ, ◌<◌, ◌≤◌, Bool, true, false, Option, none, some, List, ◌≡◌, refl, arith}
use costpilot.Text.{Text}
use costpilot.Text.Laws.{text_instance}
use costpilot.Dict
use costpilot.Dict.Laws.{get-set}
use costpilot.Scheduler.{scheduled, completed, failed, Config, Run, State}
use costpilot.Scheduler.Execution.{
  no_fault, Inputs, Results, returned, failure_count, final_status, finalize, settle,
  expenses_phase, collect, execute_scheduler_job, finish, execute_run, execute_config, new_run,
  run_to_use,
}

pub get-set_self :
    {V : Type 0} (k : Text) (v : V) (d : List (Text × V)) → Dict.get k (Dict.set k v d) ≡ some v
get-set_self k v d = ground (arith, get-set k k v d, text_instance.same_iff k k)

module _ (valid_crontab : Text → Bool) where
  -- A scheduler that is enabled and below its limit is run.
  pub execute_config-run :
      (c : Config) (existing : Option Text) (fresh_id : Text) (i : Inputs) (start end : ℕ)
      (st : State)
      → c.is_enabled ≡ true
      → c.consecutive_failures < c.max_consecutive_failures
      → execute_config valid_crontab (some c) existing fresh_id i start end st
        ≡ execute_run valid_crontab c (run_to_use existing fresh_id c.id st) i start end st
  unfolding execute_config
  execute_config-run c existing fresh_id i start end st enabled below =
      ground (arith, enabled, below)

  pub execute-finish :
      (id : Text) (c : Config) (fresh_id : Text) (i : Inputs) (start end : ℕ) (st : State)
      → Dict.get id st.configs ≡ some c
      → c.is_enabled ≡ true
      → c.consecutive_failures < c.max_consecutive_failures
      → execute_scheduler_job valid_crontab id none fresh_id i start end st
        ≡ finish valid_crontab fresh_id c start end i.fault
            (collect c i (new_run scheduled c.id))
            st
  unfolding execute_scheduler_job execute_run run_to_use
  execute-finish id c fresh_id i start end st found enabled below =
      rw found (execute_config-run c none fresh_id i start end st enabled below)

  execute_config-stopped :
      (c : Config) (existing : Option Text) (fresh_id : Text) (i : Inputs) (start end : ℕ)
      (st : State)
      → c.max_consecutive_failures ≤ c.consecutive_failures
      → execute_config valid_crontab (some c) existing fresh_id i start end st ≡ st
  unfolding execute_config
  execute_config-stopped c existing fresh_id i start end st limit = ground (arith, limit)

  -- A scheduler at its limit is not run: every later call changes nothing.
  pub execute-stopped :
      (id : Text) (c : Config) (existing : Option Text) (fresh_id : Text) (i : Inputs)
      (start end : ℕ) (st : State)
      → Dict.get id st.configs ≡ some c
      → c.max_consecutive_failures ≤ c.consecutive_failures
      → execute_scheduler_job valid_crontab id existing fresh_id i start end st ≡ st
  unfolding execute_scheduler_job
  execute-stopped id c existing fresh_id i start end st found limit =
      rw found (execute_config-stopped c existing fresh_id i start end st limit)

  final_status-completed :
      (results : Results) (failures : ℕ)
      → failure_count results ≡ 0
      → final_status results failures ≡ (completed, 0)
  unfolding final_status
  final_status-completed results failures h = ground (arith, h)

  pub finalize-completed :
      (run_id : Text) (c : Config) (start end : ℕ) (r : Run) (results : Results) (st : State)
      → failure_count results ≡ 0
      → 0 < c.max_consecutive_failures
      → finalize valid_crontab run_id c start end (r, results) st ≡ record st {
        configs =
            Dict.set c.id
              (record c { consecutive_failures = 0; last_run_at = some start })
              st.configs;
        runs = Dict.set run_id (record r { status = completed; completed_at = some end }) st.runs;
      }
  unfolding finalize settle
  finalize-completed run_id c start end r results st h limit =
      rw (final_status-completed results c.consecutive_failures h) (ground (arith, limit))

  -- what a run of the expenses alone collects when the refresh says that it failed
  collect-refused :
      (c : Config) (i : Inputs) (n : ℕ) (r : Run)
      → c.collect_expenses ≡ true
      → c.collect_resources ≡ false
      → c.collect_recommendations ≡ false
      → i.expenses ≡ returned false n
      → (failure_count (collect c i r).1 ≡ 0) × ((collect c i r).0.expenses_status ≡ some failed)
  unfolding collect failure_count expenses_phase
  collect-refused c i n r e s m refused =
      (ground (arith, e, s, m, refused), ground (arith, e, s, m, refused))

  -- For a scheduler that collects expenses alone, is enabled and below its limit, whose refresh says
  -- that it failed while nothing raises: the run is recorded as completed although the status of its
  -- expenses is failed, and the count of consecutive failures is set to 0.
  pub execute-refused_refresh :
      (c : Config) (fresh_id : Text) (i : Inputs) (n start end : ℕ) (st : State)
      → Dict.get c.id st.configs ≡ some c
      → c.is_enabled ≡ true
      → c.consecutive_failures < c.max_consecutive_failures
      → c.collect_expenses ≡ true
      → c.collect_resources ≡ false
      → c.collect_recommendations ≡ false
      → i.expenses ≡ returned false n
      → i.fault ≡ no_fault
      → let st' = execute_scheduler_job valid_crontab c.id none fresh_id i start end st in
        (r : Run) × (Dict.get fresh_id st'.runs ≡ some r)
        × (r.status ≡ completed)
        × (r.expenses_status ≡ some failed)
        × (Dict.get c.id st'.configs
            ≡ some (record c { consecutive_failures = 0; last_run_at = some start }))
  unfolding finish Dict.get collect
  execute-refused_refresh c fresh_id i n start end st found enabled below e s m refused fault =
      let done = collect c i (new_run scheduled c.id) in
      let quiet = collect-refused c i n (new_run scheduled c.id) e s m refused in
      let r : Run = record (done.0) { status = completed; completed_at = some end } in
      let c' : Config = record c { consecutive_failures = 0; last_run_at = some start } in
      rw
        (
          execute-finish c.id c fresh_id i start end st found enabled below,
          fault,
          finalize-completed fresh_id c start end done.0 done.1 st quiet.0 (omega arith),
        )
        (r, get-set_self fresh_id r st.runs, refl, quiet.1, get-set_self c.id c' st.configs)
