-- ===== src/Scheduler/DeadLetters.antt =====
-- A scheduler whose runs keep failing: the count, the dead letter, the job, and what comes after.
use costpilot.Prelude.{
  ℕ, ◌+◌, ◌<◌, ◌≤◌, Bool, true, false, not, ◌||◌, none, some, List, [], ◌∷◌, ◌≡◌, refl, leb,
  if◌then◌else◌, arith, length, length-append, All,
}
use costpilot.Text.{Text}
use costpilot.Text.Laws.{text_instance}
use costpilot.Dict
use costpilot.Dict.{IsDict}
use costpilot.Dict.Laws.{get-set}
use costpilot.Scheduler.{failed, scheduled, Config, Run, State, job_id, schedule_scheduler_job}
use costpilot.Scheduler.Schedule.{get-unschedule, unschedule-IsDict, schedule-IsDict}
use costpilot.Scheduler.Runs.{execute-finish, execute-stopped}
use costpilot.Scheduler.Execution.{
  Fault, no_fault, before_commit, after_commit, Inputs, Results, or_default, dead_letter, collect,
  success_count, failure_count, final_status, settle, execute_scheduler_job, is_once, finalize,
  critical, finish, new_run,
}
use costpilot.Scheduler.Failing.{IsFailing, collect-failing}

-- one call of `execute_scheduler_job` by APScheduler
pub record Execution : Type 0 where
  pub fresh_id : Text
  pub inputs : Inputs
  pub start : ℕ
  pub end : ℕ

unfoldable pub at_limit : Config → Bool
at_limit c = leb c.max_consecutive_failures c.consecutive_failures

-- What a run leaves: the row `c`, a dead letter and no job when `c` is at its limit.
pub record After (c : Config) (st st' : State) : Type 0 where
  config : Dict.get c.id st'.configs ≡ some c
  letters : length st'.dead_letters ≡ length st.dead_letters + (if at_limit c then 1 else 0)
  job : at_limit c ≡ true → Dict.get (job_id c.id) st'.jobs ≡ none
  jobs : IsDict st'.jobs

settle-After :
    (run_id : Text) (c : Config) (r : Run) (m : Text) (st : State)
    → IsDict st.jobs
    → After c st (settle run_id c r m st)
unfolding settle at_limit
settle-After run_id c r m st d = record {
  config = ground (arith, get-set c.id c.id c st.configs, text_instance.same_iff c.id c.id);
  letters = ground (arith, length-append st.dead_letters (dead_letter run_id c m ∷ []));
  job = ground (
    arith,
    get-unschedule c.id (job_id c.id) st.jobs d,
    text_instance.same_iff (job_id c.id) (job_id c.id),
  );
  jobs = ground (arith, unschedule-IsDict c.id st.jobs d);
}

-- the row after a run that failed
abbrev pub failed_again : Config → ℕ → Config
failed_again c start = record c {
  consecutive_failures = c.consecutive_failures + 1;
  last_run_at = some start;
}

final_status-failing :
    (results : Results) (failures : ℕ)
    → success_count results ≡ 0
    → 1 ≤ failure_count results
    → final_status results failures ≡ (failed, failures + 1)
unfolding final_status
final_status-failing results failures h g = ground (arith, h, g)

module _ (valid_crontab : Text → Bool) where
  finalize-failing :
      (run_id : Text) (c : Config) (start end : ℕ) (r : Run) (results : Results) (st : State)
      → IsDict st.jobs
      → success_count results ≡ 0
      → 1 ≤ failure_count results
      → After (failed_again c start) st (finalize valid_crontab run_id c start end (r, results) st)
  unfolding finalize
  finalize-failing run_id c start end r results st d h g =
      let counted : final_status results c.consecutive_failures
          ≡ (failed, c.consecutive_failures + 1) =
        final_status-failing results c.consecutive_failures h g in
      rw counted (
        settle-After run_id (failed_again c start)
          (record r { status = failed; completed_at = some end }) (or_default r.error_message) st d)

  -- The row that is not at its limit may be scheduled again.
  reschedule-After :
      (given_up : Bool) (c : Config) (now : ℕ) (st st' : State)
      → (given_up ≡ false → at_limit c ≡ false)
      → After c st st'
      → After c st (
          if given_up
          then st'
          else record st' { jobs = (schedule_scheduler_job valid_crontab c now st'.jobs).0 })
  reschedule-After true c now st st' g a = a
  reschedule-After false c now st st' g a = record {
    config = a.config;
    letters = a.letters;
    job = λ at. cc (at, g refl);
    jobs = schedule-IsDict valid_crontab c now st'.jobs a.jobs;
  }

  critical-failing :
      (run_id : Text) (c : Config) (start end : ℕ) (m : Text) (r : Run) (st : State)
      → IsDict st.jobs
      → After (failed_again c start) st (critical valid_crontab run_id c start end m r st)
  unfolding critical at_limit
  critical-failing run_id c start end m r st d =
      let c' : Config = failed_again c start in
      let r' : Run = record r {
        status = failed;
        completed_at = some end;
        error_message = some m;
      } in
      reschedule-After (at_limit c' || not c'.is_enabled || is_once c'.schedule_type) c' end st
        (settle run_id c' r' m st) (λ h. ground (arith, h)) (settle-After run_id c' r' m st d)

  finish-failing :
      (run_id : Text) (c : Config) (i : Inputs) (start end : ℕ) (r : Run) (st : State)
      (fault : Fault)
      → IsDict st.jobs
      → IsFailing c i fault
      → After
          (failed_again c start)
          st
          (finish valid_crontab run_id c start end fault (collect c i r) st)
  unfolding finish
  finish-failing run_id c i start end r st (after_commit m) d h = elim h [ ]
  finish-failing run_id c i start end r st (before_commit m) d h =
      critical-failing run_id c start end m (collect c i r).0 st d
  finish-failing run_id c i start end r st no_fault d h =
      let counts = collect-failing c i r h in
      finalize-failing run_id c start end (collect c i r).0 (collect c i r).1 st d counts.0 counts.1

  -- the state after one execution that fails
  pub execute-failing :
      (c : Config) (e : Execution) (st : State)
      → Dict.get c.id st.configs ≡ some c
      → c.is_enabled ≡ true
      → c.consecutive_failures < c.max_consecutive_failures
      → IsFailing c e.inputs e.inputs.fault
      → IsDict st.jobs
      → After
          (failed_again c e.start)
          st
          (execute_scheduler_job valid_crontab c.id none e.fresh_id e.inputs e.start e.end st)
  execute-failing c e st found enabled below failing d =
      rw
        (execute-finish valid_crontab c.id c e.fresh_id e.inputs e.start e.end st found enabled
          below)
        (finish-failing e.fresh_id c e.inputs e.start e.end (new_run scheduled c.id) st
          e.inputs.fault d failing)

  unfoldable pub execute_all : Text → List Execution → State → State
  execute_all id [] st = st
  execute_all id (e ∷ es) st =
      execute_all id es
        (execute_scheduler_job valid_crontab id none e.fresh_id e.inputs e.start e.end st)

  pub execute_all-stopped :
      (id : Text) (c : Config) (es : List Execution) (st : State)
      → Dict.get id st.configs ≡ some c
      → c.max_consecutive_failures ≤ c.consecutive_failures
      → execute_all id es st ≡ st
  unfolding execute_all
  execute_all-stopped id c [] st found limit = refl
  execute_all-stopped id c (e ∷ es) st found limit =
      rw (execute-stopped valid_crontab id c none e.fresh_id e.inputs e.start e.end st found limit)
        (execute_all-stopped id c es st found limit)

  -- A scheduler that is enabled and below its limit, whose runs all fail (everything that it collects
  -- raises an exception with a text, or something outside the collections raises one before the final
  -- commit), is given up by the run that reaches the limit: then one dead letter has been added,
  -- APScheduler has no job for it, and further calls of its job, however many, change nothing.
  pub executions-dead_letter :
      (c : Config) (es more : List Execution) (st : State)
      → Dict.get c.id st.configs ≡ some c
      → c.is_enabled ≡ true
      → c.consecutive_failures < c.max_consecutive_failures
      → c.consecutive_failures + length es ≡ c.max_consecutive_failures
      → All (λ e. IsFailing c e.inputs e.inputs.fault) es
      → IsDict st.jobs
      → (length (execute_all c.id es st).dead_letters ≡ length st.dead_letters + 1)
        × (Dict.get (job_id c.id) (execute_all c.id es st).jobs ≡ none)
        × (execute_all c.id more (execute_all c.id es st) ≡ execute_all c.id es st)
  unfolding execute_all at_limit
  executions-dead_letter c [] more st found enabled below count failing d =
      absurd (ground (arith, below, count))
  executions-dead_letter c (e ∷ []) more st found enabled below count (h, failing) d =
      let a = execute-failing c e st found enabled below h d in
      let st' =
        execute_scheduler_job valid_crontab c.id none e.fresh_id e.inputs e.start e.end st in
      let here : Dict.get c.id st'.configs ≡ some (failed_again c e.start) = a.config in
      let limit : c.max_consecutive_failures ≤ c.consecutive_failures + 1 = omega arith in
      (
        ground (arith, a.letters, limit),
        (a.job (ground (arith, limit))),
        execute_all-stopped c.id (failed_again c e.start) more st' here limit,
      )
  executions-dead_letter c (e ∷ e2 ∷ es) more st found enabled below count (h, failing) d =
      let a = execute-failing c e st found enabled below h d in
      let st' =
        execute_scheduler_job valid_crontab c.id none e.fresh_id e.inputs e.start e.end st in
      let here : Dict.get c.id st'.configs ≡ some (failed_again c e.start) = a.config in
      let still : c.consecutive_failures + 1 < c.max_consecutive_failures = omega arith in
      let (letters, gone, stopped) =
        executions-dead_letter (failed_again c e.start) (e2 ∷ es) more st' here enabled still
          (omega arith) failing a.jobs in
      (ground (arith, a.letters, letters, still), gone, stopped)
