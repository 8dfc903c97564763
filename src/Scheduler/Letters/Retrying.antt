-- ===== src/Scheduler/Letters/Retrying.antt =====
-- What a retry of a dead letter does for its scheduler, and what an abandoned one refuses.
use costpilot.Prelude.{
  ℕ, ◌<◌, Bool, true, false, Option, none, some, ◌≡◌, refl, arith, Result, ok, raise, bad_request,
}
use costpilot.Prelude
use costpilot.Text.{Text}
use costpilot.Text.Laws.{text_instance}
use costpilot.Dict
use costpilot.Scheduler.{scheduled, completed, Config, Run, State, job_id}
use costpilot.Scheduler.Execution.{
  no_fault, Inputs, failure_count, collect, new_run, execute_scheduler_job, execute_run, run_to_use,
  finish,
}
use costpilot.Scheduler.Runs.{get-set_self, execute_config-run, finalize-completed}
use costpilot.Scheduler.Letters.{
  Letter, Letters, abandoned, is_abandoned, retried_at, of_organization, get_dead_letter_job,
  retry_dead_letter_job, abandon_dead_letter_job,
}

-- the row as a retry leaves it
abbrev pub reset : Config → Config
reset c = record c { consecutive_failures = 0 }

-- The organization of its scheduler finds a dead letter.
get_dead_letter_job-found :
    (c : Config) (id : Text) (l : Letter) (letters : Letters) (st : State)
    → Dict.get id letters ≡ some l
    → Dict.get l.scheduler_config_id st.configs ≡ some c
    → get_dead_letter_job c.organization_id id letters st ≡ ok l
unfolding get_dead_letter_job of_organization
get_dead_letter_job-found c id l letters st got found =
    rw (got, found, (text_instance.same_iff c.organization_id c.organization_id).1 refl) refl

retry-ok :
    (c : Config) (id run_id : Text) (now : ℕ) (l : Letter) (letters : Letters) (st : State)
    → Dict.get id letters ≡ some l
    → Dict.get l.scheduler_config_id st.configs ≡ some c
    → is_abandoned l.status ≡ false
    → retry_dead_letter_job c.organization_id id run_id now letters st
      ≡ ok (
        Dict.set id (retried_at now l) letters,
        record st {
          configs = Dict.set c.id (reset c) st.configs;
          runs = Dict.set run_id (new_run scheduled c.id) st.runs;
        },
      )
unfolding retry_dead_letter_job
retry-ok c id run_id now l letters st got found live =
    rw (get_dead_letter_job-found c id l letters st got found, live, found) refl

run_to_use-found :
    (run_id fresh_id config_id : Text) (r : Run) (st : State)
    → Dict.get run_id st.runs ≡ some r
    → run_to_use (some run_id) fresh_id config_id st ≡ some (run_id, r)
unfolding run_to_use
run_to_use-found run_id fresh_id config_id r st run = rw (run_to_use, run) refl

module _ (valid_crontab : Text → Bool) where
  -- an execution of a run that was made for it, which meets no failure
  execute-completed :
      (c : Config) (run_id fresh_id : Text) (i : Inputs) (start end : ℕ) (r : Run) (st : State)
      → Dict.get c.id st.configs ≡ some c
      → Dict.get run_id st.runs ≡ some r
      → c.is_enabled ≡ true
      → c.consecutive_failures < c.max_consecutive_failures
      → i.fault ≡ no_fault
      → failure_count (collect c i r).1 ≡ 0
      → execute_scheduler_job valid_crontab c.id (some run_id) fresh_id i start end st ≡ record st {
        configs =
            Dict.set c.id
              (record c { consecutive_failures = 0; last_run_at = some start })
              st.configs;
        runs =
            Dict.set run_id
              (record ((collect c i r).0) { status = completed; completed_at = some end })
              st.runs;
      }
  unfolding execute_scheduler_job execute_run finish collect
  execute-completed c run_id fresh_id i start end r st found run enabled below fault quiet =
      let done = collect c i r in
      rw
        (
          found,
          execute_config-run valid_crontab c (some run_id) fresh_id i start end st enabled below,
          run_to_use-found run_id fresh_id c.id r st run,
          fault,
        )
        (finalize-completed valid_crontab run_id c start end done.0 done.1 st quiet (omega arith))

  -- A retry of a dead letter that is not abandoned, for a scheduler that is enabled and has no job, as
  -- the dead letter left it: the request succeeds, and its background task, when nothing fails,
  -- records the run as completed and the scheduler with no failures. The task leaves all jobs as they
  -- were, so that the scheduler has none still.
  pub retry-unscheduled :
      (c : Config) (id run_id fresh_id : Text) (i : Inputs) (now start end : ℕ) (l : Letter)
      (letters : Letters) (st : State)
      → Dict.get id letters ≡ some l
      → l.scheduler_config_id ≡ c.id
      → Dict.get c.id st.configs ≡ some c
      → is_abandoned l.status ≡ false
      → c.is_enabled ≡ true
      → 0 < c.max_consecutive_failures
      → Dict.get (job_id c.id) st.jobs ≡ none
      → i.fault ≡ no_fault
      → failure_count (collect (reset c) i (new_run scheduled c.id)).1 ≡ 0
      → (letters' : Letters) × (st' : State) × (retry_dead_letter_job c.organization_id id run_id
            now letters st
          ≡ ok (letters', st'))
        × (let after =
              execute_scheduler_job valid_crontab c.id (some run_id) fresh_id i start end st' in
            (r : Run) × (Dict.get run_id after.runs ≡ some r)
            × (r.status ≡ completed)
            × (Dict.get c.id after.configs
                ≡ some (record c { consecutive_failures = 0; last_run_at = some start }))
            × (after.jobs ≡ st.jobs)
            × (Dict.get (job_id c.id) after.jobs ≡ none))
  retry-unscheduled c id run_id fresh_id i now start end l letters st got own found live enabled
        limit no_job fault quiet =
      let new : Run = new_run scheduled c.id in
      let st' : State = record st {
        configs = Dict.set c.id (reset c) st.configs;
        runs = Dict.set run_id new st.runs;
      } in
      let r : Run = record ((collect (reset c) i new).0) {
        status = completed;
        completed_at = some end;
      } in
      (
        Dict.set id (retried_at now l) letters,
        st',
        retry-ok c id run_id now l letters st got (rw own found) live,
        rw
            (execute-completed (reset c) run_id fresh_id i start end new st'
              (get-set_self c.id (reset c) st.configs) (get-set_self run_id new st.runs) enabled
              limit fault quiet)
            (
              r,
              get-set_self run_id r st'.runs,
              refl,
              get-set_self c.id (record c { consecutive_failures = 0; last_run_at = some start })
                  st'.configs,
              refl,
              no_job,
            ),
      )

-- A dead letter that the organization of its scheduler abandons is abandoned for good: it is found as
-- such, and a retry is refused.
pub retry-abandon :
    (c : Config) (id run_id : Text) (now : ℕ) (l : Letter) (letters : Letters) (st : State)
    → Dict.get id letters ≡ some l
    → Dict.get l.scheduler_config_id st.configs ≡ some c
    → (letters' : Letters) × (abandon_dead_letter_job c.organization_id id letters st ≡ ok letters')
      × (get_dead_letter_job c.organization_id id letters' st
          ≡ ok (record l { status = abandoned }))
      × (retry_dead_letter_job c.organization_id id run_id now letters' st
          ≡ raise (bad_request (Prelude.text "Cannot retry an abandoned dead letter job")))
unfolding abandon_dead_letter_job retry_dead_letter_job
retry-abandon c id run_id now l letters st got found =
    let l' : Letter = record l { status = abandoned } in
    let letters' = Dict.set id l' letters in
    let kept = get_dead_letter_job-found c id l' letters' st (get-set_self id l' letters) found in
    (letters', rw (get_dead_letter_job-found c id l letters st got found) refl, kept, rw kept refl)
