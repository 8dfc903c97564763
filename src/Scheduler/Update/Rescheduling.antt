-- ===== src/Scheduler/Update/Rescheduling.antt =====
-- What an update of a scheduler leaves of its job.
use costpilot.Prelude.{
  ℕ, Bool, true, false, ◌&&◌, Option, none, some, ◌≡◌, refl, sym, leb, if◌then◌else◌, ◌==◌, arith,
  Result, ok, raise, bind-ok, ok-injective, ◌>>◌, ◌>>=◌, ◌∙◌, ap, ◌⊎◌, inl, inr, Bool-cases,
}
use costpilot.Text.{Text}
use costpilot.Text.Laws.{text_instance}
use costpilot.Dict
use costpilot.Dict.{IsDict}
use costpilot.Scheduler.{
  interval, Config, Jobs, State, Trigger, trigger_of, interval_of, add_job, job_id, has_ended,
  build_trigger, schedule_scheduler_job,
}
use costpilot.Scheduler.Schedule.{wanted, get-schedule, get-unschedule}
use costpilot.Scheduler.Runs.{get-set_self}
use costpilot.Scheduler.Service.{get_scheduler_config, in_organization, scheduling}
use costpilot.Scheduler.Update.{
  Field, unset, given, assign, assign_null, Update, apply, validate_types, validate_schedule,
  reschedules, value, is_given, update_row, update_jobs, update_stored, update_config,
  update_scheduler_config,
}

-- the request that gives null for the interval, and nothing else
abbrev pub cleared : Update
cleared = record {
  collect_expenses = unset;
  collect_resources = unset;
  collect_recommendations = unset;
  schedule_type = unset;
  interval_minutes = given none;
  cron_expression = unset;
  start_date = unset;
  end_date = unset;
  is_enabled = unset;
  max_consecutive_failures = unset;
}

-- What a column holds after a request: the value given for it, or what it held. For a column that
-- may be null, null too is a value.
abbrev pub after {ℓ} : {A : Type ℓ} → Field A → A → A
after (given (some v)) held = v
after _ held = held

abbrev pub after_null {ℓ} : {A : Type ℓ} → Field A → Option A → Option A
after_null unset held = held
after_null (given none) held = none
after_null (given (some v)) held = some v

abbrev pub written : Update → Config → Config
written u c = record {
  id = c.id;
  organization_id = c.organization_id;
  collect_expenses = after u.collect_expenses c.collect_expenses;
  collect_resources = after u.collect_resources c.collect_resources;
  collect_recommendations = after u.collect_recommendations c.collect_recommendations;
  schedule_type = after u.schedule_type c.schedule_type;
  interval_minutes = after_null u.interval_minutes c.interval_minutes;
  cron_expression = after_null u.cron_expression c.cron_expression;
  start_date = after_null u.start_date c.start_date;
  end_date = after_null u.end_date c.end_date;
  is_enabled = after u.is_enabled c.is_enabled;
  last_run_at = c.last_run_at;
  consecutive_failures = c.consecutive_failures;
  max_consecutive_failures = after u.max_consecutive_failures c.max_consecutive_failures;
}

-- The request leaves the whole schedule alone.
abbrev pub LeavesSchedule : Update → Type 0
LeavesSchedule u =
    (u.schedule_type ≡ unset)
    × (u.interval_minutes ≡ unset)
    × (u.cron_expression ≡ unset)
    × (u.start_date ≡ unset)
    × (u.end_date ≡ unset)
    × (u.is_enabled ≡ unset)

-- A schedule call that does not raise is kept with the row.
scheduling-job :
    (c : Config) (st : State) (p : Jobs × Bool)
    → (scheduling c st p).1 ≡ true
    → (Dict.get c.id (scheduling c st p).0.configs ≡ some c) × ((scheduling c st p).0.jobs ≡ p.0)
unfolding scheduling
scheduling-job c st (jobs, true) h = cc h
scheduling-job c st (jobs, false) h = (get-set_self c.id c st.configs, refl)

module _ (valid_crontab : Text → Bool) where
  -- the trigger of the job that a row asks for
  abbrev pub wanted_job : Config → ℕ → Option Trigger
  wanted_job c now =
      wanted c.is_enabled (leb c.max_consecutive_failures c.consecutive_failures)
        (has_ended c.end_date now) (build_trigger valid_crontab c now)

  update_jobs-job :
      (given_schedule : Bool) (c : Config) (now : ℕ) (st : State) (j : Text)
      → IsDict st.jobs
      → (update_jobs valid_crontab given_schedule c now st).1 ≡ true
      → let st' = (update_jobs valid_crontab given_schedule c now st).0 in
        (Dict.get c.id st'.configs ≡ some c)
        × (Dict.get j st'.jobs
            ≡ (if given_schedule && job_id c.id == j then wanted_job c now else Dict.get j st.jobs))
  unfolding update_jobs
  update_jobs-job false c now st j d h = (get-set_self c.id c st.configs, refl)
  update_jobs-job true c now st j d h = ground (
    arith,
    scheduling-job c st (schedule_scheduler_job valid_crontab c now st.jobs),
    get-schedule valid_crontab c now st.jobs j d,
    get-unschedule c.id j st.jobs d,
    get-set_self c.id c st.configs,
  )

  update_stored-job :
      (u : Update) (row : Result Config) (id : Text) (now : ℕ) (st : State) (j : Text)
      → ((c : Config) → row ≡ ok c → c.id ≡ id)
      → IsDict st.jobs
      → (update_stored valid_crontab u row now st).1 ≡ ok true
      → let st' = (update_stored valid_crontab u row now st).0 in
        (c : Config) × (row ≡ ok c)
        × (Dict.get id st'.configs ≡ some c)
        × (Dict.get j st'.jobs
            ≡ (if reschedules u && job_id id == j then wanted_job c now else Dict.get j st.jobs))
  unfolding update_stored
  update_stored-job u (raise e) id now st j same d h = cc h
  update_stored-job u (ok c) id now st j same d h =
      let (got, job) = update_jobs-job (reschedules u) c now st j d (ground arith) in
      rw (sym (same c refl)) (c, refl, got, job)

-- A chain that goes on after a column is assigned goes on with what the column then holds.
bind-assign {ℓ} :
    {A : Type ℓ} {c : Config} (x : Field A) (held : A) (next : A → Result Config)
    → (assign x held >>= next) ≡ ok c
    → next (after x held) ≡ ok c
bind-assign unset held next h = h
bind-assign (given none) held next h = cc
bind-assign (given (some v)) held next h = h

assign_null-after_null {ℓ} :
    {A : Type ℓ} (x : Field A) (held : Option A) → assign_null x held ≡ after_null x held
assign_null-after_null unset held = refl
assign_null-after_null (given none) held = refl
assign_null-after_null (given (some w)) held = refl

apply-written : (u : Update) (c c' : Config) → apply u c ≡ ok c' → c' ≡ written u c
unfolding apply
apply-written u c c' h =
    let h1 = bind-assign u.collect_expenses c.collect_expenses _ h in
    let h2 = bind-assign u.collect_resources c.collect_resources _ h1 in
    let h3 = bind-assign u.collect_recommendations c.collect_recommendations _ h2 in
    let h4 = bind-assign u.schedule_type c.schedule_type _ h3 in
    let h5 = bind-assign u.is_enabled c.is_enabled _ h4 in
    let h6 = bind-assign u.max_consecutive_failures c.max_consecutive_failures _ h5 in
    sym (ok-injective h6)
    ∙ rw
        (
          assign_null-after_null u.interval_minutes c.interval_minutes,
          assign_null-after_null u.cron_expression c.cron_expression,
          assign_null-after_null u.start_date c.start_date,
          assign_null-after_null u.end_date c.end_date,
        )
        refl

update_row-written : (u : Update) (c c' : Config) → update_row u c ≡ ok c' → c' ≡ written u c
unfolding update_row
update_row-written u c c' h =
    let (_, _, applied) =
      bind-ok _ (validate_types u c >> validate_schedule (value u.schedule_type) u c) h in
    apply-written u c c' applied

is_given-false {ℓ} : {A : Type ℓ} (x : Field A) → is_given x ≡ false → x ≡ unset
is_given-false unset h = refl
is_given-false (given v) h = cc h

reschedules-false : (u : Update) → reschedules u ≡ false → LeavesSchedule u
unfolding reschedules
reschedules-false u h = (
  is_given-false u.schedule_type (ground (arith, h)),
  is_given-false u.interval_minutes (ground (arith, h)),
  is_given-false u.cron_expression (ground (arith, h)),
  is_given-false u.start_date (ground (arith, h)),
  is_given-false u.end_date (ground (arith, h)),
  is_given-false u.is_enabled (ground (arith, h)),
)

reschedules-true : (u : Update) → reschedules u ≡ true → LeavesSchedule u → ⊥
unfolding reschedules
reschedules-true u h (t, i, l, s, e, b) =
    let given_none : reschedules u ≡ false = rw (t, i, l, s, e, b, reschedules) refl in cc

module _ (valid_crontab : Text → Bool) where
  -- Where no identifier has two jobs, an update of an organization's scheduler that succeeds leaves its
  -- row with every value that the request gives, and else as it was. If the request gives none of the
  -- type, the interval, the crontab line, the two dates and the switch, every job is as it was. If it
  -- gives one, APScheduler has the job that the row then asks for, or none where it asks for none,
  -- and every other job is as it was.
  pub update_scheduler_config-job :
      (u : Update) (c : Config) (now : ℕ) (st : State) (j : Text)
      → Dict.get c.id st.configs ≡ some c
      → IsDict st.jobs
      → (update_scheduler_config valid_crontab c.organization_id c.id u now st).1 ≡ ok true
      → let st' = (update_scheduler_config valid_crontab c.organization_id c.id u now st).0 in
        (Dict.get c.id st'.configs ≡ some (written u c))
        × ((LeavesSchedule u × (Dict.get j st'.jobs ≡ Dict.get j st.jobs))
            ⊎ ((LeavesSchedule u → ⊥)
                × (Dict.get j st'.jobs ≡ (
                    if job_id c.id == j
                    then wanted_job valid_crontab (written u c) now
                    else Dict.get j st.jobs))))
  unfolding update_scheduler_config update_config get_scheduler_config in_organization
  update_scheduler_config-job u c now st j found d =
      rw (found, (text_instance.same_iff c.organization_id c.organization_id).1 refl)
        (λ done.
          let (c', row, got, job) =
            update_stored-job valid_crontab u (update_row u c) c.id now st j
              (λ c' row. ap (λ (x : Config). x.id) (update_row-written u c c' row)) d done in
          let same : c' ≡ written u c = update_row-written u c c' row in
          (
            got ∙ ap some same,
            elim (Bool-cases (reschedules u)) [
              | inl yes_given ↦ inr (
                reschedules-true u yes_given,
                job
                    ∙ ap
                        (λ b.
                          if b && job_id c.id == j
                          then wanted_job valid_crontab c' now
                          else Dict.get j st.jobs)
                        yes_given
                    ∙ ap
                        (λ x.
                          if job_id c.id == j
                          then wanted_job valid_crontab x now
                          else Dict.get j st.jobs)
                        same,
              )
              | inr none_given ↦ inl (
                reschedules-false u none_given,
                job
                    ∙ ap
                        (λ b.
                          if b && job_id c.id == j
                          then wanted_job valid_crontab c' now
                          else Dict.get j st.jobs)
                        none_given,
              )
            ],
          ))

  update_row-cleared :
      (c : Config) → update_row cleared c ≡ ok (record c { interval_minutes = none })
  unfolding update_row validate_types validate_schedule apply
  update_row-cleared c = refl

  wanted_job-none :
      (c : Config) (now : ℕ)
      → c.schedule_type ≡ interval
      → c.interval_minutes ≡ none
      → wanted_job valid_crontab c now ≡ none
  unfolding build_trigger trigger_of interval_of
  wanted_job-none c now kind e = rw (kind, e) (ground arith)

  schedule-returns :
      (c : Config) (now : ℕ) (jobs : Jobs)
      → c.schedule_type ≡ interval
      → (schedule_scheduler_job valid_crontab c now jobs).1 ≡ false
  unfolding schedule_scheduler_job add_job build_trigger trigger_of
  schedule-returns c now jobs kind = rw kind (ground arith)

  scheduling-returns :
      (c : Config) (st : State) (p : Jobs × Bool) → p.1 ≡ false → (scheduling c st p).1 ≡ true
  unfolding scheduling
  scheduling-returns c st (jobs, true) h = cc h
  scheduling-returns c st (jobs, false) h = refl

  update_jobs-returns :
      (c : Config) (now : ℕ) (st : State)
      → c.schedule_type ≡ interval
      → (update_jobs valid_crontab true c now st).1 ≡ true
  unfolding update_jobs
  update_jobs-returns c now st kind = ground (
    arith,
    schedule-returns c now st.jobs kind,
    scheduling-returns c st (schedule_scheduler_job valid_crontab c now st.jobs),
  )

  -- Where no identifier has two jobs, a request that gives null for the interval of a scheduler of that
  -- type, and nothing else, succeeds and writes only that. APScheduler then has no job for it, and
  -- whenever the row is scheduled again, that gives it none.
  pub update_scheduler_config-cleared :
      (c : Config) (now later : ℕ) (st : State) (jobs : Jobs)
      → Dict.get c.id st.configs ≡ some c
      → IsDict st.jobs
      → IsDict jobs
      → c.schedule_type ≡ interval
      → let (st', result) =
          update_scheduler_config valid_crontab c.organization_id c.id cleared now st in
        let c' : Config = record c { interval_minutes = none } in
        (result ≡ ok true)
        × (Dict.get c.id st'.configs ≡ some c')
        × (Dict.get (job_id c.id) st'.jobs ≡ none)
        × (Dict.get (job_id c.id) (schedule_scheduler_job valid_crontab c' later jobs).0 ≡ none)
  unfolding update_scheduler_config update_config get_scheduler_config in_organization update_stored
      reschedules
  update_scheduler_config-cleared c now later st jobs found d d' kind =
      let c' : Config = record c { interval_minutes = none } in
      let done = update_jobs-returns c' now st kind in
      let (got, job) = update_jobs-job valid_crontab true c' now st (job_id c.id) d done in
      let none_wanted = λ (t : ℕ). wanted_job-none c' t kind refl in
      let same = (text_instance.same_iff (job_id c.id) (job_id c.id)).1 refl in
      rw
        (
          found,
          (text_instance.same_iff c.organization_id c.organization_id).1 refl,
          update_row-cleared c,
        )
        (
          rw done refl,
          got,
          ground (arith, job, same, none_wanted now),
          ground (
            arith,
            get-schedule valid_crontab c' later jobs (job_id c.id) d',
            same,
            none_wanted later,
          ),
        )
