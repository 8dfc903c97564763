-- ===== src/Scheduler/Letters.antt =====
-- The dead-letter operations of backend/app/scheduler/service.py: reading, retrying and abandoning. The
-- columns of a dead letter that they use are a table by identifier, beside what an execution writes.
mod Retrying
mod Tests
use costpilot.Prelude.{
  ℕ, Option, none, some, Error, Result, ok, raise, or_raise, raise_if, bad_request, not_found, List,
  Bool, true, false, if◌then◌else◌, ◌==◌, ◌>>=◌, ◌>>◌,
}
use costpilot.Prelude
use costpilot.Text.{Text}
use costpilot.Text.Laws.{text_instance}
use costpilot.Dict
use costpilot.Scheduler.{scheduled, Config, State}
use costpilot.Scheduler.Execution.{new_run}

pub data LetterStatus : Type 0 where
  pending retried abandoned : LetterStatus

pub record Letter : Type 0 where
  pub scheduler_config_id : Text
  pub status : LetterStatus
  pub last_retried_at : Option ℕ

abbrev pub Letters : Type 0
Letters = List (Text × Letter)

-- the identifier in the message is left out
abbrev pub missing_letter : Error
missing_letter = not_found (Prelude.text "Dead letter job not found")

-- the join with the letter's scheduler, and the organization's condition on it
unfoldable pub of_organization : Text → Letter → Option Config → Result Letter
of_organization org l none = raise missing_letter
of_organization org l (some c) = if c.organization_id == org then ok l else raise missing_letter

unfoldable pub get_dead_letter_job : Text → Text → Letters → State → Result Letter
unfolding of_organization
get_dead_letter_job org id letters st = do
  l ← or_raise (Dict.get id letters) missing_letter
  of_organization org l (Dict.get l.scheduler_config_id st.configs)

abbrev pub is_abandoned : LetterStatus → Bool
is_abandoned abandoned = true
is_abandoned _ = false

abbrev pub retried_at : ℕ → Letter → Letter
retried_at now l = record l { status = retried; last_retried_at = some now }

-- The counter of failures is reset and a run is made. The background task is a later
-- `execute_scheduler_job` of the scheduler with that run.
unfoldable pub retry_dead_letter_job :
    Text → Text → Text → ℕ → Letters → State → Result (Letters × State)
unfolding get_dead_letter_job
retry_dead_letter_job org id run_id now letters st = do
  l ← get_dead_letter_job org id letters st
  raise_if (is_abandoned l.status)
      (bad_request (Prelude.text "Cannot retry an abandoned dead letter job"))
  c ←
      or_raise (Dict.get l.scheduler_config_id st.configs)
        (not_found (Prelude.text "Associated scheduler config not found"))
  ok (
    Dict.set id (retried_at now l) letters,
    record st {
      configs = Dict.set c.id (record c { consecutive_failures = 0 }) st.configs;
      runs = Dict.set run_id (new_run scheduled c.id) st.runs;
    },
  )

unfoldable pub abandon_dead_letter_job : Text → Text → Letters → State → Result Letters
unfolding get_dead_letter_job
abandon_dead_letter_job org id letters st = do
  l ← get_dead_letter_job org id letters st
  ok (Dict.set id (record l { status = abandoned }) letters)
