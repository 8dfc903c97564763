-- ===== src/Retry/Tests.antt =====
-- Retries of an AWS call at concrete outcomes.
use costpilot.Prelude.{ℕ, suc, ◌≡◌, refl, true, some, none, [], ◌∷◌, arith}
use costpilot.Text.{codes}
use costpilot.Retry.{
  Exception, cloud_provider_exception, Attempt, returned, failed, Report, result, with_retry,
  should_retry, calculate_delay, backoff,
}
use costpilot.Retry.Loop.{IsReport, with_retry-IsReport}
use costpilot.Retry.Retryable.{aws_retry_config}

abbrev throttled : Exception
throttled = record {
  class = cloud_provider_exception true;
  status_code = none;
  response = none;
  message = codes "aws: slow down";
}

abbrev third_time : ℕ → Attempt ℕ
third_time (suc (suc (suc k))) = returned 7
third_time _ = failed throttled

succeeds :
    with_retry third_time aws_retry_config (λ k. 0)
    ≡ some (record { ending = result 7; attempts = 3; sleeps = 750 ∷ 1500 ∷ [] })
unfolding with_retry aws_retry_config should_retry calculate_delay backoff
succeeds = refl

with_retry-IsReport_example :
    (r : Report ℕ) × (with_retry third_time aws_retry_config (λ k. 0) ≡ some r)
    × IsReport aws_retry_config third_time 0 r
with_retry-IsReport_example =
    with_retry-IsReport third_time aws_retry_config (λ k. 0) (λ k. omega arith)
